-- ===== src/Tcp/Connection/Flow.antt =====
-- The messages of a connection between the reads of one socket and the writes of the other, and
-- what a write does to them.
use mathlib.Core.List.{append_assoc, map-append}
use tcp_udp_proxy.Prelude.{
  ◌≤◌, ℤ, ◌≡◌, refl, sym, ap, ◌∙◌, ◌⊎◌, inl, inr, Bool, true, false, not, ◌&&◌, Option, List, [],
  ◌∷◌, ◌++◌, map, length, PairId, p0, p1, other, Pair, get, Safe, bit, arith, if_elim,
}
use tcp_udp_proxy.Buffer.{Buffer}
use tcp_udp_proxy.IpProxy.{IpProxy}
use tcp_udp_proxy.Tcp.Connection.{
  Msg, View, Link, stop, set_idle, issue_write, try_write, resume_read, after_pop, pop_written,
  with_queue, async_read, queues_empty,
}
use tcp_udp_proxy.Tcp.Connection.Cases.{IpKnown, try_write_cases}

abbrev pub buffer_of : Msg → Buffer
buffer_of m = m.second

-- What is queued and not yet given to `async_write`: the front message stays in the queue while
-- it is written.
abbrev pub waiting : Bool → List Msg → List Buffer
waiting false q = map buffer_of q
waiting true [] = []
waiting true (m ∷ ms) = map buffer_of ms

abbrev pub LaneFlow : List Buffer → Bool → List Msg → List Buffer → Type 0
LaneFlow written writing queue h =
    (written ++ waiting writing queue ≡ h) × (bit writing ≤ length queue)

abbrev pub Flows : Pair (List Buffer) → Link → Type 0
Flows h l =
    (q : PairId)
    → LaneFlow (get q l.sockets.written) (get q l.conn.writing_flag_pair)
        (get q l.conn.msg_queue_pair) (get q h)

-- Nothing is said of a closed connection.
abbrev pub Flow : Pair (List Buffer) → Link → Type 0
Flow h l = (l.conn.close_flag ≡ true) ⊎ Flows h l

lane_issue :
    (w : List Buffer) (m : Msg) (ms : List Msg) (h : List Buffer)
    → LaneFlow w false (m ∷ ms) h
    → LaneFlow (w ++ m.second ∷ []) true (m ∷ ms) h
lane_issue w m ms h (e, _) = (append_assoc w (m.second ∷ []) (map buffer_of ms) ∙ e, omega arith)

push_eq :
    (w : List Buffer) (q : List Msg) (m : Msg) (h : List Buffer)
    → w ++ map buffer_of q ≡ h
    → w ++ map buffer_of (q ++ m ∷ []) ≡ h ++ m.second ∷ []
push_eq w q m h e =
    ap (λ t. w ++ t) (map-append buffer_of q (m ∷ []))
    ∙ sym (append_assoc w (map buffer_of q) (m.second ∷ []))
    ∙ ap (λ t. t ++ m.second ∷ []) e

pub lane_push :
    (w : List Buffer) (b : Bool) (q : List Msg) (m : Msg) (h : List Buffer)
    → LaneFlow w b q h
    → LaneFlow w b (q ++ m ∷ []) (h ++ m.second ∷ [])
lane_push w false q m h (e, n) = (push_eq w q m h e, omega arith)
lane_push w true [] m h (e, n) = absurd (omega arith)
lane_push w true (k ∷ ks) m h (e, n) = (push_eq w ks m h e, omega arith)

issue_write-Flows :
    (v : View) (p : PairId) (m : Msg) (ms : List Msg) (ip : Option IpProxy) (l : Link)
    (h : Pair (List Buffer))
    → get p l.conn.msg_queue_pair ≡ m ∷ ms
    → Flows h (set_idle p l)
    → Flows h (issue_write v p m.second (record l { client_ip = ip }))
unfolding set_idle issue_write
issue_write-Flows v p0 m ms ip l h e f p0 =
    rw e (lane_issue l.sockets.written.at0 m ms h.at0 (rw e at (f p0)))
issue_write-Flows v p0 m ms ip l h e f p1 = f p1
issue_write-Flows v p1 m ms ip l h e f p0 = f p0
issue_write-Flows v p1 m ms ip l h e f p1 =
    rw e (lane_issue l.sockets.written.at1 m ms h.at1 (rw e at (f p1)))

pub try_write-Flow :
    (v : View) (p : PairId) (l : Link) (h : Pair (List Buffer))
    → IpKnown v.ip_bandwidth l.client_ip
    → Flow h (set_idle p l)
    → Safe (Flow h) (try_write v p l)
unfolding set_idle issue_write
try_write-Flow v p l h k (inl c) =
    try_write_cases (Flow h) v p l (inl c) (λ m ms ip q _ _ _. inl c) k
try_write-Flow v p l h k (inr f) =
    try_write_cases (Flow h) v p l (inr f)
      (λ m ms ip q _ _ _. inr (issue_write-Flows v p m ms ip l h q f)) k

-- Only the reading flag and the count of reads change.
resume_read-Flow :
    (bw : Pair ℤ) (p q : PairId) (l : Link) (h : Pair (List Buffer))
    → Flow h (set_idle p l) × IpKnown bw l.client_ip
    → Flow h (set_idle p (resume_read q l)) × IpKnown bw (resume_read q l).client_ip
unfolding resume_read async_read set_idle
resume_read-Flow bw p q l h f =
    if_elim (λ m. Flow h (set_idle p m) × IpKnown bw m.client_ip)
      (not (get q l.conn.reading_flag_pair)) _ _ (λ e. f) (λ e. f)

pub stop-Flow : (h : Pair (List Buffer)) (l : Link) → Flow h (stop l)
unfolding stop
stop-Flow h l = inl refl

after_pop-Flow :
    (v : View) (p : PairId) (l : Link) (h : Pair (List Buffer))
    → IpKnown v.ip_bandwidth l.client_ip
    → Flow h (set_idle p l)
    → Safe (Flow h) (after_pop v p l)
unfolding after_pop
after_pop-Flow v p l h k f =
    let r = resume_read-Flow v.ip_bandwidth p (other p) l h (f, k) in
    if_elim (Safe (Flow h)) (not l.conn.full_open && queues_empty l.conn) _ _ (λ e. stop-Flow h l)
      (λ e. try_write-Flow v p (resume_read (other p) l) h r.1 r.0)

-- The popped message was written already.
pop_Flows :
    (p : PairId) (l : Link) (m : Msg) (ms : List Msg) (h : Pair (List Buffer))
    → get p l.conn.msg_queue_pair ≡ m ∷ ms
    → get p l.conn.writing_flag_pair ≡ true
    → Flows h l
    → Flows h (set_idle p (with_queue p ms l))
unfolding set_idle
pop_Flows p0 l m ms h e w f p0 = ((rw (e, w) at (f p0)).0, omega arith)
pop_Flows p0 l m ms h e w f p1 = f p1
pop_Flows p1 l m ms h e w f p0 = f p0
pop_Flows p1 l m ms h e w f p1 = ((rw (e, w) at (f p1)).0, omega arith)

pub pop_written-Flow :
    (v : View) (p : PairId) (l : Link) (q : List Msg) (h : Pair (List Buffer))
    → get p l.conn.msg_queue_pair ≡ q
    → get p l.conn.writing_flag_pair ≡ true
    → 1 ≤ length q
    → IpKnown v.ip_bandwidth l.client_ip
    → Flow h l
    → Safe (Flow h) (pop_written v p l q)
unfolding pop_written set_idle
pop_written-Flow v p l [] h e w n k f = absurd (omega arith)
pop_written-Flow v p l (m ∷ ms) h e w n k (inl c) =
    after_pop-Flow v p (with_queue p ms l) h k (inl c)
pop_written-Flow v p l (m ∷ ms) h e w n k (inr f) =
    after_pop-Flow v p (with_queue p ms l) h k (inr (pop_Flows p l m ms h e w f))

-- Writing nothing, a link looks as `set_idle` leaves it.
idle_Flows :
    (p : PairId) (l : Link) (h : Pair (List Buffer))
    → get p l.conn.writing_flag_pair ≡ false
    → Flows h l
    → Flows h (set_idle p l)
unfolding set_idle
idle_Flows p0 l h w f p0 = rw w at (f p0)
idle_Flows p0 l h w f p1 = f p1
idle_Flows p1 l h w f p0 = f p0
idle_Flows p1 l h w f p1 = rw w at (f p1)

pub idle_Flow :
    (p : PairId) (l : Link) (h : Pair (List Buffer))
    → get p l.conn.writing_flag_pair ≡ false
    → Flow h l
    → Flow h (set_idle p l)
unfolding set_idle
idle_Flow p l h w (inl c) = inl c
idle_Flow p l h w (inr f) = inr (idle_Flows p l h w f)
