-- ===== src/Tcp/Connection/Preserved.antt =====
-- src/tcp_proxy.cpp: the invariant of a connection under each handler and event.
use tcp_udp_proxy.Prelude.{
  ℕ, ◌+◌, ◌*◌, ◌≤◌, ℤ, pos, ◌≡◌, refl, sym, ap, subst, Bool, true, false, not, ◌&&◌, Option, none,
  some, List, [], ◌∷◌, ◌++◌, length, length-append, ltb, ltb_ℤ, PairId, p0, p1, other, Pair, get,
  Outcome, done, ◌>>=◌, Safe, Safe-bind, ErrorCode, success, operation_aborted, bit, bit-le, arith,
  if_elim, get-put_self,
}
use tcp_udp_proxy.Config.{max_tcp_msg_queue_size}
use tcp_udp_proxy.IpProxy.{IpProxy}
use tcp_udp_proxy.Tcp.Connection.{
  refill, write_if_idle, Msg, View, Link, new_connection, start, queues_empty, is_empty,
  handle_connect, async_read, enqueue, touch, read_done, read_failed, handle_read, handle_write,
  write_failed, flush_msgs, flush_side, pop_written, with_queue,
}
use tcp_udp_proxy.Tcp.Connection.Cases.{IpKnown}
use tcp_udp_proxy.Tcp.Connection.Steps.{
  Event, flushes, connects, reads, writes, shares, step, Enabled, Reach, started, next,
  connect_completed, read_completed, write_completed, share,
}
use tcp_udp_proxy.Tcp.Connection.Invariant.{
  Lanes, Inv, stop-Inv, try_write-Inv, after_pop-Inv, with_queue-Lanes,
}

-- Where a completed write or the timer may call `handleWrite`: nothing is being written, and if
-- the flag says that a message was, it is still in the queue.
pub record IsReady (p : PairId) (l : Link) : Type 0 where
  pub no_write : get p l.sockets.writes ≡ 0
  pub queued : get p l.conn.writing_flag_pair ≡ true → 1 ≤ length (get p l.conn.msg_queue_pair)

queue-bounds :
    (p : PairId) (l : Link)
    → Lanes l
    → (length (get p l.conn.msg_queue_pair) ≤ 2)
      × (2 * l.sockets.connects + length (get p l.conn.msg_queue_pair) ≤ 2)
queue-bounds p0 l i = omega arith
queue-bounds p1 l i = omega arith

pop_written-Inv :
    (v : View) (p : PairId) (l : Link) (q : List Msg)
    → get p l.conn.msg_queue_pair ≡ q
    → 1 ≤ length q
    → get p l.sockets.writes ≡ 0
    → Inv v.ip_bandwidth l
    → Safe (Inv v.ip_bandwidth) (pop_written v p l q)
unfolding pop_written
pop_written-Inv v p l [] e h w i = absurd (omega arith)
pop_written-Inv v p l (m ∷ ms) e h w (i, a, k) =
    after_pop-Inv v p (with_queue p ms l) w
      (omega (
        arith,
        queue-bounds p l i,
        ap length e,
        ap length (get-put_self p ms l.conn.msg_queue_pair),
      ))
      (omega (arith, queue-bounds p l i, ap length e))
      (with_queue-Lanes v p l ms w (omega (arith, ap length e)) i) k

write_failed-Inv :
    (v : View) (p : PairId) (l : Link)
    → Inv v.ip_bandwidth l
    → Safe (Inv v.ip_bandwidth) (write_failed v p l)
unfolding write_failed
write_failed-Inv v p l (i, a, k) =
    if_elim (Safe (Inv v.ip_bandwidth)) (get p v.has_remote) _ _
      (λ e. stop-Inv v.ip_bandwidth l i k) (λ e. tt)

handle_write-Inv :
    (v : View) (p : PairId) (ec : ErrorCode) (l : Link)
    → IsReady p l
    → Inv v.ip_bandwidth l
    → Safe (Inv v.ip_bandwidth) (handle_write v p ec l)
unfolding handle_write
handle_write-Inv v p success l r i =
    if_elim (Safe (Inv v.ip_bandwidth)) (get p l.conn.writing_flag_pair) _ _
      (λ e. pop_written-Inv v p l _ refl (r.queued e) r.no_write i)
      (λ e. try_write-Inv v p l r.no_write i)
handle_write-Inv v p operation_aborted l r i = i
handle_write-Inv v p _ l r i = write_failed-Inv v p l i

-- What the allowance is does not matter to the invariant.
pub refill_cases :
    (P : Link → Type 0) (v : View) (flush_bytes : ℤ) (p : PairId) (l : Link)
    → P l
    → ((bytes : Pair ℤ) → P (record l { conn = record l.conn { available_bytes_pair = bytes } }))
    → P (refill v flush_bytes p l)
unfolding refill
refill_cases P v fb p l h k =
    if_elim P (ltb_ℤ (pos 0) v.max_bandwidth && ltb_ℤ (get p l.conn.available_bytes_pair) (pos 0)) _
      _ (λ e. k _) (λ e. h)

pub idle-IsReady :
    (p : PairId) (l : Link) → not (get p l.conn.writing_flag_pair) ≡ true → Lanes l → IsReady p l
idle-IsReady p0 l e i = ground arith
idle-IsReady p1 l e i = ground arith

write_if_idle-Inv :
    (v : View) (p : PairId) (l : Link)
    → Inv v.ip_bandwidth l
    → Safe (Inv v.ip_bandwidth) (write_if_idle v p l)
unfolding write_if_idle
write_if_idle-Inv v p l i =
    if_elim (Safe (Inv v.ip_bandwidth)) (not (get p l.conn.writing_flag_pair)) _ _
      (λ e. handle_write-Inv v p success l (idle-IsReady p l e i.0) i) (λ e. i)

pub refill-Inv :
    (v : View) (flush_bytes : ℤ) (p : PairId) (l : Link)
    → Inv v.ip_bandwidth l
    → Inv v.ip_bandwidth (refill v flush_bytes p l)
refill-Inv v fb p l (i, a, k) =
    refill_cases (Inv v.ip_bandwidth) v fb p l (i, a, k) (λ bytes. (omega arith, a, k))

pub flush_side-Inv :
    (v : View) (flush_bytes : ℤ) (p : PairId) (l : Link)
    → Inv v.ip_bandwidth l
    → Safe (Inv v.ip_bandwidth) (flush_side v flush_bytes p l)
unfolding flush_side
flush_side-Inv v fb p l i = write_if_idle-Inv v p (refill v fb p l) (refill-Inv v fb p l i)

-- A flush keeps the invariant too, whether it drops the connection or not.
pub flush_msgs-Inv :
    (v : View) (flush_bytes expire_time : ℤ) (l : Link)
    → Inv v.ip_bandwidth l
    → Safe (λ r. Inv v.ip_bandwidth r.1) (flush_msgs v flush_bytes expire_time l)
unfolding flush_msgs
flush_msgs-Inv v fb exp l i =
    if_elim Kept l.conn.close_flag _ _ (λ e. i)
      λ _.
        if_elim Kept (ltb_ℤ l.conn.active_time exp) _ _ (λ e. stop-Inv v.ip_bandwidth l i.0 i.2)
          λ _.
            if_elim Kept (not l.conn.full_open && queues_empty l.conn) _ _ (λ e. i) λ _. both_sides
  where
    Kept : Outcome (Bool × Link) → Type 0
    Kept = Safe (λ r. Inv v.ip_bandwidth r.1)

    both_sides :
        Kept (flush_side v fb p0 l >>= λ l0. flush_side v fb p1 l0 >>= λ l1. done (true, l1))
    both_sides =
        Safe-bind (Inv v.ip_bandwidth) _ _ _ (flush_side-Inv v fb p0 l i)
          λ l0 i0. Safe-bind (Inv v.ip_bandwidth) _ _ _ (flush_side-Inv v fb p1 l0 i0) λ l1 i1. i1

-- Both readers start, each with an empty queue before it.
handle_connect-Inv :
    (bw : Pair ℤ) (v : View) (ec : ErrorCode) (l : Link)
    → 1 ≤ l.sockets.connects
    → (ec ≡ operation_aborted → get p1 l.sockets.is_open ≡ false)
    → Inv bw l
    → Inv bw (handle_connect v ec (connect_completed l))
unfolding handle_connect async_read
handle_connect-Inv bw v success l c ab (i, a, k) = (omega arith, omega arith, k)
handle_connect-Inv bw v operation_aborted l c ab (i, a, k) =
    (omega arith, omega (arith, ap bit (ab refl)), k)
handle_connect-Inv bw v _ l c ab (i, a, k) = stop-Inv bw (connect_completed l) (omega arith) k

pub nonempty_length : (q : List Msg) → not (is_empty q) ≡ true → 1 ≤ length q
nonempty_length [] e = cc
nonempty_length (m ∷ ms) e = omega arith

read_failed-Inv :
    (bw : Pair ℤ) (p : PairId) (l : Link)
    → l.sockets.connects ≡ 0
    → Inv bw l
    → Inv bw (read_failed p l)
unfolding read_failed
read_failed-Inv bw p0 l c (i, a, k) =
    if_elim (Inv bw) (not (is_empty l.conn.msg_queue_pair.at1)) _ _
      (λ e. (omega arith, omega (arith, nonempty_length _ e), k)) (λ e. stop-Inv bw l i k)
read_failed-Inv bw p1 l c (i, a, k) =
    if_elim (Inv bw) (not (is_empty l.conn.msg_queue_pair.at0)) _ _
      (λ e. (omega arith, omega (arith, nonempty_length _ e), k)) (λ e. stop-Inv bw l i k)

-- Where a completed read may call `handleRead`.
pub record IsReading (p : PairId) (l : Link) : Type 0 where
  pub no_read : get p l.sockets.reads ≡ 0
  pub no_connect : l.sockets.connects ≡ 0
  pub flag : bit (get p l.conn.reading_flag_pair) ≡ 1
  pub room : length (get (other p) l.conn.msg_queue_pair) ≤ 1

pause : (n : ℕ) → ltb max_tcp_msg_queue_size n ≡ false → n ≤ 1
pause n e = ground arith

enqueue-Inv :
    (bw : Pair ℤ) (p : PairId) (m : Msg) (l : Link)
    → IsReading p l
    → Inv bw l
    → Inv bw (enqueue p m l)
unfolding enqueue async_read
enqueue-Inv bw p0 m l r (i, a, k) =
    let more = length-append l.conn.msg_queue_pair.at1 (m ∷ []) in
    if_elim (Inv bw) (ltb max_tcp_msg_queue_size (length (l.conn.msg_queue_pair.at1 ++ m ∷ []))) _ _
      (λ e. (omega arith, omega arith, k)) (λ e. (omega (arith, pause _ e), omega arith, k))
enqueue-Inv bw p1 m l r (i, a, k) =
    let more = length-append l.conn.msg_queue_pair.at0 (m ∷ []) in
    if_elim (Inv bw) (ltb max_tcp_msg_queue_size (length (l.conn.msg_queue_pair.at0 ++ m ∷ []))) _ _
      (λ e. (omega arith, omega arith, k)) (λ e. (omega (arith, pause _ e), omega arith, k))

read_done-Inv :
    (bw : Pair ℤ) (v : View) (p : PairId) (n : ℕ) (l : Link)
    → IsReading p l
    → Inv bw l
    → Inv bw (read_done v p n l)
unfolding read_done touch
read_done-Inv bw v p n l r (i, a, k) =
    let t =
      if_elim (λ m. IsReading p m × Inv bw m) l.conn.full_open
        (record l { conn = record l.conn { active_time = v.now } }) l
        (λ e. (omega arith, (omega arith, a, k))) (λ e. (r, (i, a, k))) in
    enqueue-Inv bw p _ (touch v l) t.0 t.1

handle_read-Inv :
    (bw : Pair ℤ) (v : View) (p : PairId) (ec : ErrorCode) (n : ℕ) (l : Link)
    → IsReading p l
    → Inv bw l
    → Inv bw (handle_read v p ec n l)
unfolding handle_read
handle_read-Inv bw v p success n l r i = read_done-Inv bw v p n l r i
handle_read-Inv bw v p operation_aborted n l r i = i
handle_read-Inv bw v p _ n l r i = read_failed-Inv bw p l r.no_connect i

pub read_completed-IsReading :
    (bw : Pair ℤ) (p : PairId) (arr : List ℕ) (l : Link)
    → 1 ≤ get p l.sockets.reads
    → Inv bw l
    → IsReading p (read_completed p arr l) × Inv bw (read_completed p arr l)
read_completed-IsReading bw p0 arr l h (i, a, k) = (omega (arith, bit-le), (omega arith, a, k))
read_completed-IsReading bw p1 arr l h (i, a, k) = (omega (arith, bit-le), (omega arith, a, k))

pub write_completed-IsReady :
    (bw : Pair ℤ) (p : PairId) (l : Link)
    → 1 ≤ get p l.sockets.writes
    → Inv bw l
    → IsReady p (write_completed p l) × Inv bw (write_completed p l)
write_completed-IsReady bw p0 l h (i, a, k) =
    (record { no_write = omega (arith, bit-le); queued = λ _. omega arith }, (omega arith, a, k))
write_completed-IsReady bw p1 l h (i, a, k) =
    (record { no_write = omega (arith, bit-le); queued = λ _. omega arith }, (omega arith, a, k))

share-IpKnown :
    (bw : Pair ℤ) (ip : IpProxy) (o : Option IpProxy) → IpKnown bw o → IpKnown bw (share ip o)
share-IpKnown bw ip none k = k
share-IpKnown bw ip (some old) k = k

-- Each enabled event runs without a failed assertion or a null dereference, and keeps the invariant.
pub step-Inv :
    (bw : Pair ℤ) (e : Event) (l : Link) → Enabled bw e l → Inv bw l → Safe (Inv bw) (step e l)
unfolding step
step-Inv bw (flushes v fb exp) l h i =
    subst (λ b. Safe (Inv b) (step (flushes v fb exp) l)) h
      (Safe-bind (λ r. Inv v.ip_bandwidth r.1) _ _ _
        (flush_msgs-Inv v fb exp l (subst (λ b. Inv b l) (sym h) i)) (λ r j. j))
step-Inv bw (connects v ec) l (c, ab) i = handle_connect-Inv bw v ec l c ab i
step-Inv bw (reads v p ec n arr) l h i =
    let (r, j) = read_completed-IsReading bw p arr l h.0 i in
    handle_read-Inv bw v p ec n (read_completed p arr l) r j
step-Inv bw (writes v p ec) l h i =
    let (r, j) = write_completed-IsReady bw p l h.1 i in
    subst (λ b. Safe (Inv b) (step (writes v p ec) l)) h.0
      (handle_write-Inv v p ec (write_completed p l) r
        (subst (λ b. Inv b (write_completed p l)) (sym h.0) j))
step-Inv bw (shares ip) l h (i, a, k) = (omega arith, a, share-IpKnown bw ip l.client_ip k)

pub Reach-Inv : {bw : Pair ℤ} {es : List Event} {l : Link} → Reach bw es l → Inv bw l
unfolding start new_connection
Reach-Inv (started now ip k) = (omega arith, omega arith, k)
Reach-Inv {bw} (next {l} e r h q) = subst (Safe (Inv bw)) q (step-Inv bw e l h (Reach-Inv r))
