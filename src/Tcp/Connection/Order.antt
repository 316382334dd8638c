-- ===== src/Tcp/Connection/Order.antt =====
-- src/tcp_proxy.cpp: what the reads of one socket bring in against what the other is given.
use tcp_udp_proxy.Prelude.{
  ℕ, ℤ, pos, to_int, ltb, ltb_ℤ, ◌≡◌, refl, sym, subst, inl, inr, Bool, false, not, ◌&&◌, Option,
  some, List, [], ◌∷◌, ◌++◌, PairId, p0, p1, other, Pair, get, put, Outcome, Safe, Safe-bind,
  Safe-both, ErrorCode, success, operation_aborted, arith, if_elim, both, get-put_self,
}
use tcp_udp_proxy.Buffer.{Buffer, array_buffer}
use tcp_udp_proxy.IpProxy.{IpProxy}
use tcp_udp_proxy.Tcp.Connection.{
  Msg, View, Link, new_connection, start, with_queue, write_failed, handle_write, refill,
  write_if_idle, flush_side, flush_msgs, handle_connect, async_read, read_failed, touch, received,
  enqueue, read_done, handle_read, queues_empty, is_empty,
}
use tcp_udp_proxy.Tcp.Connection.Invariant.{Inv}
use tcp_udp_proxy.Tcp.Connection.Flow.{
  waiting, Flows, Flow, lane_push, try_write-Flow, stop-Flow, pop_written-Flow, idle_Flow,
}
use tcp_udp_proxy.Tcp.Connection.Cases.{IpKnown, touch_keeps}
use tcp_udp_proxy.Tcp.Connection.Steps.{
  Event, flushes, connects, reads, writes, shares, step, Enabled, Reach, started, next,
  read_completed, write_completed,
}
use tcp_udp_proxy.Tcp.Connection.Preserved.{
  Reach-Inv, refill_cases, refill-Inv, flush_side-Inv, IsReady, idle-IsReady,
  write_completed-IsReady,
}

write_failed-Flow :
    (v : View) (p : PairId) (l : Link) (h : Pair (List Buffer)) → Safe (Flow h) (write_failed v p l)
unfolding write_failed
write_failed-Flow v p l h =
    if_elim (Safe (Flow h)) (get p v.has_remote) _ _ (λ e. stop-Flow h l) (λ e. tt)

handle_write-Flow :
    (v : View) (p : PairId) (ec : ErrorCode) (l : Link) (h : Pair (List Buffer))
    → IsReady p l
    → IpKnown v.ip_bandwidth l.client_ip
    → Flow h l
    → Safe (Flow h) (handle_write v p ec l)
unfolding handle_write
handle_write-Flow v p success l h r k f =
    if_elim (Safe (Flow h)) (get p l.conn.writing_flag_pair) _ _
      (λ e. pop_written-Flow v p l _ h refl e (r.queued e) k f)
      (λ e. try_write-Flow v p l h k (idle_Flow p l h e f))
handle_write-Flow v p operation_aborted l h r k f = f
handle_write-Flow v p _ l h r k f = write_failed-Flow v p l h

flush_side-Flow :
    (v : View) (flush_bytes : ℤ) (p : PairId) (l : Link) (h : Pair (List Buffer))
    → Inv v.ip_bandwidth l
    → Flow h l
    → Safe (λ m. Inv v.ip_bandwidth m × Flow h m) (flush_side v flush_bytes p l)
unfolding flush_side write_if_idle
flush_side-Flow v fb p l h i f =
    Safe-both (Inv v.ip_bandwidth) (Flow h) _ (flush_side-Inv v fb p l i) (
      if_elim (Safe (Flow h)) (not (get p r.conn.writing_flag_pair)) _ _
        (λ e. handle_write-Flow v p success r h (idle-IsReady p r e j.0) j.2 g) (λ e. g))
  where
    r : Link
    r = refill v fb p l

    g : Flow h r
    g = refill_cases (Flow h) v fb p l f (λ bytes. f)

    j : Inv v.ip_bandwidth r
    j = refill-Inv v fb p l i

flush_msgs-Flow :
    (v : View) (flush_bytes expire_time : ℤ) (l : Link) (h : Pair (List Buffer))
    → Inv v.ip_bandwidth l
    → Flow h l
    → Safe (λ r. Flow h r.1) (flush_msgs v flush_bytes expire_time l)
unfolding flush_msgs
flush_msgs-Flow v fb exp l h i f =
    if_elim Kept l.conn.close_flag _ _ (λ e. f)
      λ _.
        if_elim Kept (ltb_ℤ l.conn.active_time exp) _ _ (λ e. stop-Flow h l)
          λ _.
            if_elim Kept (not l.conn.full_open && queues_empty l.conn) _ _ (λ e. f)
              λ _.
                Safe-bind Both _ _ _ (flush_side-Flow v fb p0 l h i f)
                  λ l0 b. Safe-bind Both _ _ _ (flush_side-Flow v fb p1 l0 h b.0 b.1) λ l1 c. c.1
  where
    Kept : Outcome (Bool × Link) → Type 0
    Kept = Safe (λ r. Flow h r.1)

    Both : Link → Type 0
    Both m = Inv v.ip_bandwidth m × Flow h m

handle_connect-Flow :
    (v : View) (ec : ErrorCode) (l : Link) (h : Pair (List Buffer))
    → Flow h l
    → Flow h (handle_connect v ec l)
unfolding handle_connect async_read
handle_connect-Flow v success l h f = f
handle_connect-Flow v operation_aborted l h f = f
handle_connect-Flow v _ l h f = stop-Flow h l

read_failed-Flow :
    (p : PairId) (l : Link) (h : Pair (List Buffer)) → Flow h l → Flow h (read_failed p l)
unfolding read_failed
read_failed-Flow p l h f =
    if_elim (Flow h) (not (is_empty (get (other p) l.conn.msg_queue_pair))) _ _ (λ e. f)
      (λ e. stop-Flow h l)

-- The messages so far, and one more for the socket q.
abbrev pub arrive : PairId → Buffer → Pair (List Buffer) → Pair (List Buffer)
arrive q b h = put q (get q h ++ b ∷ []) h

push_Flows :
    (p : PairId) (m : Msg) (l : Link) (h : Pair (List Buffer))
    → Flows h l
    → Flows
        (arrive (other p) m.second h)
        (with_queue (other p) (get (other p) l.conn.msg_queue_pair ++ m ∷ []) l)
push_Flows p0 m l h f p0 = f p0
push_Flows p0 m l h f p1 =
    lane_push l.sockets.written.at1 l.conn.writing_flag_pair.at1 l.conn.msg_queue_pair.at1 m h.at1
      (f p1)
push_Flows p1 m l h f p0 =
    lane_push l.sockets.written.at0 l.conn.writing_flag_pair.at0 l.conn.msg_queue_pair.at0 m h.at0
      (f p0)
push_Flows p1 m l h f p1 = f p1

enqueue-Flow :
    (p : PairId) (m : Msg) (l : Link) (h : Pair (List Buffer))
    → Flow h l
    → Flow (arrive (other p) m.second h) (enqueue p m l)
unfolding enqueue async_read
enqueue-Flow p m l h (inl c) = if_elim (Flow _) (ltb _ _) _ _ (λ e. inl c) (λ e. inl c)
enqueue-Flow p m l h (inr f) =
    if_elim (Flow _) (ltb _ _) _ _ (λ e. inr (push_Flows p m l h f))
      (λ e. inr (push_Flows p m l h f))

read_done-Flow :
    (v : View) (p : PairId) (n : ℕ) (l : Link) (h : Pair (List Buffer))
    → Flow h l
    → Flow
        (arrive (other p) (array_buffer (get p l.conn.recv_buf_pair) (to_int (pos n))) h)
        (read_done v p n l)
unfolding read_done received
read_done-Flow v p n l h f =
    subst (λ arr. Flow (arrive (other p) (array_buffer arr (to_int (pos n))) h) (read_done v p n l))
      (touch_keeps v l (λ m. get p m.conn.recv_buf_pair ≡ get p l.conn.recv_buf_pair) refl
        (λ t. refl))
      (enqueue-Flow p _ (touch v l) h (touch_keeps v l (Flow h) f (λ t. f)))

-- What an event brings in: the bytes of a completed read, for the other socket.
abbrev pub arrived : Event → Pair (List Buffer) → Pair (List Buffer)
arrived (reads v p success n arr) h = arrive (other p) (array_buffer (some arr) (to_int (pos n))) h
arrived _ h = h

-- All that the reads of a history brought in, in order, for each socket.
abbrev pub arrivals : List Event → Pair (List Buffer)
arrivals [] = both []
arrivals (e ∷ es) = arrived e (arrivals es)

step-Flow :
    (bw : Pair ℤ) (e : Event) (l : Link) (h : Pair (List Buffer))
    → Enabled bw e l
    → Inv bw l
    → Flow h l
    → Safe (Flow (arrived e h)) (step e l)
unfolding step handle_read
step-Flow bw (flushes v fb exp) l h en i f =
    Safe-bind (λ r. Flow h r.1) _ _ _
      (flush_msgs-Flow v fb exp l h (subst (λ b. Inv b l) (sym en) i) f) (λ r g. g)
step-Flow bw (connects v ec) l h en i f = handle_connect-Flow v ec _ h f
step-Flow bw (reads v p success n arr) l h en i f =
    subst
      (λ o.
        Flow (arrive (other p) (array_buffer o (to_int (pos n))) h)
          (read_done v p n (read_completed p arr l)))
      (get-put_self p (some arr) l.conn.recv_buf_pair)
      (read_done-Flow v p n (read_completed p arr l) h f)
step-Flow bw (reads v p operation_aborted n arr) l h en i f = f
step-Flow bw (reads v p _ n arr) l h en i f = read_failed-Flow p _ h f
step-Flow bw (writes v p ec) l h en i f =
    let (r, j) = write_completed-IsReady bw p l en.1 i in
    handle_write-Flow v p ec (write_completed p l) h r
      (subst (λ b. IpKnown b l.client_ip) (sym en.0) j.2) f
step-Flow bw (shares ip) l h en i f = f

start-Flows : (now : ℤ) (ip : Option IpProxy) → Flows (both []) (start (new_connection now ip))
unfolding start new_connection
start-Flows now ip p0 = (refl, omega arith)
start-Flows now ip p1 = (refl, omega arith)

Reach-Flow : {bw : Pair ℤ} {es : List Event} {l : Link} → Reach bw es l → Flow (arrivals es) l
Reach-Flow (started now ip k) = inr (start-Flows now ip)
Reach-Flow {bw} (next {es} {l} e r en q) =
    subst (Safe (Flow (arrived e (arrivals es)))) q
      (step-Flow bw e l (arrivals es) en (Reach-Inv r) (Reach-Flow r))

-- In every reachable state that is not closed, for each socket: the buffers given to its
-- `async_write` so far, followed by those that still wait in its queue, are the buffers that the
-- reads of the other socket brought in, in the same order.
pub forwards_in_order :
    {bw : Pair ℤ} {es : List Event} {l : Link}
    → Reach bw es l
    → l.conn.close_flag ≡ false
    → (q : PairId)
    → get q l.sockets.written
        ++ waiting (get q l.conn.writing_flag_pair) (get q l.conn.msg_queue_pair)
      ≡ get q (arrivals es)
forwards_in_order r closed q = elim (Reach-Flow r) [ inl c ↦ cc | inr f ↦ (f q).0 ]
