-- ===== src/Tcp/Connection/Limit.antt =====
-- The bandwidth limit over a whole history of events.
use tcp_udp_proxy.Prelude.{
  ℕ, ◌+◌, ◌≤◌, ℤ, pos, pos_part, negsuc, to_int, ◌≤ℤ◌, ◌<ℤ◌, int_max, ltb, ltb_ℤ, ◌≡◌, sym, subst,
  Bool, true, not, ◌&&◌, Option, List, [], ◌∷◌, ◌++◌, PairId, p0, p1, other, Pair, get, Outcome,
  Safe, Safe-bind, Safe-both, ErrorCode, success, operation_aborted, arith, if_elim, both,
}
use tcp_udp_proxy.Buffer.{Buffer, array_buffer}
use tcp_udp_proxy.IpProxy.{IpProxy}
use tcp_udp_proxy.Config.{tcp_buffer_size}
use tcp_udp_proxy.Tcp.Connection.{
  Msg, View, Link, new_connection, start, stop, with_queue, refill, write_if_idle, flush_side,
  flush_msgs, handle_connect, async_read, read_failed, touch, received, enqueue, read_done,
  handle_read, queues_empty, is_empty,
}
use tcp_udp_proxy.Tcp.Connection.Invariant.{Inv}
use tcp_udp_proxy.Tcp.Connection.Steps.{
  Event, flushes, connects, reads, writes, shares, step, Enabled, Reach, started, next,
  read_completed, write_completed,
}
use tcp_udp_proxy.Tcp.Connection.Rate.{
  IsSize, Small, spent, Metered, Budget, grant, grant-Budget, refill-Budget, handle_write-Budget,
}
use tcp_udp_proxy.Tcp.Connection.Cases.{IpKnown, touch_keeps}
use tcp_udp_proxy.Tcp.Connection.Preserved.{
  Reach-Inv, refill-Inv, flush_side-Inv, idle-IsReady, write_completed-IsReady,
}

module _ (v : View) (on : ltb_ℤ (pos 0) v.max_bandwidth ≡ true) (c : ℕ)
    (small : c ≤ 2147483647) where
  flush_side-Budget :
      (p : PairId) (l : Link) (g : Pair ℕ)
      → Inv v.ip_bandwidth l
      → Budget g l
      → Safe (λ m. Inv v.ip_bandwidth m × Budget (grant p c g) m) (flush_side v (pos c) p l)
  unfolding flush_side write_if_idle
  flush_side-Budget p l g i b =
      Safe-both (Inv v.ip_bandwidth) (Budget (grant p c g)) _ (flush_side-Inv v (pos c) p l i) (
        if_elim (Safe (Budget (grant p c g))) (not (get p r.conn.writing_flag_pair)) _ _
          (λ e. handle_write-Budget v on (grant p c g) p success r (idle-IsReady p r e j.0) j.2 b')
          (λ e. b'))
    where
      r : Link
      r = refill v (pos c) p l

      b' : Budget (grant p c g) r
      b' = refill-Budget v p c l g small b

      j : Inv v.ip_bandwidth r
      j = refill-Inv v (pos c) p l i

  flush_msgs-Budget :
      (expire_time : ℤ) (l : Link) (g : Pair ℕ)
      → Inv v.ip_bandwidth l
      → Budget g l
      → Safe (λ r. Budget (grant p1 c (grant p0 c g)) r.1) (flush_msgs v (pos c) expire_time l)
  unfolding flush_msgs stop
  flush_msgs-Budget exp l g i b =
      if_elim Kept l.conn.close_flag _ _ (λ e. more)
        λ _.
          if_elim Kept (ltb_ℤ l.conn.active_time exp) _ _ (λ e. more)
            λ _.
              if_elim Kept (not l.conn.full_open && queues_empty l.conn) _ _ (λ e. more)
                λ _. Safe-bind (Both (grant p0 c g)) _ _ _ (flush_side-Budget p0 l g i b) λ l0 b0.
                  Safe-bind (Both (grant p1 c (grant p0 c g))) _ _ _
                    (flush_side-Budget p1 l0 (grant p0 c g) b0.0 b0.1) λ l1 b1. b1.1
    where
      Kept : Outcome (Bool × Link) → Type 0
      Kept = Safe (λ r. Budget (grant p1 c (grant p0 c g)) r.1)

      Both : Pair ℕ → Link → Type 0
      Both h m = Inv v.ip_bandwidth m × Budget h m

      more : Budget (grant p1 c (grant p0 c g)) l
      more = grant-Budget p1 c l (grant p0 c g) (grant-Budget p0 c l g b)

handle_connect-Budget :
    (v : View) (ec : ErrorCode) (l : Link) (g : Pair ℕ)
    → Budget g l
    → Budget g (handle_connect v ec l)
unfolding handle_connect async_read stop
handle_connect-Budget v success l g b = b
handle_connect-Budget v operation_aborted l g b = b
handle_connect-Budget v _ l g b = b

Small-append : (q : List Msg) (m : Msg) → Small q → IsSize m.second → Small (q ++ m ∷ [])
Small-append [] m s z = (z, tt)
Small-append (k ∷ ks) m s z = (s.0, Small-append ks m s.1 z)

push_Budget :
    (p : PairId) (m : Msg) (l : Link) (g : Pair ℕ)
    → IsSize m.second
    → Budget g l
    → Budget g (with_queue (other p) (get (other p) l.conn.msg_queue_pair ++ m ∷ []) l)
push_Budget p0 m l g z b p0 = b p0
push_Budget p0 m l g z b p1 = let (x, n, hi, s) = b p1 in (x, n, hi, Small-append _ m s z)
push_Budget p1 m l g z b p0 = let (x, n, hi, s) = b p0 in (x, n, hi, Small-append _ m s z)
push_Budget p1 m l g z b p1 = b p1

read-IsSize :
    (arr : Option (List ℕ)) (n : ℕ)
    → n ≤ tcp_buffer_size
    → IsSize (array_buffer arr (to_int (pos n)))
unfolding array_buffer to_int
read-IsSize arr n h = ground arith

read_done-Budget :
    (v : View) (p : PairId) (n : ℕ) (l : Link) (g : Pair ℕ)
    → n ≤ tcp_buffer_size
    → Budget g l
    → Budget g (read_done v p n l)
unfolding read_done received enqueue async_read
read_done-Budget v p n l g z b = if_elim (Budget g) (ltb _ _) _ _ (λ e. pushed) (λ e. pushed)
  where
    pushed : Budget g (
        with_queue
          (other p)
          (get (other p) (touch v l).conn.msg_queue_pair ++ received v p n (touch v l) ∷ [])
          (touch v l))
    pushed =
        push_Budget p _ (touch v l) g (read-IsSize _ n z) (touch_keeps v l (Budget g) b (λ t. b))

handle_read-Budget :
    (v : View) (p : PairId) (ec : ErrorCode) (n : ℕ) (l : Link) (g : Pair ℕ)
    → n ≤ tcp_buffer_size
    → Budget g l
    → Budget g (handle_read v p ec n l)
unfolding handle_read read_failed stop
handle_read-Budget v p success n l g z b = read_done-Budget v p n l g z b
handle_read-Budget v p operation_aborted n l g z b = b
handle_read-Budget v p _ n l g z b =
    if_elim (Budget g) (not (is_empty (get (other p) l.conn.msg_queue_pair))) _ _ (λ e. b) (λ e. b)

-- The rule limits the bandwidth, and what the timer grants is an `int` that is not negative.
abbrev pub IsMetered : Event → Type 0
IsMetered (flushes v fb exp) = (pos 0 <ℤ v.max_bandwidth) × (pos 0 ≤ℤ fb) × (fb ≤ℤ int_max)
IsMetered (writes v p ec) = pos 0 <ℤ v.max_bandwidth
IsMetered _ = Unit {0}

abbrev pub AllMetered : List Event → Type 0
AllMetered [] = Unit {0}
AllMetered (e ∷ es) = IsMetered e × AllMetered es

-- The bytes that the flushes of a history grant to each direction.
abbrev pub granted : Event → Pair ℕ → Pair ℕ
granted (flushes v fb exp) g = grant p1 (pos_part fb) (grant p0 (pos_part fb) g)
granted _ g = g

abbrev pub all_granted : List Event → Pair ℕ
all_granted [] = both 0
all_granted (e ∷ es) = granted e (all_granted es)

limited : (b : ℤ) → pos 0 <ℤ b → ltb_ℤ (pos 0) b ≡ true
limited b h = ground arith

step-Budget :
    (bw : Pair ℤ) (e : Event) (l : Link) (g : Pair ℕ)
    → Enabled bw e l
    → IsMetered e
    → Inv bw l
    → Budget g l
    → Safe (Budget (granted e g)) (step e l)
unfolding step
step-Budget bw (flushes v (pos c) exp) l g en (on, lo, hi) i b =
    Safe-bind (λ r. Budget (grant p1 c (grant p0 c g)) r.1) _ _ _
      (flush_msgs-Budget v (limited _ on) c (omega arith) exp l g (subst (λ b. Inv b l) (sym en) i)
        b)
      (λ r k. k)
step-Budget bw (flushes v (negsuc c) exp) l g en (on, lo, hi) i b = absurd (omega arith)
step-Budget bw (connects v ec) l g en mt i b = handle_connect-Budget v ec _ g b
step-Budget bw (reads v p ec n arr) l g en mt i b =
    handle_read-Budget v p ec n (read_completed p arr l) g en.1 b
step-Budget bw (writes v p ec) l g en mt i b =
    let (r, j) = write_completed-IsReady bw p l en.1 i in
    handle_write-Budget v (limited _ mt) g p ec (write_completed p l) r
      (subst (λ b. IpKnown b l.client_ip) (sym en.0) j.2) b
step-Budget bw (shares ip) l g en mt i b = b

start-Budget : (now : ℤ) (ip : Option IpProxy) → Budget (both 0) (start (new_connection now ip))
unfolding start new_connection
start-Budget now ip p0 = (omega arith, omega arith, omega arith, tt)
start-Budget now ip p1 = (omega arith, omega arith, omega arith, tt)

Reach-Budget :
    {bw : Pair ℤ} {es : List Event} {l : Link}
    → Reach bw es l
    → AllMetered es
    → Budget (all_granted es) l
Reach-Budget (started now ip k) a = start-Budget now ip
Reach-Budget {bw} (next {es} {l} e r en q) a =
    subst (Safe (Budget (granted e (all_granted es)))) q
      (step-Budget bw e l (all_granted es) en a.0 (Reach-Inv r) (Reach-Budget r a.1))

sent-le : (w : List Buffer) (a : ℤ) (q : List Msg) (g : ℕ) → Metered w a q g → spent w ≤ g + 4150
sent-le w a q g m = omega arith

-- Under a rule that limits the bandwidth, if no flush grants a negative number of bytes or more
-- than an `int` holds, then in every reachable state and each direction the bytes given to
-- `async_write`, with 54 bytes of headers for each message, exceed those that the flushes granted
-- by at most 4150.
pub rate_limit :
    {bw : Pair ℤ} {es : List Event} {l : Link}
    → Reach bw es l
    → AllMetered es
    → (q : PairId) → spent (get q l.sockets.written) ≤ get q (all_granted es) + 4150
rate_limit {es} {l} r a q =
    sent-le _ (get q l.conn.available_bytes_pair) (get q l.conn.msg_queue_pair) _
      (Reach-Budget r a q)

-- Under a rule that limits the bandwidth, if no flush grants a negative number of bytes or more
-- than an `int` holds, then in every reachable state the allowance of each direction is at least
-- -4150 and at most the largest `int`.
pub available_bounds :
    {bw : Pair ℤ} {es : List Event} {l : Link}
    → Reach bw es l
    → AllMetered es
    → (q : PairId)
    → (negsuc 4149 ≤ℤ get q l.conn.available_bytes_pair)
      × (get q l.conn.available_bytes_pair ≤ℤ int_max)
available_bounds {l} r a q = let (x, n, hi, s) = Reach-Budget r a q in (omega arith, hi)
