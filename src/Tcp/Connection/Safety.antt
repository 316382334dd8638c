-- ===== src/Tcp/Connection/Safety.antt =====
-- What the invariant says of every reachable connection.
use tcp_udp_proxy.Prelude.{
  ◌+◌, ◌≤◌, ℤ, ◌≡◌, ap, Bool, true, false, List, length, PairId, p0, p1, other, Pair, get, Outcome,
  done, fault, Fault, assertion_failed, null_dereference, dangling_pointer, system_error, Safe, bit,
  bit-le, arith, ◌↔◌,
}
use tcp_udp_proxy.Tcp.Connection.{Link}
use tcp_udp_proxy.Tcp.Connection.Steps.{Event, step, Enabled, Reach}
use tcp_udp_proxy.Tcp.Connection.Preserved.{Reach-Inv, step-Inv}

only_system_error :
    (P : Link → Type 0) (o : Outcome Link) (f : Fault) → Safe P o → o ≡ fault f → f ≡ system_error
only_system_error P (done l) f s e = cc
only_system_error P (fault assertion_failed) f s e = absurd s
only_system_error P (fault null_dereference) f s e = absurd s
only_system_error P (fault dangling_pointer) f s e = absurd s
only_system_error P (fault system_error) f s e = cc

-- In every reachable state an enabled event that ends in a fault ends in the exception of
-- `remote_endpoint()`: the XASSERT of `handleWrite` does not fail, and `client_ip` is not
-- dereferenced when it is null.
pub step-faults :
    {bw : Pair ℤ} {es : List Event} {l : Link}
    → Reach bw es l
    → (e : Event) → Enabled bw e l
    → (f : Fault) → step e l ≡ fault f
    → f ≡ system_error
step-faults {bw} {l = l} r e h f q =
    only_system_error _ (step e l) f (step-Inv bw e l h (Reach-Inv r)) q

-- In every reachable state and each direction at most one write and one read are under way, at
-- most two messages are queued, and a read is under way only while at most one is queued.
pub Reach-bounded :
    {bw : Pair ℤ} {es : List Event} {l : Link}
    → Reach bw es l
    → (p : PairId)
    → (get p l.sockets.writes ≤ 1)
      × (get (other p) l.sockets.reads ≤ 1)
      × (length (get p l.conn.msg_queue_pair) ≤ 2)
      × (get (other p) l.sockets.reads + length (get p l.conn.msg_queue_pair) ≤ 2)
Reach-bounded r p0 = omega (arith, bit-le, Reach-Inv r)
Reach-bounded r p1 = omega (arith, bit-le, Reach-Inv r)

-- In every reachable state a connection that is neither closed nor open in full is connecting or
-- has a message queued.
pub Reach-not-stranded :
    {bw : Pair ℤ} {es : List Event} {l : Link}
    → Reach bw es l
    → l.conn.close_flag ≡ false
    → l.conn.full_open ≡ false
    → 1 ≤ l.sockets.connects + length l.conn.msg_queue_pair.at0 + length l.conn.msg_queue_pair.at1
Reach-not-stranded r c f = omega (arith, (Reach-Inv r).1, ap bit c, ap bit f)

complement : (a b : Bool) → bit a + bit b ≡ 1 → (a ≡ true) ↔ (b ≡ false)
complement a b e = ground arith

-- In every reachable state `close_flag` is set exactly when a socket of the connection, either
-- one, is closed.
pub close_flag-is_open :
    {bw : Pair ℤ} {es : List Event} {l : Link}
    → Reach bw es l
    → (p : PairId) → (l.conn.close_flag ≡ true) ↔ (get p l.sockets.is_open ≡ false)
close_flag-is_open {l = l} r p0 =
    complement l.conn.close_flag l.sockets.is_open.at0 (omega (arith, Reach-Inv r))
close_flag-is_open {l = l} r p1 =
    complement l.conn.close_flag l.sockets.is_open.at1 (omega (arith, Reach-Inv r))
