-- ===== src/Tcp/Connection/Invariant.antt =====
-- What holds of a connection in every reachable state.
use tcp_udp_proxy.Prelude.{
  ◌+◌, ◌*◌, ◌≤◌, ℤ, ◌≡◌, ap, Bool, true, false, Option, List, length, PairId, p0, p1, other, Pair,
  get, Safe, bit, arith, Bool-cases, if_elim, not, ◌&&◌, ◌∙◌, ◌<◌, inl, inr,
}
use tcp_udp_proxy.Buffer.{Buffer}
use tcp_udp_proxy.IpProxy.{IpProxy}
use tcp_udp_proxy.Tcp.Connection.{
  View, Link, TcpConnection, Msg, queues_empty, with_queue, after_pop, stop, set_idle, issue_write,
  try_write, resume_read,
}
use tcp_udp_proxy.Tcp.Connection.Cases.{IpKnown, try_write_cases}

-- The way from the reads of one socket through its queue to the writes of socket p.
abbrev pub LaneInv : PairId → Link → Type 0
LaneInv p l =
    (get p writes ≤ bit (get p l.conn.writing_flag_pair))
    × (get p writes ≤ length (get p l.conn.msg_queue_pair))
    × (get (other p) reads ≤ bit (get (other p) l.conn.reading_flag_pair))
    × (get (other p) reads + length (get p l.conn.msg_queue_pair) ≤ 2)
    × (2 * connects + length (get p l.conn.msg_queue_pair) ≤ 2)
    × (connects + get (other p) reads ≤ 1)
    × (connects ≤ bit (get (other p) l.conn.reading_flag_pair))
    × (bit l.conn.close_flag + bit (get p is_open) ≡ 1)
  where
    open l.sockets use {writes, reads, connects, is_open}

pub record Lanes (l : Link) : Type 0 where
  pub lane0 : LaneInv p0 l
  pub lane1 : LaneInv p1 l
  pub half : l.sockets.connects + bit l.conn.full_open ≤ 1

-- A connection that is neither closed nor open in full is connecting, or has something to send.
abbrev pub IsAlive : Link → Type 0
IsAlive l =
    1
    ≤ bit l.conn.full_open
      + bit l.conn.close_flag
      + l.sockets.connects
      + length l.conn.msg_queue_pair.at0
      + length l.conn.msg_queue_pair.at1

-- `client_ip` is null only where `ip_proxies` sets no limit.
abbrev pub Inv : Pair ℤ → Link → Type 0
Inv bw l = Lanes l × IsAlive l × IpKnown bw l.client_ip

pub set_idle-Lanes :
    (p : PairId) (l : Link) → get p l.sockets.writes ≡ 0 → Lanes l → Lanes (set_idle p l)
unfolding set_idle
set_idle-Lanes p0 l w i = omega arith
set_idle-Lanes p1 l w i = omega arith

issue_write-Lanes :
    (v : View) (p : PairId) (b : Buffer) (l : Link) (ip : Option IpProxy)
    → get p l.sockets.writes ≡ 0
    → 1 ≤ length (get p l.conn.msg_queue_pair)
    → Lanes l
    → Lanes (issue_write v p b (record l { client_ip = ip }))
unfolding issue_write
issue_write-Lanes v p0 b l ip w q i = omega arith
issue_write-Lanes v p1 b l ip w q i = omega arith

pub stop-Inv : (bw : Pair ℤ) (l : Link) → Lanes l → IpKnown bw l.client_ip → Inv bw (stop l)
unfolding stop
stop-Inv bw l i k = (omega arith, omega arith, k)

pub paused : (b : Bool) → not b ≡ true → bit b ≡ 0
paused b e = ground arith

resume_read-Inv :
    (bw : Pair ℤ) (p : PairId) (l : Link)
    → length (get p l.conn.msg_queue_pair) ≤ 1
    → l.sockets.connects ≡ 0
    → Inv bw l
    → Inv bw (resume_read (other p) l)
unfolding resume_read
resume_read-Inv bw p0 l q c (i, a, k) =
    if_elim (Inv bw) (not (get p1 l.conn.reading_flag_pair)) _ _
      (λ e. (omega (arith, paused _ e), a, k)) (λ e. (i, a, k))
resume_read-Inv bw p1 l q c (i, a, k) =
    if_elim (Inv bw) (not (get p0 l.conn.reading_flag_pair)) _ _
      (λ e. (omega (arith, paused _ e), a, k)) (λ e. (i, a, k))

resume_read-writes :
    (p q : PairId) (l : Link) → get p (resume_read q l).sockets.writes ≡ get p l.sockets.writes
unfolding resume_read
resume_read-writes p q l = elim (Bool-cases (get q l.conn.reading_flag_pair)) [
  | inl e ↦ rw e
  | inr e ↦ rw e
]

empty_lengths :
    (c : TcpConnection)
    → queues_empty c ≡ false
    → 1 ≤ length c.msg_queue_pair.at0 + length c.msg_queue_pair.at1
empty_lengths c e = ground arith

pub IsAlive-unless : (l : Link) → (not l.conn.full_open && queues_empty l.conn) ≡ false → IsAlive l
IsAlive-unless l e = ground arith

module _ (v : View) where
  abbrev pub bw : Pair ℤ
  bw = v.ip_bandwidth

  pub try_write-Inv :
      (p : PairId) (l : Link)
      → get p l.sockets.writes ≡ 0
      → Inv bw l
      → Safe (Inv bw) (try_write v p l)
  unfolding set_idle issue_write
  try_write-Inv p l w (i, a, k) =
      try_write_cases (Inv bw) v p l (set_idle-Lanes p l w i, a, k)
        (λ m ms ip q _ _ k'.
          (issue_write-Lanes v p m.second l ip w (omega (arith, ap length q)) i, a, k'))
        k

  pub after_pop-Inv :
      (p : PairId) (l : Link)
      → get p l.sockets.writes ≡ 0
      → length (get p l.conn.msg_queue_pair) ≤ 1
      → l.sockets.connects ≡ 0
      → Lanes l
      → IpKnown bw l.client_ip
      → Safe (Inv bw) (after_pop v p l)
  unfolding after_pop
  after_pop-Inv p l w q c i k = elim (Bool-cases (not l.conn.full_open && queues_empty l.conn)) [
    | inl e ↦ rw e (stop-Inv bw l i k)
    | inr e ↦ rw e (
        try_write-Inv p (resume_read (other p) l) (resume_read-writes p (other p) l ∙ w)
          (resume_read-Inv bw p l q c (i, IsAlive-unless l e, k)))
  ]

  pub with_queue-Lanes :
      (p : PairId) (l : Link) (ms : List Msg)
      → get p l.sockets.writes ≡ 0
      → length ms < length (get p l.conn.msg_queue_pair)
      → Lanes l
      → Lanes (with_queue p ms l)
  with_queue-Lanes p0 l ms w q i = omega arith
  with_queue-Lanes p1 l ms w q i = omega arith
