-- ===== src/Tcp/Connection/Cases.antt =====
-- All that one call of `handleWrite` or `flushMsgs` can do, as rules over a postcondition.
use tcp_udp_proxy.Prelude.{
  ℤ, pos, ◌≤ℤ◌, ltb_ℤ, leb_ℤ, ◌≡◌, refl, inl, inr, true, false, ◌&&◌, Option, none, some, List, [],
  ◌∷◌, PairId, other, Pair, get, Safe, arith, Bool-cases, if_elim, not, put,
}
use tcp_udp_proxy.IpProxy.{IpProxy}
use tcp_udp_proxy.Tcp.Connection.{
  Msg, View, Link, set_idle, issue_write, charge_client, send_front, try_front, try_write,
  async_read, resume_read, touch,
}

-- What `getIPProxy` leaves in `client_ip`: null only where no limit is set.
abbrev pub IpKnown : Pair ℤ → Option IpProxy → Type 0
IpKnown bw none = (bw.at0 ≤ℤ pos 0) × (bw.at1 ≤ℤ pos 0)
IpKnown bw (some ip) = Unit {0}

unlimited : (bw : Pair ℤ) (q : PairId) → IpKnown bw none → ltb_ℤ (pos 0) (get q bw) ≡ false
unlimited bw PairId.p0 k = ground arith
unlimited bw PairId.p1 k = ground arith

and_leb : (a b c d : ℤ) → (leb_ℤ a b && leb_ℤ c d) ≡ true → (a ≤ℤ b) × (c ≤ℤ d)
and_leb a b c d e = ground arith

module _ (P : Link → Type 0) (v : View) (p : PairId) (l : Link) (idle : P (set_idle p l))
    (sent : (m : Msg) (ms : List Msg) (ip : Option IpProxy)
      → get p l.conn.msg_queue_pair ≡ m ∷ ms
      → pos 0 ≤ℤ get p l.conn.available_bytes_pair
      → m.first ≤ℤ v.now
      → IpKnown v.ip_bandwidth ip
      → P (issue_write v p m.second (record l { client_ip = ip }))) where
  module _ (m : Msg) (ms : List Msg) (q : get p l.conn.msg_queue_pair ≡ m ∷ ms)
      (a : pos 0 ≤ℤ get p l.conn.available_bytes_pair) (d : m.first ≤ℤ v.now) where
    charge_client_cases :
        (o : Option IpProxy)
        → IpKnown v.ip_bandwidth o
        → ltb_ℤ (pos 0) (get (other p) v.ip_bandwidth) ≡ true
        → Safe P (charge_client v p m.second l o)
    unfolding charge_client
    charge_client_cases none k limited =
        absurd (ground (arith, unlimited v.ip_bandwidth (other p) k))
    charge_client_cases (some ip) k limited =
        elim (Bool-cases (leb_ℤ (pos 0) (get (other p) ip.avail_bytes))) [
          | inl e ↦ rw e (sent m ms _ q a d tt)
          | inr e ↦ rw e idle
        ]

    send_front_cases : IpKnown v.ip_bandwidth l.client_ip → Safe P (send_front v p m.second l)
    unfolding send_front
    send_front_cases k = elim (Bool-cases (ltb_ℤ (pos 0) (get (other p) v.ip_bandwidth))) [
      | inl e ↦ rw e (charge_client_cases l.client_ip k e)
      | inr e ↦ rw e (sent m ms l.client_ip q a d k)
    ]

  try_front_cases :
      (q : List Msg)
      → get p l.conn.msg_queue_pair ≡ q
      → IpKnown v.ip_bandwidth l.client_ip
      → Safe P (try_front v p l q)
  unfolding try_front
  try_front_cases [] e k = idle
  try_front_cases (m ∷ ms) e k =
      elim (Bool-cases (leb_ℤ (pos 0) (get p l.conn.available_bytes_pair) && leb_ℤ m.first v.now)) [
        | inl b ↦ rw b (send_front_cases m ms e (due b).0 (due b).1 k)
        | inr b ↦ rw b idle
      ]
    where
      due :
          (leb_ℤ (pos 0) (get p l.conn.available_bytes_pair) && leb_ℤ m.first v.now) ≡ true
          → (pos 0 ≤ℤ get p l.conn.available_bytes_pair) × (m.first ≤ℤ v.now)
      due b = and_leb (pos 0) (get p l.conn.available_bytes_pair) m.first v.now b

  pub try_write_cases : IpKnown v.ip_bandwidth l.client_ip → Safe P (try_write v p l)
  unfolding try_write
  try_write_cases k = try_front_cases _ refl k

-- The flag and the read that `resume_read` starts are all that it changes.
pub resume_read_keeps :
    (P : Link → Type 0) (q : PairId) (l : Link)
    → P l
    → P (
        async_read q (record l {
          conn = record l.conn { reading_flag_pair = put q true l.conn.reading_flag_pair };
        }))
    → P (resume_read q l)
unfolding resume_read
resume_read_keeps P q l h k = if_elim P (not (get q l.conn.reading_flag_pair)) _ _ (λ e. k) (λ e. h)

pub touch_keeps :
    (v : View) (l : Link) (P : Link → Type 0)
    → P l
    → ((t : ℤ) → P (record l { conn = record l.conn { active_time = t } }))
    → P (touch v l)
unfolding touch
touch_keeps v l P h k = if_elim P l.conn.full_open _ _ (λ e. k v.now) (λ e. h)
