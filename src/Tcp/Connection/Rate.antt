-- ===== src/Tcp/Connection/Rate.antt =====
-- The bandwidth limit of a rule: what a connection sends against what the timer has granted.
use tcp_udp_proxy.Prelude.{
  ℕ, ◌+◌, ◌≤◌, ℤ, pos, pos_part, neg_part, to_int, add_int, sub_int, ◌+ℤ◌, ◌-ℤ◌, ◌≤ℤ◌, ◌<ℤ◌,
  int_max, ltb_ℤ, ◌≡◌, refl, true, not, ◌&&◌, Option, List, [], ◌∷◌, ◌++◌, length, PairId, p0, p1,
  other, Pair, get, put, Safe, ErrorCode, success, operation_aborted, arith, if_elim,
}
use tcp_udp_proxy.Buffer.{Buffer}
use tcp_udp_proxy.IpProxy.{IpProxy}
use tcp_udp_proxy.Config.{tcp_buffer_size}
use tcp_udp_proxy.Tcp.Connection.{
  Msg, View, Link, stop, charge, set_idle, issue_write, try_write, resume_read, after_pop,
  pop_written, with_queue, write_failed, handle_write, refill, async_read, queues_empty,
}
use tcp_udp_proxy.Tcp.Connection.Cases.{IpKnown, try_write_cases, resume_read_keeps}
use tcp_udp_proxy.Tcp.Connection.Preserved.{IsReady}

-- A buffer that one read filled.
abbrev pub IsSize : Buffer → Type 0
IsSize b = (pos 0 ≤ℤ b.buf_size) × (b.buf_size ≤ℤ pos tcp_buffer_size)

abbrev pub Small : List Msg → Type 0
Small [] = Unit {0}
Small (m ∷ ms) = IsSize m.second × Small ms

-- The bytes that a list of buffers takes on the wire, with the headers.
abbrev pub spent : List Buffer → ℕ
spent [] = 0
spent (b ∷ bs) = pos_part b.buf_size + 54 + spent bs

-- The bytes sent are covered by what was granted, but for one message.
abbrev pub Metered : List Buffer → ℤ → List Msg → ℕ → Type 0
Metered w avail q g =
    (pos_part avail + spent w ≤ g + neg_part avail)
    × (neg_part avail ≤ 4150)
    × (avail ≤ℤ int_max)
    × Small q

pub spent-append :
    (w : List Buffer) (b : Buffer) → spent (w ++ b ∷ []) ≡ spent w + pos_part b.buf_size + 54
spent-append [] b = omega arith
spent-append (a ∷ w) b = omega (arith, spent-append w b)

pub nonneg : (a : ℤ) → pos 0 ≤ℤ a → neg_part a ≡ 0
nonneg a h = ground arith

pub size-le : (b : Buffer) → IsSize b → pos_part b.buf_size ≤ tcp_buffer_size
size-le b h = ground arith

pub charge-eq : (b : Buffer) → IsSize b → charge b ≡ pos (pos_part b.buf_size + 54)
unfolding charge add_int to_int ◌+ℤ◌
charge-eq b h = ground arith

module _ (a : ℤ) (c : ℕ) where
  pub sub_int_charge :
      pos 0 ≤ℤ a
      → a ≤ℤ int_max
      → c ≤ 4150
      → (pos_part (sub_int a (pos c)) + c ≡ pos_part a + neg_part (sub_int a (pos c)))
        × (neg_part (sub_int a (pos c)) ≤ 4150)
        × (sub_int a (pos c) ≤ℤ int_max)
  unfolding sub_int to_int ◌-ℤ◌
  sub_int_charge lo hi small = ground arith

  -- A grant to a used-up allowance stays within an `int`.
  pub add_int_grant :
      a <ℤ pos 0
      → neg_part a ≤ 4150
      → c ≤ 2147483647
      → (pos_part (add_int a (pos c)) + neg_part a ≡ c + neg_part (add_int a (pos c)))
        × (neg_part (add_int a (pos c)) ≤ 4150)
        × (add_int a (pos c) ≤ℤ int_max)
  unfolding add_int to_int ◌+ℤ◌
  add_int_grant lo hi small = ground arith

front-IsSize : (q : List Msg) (m : Msg) (ms : List Msg) → q ≡ m ∷ ms → Small q → IsSize m.second
front-IsSize q m ms e s = (rw e at s).0

lane_charge :
    (w : List Buffer) (avail : ℤ) (q : List Msg) (g : ℕ) (b : Buffer)
    → pos 0 ≤ℤ avail
    → IsSize b
    → Metered w avail q g
    → Metered (w ++ b ∷ []) (sub_int avail (charge b)) q g
lane_charge w avail q g b lo size (e, n, hi, s) = rw (charge-eq b size) (
    let (x, y, z) =
      sub_int_charge avail (pos_part b.buf_size + 54) lo hi (omega (arith, size-le b size)) in
    (omega (arith, spent-append w b, nonneg avail lo), y, z, s))

lane_grant :
    (w : List Buffer) (avail : ℤ) (q : List Msg) (g c : ℕ)
    → avail <ℤ pos 0
    → c ≤ 2147483647
    → Metered w avail q g
    → Metered w (add_int avail (pos c)) q (g + c)
lane_grant w avail q g c lo small (e, n, hi, s) =
    let (x, y, z) = add_int_grant avail c lo n small in (omega arith, y, z, s)

lane_keep :
    (w : List Buffer) (avail : ℤ) (q : List Msg) (g c : ℕ)
    → Metered w avail q g
    → Metered w avail q (g + c)
lane_keep w avail q g c (e, n, hi, s) = (omega arith, n, hi, s)

abbrev pub Budget : Pair ℕ → Link → Type 0
Budget g l =
    (q : PairId)
    → Metered (get q l.sockets.written) (get q l.conn.available_bytes_pair)
        (get q l.conn.msg_queue_pair) (get q g)

issue_write-Budget :
    (v : View) (p : PairId) (m : Msg) (ms : List Msg) (ip : Option IpProxy) (l : Link) (g : Pair ℕ)
    → ltb_ℤ (pos 0) v.max_bandwidth ≡ true
    → get p l.conn.msg_queue_pair ≡ m ∷ ms
    → pos 0 ≤ℤ get p l.conn.available_bytes_pair
    → Budget g l
    → Budget g (issue_write v p m.second (record l { client_ip = ip }))
unfolding issue_write
issue_write-Budget v p0 m ms ip l g on e a b p0 =
    rw on (lane_charge _ _ _ _ m.second a (front-IsSize _ m ms e (b p0).3) (b p0))
issue_write-Budget v p0 m ms ip l g on e a b p1 = rw on (b p1)
issue_write-Budget v p1 m ms ip l g on e a b p0 = rw on (b p0)
issue_write-Budget v p1 m ms ip l g on e a b p1 =
    rw on (lane_charge _ _ _ _ m.second a (front-IsSize _ m ms e (b p1).3) (b p1))

pop_Budget :
    (p : PairId) (l : Link) (m : Msg) (ms : List Msg) (g : Pair ℕ)
    → get p l.conn.msg_queue_pair ≡ m ∷ ms
    → Budget g l
    → Budget g (with_queue p ms l)
pop_Budget p0 l m ms g e b p0 = let (x, n, hi, s) = rw e at (b p0) in (x, n, hi, s.1)
pop_Budget p0 l m ms g e b p1 = b p1
pop_Budget p1 l m ms g e b p0 = b p0
pop_Budget p1 l m ms g e b p1 = let (x, n, hi, s) = rw e at (b p1) in (x, n, hi, s.1)

used_up : (b a : ℤ) → (ltb_ℤ (pos 0) b && ltb_ℤ a (pos 0)) ≡ true → a <ℤ pos 0
used_up b a e = ground arith

module _ (v : View) (on : ltb_ℤ (pos 0) v.max_bandwidth ≡ true) (g : Pair ℕ) where
  try_write-Budget :
      (p : PairId) (l : Link)
      → IpKnown v.ip_bandwidth l.client_ip
      → Budget g l
      → Safe (Budget g) (try_write v p l)
  unfolding set_idle
  try_write-Budget p l k b =
      try_write_cases (Budget g) v p l b
        (λ m ms ip q a _ _. issue_write-Budget v p m ms ip l g on q a b) k

  after_pop-Budget :
      (p : PairId) (l : Link)
      → IpKnown v.ip_bandwidth l.client_ip
      → Budget g l
      → Safe (Budget g) (after_pop v p l)
  unfolding after_pop stop async_read
  after_pop-Budget p l k b =
      let r =
        resume_read_keeps (λ m. Budget g m × IpKnown v.ip_bandwidth m.client_ip) (other p) l (b, k)
          (b, k) in
      if_elim (Safe (Budget g)) (not l.conn.full_open && queues_empty l.conn) _ _ (λ e. b)
        (λ e. try_write-Budget p (resume_read (other p) l) r.1 r.0)

  pop_written-Budget :
      (p : PairId) (l : Link) (q : List Msg)
      → get p l.conn.msg_queue_pair ≡ q
      → 1 ≤ length q
      → IpKnown v.ip_bandwidth l.client_ip
      → Budget g l
      → Safe (Budget g) (pop_written v p l q)
  unfolding pop_written
  pop_written-Budget p l [] e n k b = absurd (omega arith)
  pop_written-Budget p l (m ∷ ms) e n k b =
      after_pop-Budget p (with_queue p ms l) k (pop_Budget p l m ms g e b)

  pub handle_write-Budget :
      (p : PairId) (ec : ErrorCode) (l : Link)
      → IsReady p l
      → IpKnown v.ip_bandwidth l.client_ip
      → Budget g l
      → Safe (Budget g) (handle_write v p ec l)
  unfolding handle_write write_failed stop
  handle_write-Budget p success l r k b =
      if_elim (Safe (Budget g)) (get p l.conn.writing_flag_pair) _ _
        (λ e. pop_written-Budget p l _ refl (r.queued e) k b) (λ e. try_write-Budget p l k b)
  handle_write-Budget p operation_aborted l r k b = b
  handle_write-Budget p _ l r k b =
      if_elim (Safe (Budget g)) (get p v.has_remote) _ _ (λ e. b) (λ e. tt)

-- One round of a flush grants its bytes to one side at most.
abbrev pub grant : PairId → ℕ → Pair ℕ → Pair ℕ
grant p c g = put p (get p g + c) g

pub grant-Budget :
    (p : PairId) (c : ℕ) (l : Link) (g : Pair ℕ) → Budget g l → Budget (grant p c g) l
grant-Budget p0 c l g b p0 = lane_keep _ _ _ _ c (b p0)
grant-Budget p0 c l g b p1 = b p1
grant-Budget p1 c l g b p0 = b p0
grant-Budget p1 c l g b p1 = lane_keep _ _ _ _ c (b p1)

pub refill-Budget :
    (v : View) (p : PairId) (c : ℕ) (l : Link) (g : Pair ℕ)
    → c ≤ 2147483647
    → Budget g l
    → Budget (grant p c g) (refill v (pos c) p l)
unfolding refill
refill-Budget v p c l g small b =
    if_elim (Budget (grant p c g))
      (ltb_ℤ (pos 0) v.max_bandwidth && ltb_ℤ (get p l.conn.available_bytes_pair) (pos 0)) _ _
      (λ e. granted p l b (used_up _ _ e)) (λ e. grant-Budget p c l g b)
  where
    granted :
        (p : PairId) (l : Link)
        → Budget g l
        → get p l.conn.available_bytes_pair <ℤ pos 0
        → Budget (grant p c g) (record l {
          conn = record l.conn {
            available_bytes_pair =
                put p
                  (add_int (get p l.conn.available_bytes_pair) (pos c))
                  l.conn.available_bytes_pair;
          };
        })
    granted p0 l b low p0 = lane_grant _ _ _ _ c low small (b p0)
    granted p0 l b low p1 = b p1
    granted p1 l b low p0 = b p0
    granted p1 l b low p1 = lane_grant _ _ _ _ c low small (b p1)
