-- ===== src/Tcp/Connection/Untouched.antt =====
-- What a flush leaves alone, and when it asks for the connection to be dropped.
use tcp_udp_proxy.Prelude.{
  ℤ, pos, ltb_ℤ, leb_ℤ, ◌≡◌, refl, Bool, true, not, ◌&&◌, Option, none, some, List, [], ◌∷◌,
  if_elim, PairId, p0, p1, other, get, Unthrown, Unthrown-bind, arith, ap, ◌∙◌,
}
use tcp_udp_proxy.Buffer.{Buffer}
use tcp_udp_proxy.IpProxy.{IpProxy}
use tcp_udp_proxy.IpProxy.Pointers.{ref_of}
use tcp_udp_proxy.Tcp.Connection.{
  Msg, View, Link, TcpConnection, stop, set_idle, issue_write, charge_client, send_front, try_front,
  try_write, handle_write, write_if_idle, refill, flush_side, flush_msgs, queues_empty,
}
use tcp_udp_proxy.Tcp.Connection.Preserved.{refill_cases}

-- The parts of a connection that a flush leaves as they are.
pub record Untouched (c d : TcpConnection) : Type 0 where
  pub same_close : d.close_flag ≡ c.close_flag
  pub same_buffers : d.recv_buf_pair ≡ c.recv_buf_pair
  pub same_queues : d.msg_queue_pair ≡ c.msg_queue_pair
  pub same_reading : d.reading_flag_pair ≡ c.reading_flag_pair
  pub same_time : d.active_time ≡ c.active_time
  pub same_open : d.full_open ≡ c.full_open

Untouched-refl : (c : TcpConnection) → Untouched c c
Untouched-refl c = record {
  same_close = refl;
  same_buffers = refl;
  same_queues = refl;
  same_reading = refl;
  same_time = refl;
  same_open = refl;
}

module _ (P : Link → Type 0) (v : View) (p : PairId) (l : Link) (idle : P (set_idle p l))
    (sent : (b : Buffer) (ip : Option IpProxy)
      → ref_of ip ≡ ref_of l.client_ip
      → P (issue_write v p b (record l { client_ip = ip }))) where
  charge_client-Unthrown :
      (b : Buffer) (o : Option IpProxy) → o ≡ l.client_ip → Unthrown P (charge_client v p b l o)
  unfolding charge_client
  charge_client-Unthrown b none q = tt
  charge_client-Unthrown b (some ip) q =
      if_elim (Unthrown P) (leb_ℤ (pos 0) (get (other p) ip.avail_bytes)) _ _
        (λ e. sent b _ (ap ref_of q)) (λ e. idle)

  try_front-Unthrown : (q : List Msg) → Unthrown P (try_front v p l q)
  unfolding try_front send_front
  try_front-Unthrown [] = idle
  try_front-Unthrown (m ∷ ms) =
      if_elim (Unthrown P)
        (leb_ℤ (pos 0) (get p l.conn.available_bytes_pair) && leb_ℤ m.first v.now) _ _
        (λ _.
          if_elim (Unthrown P) (ltb_ℤ (pos 0) (get (other p) v.ip_bandwidth)) _ _
            (λ _. charge_client-Unthrown m.second l.client_ip refl)
            (λ _. sent m.second l.client_ip refl))
        (λ _. idle)

  try_write-Unthrown : Unthrown P (try_write v p l)
  unfolding try_write
  try_write-Unthrown = try_front-Unthrown (get p l.conn.msg_queue_pair)

module _ (c : TcpConnection) (o : Option ℤ) (v : View) where
  abbrev Same : Link → Type 0
  Same l = Untouched c l.conn × (ref_of l.client_ip ≡ o)

  rebuild :
      (m l : Link)
      → m.conn.close_flag ≡ l.conn.close_flag
      → m.conn.recv_buf_pair ≡ l.conn.recv_buf_pair
      → m.conn.msg_queue_pair ≡ l.conn.msg_queue_pair
      → m.conn.reading_flag_pair ≡ l.conn.reading_flag_pair
      → m.conn.active_time ≡ l.conn.active_time
      → m.conn.full_open ≡ l.conn.full_open
      → ref_of m.client_ip ≡ ref_of l.client_ip
      → Same l
      → Same m
  rebuild m l a b d e f g r (h, k) = (
    record {
      same_close = a ∙ h.same_close;
      same_buffers = b ∙ h.same_buffers;
      same_queues = d ∙ h.same_queues;
      same_reading = e ∙ h.same_reading;
      same_time = f ∙ h.same_time;
      same_open = g ∙ h.same_open;
    },
    r ∙ k,
  )

  write_if_idle-Same : (p : PairId) (l : Link) → Same l → Unthrown Same (write_if_idle v p l)
  unfolding write_if_idle handle_write set_idle issue_write
  write_if_idle-Same p l h =
      if_elim (Unthrown Same) (not (get p l.conn.writing_flag_pair)) _ _
        (λ e.
          if_elim (Unthrown Same) (get p l.conn.writing_flag_pair) _ _ (λ w. absurd (ground arith))
            (λ _.
              try_write-Unthrown Same v p l
                (rebuild (set_idle p l) l refl refl refl refl refl refl refl h)
                (λ b ip r.
                  rebuild (issue_write v p b (record l { client_ip = ip })) l refl refl refl refl
                    refl refl r h)))
        (λ _. h)

  flush_side-Same :
      (flush_bytes : ℤ) (p : PairId) (l : Link)
      → Same l
      → Unthrown Same (flush_side v flush_bytes p l)
  unfolding flush_side
  flush_side-Same fb p l h = write_if_idle-Same p (refill v fb p l) (
      refill_cases Same v fb p l h (λ bytes.
        rebuild (record l { conn = record l.conn { available_bytes_pair = bytes } }) l refl refl
          refl refl refl refl refl h))

-- A flush asks to keep a connection just when it is not closed and was active since the expiry
-- time.
abbrev pub keeps : ℤ → TcpConnection → Bool
keeps expire_time c = not c.close_flag && not (ltb_ℤ c.active_time expire_time)

-- The answer of a flush; that a connection which it keeps has its queues, its buffers, its flags
-- of reading and of life, and its time of activity as before; and that the pointer and the count
-- of its holders stay.
abbrev pub Answer : ℤ → Link → Bool × Link → Type 0
Answer expire_time l (kept, m) =
    (kept ≡ keeps expire_time l.conn)
    × (kept ≡ true → Untouched l.conn m.conn)
    × (ref_of m.client_ip ≡ ref_of l.client_ip)

pub flush_msgs-Answer :
    (v : View) (flush_bytes expire_time : ℤ) (l : Link)
    → Unthrown (Answer expire_time l) (flush_msgs v flush_bytes expire_time l)
unfolding flush_msgs stop
flush_msgs-Answer v fb exp l =
    if_elim (Unthrown (Answer exp l)) l.conn.close_flag _ _ (λ e. (ground arith, λ k. cc, refl))
      λ o.
        if_elim (Unthrown (Answer exp l)) (ltb_ℤ l.conn.active_time exp) _ _
          (λ e. (ground arith, λ k. cc, refl))
          λ t.
            if_elim (Unthrown (Answer exp l)) (not l.conn.full_open && queues_empty l.conn) _ _
              (λ e. (ground arith, λ k. Untouched-refl l.conn, refl))
              λ _.
                Unthrown-bind Kept _ _ _
                  (flush_side-Same l.conn r v fb p0 l (Untouched-refl l.conn, refl))
                  λ l0 h0.
                    Unthrown-bind Kept _ _ _ (flush_side-Same l.conn r v fb p1 l0 h0)
                      λ l1 h1. (ground arith, λ k. h1.0, h1.1)
  where
    r : Option ℤ
    r = ref_of l.client_ip

    Kept : Link → Type 0
    Kept = Same l.conn r v
