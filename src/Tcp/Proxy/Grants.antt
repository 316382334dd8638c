-- ===== src/Tcp/Proxy/Grants.antt =====
-- The bytes that the timer grants, round by round.
use tcp_udp_proxy.Prelude.{
  ℕ, ◌+◌, ◌-◌, ◌*◌, ◌/◌, ◌≤◌, ◌<◌, pos, pos_part, ◌-ℤ◌, ◌*ℤ◌, ◌<ℤ◌, to_int, div_thousand, ◌≡◌,
  arith,
}
use tcp_udp_proxy.Prelude.{ℤ, Bool, true, false, not, ◌&&◌, ltb_ℤ, ErrorCode, is_error, done}
use tcp_udp_proxy.Prelude.Maps.{Eq}
use tcp_udp_proxy.Tcp.Proxy.{TcpProxy, flush_bytes, round_bytes, handle_wait}

module _ (last now bw : ℕ) (later : last ≤ now) where
  product : div_thousand ((pos now -ℤ pos last) *ℤ pos bw) ≡ pos ((now - last) * bw / 1000)
  unfolding ◌-ℤ◌ ◌*ℤ◌ div_thousand
  product = ground arith

  -- While the product of a round divided by 1000 is within an `int`, this is what the round grants.
  pub flush_bytes-eq :
      (now - last) * bw / 1000 ≤ 2147483647
      → flush_bytes (pos now) (pos last) (pos bw) ≡ pos ((now - last) * bw / 1000)
  unfolding flush_bytes to_int
  flush_bytes-eq fits = rw product (ground arith)

  -- When the time since the last round times the bandwidth, divided by 1000, is beyond the largest
  -- `int` and below 2 ^ 32, the round grants a negative number of bytes.
  flush_bytes-overflow :
      2147483647 < (now - last) * bw / 1000
      → (now - last) * bw / 1000 < 4294967296
      → flush_bytes (pos now) (pos last) (pos bw) <ℤ pos 0
  unfolding flush_bytes to_int
  flush_bytes-overflow lo hi = rw product (ground arith)

-- Whether the handler of the timer comes to its flush.
abbrev pub is_flushed : {E A : Type 0} → ErrorCode → ℤ → TcpProxy E A → Bool
is_flushed ec ms p = not (is_error ec) && not p.close_flag && ltb_ℤ p.last_flush_tm ms

module _ {E A : Type 0} ⦃e : Eq A⦄ where
  -- A proxy after any runs of its timer's handler, each at any time and with any error, and the bytes
  -- that their flushes granted each connection. A time is in milliseconds, and no flush grants more
  -- than an `int` holds.
  pub data Rounds (p : TcpProxy E A) : ℕ → TcpProxy E A → Type 0 where
    begins : Rounds p 0 p
    skips :
        {g : ℕ} {q r : TcpProxy E A} (ec timer_ec : ErrorCode) (ms tcp_timeout : ℤ)
        → Rounds p g q
        → is_flushed ec ms q ≡ false
        → handle_wait ec timer_ec ms tcp_timeout q ≡ done r
        → Rounds p g r
    flushes :
        {g : ℕ} {q r : TcpProxy E A} (ec timer_ec : ErrorCode) (now : ℕ) (tcp_timeout : ℤ)
        → Rounds p g q
        → is_flushed ec (pos now) q ≡ true
        → (now - pos_part q.last_flush_tm) * pos_part q.proxy_rule.max_bandwidth / 1000 ≤ 2147483647
        → handle_wait ec timer_ec (pos now) tcp_timeout q ≡ done r
        → Rounds p (g + pos_part (round_bytes (pos now) q)) r

  -- The time of the last round, and the rule.
  abbrev Timed : ℤ → TcpProxy E A → TcpProxy E A → Type 0
  Timed last q r = (r.last_flush_tm ≡ last) × (r.proxy_rule ≡ q.proxy_rule)

  -- What was granted since the last round of the proxy p.
  record Paced (p : TcpProxy E A) (bw first g : ℕ) (q : TcpProxy E A) : Type 0 where
    last : ℕ
    last_is : q.last_flush_tm ≡ pos last
    later : first ≤ last
    rule : q.proxy_rule ≡ p.proxy_rule
    granted : 1000 * g ≤ (last - first) * bw
