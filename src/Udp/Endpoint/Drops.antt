-- ===== src/Udp/Endpoint/Drops.antt =====
-- The share of datagrams that a rule drops.
use tcp_udp_proxy.Prelude.{ℕ, zero, suc, ◌+◌, ◌≤◌, ℤ, pos, ◌≡◌, if◌then◌else◌, ◌∙◌, arith}
use native.Mathlib.Decide.{dec_le}
use tcp_udp_proxy.Udp.Endpoint.{dropped}

-- How many of the draws 1 to n drop the datagram.
pub count_dropped : ℤ → ℕ → ℕ
count_dropped drop_prob zero = 0
count_dropped drop_prob (suc n) =
    (if dropped drop_prob (pos (suc n)) then 1 else 0) + count_dropped drop_prob n

below : (prob n : ℕ) → n ≤ prob → count_dropped (pos prob) n ≡ n
unfolding count_dropped dropped
below prob zero h = ground arith
below prob (suc n) h = ground (arith, below prob n (omega arith))

beyond : (prob n : ℕ) → prob ≤ n → count_dropped (pos prob) n ≡ prob
unfolding count_dropped dropped
beyond prob zero h = ground arith
beyond prob (suc n) h = elim (dec_le (suc n) prob) [
  | yes k ↦ below prob (suc n) k ∙ omega arith
  | no k ↦ ground (arith, beyond prob n (omega arith))
]

-- Of the 10000 draws of `int32_range(1, 10000)`, a rule with a `drop_prob` of at most 10000 drops
-- the datagram at exactly `drop_prob` of them.
pub drop_share : (prob : ℕ) → prob ≤ 10000 → count_dropped (pos prob) 10000 ≡ prob
drop_share prob h = beyond prob 10000 h
