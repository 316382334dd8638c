-- ===== src/Random/Ranges.antt =====
-- src/xrandom.cpp: the ranges of what is drawn.
use tcp_udp_proxy.Prelude.{
  ℕ, suc, ◌+◌, ◌-◌, ◌%◌, ◌≤◌, ◌<◌, ltb, ℤ, pos, ◌+ℤ◌, ◌-ℤ◌, ◌≤ℤ◌, add_int, sub_int, to_int,
  to_int-eq, IsInt, eq_of_parts, -ℤ_parts, pos_part, neg_part, +ℤ_parts, -ℤ_parts, ltb_ℤ, some,
  if◌then◌else◌, if_elim, ◌≡◌, sym, ap, subst, ◌∙◌, arith,
}
use mathlib.Core.Option
use tcp_udp_proxy.Random.{
  Generator, Random, initial, rand_int32, rem_int, int32_range, clamp, uint32_range,
}

-- The upper end of the range, where the ends may stand the wrong way round.
abbrev pub upper : ℤ → ℤ → ℤ
upper min max = if ltb_ℤ max min then min else max

upper-le : (min max : ℤ) → min ≤ℤ upper min max
upper-le min max = ground arith

difference :
    (a b : ℤ) → a ≤ℤ b → b ≤ℤ a +ℤ pos 2147483646 → (k : ℕ) × (k ≤ 2147483646) × (b -ℤ a ≡ pos k)
difference a b h l = (
  pos_part b + neg_part a - (pos_part a + neg_part b),
  ground (arith, h, l, +ℤ_parts a (pos 2147483646)),
  eq_of_parts (b -ℤ a) (pos (pos_part b + neg_part a - (pos_part a + neg_part b)))
      (omega (arith, h, -ℤ_parts b a)),
)

pub divisor :
    (a b : ℤ)
    → a ≤ℤ b
    → b ≤ℤ a +ℤ pos 2147483646
    → (k : ℕ) × (add_int (sub_int b a) (pos 1) ≡ pos (suc k)) × (b -ℤ a ≡ pos k)
unfolding add_int sub_int
divisor a b h l =
    let (k, s, q) = difference a b h l in
    let d : sub_int b a ≡ pos k = ap to_int q ∙ to_int-eq (pos k) (omega arith, omega (arith, s)) in
    (
      k,
      ap (λ z. add_int z (pos 1)) d
          ∙ ap to_int (one_more k)
          ∙ to_int-eq (pos (suc k)) (omega arith, omega (arith, s)),
      q,
    )
  where
    one_more : (k : ℕ) → pos k +ℤ pos 1 ≡ pos (suc k)
    one_more k =
        eq_of_parts (pos k +ℤ pos 1) (pos (suc k)) (omega (arith, +ℤ_parts (pos k) (pos 1)))

-- Where the range has at most 2 ^ 31 - 1 numbers, a number is drawn, and it is in the range.
drawn :
    (v : ℕ) (a b : ℤ)
    → IsInt a
    → IsInt b
    → a ≤ℤ b
    → b ≤ℤ a +ℤ pos 2147483646
    → (r : ℤ) × (rem_int v (add_int (sub_int b a) (pos 1)) ≡ some r)
      × (a ≤ℤ add_int r a)
      × (add_int r a ≤ℤ b)
unfolding add_int rem_int
drawn v a b i j h l =
    let (k, s, q) = divisor a b h l in
    let r : ℤ = pos (v % suc k) in
    let low : v % suc k < suc k = omega arith in
    let parts = +ℤ_parts r a in
    let gap = -ℤ_parts b a in
    let width : pos_part (b -ℤ a) ≡ k = ap pos_part q in
    let signs : neg_part (b -ℤ a) ≡ 0 = ap neg_part q in
    let exact : add_int r a ≡ r +ℤ a = to_int-eq (r +ℤ a) (
      omega (arith, i.0, i.1, j.0, j.1, parts, gap, low, width, signs),
      omega (arith, parts, low),
    ) in
    (
      r,
      ap (rem_int v) s,
      subst (λ z. a ≤ℤ z) (sym exact) (omega (arith, parts)),
      subst (λ z. z ≤ℤ b) (sym exact) (omega (arith, parts, gap, low, width, signs)),
    )

upper-IsInt : (min max : ℤ) → IsInt min → IsInt max → IsInt (upper min max)
upper-IsInt min max i j = if_elim IsInt (ltb_ℤ max min) _ _ (λ _. i) (λ _. j)

-- Where the range has at most 2^31 - 1 numbers, int32_range draws, and what it draws is in the
-- range; where max is below min, it is min.
pub int32_range_bounds :
    (g : Generator) (min max : ℤ) (s : Random)
    → IsInt min
    → IsInt max
    → max ≤ℤ min +ℤ pos 2147483646
    → (z : ℤ) × (t : Random) × (int32_range g min max s ≡ some (z, t))
      × (min ≤ℤ z)
      × (z ≤ℤ upper min max)
unfolding int32_range
int32_range_bounds g min max s i j l =
    let w = rand_int32 g (initial s) in
    let (r, q, a, b) =
      drawn w.0 min (upper min max) i (upper-IsInt min max i j) (upper-le min max) (
        if_elim (λ z. z ≤ℤ min +ℤ pos 2147483646) (ltb_ℤ max min) _ _
          (λ _. omega (arith, +ℤ_parts min (pos 2147483646))) (λ _. l)) in
    (add_int r min, w.1, ap (Option.map (λ r. (add_int r min, w.1))) q, a, b)

-- Whatever the arguments are, uint32_range draws from the range between its ends, after each end
-- above 2^31 - 1 was lowered to it.
uint32_range_bounds :
    (g : Generator) (min max : ℕ) (s : Random)
    → (clamp min ≤ (uint32_range g min max s).0)
      × ((uint32_range g min max s).0
          ≤ (if ltb (clamp max) (clamp min) then clamp min else clamp max))
unfolding uint32_range
uint32_range_bounds g min max s = ground arith
