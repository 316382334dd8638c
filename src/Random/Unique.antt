-- ===== src/Random/Unique.antt =====
-- src/xrandom.cpp: `unique_assign`. Its `while` loop ends only by chance, so it runs on fuel.
pub mod Numbers
pub mod Rounds
pub mod Ends
use tcp_udp_proxy.Prelude.{
  ℕ, zero, suc, ◌+◌, ◌==◌, ℤ, pos, negsuc, add_int, sub_int, ltb_ℤ, Bool, true, false, ◌||◌, Option,
  none, some, List, [], ◌∷◌, if◌then◌else◌,
}
use mathlib.Core.Option
use tcp_udp_proxy.Random.{Generator, Random, get_elem?, set, int32_range}

abbrev pub equal_int : ℤ → ℤ → Bool
equal_int (pos m) (pos n) = m == n
equal_int (pos m) (negsuc n) = false
equal_int (negsuc m) (pos n) = false
equal_int (negsuc m) (negsuc n) = m == n

-- `buf[i] = x`; none where i is out of bounds.
unfoldable pub set_at : List ℤ → ℕ → ℤ → Option (List ℤ)
set_at [] i x = none
set_at (y ∷ ys) zero x = some (x ∷ ys)
set_at (y ∷ ys) (suc i) x = Option.map (◌∷◌ y) (set_at ys i x)

-- `repeat_flag`: x, which is buf[i], is among the i elements before it.
unfoldable pub repeat_flag : ℤ → ℕ → List ℤ → Bool
repeat_flag x zero buf = false
repeat_flag x (suc i) [] = false
repeat_flag x (suc i) (y ∷ ys) = equal_int x y || repeat_flag x i ys

-- The `while` loop for the index i, in at most so many rounds; none where they are not enough.
unfoldable pub assign_one : ℕ → Generator → ℤ → ℤ → ℕ → List ℤ → Random → Option (List ℤ × Random)
unfolding int32_range set_at repeat_flag
assign_one zero g min max i buf s = none
assign_one (suc rounds) g min max i buf s = elim (int32_range g min max s) [
  | none ↦ none
  | some (x, t) ↦ elim (set_at buf i x) [
    | none ↦ none
    | some b ↦
        let again = assign_one rounds g min max i b t in
        if repeat_flag x i b then again else some (b, t)
  ]
]

-- The `for` loop, for the n indices from i.
unfoldable pub assign_from :
    ℕ → Generator → ℤ → ℤ → ℕ → ℕ → List ℤ → Random → Option (List ℤ × Random)
unfolding assign_one
assign_from rounds g min max zero i buf s = some (buf, s)
assign_from rounds g min max (suc n) i buf s = elim (assign_one rounds g min max i buf s) [
  | none ↦ none
  | some (b, t) ↦ assign_from rounds g min max n (i + 1) b t
]

abbrev pub loop_size : ℤ → ℕ
loop_size (pos n) = n
loop_size (negsuc n) = 0

unfoldable pub unique_assign :
    ℕ → Generator → List ℤ → ℤ → ℤ → ℤ → Random → Option (Bool × List ℤ × Random)
unfolding assign_from
unique_assign rounds g buf size min max s =
    if ltb_ℤ max min || ltb_ℤ (add_int (sub_int max min) (pos 1)) size
    then some (false, buf, s)
    else Option.map (λ r. (true, r.0, r.1)) (assign_from rounds g min max (loop_size size) 0 buf s)
