-- ===== src/Random.antt =====
-- src/xrandom.h and src/xrandom.cpp: `global::random`. What `rand` gives after `srand` is a
-- parameter. `RAND_MAX` is 0x7FFFFFFF, as on Linux.
pub mod Ranges
pub mod Shuffle
pub mod Unique
mod Examples
use tcp_udp_proxy.Prelude.{
  ℕ, zero, suc, ◌+◌, ◌-◌, ◌%◌, ◌≤◌, ltb, ◌==◌, ℤ, pos, negsuc, add_int, sub_int, ltb_ℤ, Bool, true,
  false, Option, none, some, ◌>>=◌, List, [], ◌∷◌, if◌then◌else◌,
}
use mathlib.Core.Option

abbrev pub global_rand_max : ℕ
global_rand_max = 2147483647

-- The values that `rand` gives after `srand`.
pub record Generator : Type 0 where
  pub value : ℕ → ℕ
  pub small : (n : ℕ) → value n ≤ 2147483647

-- `calls` counts the calls of `rand` since `srand`.
pub record Random : Type 0 where
  pub initial_flag : Bool
  pub calls : ℕ

unfoldable pub initial : Random → Random
initial s = if s.initial_flag then s else record { initial_flag = true; calls = 0 }

unfoldable pub rand : Generator → Random → ℕ × Random
rand g s = (g.value s.calls, record s { calls = s.calls + 1 })

unfoldable pub rand_int32 : Generator → Random → ℕ × Random
unfolding initial rand
rand_int32 g s = rand g (initial s)

unfoldable pub bool_T_F : Generator → Random → Bool × Random
unfolding initial rand
bool_T_F g s = let (v, t) = rand g (initial s) in (v % 2 == 0, t)

unfoldable pub int32_0_1 : Generator → Random → ℤ × Random
unfolding initial rand
int32_0_1 g s = let (v, t) = rand g (initial s) in (pos (v % 2), t)

unfoldable pub uint32_0_1 : Generator → Random → ℕ × Random
unfolding initial rand
uint32_0_1 g s = let (v, t) = rand g (initial s) in (v % 2, t)

-- `%` of a number that is not negative; none where it divides by 0.
unfoldable pub rem_int : ℕ → ℤ → Option ℤ
rem_int a (pos zero) = none
rem_int a (pos (suc n)) = some (pos (a % suc n))
rem_int a (negsuc n) = some (pos (a % suc n))

unfoldable pub int32_range : Generator → ℤ → ℤ → Random → Option (ℤ × Random)
unfolding initial rand_int32 rem_int
int32_range g min max s =
    let limit : ℤ = if ltb_ℤ max min then min else max in
    let drawn = rand_int32 g (initial s) in
    Option.map (λ r. (add_int r min, drawn.1))
      (rem_int drawn.0 (add_int (sub_int limit min) (pos 1)))

abbrev pub clamp : ℕ → ℕ
clamp n = if ltb global_rand_max n then global_rand_max else n

-- `uint32` arithmetic; the divisor is at least 1.
unfoldable pub uint32_range : Generator → ℕ → ℕ → Random → ℕ × Random
unfolding initial rand_int32
uint32_range g min max s =
    let low : ℕ = clamp min in
    let high : ℕ = clamp max in
    let limit : ℕ = if ltb high low then low else high in
    let drawn = rand_int32 g (initial s) in
    ((drawn.0 % ((limit - low + 1) % 4294967296) + low) % 4294967296, drawn.1)

-- `buf[i]`, and `buf[i] = x` for an element that is there.
unfoldable pub get_elem? : {A : Type 0} → List A → ℕ → Option A
get_elem? [] i = none
get_elem? (x ∷ xs) zero = some x
get_elem? (x ∷ xs) (suc i) = get_elem? xs i

unfoldable pub set : {A : Type 0} → List A → ℕ → A → List A
set [] i y = []
set (x ∷ xs) zero y = y ∷ xs
set (x ∷ xs) (suc i) y = x ∷ set xs i y

-- The exchange of `buf[i]` and `buf[j]`; none where one of them is out of bounds.
unfoldable pub exchange : {A : Type 0} → List A → ℕ → ℕ → Option (List A)
unfolding get_elem? set
exchange buf i j = elim (get_elem? buf i) [
  | none ↦ none
  | some temp ↦ elim (get_elem? buf j) [ none ↦ none | some x ↦ some (set (set buf i x) j temp) ]
]

abbrev pub index : ℤ → Option ℕ
index (pos n) = some n
index (negsuc n) = none

-- One round of the loop of `arrange`, for the index i of `size` elements.
unfoldable pub arrange_one :
    {A : Type 0} → Generator → ℕ → ℕ → List A → Random → Option (List A × Random)
unfolding int32_range exchange rem_int
arrange_one g size i buf s = elim (int32_range g (pos 0) (sub_int (pos size) (pos 1)) s) [
  | none ↦ none
  | some (r, t) ↦ elim (index r) [
    | none ↦ none
    | some drawn ↦ Option.map (λ b. (b, t)) (exchange buf i (drawn % size))
  ]
]

-- The rounds for the n indices from i.
unfoldable pub arrange_from :
    {A : Type 0} → Generator → ℕ → ℕ → ℕ → List A → Random → Option (List A × Random)
unfolding arrange_one
arrange_from g size zero i buf s = some (buf, s)
arrange_from g size (suc n) i buf s = elim (arrange_one g size i buf s) [
  | none ↦ none
  | some (b, t) ↦ arrange_from g size n (i + 1) b t
]

unfoldable pub arrange : {A : Type 0} → Generator → List A → ℕ → Random → Option (List A × Random)
unfolding arrange_from
arrange g buf size s = if ltb 0 size then arrange_from g size size 0 buf s else some (buf, s)
