-- ===== src/Random/Unique/Rounds.antt =====
-- src/xrandom.cpp: the `while` loop of `unique_assign`, for one element.
use tcp_udp_proxy.Prelude.{
  ℕ, zero, suc, ◌+◌, ◌%◌, ◌≤◌, ◌<◌, ℤ, pos, add_int, sub_int, ◌-ℤ◌, ◌≤ℤ◌, ltb_ℤ, pos_part, neg_part,
  +ℤ_parts, -ℤ_parts, to_int-eq, IsInt, Bool-cases, true, false, some, List, ◌∷◌, ◌++◌, length,
  if◌then◌else◌, inl, inr, ◌≡◌, refl, sym, ap, subst, ◌∙◌, arith,
}
use mathlib.Core.Option
use native.Mathlib.Nat.{mod-eq_of_lt}
use tcp_udp_proxy.Random.{Generator, Random, initial, rand, rand_int32, rem_int, int32_range}
use tcp_udp_proxy.Random.Unique.{assign_one}
use tcp_udp_proxy.Random.Unique.Numbers.{
  member, repeat_flag-append, set_at-append, number, left_out,
}

-- Each number that `rand` can give comes again and again.
abbrev pub IsFair : Generator → Type 0
IsFair g = (n v : ℕ) → v ≤ 2147483647 → (k : ℕ) × (g.value (n + k) ≡ v)

-- A range that `int32_range` draws from: `width` is one less than the loop_size of its numbers.
module _ (g : Generator) (min max : ℤ) (i : IsInt min) (j : IsInt max) (width : ℕ)
    (q : max -ℤ min ≡ pos width) (h : min ≤ℤ max)
    (e : add_int (sub_int max min) (pos 1) ≡ pos (suc width)) where
  -- What is drawn in a state, and the state after it.
  abbrev drawn : Random → ℤ
  drawn s = number min (g.value (initial s).calls % suc width)

  abbrev after : Random → Random
  after s = (rand_int32 g (initial s)).1

  calls-after : (s : Random) → (initial (after s)).calls ≡ suc (initial s).calls
  unfolding initial rand_int32 rand
  calls-after s = ground arith

  number-Between : (n : ℕ) → n < suc width → (min ≤ℤ number min n) × (number min n ≤ℤ max)
  number-Between n l =
      let w = ap pos_part q in
      let z = ap neg_part q in
      (
        omega (arith, +ℤ_parts (pos n) min),
        omega (arith, l, +ℤ_parts (pos n) min, -ℤ_parts max min, w, z),
      )

  add_int-number : (n : ℕ) → n < suc width → add_int (pos n) min ≡ number min n
  unfolding add_int
  add_int-number n l =
      let (a, b) = number-Between n l in
      to_int-eq (number min n)
        (omega (arith, a, b, i.0, i.1, j.0, j.1), omega (arith, a, b, i.0, i.1, j.0, j.1))

  value-drawn : (s : Random) → (rand_int32 g (initial s)).0 ≡ g.value (initial s).calls
  unfolding initial rand_int32 rand
  value-drawn s = ground arith

  rem_int-drawn :
      (s : Random)
      → rem_int (rand_int32 g (initial s)).0 (add_int (sub_int max min) (pos 1))
        ≡ some (pos (g.value (initial s).calls % suc width))
  unfolding rem_int
  rem_int-drawn s =
      ap (rem_int (rand_int32 g (initial s)).0) e
      ∙ ap (λ v. some (pos (v % suc width))) (value-drawn s)

  int32_range-drawn : (s : Random) → int32_range g min max s ≡ some (drawn s, after s)
  unfolding int32_range
  int32_range-drawn s =
      let limit : (if ltb_ℤ max min then min else max) ≡ max = ground (arith, h) in
      ap
        (λ l.
          Option.map (λ r. (add_int r min, after s))
            (rem_int (rand_int32 g (initial s)).0 (add_int (sub_int l min) (pos 1))))
        limit
      ∙ ap (Option.map (λ r. (add_int r min, after s))) (rem_int-drawn s)
      ∙ ap (λ z. some (z, after s))
          (add_int-number (g.value (initial s).calls % suc width) (omega arith))

  -- A round of the `while` loop.
  assign_one-round :
      (rounds : ℕ) (fs : List ℤ) (y : ℤ) (ys : List ℤ) (s : Random)
      → assign_one (suc rounds) g min max (length fs) (fs ++ y ∷ ys) s ≡ (
          if member (drawn s) fs
          then assign_one rounds g min max (length fs) (fs ++ drawn s ∷ ys) (after s)
          else some (fs ++ drawn s ∷ ys, after s))
  unfolding assign_one
  assign_one-round rounds fs y ys s =
      rw
        (
          int32_range-drawn s,
          set_at-append fs (drawn s) y ys,
          repeat_flag-append (drawn s) fs (drawn s ∷ ys),
          assign_one,
        )
        refl

  -- The loop ends with a new number, within n + 1 rounds.
  abbrev EndsWithin : ℕ → List ℤ → ℤ → List ℤ → Random → Type 0
  EndsWithin n fs y ys s =
      (x : ℤ) × (t : Random) × ((more : ℕ)
        → assign_one (suc (n + more)) g min max (length fs) (fs ++ y ∷ ys) s
          ≡ some (fs ++ x ∷ ys, t))
      × (member x fs ≡ false)
      × (min ≤ℤ x)
      × (x ≤ℤ max)

  is_new :
      (n : ℕ) (fs : List ℤ) (y : ℤ) (ys : List ℤ) (s : Random)
      → member (drawn s) fs ≡ false
      → EndsWithin n fs y ys s
  is_new n fs y ys s new =
      let (a, b) = number-Between (g.value (initial s).calls % suc width) (omega arith) in
      (drawn s, after s, λ more. assign_one-round (n + more) fs y ys s ∙ rw new refl, new, a, b)

  is_old :
      (n : ℕ) (fs : List ℤ) (y : ℤ) (ys : List ℤ) (s : Random)
      → member (drawn s) fs ≡ true
      → EndsWithin n fs (drawn s) ys (after s)
      → EndsWithin (suc n) fs y ys s
  is_old n fs y ys s old (x, t, r, c, a, b) = (
    x,
    t,
    λ more.
        assign_one-round (suc n + more) fs y ys s
        ∙ rw old (
            ap (λ k. assign_one k g min max (length fs) (fs ++ drawn s ∷ ys) (after s))
              (omega arith)
            ∙ r more),
    c,
    a,
    b,
  )

  assign_one-EndsWithin :
      (n : ℕ) (fs : List ℤ) (y : ℤ) (ys : List ℤ) (s : Random)
      → member (number min (g.value ((initial s).calls + n) % suc width)) fs ≡ false
      → EndsWithin n fs y ys s
  assign_one-EndsWithin zero fs y ys s f =
      is_new 0 fs y ys s
        (subst (λ k. member (number min (g.value k % suc width)) fs ≡ false) (omega arith) f)
  assign_one-EndsWithin (suc n) fs y ys s f = elim (Bool-cases (member (drawn s) fs)) [
    | inr new ↦ is_new (suc n) fs y ys s new
    | inl old ↦ is_old n fs y ys s old (
        assign_one-EndsWithin n fs (drawn s) ys (after s) (
          subst (λ k. member (number min (g.value k % suc width)) fs ≡ false)
            (omega (arith, calls-after s)) f))
  ]

  -- With a fair generator and a number left, the loop ends.
  pub assign_one-ends :
      IsFair g
      → width ≤ 2147483647
      → (fs : List ℤ) (y : ℤ) (ys : List ℤ) (s : Random) → length fs ≤ width
      → (n : ℕ) × EndsWithin n fs y ys s
  assign_one-ends fair small fs y ys s l =
      let (m, k, f) = left_out min (suc width) fs (omega (arith, l)) in
      let (n, v) = fair (initial s).calls m (omega (arith, k, small)) in
      (
        n,
        assign_one-EndsWithin n fs y ys s (
            subst (λ a. member (number min a) fs ≡ false)
              (sym (ap (λ a. a % suc width) v ∙ mod-eq_of_lt k)) f),
      )
