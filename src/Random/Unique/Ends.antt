-- ===== src/Random/Unique/Ends.antt =====
-- src/xrandom.cpp: `unique_assign` ends, with different numbers.
use tcp_udp_proxy.Prelude.{
  ℕ, suc, ◌+◌, ◌≤◌, ℤ, pos, add_int, sub_int, ◌+ℤ◌, ◌-ℤ◌, ◌≤ℤ◌, ltb_ℤ, pos_part, neg_part, +ℤ_parts,
  -ℤ_parts, IsInt, true, false, some, List, [], ◌∷◌, ◌++◌, length, length-append, ◌≡◌, refl, sym,
  ap, ◌∙◌, arith,
}
use mathlib.Core.List.{append_assoc}
use tcp_udp_proxy.Random.{Generator, Random}
use tcp_udp_proxy.Random.Ranges.{divisor}
use tcp_udp_proxy.Random.Unique.{assign_one, assign_from, unique_assign}
use tcp_udp_proxy.Random.Unique.Numbers.{Distinct, Between, Distinct-append, Between-append}
use tcp_udp_proxy.Random.Unique.Rounds.{IsFair, assign_one-ends}

assign_from-next :
    (rounds : ℕ) (g : Generator) (min max : ℤ) (n i : ℕ) (buf b : List ℤ) (s t : Random)
    → assign_one rounds g min max i buf s ≡ some (b, t)
    → assign_from rounds g min max (suc n) i buf s ≡ assign_from rounds g min max n (i + 1) b t
unfolding assign_from
assign_from-next rounds g min max n i buf b s t h = rw (h, assign_from) refl

module _ (g : Generator) (min max : ℤ) (i : IsInt min) (j : IsInt max) (width : ℕ)
    (q : max -ℤ min ≡ pos width) (h : min ≤ℤ max)
    (e : add_int (sub_int max min) (pos 1) ≡ pos (suc width)) (fair : IsFair g)
    (small : width ≤ 2147483647) (rest : List ℤ) where
  -- The `for` loop ends, and what it leaves before `rest`.
  abbrev Fills : List ℤ → List ℤ → Random → Type 0
  Fills fs old s =
      (rounds : ℕ) × (new : List ℤ) × (t : Random) × ((more : ℕ)
        → assign_from (rounds + more) g min max (length old) (length fs) (fs ++ (old ++ rest)) s
          ≡ some (new ++ rest, t))
      × Distinct new
      × Between min max new
      × (length new ≡ length fs + length old)

  Fills-next :
      (fs : List ℤ) (y x : ℤ) (ys : List ℤ) (s t : Random) (n : ℕ)
      → ((more : ℕ)
          → assign_one (suc (n + more)) g min max (length fs) (fs ++ y ∷ (ys ++ rest)) s
            ≡ some (fs ++ x ∷ (ys ++ rest), t))
      → Fills (fs ++ x ∷ []) ys t
      → Fills fs (y ∷ ys) s
  Fills-next fs y x ys s t n one (rounds, new, u, more_rounds, c, b, l) = (
    suc (n + rounds),
    new,
    u,
    λ more.
        ap (λ k. assign_from k g min max (length (y ∷ ys)) (length fs) (fs ++ y ∷ (ys ++ rest)) s)
          (omega arith)
        ∙ assign_from-next (suc (n + (rounds + more))) g min max (length ys) (length fs)
            (fs ++ y ∷ (ys ++ rest)) (fs ++ x ∷ (ys ++ rest)) s t (one (rounds + more))
        ∙ ap (λ k. assign_from k g min max (length ys) (length fs + 1) (fs ++ x ∷ (ys ++ rest)) t)
            (omega arith)
        ∙ ap
            (λ k.
              assign_from (rounds + (suc n + more)) g min max (length ys) k (fs ++ x ∷ (ys ++ rest))
                t)
            (omega (arith, length-append fs (x ∷ [])))
        ∙ ap
            (λ b.
              assign_from (rounds + (suc n + more)) g min max (length ys) (length (fs ++ x ∷ [])) b
                t)
            (sym (append_assoc fs (x ∷ []) (ys ++ rest)))
        ∙ more_rounds (suc n + more),
    c,
    b,
    omega (arith, l, length-append fs (x ∷ [])),
  )

  assign_from-Fills :
      (fs old : List ℤ) (s : Random)
      → Distinct fs
      → Between min max fs
      → length fs + length old ≤ suc width
      → Fills fs old s
  unfolding assign_from
  assign_from-Fills fs [] s c b l = (0, fs, s, λ more. refl, c, b, omega arith)
  assign_from-Fills fs (y ∷ ys) s c b l =
      let (n, (x, t, one, new, lo, hi)) =
        assign_one-ends g min max i j width q h e fair small fs y (ys ++ rest) s
          (omega (arith, l)) in
      Fills-next fs y x ys s t n one (
        assign_from-Fills (fs ++ x ∷ []) ys t (Distinct-append x fs c new)
          (Between-append min max x fs b lo hi) (omega (arith, l, length-append fs (x ∷ []))))

-- With a generator that gives each of its numbers again and again, on a range with at most 2^31 - 1
-- numbers, and at least as many as there are elements to assign: unique_assign ends, in any number
-- of rounds from some number on, and leaves in these elements numbers of the range that differ from
-- one another, and the rest of the buffer as it was.
pub unique_assign_ends :
    (g : Generator) (min max : ℤ) (old rest : List ℤ) (s : Random)
    → IsFair g
    → IsInt min
    → IsInt max
    → min ≤ℤ max
    → max ≤ℤ min +ℤ pos 2147483646
    → min +ℤ pos (length old) ≤ℤ max +ℤ pos 1
    → (rounds : ℕ) × (new : List ℤ) × (t : Random) × ((more : ℕ)
        → unique_assign (rounds + more) g (old ++ rest) (pos (length old)) min max s
          ≡ some (true, new ++ rest, t))
      × Distinct new
      × Between min max new
      × (length new ≡ length old)
unfolding unique_assign
unique_assign_ends g min max old rest s fair i j h l fit =
    let (k, e, q) = divisor min max h l in
    let w = ap pos_part q in
    let z = ap neg_part q in
    let parts = -ℤ_parts max min in
    let few : length old ≤ suc k =
      omega (arith, fit, w, z, parts, +ℤ_parts min (pos (length old)), +ℤ_parts max (pos 1)) in
    let small : k ≤ 2147483647 = omega (arith, l, w, z, parts, +ℤ_parts min (pos 2147483646)) in
    let (rounds, new, t, runs, c, b, n) =
      assign_from-Fills g min max i j k q h e fair small rest [] old s tt tt (omega (arith, few)) in
    let not_refused : ltb_ℤ (pos (suc k)) (pos (length old)) ≡ false = ground (arith, few) in
    let in_order : ltb_ℤ max min ≡ false = ground (arith, h) in
    (
      rounds,
      new,
      t,
      λ more. rw (in_order, e, not_refused, runs more, unique_assign) refl,
      c,
      b,
      omega (arith, n),
    )
