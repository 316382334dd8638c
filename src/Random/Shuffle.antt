-- ===== src/Random/Shuffle.antt =====
-- src/xrandom.h: what `arrange` leaves in the buffer.
use mathlib.Core.List.{Perm, Permᴰ, perm-cons}
use mathlib.Core.List.Perm
use mathlib.Core.Option.{some-injective}
use tcp_udp_proxy.Prelude.{
  ℕ, zero, suc, ◌+◌, ◌-◌, ◌%◌, ◌≤◌, ◌<◌, ltb, ℤ, pos, negsuc, ◌+ℤ◌, ◌≤ℤ◌, sub_int, ◌-ℤ◌, IsInt,
  to_int, to_int-eq, eq_of_parts, -ℤ_parts, +ℤ_parts, Option, some, List, [], ◌∷◌, length, if_elim,
  ◌≡◌, refl, sym, ap, subst, ◌∙◌, arith,
}
use tcp_udp_proxy.Random.{
  Generator, Random, get_elem?, set, exchange, index, arrange_one, arrange_from, arrange,
}
use tcp_udp_proxy.Random.Ranges.{int32_range_bounds}

module _ {A : Type 0} where
  set-Perm :
      (xs : List A) (i : ℕ) (x y : A) → get_elem? xs i ≡ some x → Permᴰ (x ∷ set xs i y) (y ∷ xs)
  unfolding get_elem? set
  set-Perm [] i x y q = absurd (cc)
  set-Perm (z ∷ xs) zero x y q = Permᴰ.swap (some-injective x z (sym q)) refl
  set-Perm (z ∷ xs) (suc i) x y q =
      Permᴰ.trans (Permᴰ.swap refl refl)
        (Permᴰ.trans (Permᴰ.cons refl (set-Perm xs i x y q)) (Permᴰ.swap refl refl))

  get_elem?-set :
      (xs : List A) (i j : ℕ) (x y : A)
      → get_elem? xs i ≡ some y
      → get_elem? xs j ≡ some x
      → get_elem? (set xs i x) j ≡ some x
  unfolding get_elem? set
  get_elem?-set [] i j x y p q = q
  get_elem?-set (z ∷ xs) zero zero x y p q = refl
  get_elem?-set (z ∷ xs) zero (suc j) x y p q = q
  get_elem?-set (z ∷ xs) (suc i) zero x y p q = q
  get_elem?-set (z ∷ xs) (suc i) (suc j) x y p q = get_elem?-set xs i j x y p q

  get_elem?-length : (xs : List A) (i : ℕ) → i < length xs → (x : A) × (get_elem? xs i ≡ some x)
  unfolding get_elem?
  get_elem?-length [] i h = absurd (omega (arith, h))
  get_elem?-length (x ∷ xs) zero h = (x, refl)
  get_elem?-length (x ∷ xs) (suc i) h = get_elem?-length xs i (omega (arith, h))

  length-set : (xs : List A) (i : ℕ) (y : A) → length (set xs i y) ≡ length xs
  unfolding set
  length-set [] i y = refl
  length-set (x ∷ xs) zero y = refl
  length-set (x ∷ xs) (suc i) y = omega (arith, length-set xs i y)

  exchange-Perm :
      (buf : List A) (i j : ℕ)
      → i < length buf
      → j < length buf
      → (b : List A) × (exchange buf i j ≡ some b) × Perm b buf × (length b ≡ length buf)
  unfolding exchange
  exchange-Perm buf i j h k =
      let (temp, p) = get_elem?-length buf i h in
      let (x, q) = get_elem?-length buf j k in
      (
        set (set buf i x) j temp,
        rw (p, q, exchange) refl,
        (perm-cons x).0
            ∣ Permᴰ.trans (set-Perm (set buf i x) j x temp (get_elem?-set buf i j x temp p q))
              (set-Perm buf i temp x p) ∣₁,
        length-set (set buf i x) j temp ∙ length-set buf i x,
      )

-- What is drawn is an index.
index_lem : (n : ℕ) (z : ℤ) → pos 0 ≤ℤ z → (i : ℕ) × (index z ≡ some i)
index_lem n (pos i) h = (i, refl)
index_lem n (negsuc i) h = absurd (omega (arith, h))

last_eq : (n : ℕ) → 1 ≤ n → n ≤ 2147483647 → sub_int (pos n) (pos 1) ≡ pos (n - 1)
unfolding sub_int
last_eq n h l =
    ap to_int
      (eq_of_parts (pos n -ℤ pos 1) (pos (n - 1)) (omega (arith, h, -ℤ_parts (pos n) (pos 1))))
    ∙ to_int-eq (pos (n - 1)) (omega arith, omega (arith, l))

-- The range of the indices is one that `int32_range` draws from.
last_bounds :
    (n : ℕ)
    → 1 ≤ n
    → n ≤ 2147483647
    → IsInt (sub_int (pos n) (pos 1)) × (sub_int (pos n) (pos 1) ≤ℤ pos 0 +ℤ pos 2147483646)
last_bounds n h l =
    subst (λ z. IsInt z × (z ≤ℤ pos 0 +ℤ pos 2147483646)) (sym (last_eq n h l))
      ((omega arith, omega (arith, l)), omega (arith, l, +ℤ_parts (pos 0) (pos 2147483646)))

module _ {A : Type 0} (g : Generator) (size : ℕ) where
  -- The loop ends, on the same elements.
  abbrev Same : List A → Option (List A × Random) → Type 0
  Same buf o =
      (b : List A) × (t : Random) × (o ≡ some (b, t)) × Perm b buf × (length b ≡ length buf)

  arrange_one-Same :
      (i : ℕ) (buf : List A) (s : Random)
      → i < size
      → size ≤ length buf
      → size ≤ 2147483647
      → Same buf (arrange_one g size i buf s)
  unfolding arrange_one
  arrange_one-Same i buf s h k l =
      let last : ℤ = sub_int (pos size) (pos 1) in
      let (k0, k1) = last_bounds size (omega (arith, h)) l in
      let (z, t, q, a, b) = int32_range_bounds g (pos 0) last s (omega arith, omega arith) k0 k1 in
      let (drawn, p) = index_lem size z a in
      let (buf', e, same, n) =
        exchange-Perm buf i (drawn % size) (omega (arith, h, k)) (omega (arith, h, k)) in
      (buf', t, rw (q, p, e, arrange_one) refl, same, n)

  arrange_from-Same :
      (n i : ℕ) (buf : List A) (s : Random)
      → i + n ≤ size
      → size ≤ length buf
      → size ≤ 2147483647
      → Same buf (arrange_from g size n i buf s)
  unfolding arrange_from
  arrange_from-Same zero i buf s h k l = (buf, s, refl, Perm.refl buf, refl)
  arrange_from-Same (suc n) i buf s h k l =
      let (b, t, q, same, m) = arrange_one-Same i buf s (omega (arith, h)) k l in
      let (c, u, p, again, o) =
        arrange_from-Same n (i + 1) b t (omega (arith, h)) (omega (arith, k, m)) l in
      (c, u, rw (q, arrange_from) p, Perm.trans again same, o ∙ m)

  -- For a size that an int holds, and not beyond the buffer's end: arrange ends, whatever is drawn,
  -- and leaves the same elements in the buffer, in some order.
  pub arrange-Perm :
      (buf : List A) (s : Random)
      → size ≤ length buf
      → size ≤ 2147483647
      → (b : List A) × (t : Random) × (arrange g buf size s ≡ some (b, t))
        × Perm b buf
        × (length b ≡ length buf)
  unfolding arrange
  arrange-Perm buf s k l =
      if_elim (Same buf) (ltb 0 size) _ _ (λ _. arrange_from-Same size 0 buf s (omega arith) k l)
        (λ _. (buf, s, refl, Perm.refl buf, refl))
