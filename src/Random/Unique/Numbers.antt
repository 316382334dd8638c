-- ===== src/Random/Unique/Numbers.antt =====
-- src/xrandom.cpp: the numbers that `unique_assign` has given out, and those that are left.
use tcp_udp_proxy.Prelude.{
  ℕ, zero, suc, ◌≤◌, ◌<◌, ℤ, pos, negsuc, ◌+ℤ◌, ◌≤ℤ◌, pos_part, neg_part, +ℤ_parts, Bool,
  Bool-cases, true, false, ◌||◌, some, List, [], ◌∷◌, ◌++◌, length, if◌then◌else◌, inl, inr, ◌≡◌,
  refl, ap, subst, ◌∙◌, arith,
}
use mathlib.Core.Option
use tcp_udp_proxy.Random.Unique.{equal_int, set_at, repeat_flag}

abbrev pub member : ℤ → List ℤ → Bool
member x [] = false
member x (y ∷ ys) = equal_int x y || member x ys

-- The elements differ from one another, and lie between two bounds.
abbrev pub Distinct : List ℤ → Type 0
Distinct [] = Unit {0}
Distinct (x ∷ xs) = (member x xs ≡ false) × Distinct xs

abbrev pub Between : ℤ → ℤ → List ℤ → Type 0
Between min max [] = Unit {0}
Between min max (x ∷ xs) = (min ≤ℤ x) × (x ≤ℤ max) × Between min max xs

equal_int-eq : (x y : ℤ) → equal_int x y ≡ true → x ≡ y
equal_int-eq (pos m) (pos n) h = ground (arith, h)
equal_int-eq (pos m) (negsuc n) h = absurd (cc)
equal_int-eq (negsuc m) (pos n) h = absurd (cc)
equal_int-eq (negsuc m) (negsuc n) h = ground (arith, h)

equal_int_sym : (x y : ℤ) → equal_int x y ≡ equal_int y x
equal_int_sym (pos m) (pos n) = ground arith
equal_int_sym (pos m) (negsuc n) = refl
equal_int_sym (negsuc m) (pos n) = refl
equal_int_sym (negsuc m) (negsuc n) = ground arith

pub repeat_flag-append :
    (x : ℤ) (fs : List ℤ) (ys : List ℤ) → repeat_flag x (length fs) (fs ++ ys) ≡ member x fs
unfolding repeat_flag
repeat_flag-append x [] ys = refl
repeat_flag-append x (f ∷ fs) ys = ap (λ b. equal_int x f || b) (repeat_flag-append x fs ys)

pub set_at-append :
    (fs : List ℤ) (x y : ℤ) (ys : List ℤ)
    → set_at (fs ++ y ∷ ys) (length fs) x ≡ some (fs ++ x ∷ ys)
unfolding set_at
set_at-append [] x y ys = refl
set_at-append (f ∷ fs) x y ys = ap (Option.map (◌∷◌ f)) (set_at-append fs x y ys)

-- Without one number.
abbrev remove : ℤ → List ℤ → List ℤ
remove x [] = []
remove x (y ∷ ys) = let rest = remove x ys in if equal_int x y then rest else y ∷ rest

length-remove : (x : ℤ) (l : List ℤ) → length (remove x l) ≤ length l
length-remove x [] = omega arith
length-remove x (y ∷ ys) = ground (arith, length-remove x ys)

length-remove-member :
    (x : ℤ) (l : List ℤ) → member x l ≡ true → suc (length (remove x l)) ≤ length l
length-remove-member x [] h = absurd (cc)
length-remove-member x (y ∷ ys) h = ground (arith, h, length-remove x ys, length-remove-member x ys)

member-remove :
    (x y : ℤ) (l : List ℤ)
    → equal_int x y ≡ false
    → member x (remove y l) ≡ false
    → member x l ≡ false
member-remove x y [] d h = refl
member-remove x y (z ∷ zs) d h = elim (Bool-cases (equal_int y z)) [
  | inl t ↦ ground (
    arith,
    h,
    t,
    member-remove x y zs d,
    subst (λ w. equal_int x w ≡ false) (equal_int-eq y z t) d,
  )
  | inr f ↦ ground (arith, h, f, member-remove x y zs d)
]

-- The n-th number from min.
abbrev pub number : ℤ → ℕ → ℤ
number min n = pos n +ℤ min

number-unequal : (min : ℤ) (m n : ℕ) → m < n → equal_int (number min m) (number min n) ≡ false
number-unequal min m n h = elim (Bool-cases (equal_int (number min m) (number min n))) [
  | inl t ↦
      let e = equal_int-eq (number min m) (number min n) t in
      absurd
        (omega (arith, h, +ℤ_parts (pos m) min, +ℤ_parts (pos n) min, ap pos_part e, ap neg_part e))
  | inr f ↦ f
]

-- Fewer numbers than there are in the range leave one out.
pub left_out :
    (min : ℤ) (w : ℕ) (l : List ℤ)
    → length l < w
    → (n : ℕ) × (n < w) × (member (number min n) l ≡ false)
left_out min zero l h = absurd (omega (arith, h))
left_out min (suc w) l h = elim (Bool-cases (member (number min w) l)) [
  | inl t ↦
      let (n, k, f) =
        left_out min w (remove (number min w) l)
          (omega (arith, h, length-remove-member (number min w) l t)) in
      (
        n,
        omega (arith, k),
        member-remove (number min n) (number min w) l (number-unequal min n w k) f,
      )
  | inr f ↦ (w, omega arith, f)
]

member-append :
    (z x : ℤ) (fs : List ℤ)
    → member z fs ≡ false
    → equal_int z x ≡ false
    → member z (fs ++ x ∷ []) ≡ false
member-append z x [] h d = ground (arith, d)
member-append z x (f ∷ fs) h d = ground (arith, h, member-append z x fs, d)

pub Distinct-append :
    (x : ℤ) (fs : List ℤ) → Distinct fs → member x fs ≡ false → Distinct (fs ++ x ∷ [])
Distinct-append x [] h d = (refl, tt)
Distinct-append x (f ∷ fs) (a, h) d = (
  member-append f x fs a (equal_int_sym f x ∙ ground (arith, d)),
  Distinct-append x fs h (ground (arith, d)),
)

pub Between-append :
    (min max x : ℤ) (fs : List ℤ)
    → Between min max fs
    → min ≤ℤ x
    → x ≤ℤ max
    → Between min max (fs ++ x ∷ [])
Between-append min max x [] h a b = (a, b, tt)
Between-append min max x (f ∷ fs) (u, v, h) a b = (u, v, Between-append min max x fs h a b)
