-- ===== src/Prelude/Maps.antt =====
-- `std::map` as an association list in which a key stands once. The order of the keys is not
-- modelled: it decides only in which order a loop visits the entries.
use Prim.Native.Nat.{ℕ}
use mathlib.Core.Path.{◌≡◌, refl, subst}
use mathlib.Core.Logic.{◌↔◌}
use mathlib.Core.Bool.{Bool, true, false, ◌||◌}
use mathlib.Core.Option.{Option, none, some}
use mathlib.Core.List.{List, [], ◌∷◌}
use native.Mathlib.Omega.{arith}
use tcp_udp_proxy.Prelude.Tests.{if_elim, if◌then◌else◌, ◌==◌ as nat_eq, ==_iff}

-- Equality of keys.
pub record Eq (A : Type 0) : Type 0 where
  pub beq : A → A → Bool
  pub beq_iff : (a b : A) → (beq a b ≡ true) ↔ (a ≡ b)

infix 50 ◌==◌
abbrev pub ◌==◌ : {A : Type 0} ⦃e : Eq A⦄ → A → A → Bool
◌==◌ ⦃e⦄ = e.beq

instance abbrev pub ℕ_eq : Eq ℕ
ℕ_eq = record { beq = nat_eq; beq_iff = ==_iff }

module _ {K : Type 0} ⦃e : Eq K⦄ where
  unfoldable pub contains : List K → K → Bool
  contains [] a = false
  contains (x ∷ xs) a = x == a || contains xs a

module _ {K V : Type 0} ⦃e : Eq K⦄ where
  unfoldable pub lookup : K → List (K × V) → Option V
  lookup a [] = none
  lookup a ((b, x) ∷ rest) = if b == a then some x else lookup a rest

  unfoldable pub erase : K → List (K × V) → List (K × V)
  erase a [] = []
  erase a ((b, y) ∷ rest) = let kept = erase a rest in if b == a then kept else (b, y) ∷ kept

  -- `m[a] = x`
  unfoldable pub insert : K → V → List (K × V) → List (K × V)
  insert a x [] = (a, x) ∷ []
  insert a x ((b, y) ∷ rest) = if b == a then (a, x) ∷ rest else (b, y) ∷ insert a x rest

  abbrev pub IsMap : List (K × V) → Type 0
  IsMap [] = Unit {0}
  IsMap ((a, x) ∷ rest) = (lookup a rest ≡ none) × IsMap rest

  pub lookup-insert :
      (a b : K) (x : V) (rest : List (K × V))
      → lookup b (insert a x rest) ≡ (if a == b then some x else lookup b rest)
  unfolding lookup insert
  lookup-insert a b x [] = refl
  lookup-insert a b x ((c, y) ∷ rest) =
      ground (arith, e.beq_iff a b, e.beq_iff c a, e.beq_iff c b, lookup-insert a b x rest)

  pub lookup-erase :
      (a b : K) (rest : List (K × V))
      → lookup b (erase a rest) ≡ (if a == b then none else lookup b rest)
  unfolding lookup erase
  lookup-erase a b [] = ground arith
  lookup-erase a b ((c, y) ∷ rest) =
      ground (arith, e.beq_iff a b, e.beq_iff c a, e.beq_iff c b, lookup-erase a b rest)

  pub insert-IsMap : (a : K) (x : V) (rest : List (K × V)) → IsMap rest → IsMap (insert a x rest)
  unfolding insert lookup
  insert-IsMap a x [] h = (refl, tt)
  insert-IsMap a x ((c, y) ∷ rest) h =
      if_elim IsMap (c == a) _ _
        (λ t. (subst (λ b. lookup b rest ≡ none) ((e.beq_iff c a).0 t) h.0, h.1))
        (λ t. (
          ground (arith, lookup-insert a c x rest, e.beq_iff a c, e.beq_iff c a),
          insert-IsMap a x rest h.1,
        ))

  pub erase-IsMap : (a : K) (rest : List (K × V)) → IsMap rest → IsMap (erase a rest)
  unfolding erase
  erase-IsMap a [] h = tt
  erase-IsMap a ((c, y) ∷ rest) h =
      if_elim IsMap (c == a) _ _ (λ t. erase-IsMap a rest h.1)
        (λ t. (ground (arith, lookup-erase a c rest), erase-IsMap a rest h.1))

  -- Erases each key of a list.
  unfoldable pub erase_all : List K → List (K × V) → List (K × V)
  unfolding erase
  erase_all [] rest = rest
  erase_all (a ∷ gone) rest = erase_all gone (erase a rest)

  pub lookup-erase_all :
      (gone : List K) (b : K) (rest : List (K × V))
      → lookup b (erase_all gone rest) ≡ (if contains gone b then none else lookup b rest)
  unfolding erase_all contains
  lookup-erase_all [] b rest = refl
  lookup-erase_all (a ∷ gone) b rest =
      ground (arith, lookup-erase_all gone b (erase a rest), lookup-erase a b rest)

  pub erase_all-IsMap :
      (gone : List K) (rest : List (K × V)) → IsMap rest → IsMap (erase_all gone rest)
  unfolding erase_all
  erase_all-IsMap [] rest h = h
  erase_all-IsMap (a ∷ gone) rest h = erase_all-IsMap gone (erase a rest) (erase-IsMap a rest h)
