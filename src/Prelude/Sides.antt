-- ===== src/Prelude/Sides.antt =====
-- The two-element arrays `x[2]` that the sources index by `pair_id`, 0 or 1.
use mathlib.Core.Path.{◌≡◌, refl}

pub data PairId : Type 0 where
  p0 p1 : PairId

-- `1 - pair_id`
abbrev pub other : PairId → PairId
other p0 = p1
other p1 = p0

pub record Pair (A : Type 0) : Type 0 where
  pub at0 : A
  pub at1 : A

abbrev pub get : {A : Type 0} → PairId → Pair A → A
get p0 x = x.at0
get p1 x = x.at1

abbrev pub put : {A : Type 0} → PairId → A → Pair A → Pair A
put p0 a x = record x { at0 = a }
put p1 a x = record x { at1 = a }

abbrev pub both : {A : Type 0} → A → Pair A
both a = record { at0 = a; at1 = a }

pub get-put_self : {A : Type 0} (p : PairId) (a : A) (x : Pair A) → get p (put p a x) ≡ a
get-put_self p0 a x = refl
get-put_self p1 a x = refl

pub get-put-other :
    {A : Type 0} (p : PairId) (a : A) (x : Pair A) → get (other p) (put p a x) ≡ get (other p) x
get-put-other p0 a x = refl
get-put-other p1 a x = refl
