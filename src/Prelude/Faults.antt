-- ===== src/Prelude/Faults.antt =====
-- A run of the code, or the fault that ends it, and the error codes that a completion handler gets.
use Prim.Native.Nat.{ℕ}
use mathlib.Core.Path.{◌≡◌, refl}
use mathlib.Core.Bool.{Bool, true, false}

-- `XASSERT` throws a `trackerr`; an `IPProxy*` is dereferenced that is null or whose object was
-- erased; `remote_endpoint()` throws.
pub data Fault : Type 0 where
  assertion_failed null_dereference dangling_pointer system_error : Fault

pub data Outcome {ℓ} (A : Type ℓ) : Type ℓ where
  done : A → Outcome A
  fault : Fault → Outcome A

infixl 5 ◌>>=◌
abbrev pub ◌>>=◌ {ℓ κ} : {A : Type ℓ} {B : Type κ} → Outcome A → (A → Outcome B) → Outcome B
done a >>= f = f a
fault e >>= f = fault e

-- `boost::system::error_code`, as far as the sources tell its values apart.
pub data ErrorCode : Type 0 where
  success operation_aborted connection_refused connection_reset : ErrorCode
  other_error : ℕ → ErrorCode

abbrev pub is_error : ErrorCode → Bool
is_error success = false
is_error _ = true

-- A run that ends satisfies P, and the only fault is the exception that `remote_endpoint()` throws.
abbrev pub Safe : {A : Type 0} → (A → Type 0) → Outcome A → Type 0
Safe P (done a) = P a
Safe P (fault assertion_failed) = ⊥
Safe P (fault null_dereference) = ⊥
Safe P (fault dangling_pointer) = ⊥
Safe P (fault system_error) = Unit {0}

pub Safe-bind :
    {A B : Type 0} (P : A → Type 0) (Q : B → Type 0) (m : Outcome A) (f : A → Outcome B)
    → Safe P m
    → ((a : A) → P a → Safe Q (f a))
    → Safe Q (m >>= f)
Safe-bind P Q (done a) f h k = k a h
Safe-bind P Q (fault assertion_failed) f h k = absurd h
Safe-bind P Q (fault null_dereference) f h k = absurd h
Safe-bind P Q (fault dangling_pointer) f h k = absurd h
Safe-bind P Q (fault system_error) f h k = tt

pub Safe-both :
    {A : Type 0} (P Q : A → Type 0) (m : Outcome A) → Safe P m → Safe Q m → Safe (λ a. P a × Q a) m
Safe-both P Q (done a) p q = (p, q)
Safe-both P Q (fault assertion_failed) p q = p
Safe-both P Q (fault null_dereference) p q = p
Safe-both P Q (fault dangling_pointer) p q = p
Safe-both P Q (fault system_error) p q = tt

-- A run that ends satisfies P, and `remote_endpoint()` does not throw on the way.
abbrev pub Unthrown : {A : Type 0} → (A → Type 0) → Outcome A → Type 0
Unthrown P (done a) = P a
Unthrown P (fault assertion_failed) = Unit {0}
Unthrown P (fault null_dereference) = Unit {0}
Unthrown P (fault dangling_pointer) = Unit {0}
Unthrown P (fault system_error) = ⊥

pub Unthrown-bind :
    {A B : Type 0} (P : A → Type 0) (Q : B → Type 0) (m : Outcome A) (f : A → Outcome B)
    → Unthrown P m
    → ((a : A) → P a → Unthrown Q (f a))
    → Unthrown Q (m >>= f)
Unthrown-bind P Q (done a) f h k = k a h
Unthrown-bind P Q (fault assertion_failed) f h k = tt
Unthrown-bind P Q (fault null_dereference) f h k = tt
Unthrown-bind P Q (fault dangling_pointer) f h k = tt
Unthrown-bind P Q (fault system_error) f h k = absurd h

-- A run ends without a fault, and satisfies P.
abbrev pub Runs : {A : Type 0} → (A → Type 0) → Outcome A → Type 0
Runs P (done a) = P a
Runs P (fault e) = ⊥

pub Runs-bind :
    {A B : Type 0} (P : A → Type 0) (Q : B → Type 0) (m : Outcome A) (f : A → Outcome B)
    → Runs P m
    → ((a : A) → P a → Runs Q (f a))
    → Runs Q (m >>= f)
Runs-bind P Q (done a) f h k = k a h
Runs-bind P Q (fault e) f h k = absurd h

pub Safe-Runs :
    {A : Type 0} (P Q : A → Type 0) (m : Outcome A)
    → Safe P m
    → Unthrown Q m
    → Runs (λ a. P a × Q a) m
Safe-Runs P Q (done a) h k = (h, k)
Safe-Runs P Q (fault assertion_failed) h k = absurd h
Safe-Runs P Q (fault null_dereference) h k = absurd h
Safe-Runs P Q (fault dangling_pointer) h k = absurd h
Safe-Runs P Q (fault system_error) h k = absurd k

pub Runs-Safe : {A : Type 0} (P : A → Type 0) (m : Outcome A) → Runs P m → Safe P m
Runs-Safe P (done a) h = h
Runs-Safe P (fault e) h = absurd h

pub Runs-done :
    {A : Type 0} (P : A → Type 0) (m : Outcome A) → Runs P m → (a : A) × (m ≡ done a) × P a
Runs-done P (done a) h = (a, refl, h)
Runs-done P (fault e) h = absurd h

-- A run that ends without a fault satisfies P.
abbrev pub Ends : {A : Type 0} → (A → Type 0) → Outcome A → Type 0
Ends P (done a) = P a
Ends P (fault e) = Unit {0}

pub Ends-bind :
    {A B : Type 0} (P : A → Type 0) (Q : B → Type 0) (m : Outcome A) (f : A → Outcome B)
    → Ends P m
    → ((a : A) → P a → Ends Q (f a))
    → Ends Q (m >>= f)
Ends-bind P Q (done a) f h k = k a h
Ends-bind P Q (fault e) f h k = tt

pub Ends-any : {A : Type 0} (P : A → Type 0) (m : Outcome A) → ((a : A) → P a) → Ends P m
Ends-any P (done a) h = h a
Ends-any P (fault e) h = tt
