-- ===== src/Time/Manager.antt =====
-- src/xttime.h: an `interval_manager` and the checkers of its keys.
use tcp_udp_proxy.Prelude.{
  ℤ, Bool, Option, none, some, List, [], ◌∷◌, if◌then◌else◌, Outcome, done, fault, assertion_failed,
  ◌≡◌, refl, ap, ◌∙◌, Option-cases, inl, inr, arith,
}
use tcp_udp_proxy.Prelude.Maps.{Eq, ◌==◌, lookup, insert, lookup-insert}
use tcp_udp_proxy.Time.{IntervalChecker, new_checker, check_and_update, add_checker, check_key}

-- The calls of a manager. `check` is `check_and_update`, or `check_and_update_now` at the time that
-- it reads.
pub data Call (K : Type 0) : Type 0 where
  add : K → ℤ → Bool → ℤ → Call K
  check : K → ℤ → Call K

-- The checker of one key by itself, none before the first `add` of the key.
unfoldable pub added : ℤ → Bool → ℤ → Option IntervalChecker → Option IntervalChecker
added interval at_once ms none = some (new_checker interval at_once ms)
added interval at_once ms (some c) = some c

unfoldable pub asked : ℤ → Option IntervalChecker → Outcome Bool × Option IntervalChecker
asked check_time none = (fault assertion_failed, none)
asked check_time (some c) = let (ok, d) = check_and_update check_time c in (done ok, some d)

module _ {K : Type 0} ⦃e : Eq K⦄ where
  -- The answers of a manager, each with the key that was asked for. A failed XASSERT leaves the
  -- manager as it was.
  unfoldable pub answers : List (Call K) → List (K × IntervalChecker) → List (K × Outcome Bool)
  answers [] m = []
  answers (add key interval at_once ms ∷ calls) m =
      answers calls (add_checker key interval at_once ms m)
  answers (check key check_time ∷ calls) m = elim (check_key key check_time m) [
    | fault f ↦ (key, fault f) ∷ answers calls m
    | done (ok, next) ↦ (key, done ok) ∷ answers calls next
  ]

  unfoldable pub answers_for : K → List (K × Outcome Bool) → List (Outcome Bool)
  answers_for key [] = []
  answers_for key ((k, r) ∷ rest) =
      if k == key then r ∷ answers_for key rest else answers_for key rest

  -- The answers of the checker of one key to the calls that name it.
  unfoldable pub alone : K → List (Call K) → Option IntervalChecker → List (Outcome Bool)
  alone key [] c = []
  alone key (add k interval at_once ms ∷ calls) c =
      alone key calls (if k == key then added interval at_once ms c else c)
  alone key (check k check_time ∷ calls) c =
      let rest = alone key calls c in
      let (r, d) = asked check_time c in
      let next = alone key calls d in if k == key then r ∷ next else rest

  lookup-add_checker :
      (key k : K) (interval : ℤ) (at_once : Bool) (ms : ℤ) (m : List (K × IntervalChecker))
      → lookup key (add_checker k interval at_once ms m)
        ≡ (if k == key then added interval at_once ms (lookup key m) else lookup key m)
  unfolding add_checker added
  lookup-add_checker key k interval at_once ms m =
      ground (arith, lookup-insert k key (new_checker interval at_once ms) m, e.beq_iff k key)

  -- One call of `check_and_update`, for a key that has no checker and for one that has.
  answers_unknown :
      (k : K) (check_time : ℤ) (calls : List (Call K)) (m : List (K × IntervalChecker))
      → lookup k m ≡ none
      → answers (check k check_time ∷ calls) m ≡ (k, fault assertion_failed) ∷ answers calls m
  unfolding answers check_key
  answers_unknown k check_time calls m h = rw (h, answers, check_key) refl

  answers_known :
      (k : K) (check_time : ℤ) (calls : List (Call K)) (m : List (K × IntervalChecker))
      (c : IntervalChecker)
      → lookup k m ≡ some c
      → answers (check k check_time ∷ calls) m
        ≡ (k, done (check_and_update check_time c).0)
          ∷ answers calls (insert k (check_and_update check_time c).1 m)
  unfolding answers check_key
  answers_known k check_time calls m c h = rw (h, answers, check_key) refl

  unknown :
      (key k : K) (check_time : ℤ) (calls : List (Call K)) (m : List (K × IntervalChecker))
      → lookup k m ≡ none
      → answers_for key (answers calls m) ≡ alone key calls (lookup key m)
      → answers_for key ((k, fault assertion_failed) ∷ answers calls m)
        ≡ alone key (check k check_time ∷ calls) (lookup key m)
  unfolding answers_for alone asked
  unknown key k check_time calls m h ih = ground (arith, e.beq_iff k key)

  known :
      (key k : K) (check_time : ℤ) (calls : List (Call K)) (m : List (K × IntervalChecker))
      (c : IntervalChecker)
      → lookup k m ≡ some c
      → answers_for key (answers calls (insert k (check_and_update check_time c).1 m))
        ≡ alone key calls (lookup key (insert k (check_and_update check_time c).1 m))
      → answers_for key (
          (k, done (check_and_update check_time c).0)
          ∷ answers calls (insert k (check_and_update check_time c).1 m))
        ≡ alone key (check k check_time ∷ calls) (lookup key m)
  unfolding answers_for alone asked
  known key k check_time calls m c h ih =
      ground (arith, e.beq_iff k key, lookup-insert k key (check_and_update check_time c).1 m)

  -- In any sequence of calls, the answers that a manager gives for a key, failed assertions included,
  -- are those that the checker of this key would give by itself to the calls that name the key,
  -- starting with the checker that the manager has for it, if any.
  pub answers_for-answers :
      (key : K) (calls : List (Call K)) (m : List (K × IntervalChecker))
      → answers_for key (answers calls m) ≡ alone key calls (lookup key m)
  unfolding answers_for answers alone
  answers_for-answers key [] m = refl
  answers_for-answers key (add k interval at_once ms ∷ calls) m =
      answers_for-answers key calls (add_checker k interval at_once ms m)
      ∙ ap (alone key calls) (lookup-add_checker key k interval at_once ms m)
  answers_for-answers key (check k check_time ∷ calls) m = elim (Option-cases (lookup k m)) [
    | inl h ↦
        ap (answers_for key) (answers_unknown k check_time calls m h)
        ∙ unknown key k check_time calls m h (answers_for-answers key calls m)
    | inr (c, h) ↦
        ap (answers_for key) (answers_known k check_time calls m c h)
        ∙ known key k check_time calls m c h
            (answers_for-answers key calls (insert k (check_and_update check_time c).1 m))
  ]
