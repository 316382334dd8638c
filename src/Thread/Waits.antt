-- ===== src/Thread/Waits.antt =====
-- src/xthread.cpp: what a wait leaves of the mutex and of the levels of the thread.
use tcp_udp_proxy.Prelude.{
  ℕ, zero, suc, ◌+◌, ◌-◌, ◌==◌, ℤ, Bool, true, false, not, ◌&&◌, List, [], ◌∷◌, if_elim, Outcome,
  done, fault, ◌>>=◌, assertion_failed, ◌≡◌, refl, sym, ap, subst, ◌∙◌, ◌⊎◌, inl, inr, arith,
}
use tcp_udp_proxy.Thread.{
  XrecursiveMutex, nocare_primary_level, eq_int, below_top, is_top, lock, unlock, check,
  unlock_extra, lock_extra, wait_once, wait,
}

abbrev pub held : ℕ → ℤ → XrecursiveMutex
held n level = record { recursion_count = n; pri_level = level }

-- The levels of a thread that may wait on a mutex: its level is on top, above a lower one, or it has
-- no level.
abbrev pub OnTop : ℤ → List ℤ → Type 0
OnTop level [] = eq_int level nocare_primary_level ≡ true
OnTop level (top ∷ levels) =
    (eq_int level nocare_primary_level ≡ true)
    ⊎ ((eq_int level nocare_primary_level ≡ false)
        × (top ≡ level)
        × (below_top level levels ≡ true))

module _ (level : ℤ) where
  -- With more than one lock held, the levels stay.
  unlock_inner :
      (n : ℕ) (levels : List ℤ)
      → unlock (held (suc (suc n)) level) levels ≡ (held (suc n) level, levels)
  unfolding unlock
  unlock_inner n levels =
      if_elim (λ z. z ≡ (held (suc n) level, levels))
        (not (eq_int level nocare_primary_level) && (suc (suc n) == 1) && is_top level levels) _ _
        (λ t. absurd (ground (arith, t))) (λ _. ap (λ m. (held m level, levels)) (omega arith))

  lock_inner :
      (n : ℕ) (levels : List ℤ)
      → lock (held (suc n) level) levels ≡ (true, held (suc n + 1) level, levels)
  unfolding lock
  lock_inner n levels =
      if_elim P (eq_int level nocare_primary_level) _ _ (λ _. refl)
        (λ _. if_elim P (not (suc n == 0)) _ _ (λ _. refl) (λ f. absurd (ground (arith, f))))
    where
      P : Bool × XrecursiveMutex × List ℤ → Type 0
      P z = z ≡ (true, held (suc n + 1) level, levels)

  unlock_extra_eq :
      (i n : ℕ) (levels : List ℤ)
      → unlock_extra i (held (suc (i + n)) level) levels ≡ (held (suc n) level, levels)
  unfolding unlock_extra
  unlock_extra_eq zero n levels = ap (λ m. (held (suc m) level, levels)) (omega arith)
  unlock_extra_eq (suc i) n levels =
      ap (λ m. unlock_extra (suc i) (held (suc m) level) levels) (omega arith)
      ∙ ap (λ z. unlock_extra i z.0 z.1) (unlock_inner (i + n) levels)
      ∙ unlock_extra_eq i n levels

  lock_more : ℕ → Bool × XrecursiveMutex × List ℤ → Outcome (XrecursiveMutex × List ℤ)
  lock_more i (ok, m, l) = elim ok [ true ↦ lock_extra i m l | false ↦ fault assertion_failed ]

  lock_extra_eq :
      (i n : ℕ) (levels : List ℤ)
      → lock_extra i (held (suc n) level) levels ≡ done (held (suc (n + i)) level, levels)
  unfolding lock_extra lock_more
  lock_extra_eq zero n levels = ap (λ m. done (held (suc m) level, levels)) (omega arith)
  lock_extra_eq (suc i) n levels =
      ap (lock_more i) (lock_inner n levels)
      ∙ ap (λ m. lock_extra i (held m level) levels) (omega arith)
      ∙ lock_extra_eq i (suc n) levels
      ∙ ap (λ m. done (held (suc m) level, levels)) (omega arith)

  -- A mutex without a level.
  module _ (q : eq_int level nocare_primary_level ≡ true) (levels : List ℤ) where
    unlock_nocare : unlock (held 1 level) levels ≡ (held 0 level, levels)
    unfolding unlock
    unlock_nocare =
        if_elim (λ z. z ≡ (held 0 level, levels))
          (not (eq_int level nocare_primary_level) && (1 == 1) && is_top level levels) _ _
          (λ t. absurd (ground (arith, t, q))) (λ _. refl)

    lock_nocare : lock (held 0 level) levels ≡ (true, held 1 level, levels)
    unfolding lock
    lock_nocare =
        if_elim (λ z. z ≡ (true, held 1 level, levels)) (eq_int level nocare_primary_level) _ _
          (λ _. refl) (λ f. absurd (ground (arith, f, q)))

  -- A mutex with a level, which is above the others.
  module _ (q : eq_int level nocare_primary_level ≡ false) (levels : List ℤ) where
    unlock_top : unlock (held 1 level) (level ∷ levels) ≡ (held 0 level, levels)
    unfolding unlock
    unlock_top =
        if_elim (λ z. z ≡ (held 0 level, levels))
          (not (eq_int level nocare_primary_level) && (1 == 1) && is_top level (level ∷ levels)) _ _
          (λ _. refl) (λ f. absurd (ground (arith, f, q)))

    lock_top :
        below_top level levels ≡ true
        → lock (held 0 level) levels ≡ (true, held 1 level, level ∷ levels)
    unfolding lock
    lock_top b =
        if_elim P (eq_int level nocare_primary_level) _ _ (λ t. absurd (ground (arith, t, q)))
          (λ _.
            if_elim P (below_top level levels) _ _ (λ _. refl) (λ f. absurd (ground (arith, f, b))))
      where
        P : Bool × XrecursiveMutex × List ℤ → Type 0
        P z = z ≡ (true, held 1 level, level ∷ levels)

  -- The condition's own unlock and lock.
  around :
      (levels : List ℤ)
      → OnTop level levels
      → (w : XrecursiveMutex × List ℤ) × (unlock (held 1 level) levels ≡ w)
        × (lock_extra 1 w.0 w.1 ≡ done (held 1 level, levels))
  unfolding lock_extra lock_more
  around [] q = ((held 0 level, []), unlock_nocare q [], ap (lock_more 0) (lock_nocare q []))
  around (top ∷ levels) (inl q) = (
    (held 0 level, top ∷ levels),
    unlock_nocare q (top ∷ levels),
    ap (lock_more 0) (lock_nocare q (top ∷ levels)),
  )
  around (top ∷ levels) (inr (q, t, b)) = (
    (held 0 level, levels),
    ap (λ x. unlock (held 1 level) (x ∷ levels)) t ∙ unlock_top q levels,
    ap (lock_more 0) (lock_top q levels b) ∙ ap (λ x. done (held 1 level, x ∷ levels)) (sym t),
  )

  check-OnTop :
      (n : ℕ) (levels : List ℤ) → OnTop level levels → check (held n level) levels ≡ done tt
  unfolding check
  check-OnTop n levels o =
      if_elim (λ z. z ≡ done tt) (eq_int level nocare_primary_level) _ _ (λ _. refl)
        (λ f.
          if_elim (λ z. z ≡ done tt) (is_top level levels) _ _ (λ _. refl)
            (λ g. absurd (none_on_top levels o f g)))
    where
      none_on_top :
          (ls : List ℤ)
          → OnTop level ls
          → eq_int level nocare_primary_level ≡ false
          → is_top level ls ≡ false
          → ⊥
      none_on_top [] q f g = cc
      none_on_top (top ∷ ls) (inl q) f g = cc
      none_on_top (top ∷ ls) (inr (q, t, b)) f g =
          absurd (ground (arith, subst (λ x. eq_int x level ≡ false) t g))

  wait_once_eq :
      (n : ℕ) (levels : List ℤ)
      → OnTop level levels
      → wait_once n (held 1 level, levels) ≡ done (held (suc n) level, levels)
  unfolding wait_once
  wait_once_eq n levels o =
      let (w, u, r) = around levels o in
      ap (λ z. lock_extra 1 z.0 z.1 >>= λ y. lock_extra n y.0 y.1) u
      ∙ ap (λ x. x >>= λ y. lock_extra n y.0 y.1) r
      ∙ lock_extra_eq n 0 levels
      ∙ ap (λ m. done (held (suc m) level, levels)) (omega arith)

  -- For a mutex that the thread has locked, any number of times, and whose level is on top of the
  -- thread's levels, or which has none: wait ends without a failed assertion, and leaves the mutex
  -- locked as often as before and the levels as they were.
  pub wait_restores :
      (n : ℕ) (levels : List ℤ)
      → OnTop level levels
      → wait (held (suc n) level) levels ≡ done (held (suc n) level, levels)
  unfolding wait
  wait_restores n levels o =
      ap
        (λ c.
          c >>= λ ok. wait_once (suc n - 1) (unlock_extra (suc n - 1) (held (suc n) level) levels))
        (check-OnTop (suc n) levels o)
      ∙ ap (λ k. wait_once k (unlock_extra k (held (suc n) level) levels)) (one_less n)
      ∙ ap (λ k. wait_once n (unlock_extra n (held (suc k) level) levels)) (plus_none n)
      ∙ ap (wait_once n) (unlock_extra_eq n 0 levels)
      ∙ wait_once_eq n levels o
    where
      one_less : (k : ℕ) → suc k - 1 ≡ k
      one_less k = omega arith

      plus_none : (k : ℕ) → k ≡ k + 0
      plus_none k = omega arith
