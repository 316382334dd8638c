-- ===== src/Thread/Levels.antt =====
-- src/xthread.cpp: the levels that a thread holds.
use tcp_udp_proxy.Prelude.{
  ℕ, ◌≤◌, ◌==◌, ℤ, pos, ◌<ℤ◌, ◌≤ℤ◌, pos_part, Bool, true, not, ◌&&◌, List, [], ◌∷◌, length, if_elim,
  ◌≡◌, arith,
}
use tcp_udp_proxy.Thread.{
  XrecursiveMutex, nocare_primary_level, eq_int, below_top, is_top, pop, lock, unlock,
}

-- Each level is above the next one, and all are in [0, bound).
abbrev pub Ordered : ℕ → List ℤ → Type 0
Ordered bound [] = Unit {0}
Ordered bound (level ∷ levels) =
    (pos 0 ≤ℤ level) × (level <ℤ pos bound) × (below_top level levels ≡ true) × Ordered bound levels

-- The levels of a thread after calls of lock and unlock, in any order, on mutexes with levels below
-- the bound.
pub data Reach (bound : ℕ) : List ℤ → Type 0 where
  started : Reach bound []
  locks :
      {levels : List ℤ} (mtx : XrecursiveMutex)
      → Reach bound levels
      → nocare_primary_level ≤ℤ mtx.pri_level
      → mtx.pri_level <ℤ pos bound
      → Reach bound (lock mtx levels).2
  unlocks :
      {levels : List ℤ} (mtx : XrecursiveMutex)
      → Reach bound levels
      → Reach bound (unlock mtx levels).1

module _ (bound : ℕ) where
  pop-Ordered : (levels : List ℤ) → Ordered bound levels → Ordered bound (pop levels)
  pop-Ordered [] h = tt
  pop-Ordered (level ∷ levels) (p, q, b, h) = h

  lock-Ordered :
      (mtx : XrecursiveMutex) (levels : List ℤ)
      → nocare_primary_level ≤ℤ mtx.pri_level
      → mtx.pri_level <ℤ pos bound
      → Ordered bound levels
      → Ordered bound (lock mtx levels).2
  unfolding lock
  lock-Ordered mtx levels p q h =
      if_elim P (eq_int mtx.pri_level nocare_primary_level) _ _ (λ _. h)
        (λ n.
          if_elim P (not (mtx.recursion_count == 0)) _ _ (λ _. h)
            (λ _.
              if_elim P (below_top mtx.pri_level levels) _ _ (λ b. (ground (arith, n, p), q, b, h))
                (λ _. h)))
    where
      P : Bool × XrecursiveMutex × List ℤ → Type 0
      P z = Ordered bound z.2

  unlock-Ordered :
      (mtx : XrecursiveMutex) (levels : List ℤ)
      → Ordered bound levels
      → Ordered bound (unlock mtx levels).1
  unfolding unlock
  unlock-Ordered mtx levels h =
      if_elim (λ (z : XrecursiveMutex × List ℤ). Ordered bound z.1)
        (not (eq_int mtx.pri_level nocare_primary_level)
          && (mtx.recursion_count == 1)
          && is_top mtx.pri_level levels)
        _ _ (λ _. pop-Ordered levels h) (λ _. h)

  Reach-Ordered : {levels : List ℤ} → Reach bound levels → Ordered bound levels
  Reach-Ordered started = tt
  Reach-Ordered (locks {levels = levels} mtx r p q) = lock-Ordered mtx levels p q (Reach-Ordered r)
  Reach-Ordered (unlocks {levels = levels} mtx r) = unlock-Ordered mtx levels (Reach-Ordered r)

  top_above :
      (level : ℤ) (levels : List ℤ)
      → below_top level levels ≡ true
      → Ordered bound levels
      → pos 0 ≤ℤ level
      → length levels ≤ pos_part level
  top_above level [] b h p = omega arith
  top_above level (top ∷ levels) b (p, q, c, h) z =
      let below = top_above top levels c h p in ground (arith, b, below, p, z)

  -- In every such state the levels are in strict order, and there are at most as many as levels
  -- below the bound: with a bound of 1024 the array of quick_int_stack is long enough.
  pub levels-Ordered :
      {levels : List ℤ} → Reach bound levels → Ordered bound levels × (length levels ≤ bound)
  levels-Ordered {levels} r = (Reach-Ordered r, few levels (Reach-Ordered r))
    where
      few : (ls : List ℤ) → Ordered bound ls → length ls ≤ bound
      few [] h = omega arith
      few (level ∷ ls) (p, q, b, h) =
          let below = top_above level ls b h p in ground (arith, q, p, below)
