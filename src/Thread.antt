-- ===== src/Thread.antt =====
-- src/xthread.h and src/xthread.cpp: `xrecursive_mutex` and `condition_variable_recursive_mutex`, as
-- one thread uses them: what follows a `mutex.lock()` that has returned. The mutex and the condition
-- of Boost are not modelled.
pub mod Levels
pub mod Waits
mod Examples
use tcp_udp_proxy.Prelude.{
  ℕ, zero, suc, ◌+◌, ◌-◌, ◌==◌, ℤ, pos, negsuc, leb_ℤ, Bool, true, false, not, ◌&&◌, List, [], ◌∷◌,
  if◌then◌else◌, Outcome, done, fault, ◌>>=◌, assertion_failed,
}

abbrev pub nocare_primary_level : ℤ
nocare_primary_level = negsuc 0

abbrev pub eq_int : ℤ → ℤ → Bool
eq_int a b = leb_ℤ a b && leb_ℤ b a

-- `recursion_count` is 0 while the thread does not hold the mutex.
pub record XrecursiveMutex : Type 0 where
  pub recursion_count : ℕ
  pub pri_level : ℤ

unfoldable pub new_mutex : ℤ → Outcome XrecursiveMutex
new_mutex pri_level =
    if leb_ℤ nocare_primary_level pri_level
    then done (record { recursion_count = 0; pri_level = pri_level })
    else fault assertion_failed

-- `quick_int_stack` is a list, its top first; none is made like an empty one.
abbrev pub below_top : ℤ → List ℤ → Bool
below_top level [] = true
below_top level (top ∷ levels) = not (leb_ℤ level top)

abbrev pub is_top : ℤ → List ℤ → Bool
is_top level [] = false
is_top level (top ∷ levels) = eq_int top level

abbrev pub pop : List ℤ → List ℤ
pop [] = []
pop (top ∷ levels) = levels

-- What `lock` leaves, and whether it did not throw.
unfoldable pub lock : XrecursiveMutex → List ℤ → Bool × XrecursiveMutex × List ℤ
lock mtx levels =
    let locked : XrecursiveMutex = record mtx { recursion_count = mtx.recursion_count + 1 } in
    if eq_int mtx.pri_level nocare_primary_level
    then (true, locked, levels)
    else if not (mtx.recursion_count == 0)
    then (true, locked, levels)
    else if below_top mtx.pri_level levels
    then (true, locked, mtx.pri_level ∷ levels)
    else (false, mtx, levels)

-- Where the level is not the top one, `unlock` logs and leaves the stack. The caller holds the mutex,
-- so that its count is positive.
unfoldable pub unlock : XrecursiveMutex → List ℤ → XrecursiveMutex × List ℤ
unlock mtx levels =
    let unlocked : XrecursiveMutex = record mtx { recursion_count = mtx.recursion_count - 1 } in
    if not (eq_int mtx.pri_level nocare_primary_level)
      && (mtx.recursion_count == 1)
      && is_top mtx.pri_level levels
    then (unlocked, pop levels)
    else (unlocked, levels)

unfoldable pub check : XrecursiveMutex → List ℤ → Outcome (Unit {0})
check mtx levels =
    if eq_int mtx.pri_level nocare_primary_level
    then done tt
    else if is_top mtx.pri_level levels
    then done tt
    else fault assertion_failed

-- The loops of `wait` over `extra_lock`.
unfoldable pub unlock_extra : ℕ → XrecursiveMutex → List ℤ → XrecursiveMutex × List ℤ
unfolding unlock
unlock_extra zero mtx levels = (mtx, levels)
unlock_extra (suc i) mtx levels = let (m, l) = unlock mtx levels in unlock_extra i m l

unfoldable pub lock_extra : ℕ → XrecursiveMutex → List ℤ → Outcome (XrecursiveMutex × List ℤ)
unfolding lock
lock_extra zero mtx levels = done (mtx, levels)
lock_extra (suc i) mtx levels =
    let (ok, m, l) = lock mtx levels in
    elim ok [ true ↦ lock_extra i m l | false ↦ fault assertion_failed ]

-- `XASSERT(mtx.get_recursion_count() == 1)`
abbrev pub assert_once : XrecursiveMutex → Outcome (Unit {0})
assert_once mtx = if mtx.recursion_count == 1 then done tt else fault assertion_failed

-- The condition's wait unlocks the mutex and locks it again; then the extra locks are taken again.
unfoldable pub wait_once : ℕ → XrecursiveMutex × List ℤ → Outcome (XrecursiveMutex × List ℤ)
unfolding lock_extra unlock lock
wait_once extra_lock (m1, l1) = do
  once ← assert_once m1
  let (m2, l2) = unlock m1 l1
  (m3, l3) ← lock_extra 1 m2 l2
  lock_extra extra_lock m3 l3

-- `wait`, and `timed_wait` but for its result.
unfoldable pub wait : XrecursiveMutex → List ℤ → Outcome (XrecursiveMutex × List ℤ)
unfolding check unlock_extra wait_once
wait mtx levels = do
  ok ← check mtx levels
  let extra_lock : ℕ = mtx.recursion_count - 1
  wait_once extra_lock (unlock_extra extra_lock mtx levels)
