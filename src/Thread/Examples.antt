-- ===== src/Thread/Examples.antt =====
-- A thread with mutexes of the levels 3 and 5.
use tcp_udp_proxy.Prelude.{◌≤◌, ℤ, pos, false, List, [], ◌∷◌, length, done, ◌≡◌, refl, inr, arith}
use tcp_udp_proxy.Thread.{lock, unlock, check, unlock_extra, lock_extra, wait_once, wait}
use tcp_udp_proxy.Thread.Waits.{held, wait_restores}
use tcp_udp_proxy.Thread.Levels.{Ordered, Reach, started, locks, levels-Ordered}

methods : Unit {0}
unfolding lock unlock check unlock_extra lock_extra wait_once wait
methods = tt

abbrev both_held : List ℤ
both_held = pos 5 ∷ pos 3 ∷ []

both_reached : Reach 1024 both_held
unfolding methods
both_reached =
    locks (held 0 (pos 5)) (locks (held 0 (pos 3)) started (omega arith) (omega arith))
      (omega arith) (omega arith)

levels-Ordered_example : Ordered 1024 both_held × (length both_held ≤ 1024)
unfolding methods
levels-Ordered_example = levels-Ordered 1024 both_reached

-- The mutex was locked three times.
wait_restores_example : wait (held 3 (pos 5)) both_held ≡ done (held 3 (pos 5), both_held)
unfolding methods
wait_restores_example = wait_restores (pos 5) 2 both_held (inr (refl, refl, refl))

-- A mutex with a lower level is refused.
wrong_order : lock (held 0 (pos 4)) both_held ≡ (false, held 0 (pos 4), both_held)
unfolding methods
wrong_order = refl

-- Unlocking the lower mutex first leaves its level on the stack.
stale_level : (unlock (held 1 (pos 5)) (unlock (held 1 (pos 3)) both_held).1).1 ≡ pos 3 ∷ []
unfolding methods
stale_level = refl
