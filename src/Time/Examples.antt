-- ===== src/Time/Examples.antt =====
-- Runs of the interval checks on concrete times.
use tcp_udp_proxy.Prelude.{
  ℤ, pos, ◌+ℤ◌, ◌*◌, ◌-ℤ◌, ◌≤ℤ◌, ◌≡◌, ℕ, none, true, fault, done, assertion_failed, refl, false,
  List, [], ◌∷◌,
}
use tcp_udp_proxy.Time.{IntervalChecker, new_checker, add_checker, check_key, check_and_update}
use tcp_udp_proxy.Prelude.Maps.{ℕ_eq, lookup, insert}
use tcp_udp_proxy.Time.Manager.{Call, add, check, answers, answers_for, alone, answers_for-answers}
use tcp_udp_proxy.Time.Intervals.{run_checks, check_and_update-spacing}

abbrev times : List ℤ
times = pos 1005 ∷ pos 1010 ∷ pos 1012 ∷ pos 1030 ∷ []

abbrev checker : IntervalChecker
checker = new_checker (pos 10) false (pos 1000)

check_and_update-spacing_example :
    checker.last_time_ms +ℤ pos (10 * (run_checks times checker).0)
    ≤ℤ (run_checks times checker).1.last_time_ms
unfolding new_checker
check_and_update-spacing_example = check_and_update-spacing 10 times checker refl

-- Two keys, one of which is asked for before it is added.
abbrev calls : List (Call ℕ)
calls =
    add 1 (pos 10) true (pos 1000)
    ∷ check 2 (pos 1001)
    ∷ check 1 (pos 1002)
    ∷ add 2 (pos 5) false (pos 1003)
    ∷ check 1 (pos 1004)
    ∷ check 2 (pos 1009)
    ∷ []

answered :
    answers calls []
    ≡ (2, fault assertion_failed) ∷ (1, done true) ∷ (1, done false) ∷ (2, done true) ∷ []
unfolding answers add_checker check_key lookup insert new_checker check_and_update ◌-ℤ◌
answered = refl

answers_for-answers_example : answers_for 1 (answers calls []) ≡ alone 1 calls none
unfolding lookup
answers_for-answers_example = answers_for-answers 1 calls []
