-- ===== src/Daemon/Examples.antt =====
-- A guardian of one child whose child ends once, and the processes of `daemonize`.
use tcp_udp_proxy.Prelude.{ℕ, zero, suc, ◌+◌, ◌≤◌, ◌≡◌, refl, pos, negsuc, true, false, some, arith}
use tcp_udp_proxy.Daemon.{
  Ending, returned, exited, in_parent, in_child, mapped, Answers, guardian_turn, guardian_begin,
  guardian, daemonize, terminate,
}
use tcp_udp_proxy.Daemon.Rounds.{Reach, begins, forks, waits, Reach_bounds, IsEndOf, guardian_ends}

-- The parent forks, waits and forks again; then it is in the new child.
rounds : ℕ → Answers
rounds zero = record { running = true; still_running = true; fork = in_parent; waited = true }
rounds (suc zero) = record { running = true; still_running = true; fork = in_parent; waited = true }
rounds (suc (suc n)) = record {
  running = true;
  still_running = true;
  fork = in_child;
  waited = true;
}

restarted : guardian 30 mapped rounds 1 ≡ some (returned true)
unfolding guardian rounds
restarted = refl

guardian_ends_example : (e : Ending) × (guardian 20 mapped rounds 1 ≡ some e) × IsEndOf mapped 1 e
guardian_ends_example = guardian_ends mapped rounds 1 20 (omega arith)

-- After a fork and a wait.
reached : Reach 1 1 1 (record { now_child_cnt = 0; times_left = 9 })
unfolding guardian_turn guardian_begin rounds
reached =
    waits {g = record { now_child_cnt = 1; times_left = 10 }} (rounds 1)
      (forks (rounds 0) (begins mapped refl) refl (omega arith)) refl (omega arith)

Reach_bounds_example : (1 ≤ 1 + 1) × (1 ≤ 9) × (1 ≤ 1 + 9)
Reach_bounds_example = Reach_bounds reached

-- The grandchild goes on.
daemon : daemonize (pos 0) (pos 7) (pos 0) ≡ returned true
unfolding daemonize
daemon = refl

-- A failed `fork` ends the process with the status 0.
fork_fails : daemonize (negsuc 0) (pos 7) (pos 0) ≡ exited 0
unfolding daemonize
fork_fails = refl

cleared :
    terminate (record { global_running_flag = some true; notified = 0 })
    ≡ record { global_running_flag = some false; notified = 1 }
unfolding terminate
cleared = refl
