-- ===== src/Daemon.antt =====
-- src/xdaemon.h and src/xdaemon.cpp: `guardian`, `daemonize` and `terminate`, as built on Linux. What
-- the system calls answer is an argument.
pub mod Rounds
mod Examples
use tcp_udp_proxy.Prelude.{
  ℕ, zero, suc, ◌+◌, ◌-◌, ltb, ◌==◌, ℤ, pos, ltb_ℤ, Bool, true, false, not, ◌||◌, Option, none,
  some, if◌then◌else◌,
}

-- How a function ends: it returns, it ends the process by `exit`, XASSERT throws, or the process
-- writes through the address -1.
pub data Ending : Type 0 where
  returned : Bool → Ending
  exited : ℕ → Ending
  thrown crashed : Ending

-- The answer of `fork`, -1, 0 in the child or the child's id in the parent, and of `mmap`.
pub data Fork : Type 0 where
  fork_failed in_child in_parent : Fork

pub data Mapping : Type 0 where
  null map_failed mapped : Mapping

-- The local variables of `guardian`.
pub record Guardian : Type 0 where
  pub now_child_cnt : ℕ
  pub times_left : ℕ

-- What a round of the loop sees: the flag when the loop tests it, the flag when it is read again
-- after the loop, the answer of `fork`, and whether `wait` succeeds.
pub record Answers : Type 0 where
  pub running : Bool
  pub still_running : Bool
  pub fork : Fork
  pub waited : Bool

pub data Turn : Type 0 where
  goes_on : Guardian → Turn
  ends : Ending → Turn

-- A round of the loop, or what follows it.
unfoldable pub guardian_turn : ℕ → Answers → Guardian → Turn
guardian_turn child_cnt r g =
    if r.running
    then if ltb g.now_child_cnt child_cnt
      then elim r.fork [
        | fork_failed ↦ ends (returned false)
        | in_child ↦ ends (returned true)
        | in_parent ↦ goes_on (record g { now_child_cnt = g.now_child_cnt + 1 })
      ]
      else if not r.waited
      then ends (returned false)
      else if g.times_left - 1 == 0
      then ends (returned false)
      else goes_on (record { now_child_cnt = g.now_child_cnt - 1; times_left = g.times_left - 1 })
    else if r.still_running
    then ends (returned true)
    else ends (exited 0)

-- The loop, from the n-th round on; none where the fuel runs out.
unfoldable pub guardian_loop : ℕ → ℕ → (ℕ → Answers) → ℕ → Guardian → Option Ending
unfolding guardian_turn
guardian_loop zero child_cnt rounds n g = none
guardian_loop (suc fuel) child_cnt rounds n g = elim (guardian_turn child_cnt (rounds n) g) [
  | goes_on h ↦ guardian_loop fuel child_cnt rounds (n + 1) h
  | ends e ↦ some e
]

-- What comes before the loop. A `child_cnt` below 1 fails the XASSERT. A failed `mmap` gives the
-- address -1, not NULL.
unfoldable pub guardian_begin : Mapping → ℕ → Turn
guardian_begin mapping zero = ends thrown
guardian_begin mapping (suc n) = elim mapping [
  | null ↦ ends (returned false)
  | map_failed ↦ ends crashed
  | mapped ↦ goes_on (record { now_child_cnt = 0; times_left = 10 })
]

unfoldable pub guardian : ℕ → Mapping → (ℕ → Answers) → ℕ → Option Ending
unfolding guardian_begin guardian_loop
guardian fuel mapping rounds child_cnt = elim (guardian_begin mapping child_cnt) [
  | ends e ↦ some e
  | goes_on g ↦ guardian_loop fuel child_cnt rounds 0 g
]

-- After a `fork` with this answer: nothing where the process goes on. The test for a negative answer
-- follows that for one that is not 0.
unfoldable pub leave_parent : ℤ → Option Ending
leave_parent pid =
    if ltb_ℤ pid (pos 0) || ltb_ℤ (pos 0) pid
    then some (exited 0)
    else if ltb_ℤ pid (pos 0)
    then some (exited 1)
    else none

-- The answers are those of the first `fork`, of `setsid` and of the second `fork`.
unfoldable pub daemonize : ℤ → ℤ → ℤ → Ending
unfolding leave_parent
daemonize first_pid session second_pid = elim (leave_parent first_pid) [
  | some e ↦ e
  | none ↦
      if ltb_ℤ session (pos 0)
      then exited 1
      else elim (leave_parent second_pid) [ some e ↦ e | none ↦ returned true ]
]

-- `global_running_flag`, none while it is NULL, and how often `exit_condition` was notified.
pub record ExitState : Type 0 where
  pub global_running_flag : Option Bool
  pub notified : ℕ

unfoldable pub terminate : ExitState → ExitState
terminate s = record {
  global_running_flag = elim s.global_running_flag [ none ↦ none | some _ ↦ some false ];
  notified = s.notified + 1;
}
