-- ===== src/Daemon/Rounds.antt =====
-- src/xdaemon.h: the loop of `guardian` ends, and how many children it makes.
use tcp_udp_proxy.Prelude.{
  ℕ, zero, suc, ◌+◌, ◌-◌, ◌*◌, ◌≤◌, ◌<◌, ◌≡◌, refl, ltb, ◌==◌, if_elim, subst, not, true, false,
  some, ◌⊎◌, inl, inr, arith,
}
use tcp_udp_proxy.Daemon.{
  Ending, returned, exited, thrown, crashed, Fork, fork_failed, in_child, in_parent, Mapping, null,
  map_failed, mapped, Guardian, Answers, Turn, goes_on, ends, guardian_turn, guardian_loop,
  guardian_begin, guardian,
}

-- The states of the loop of a guardian of child_cnt children, after so many forks and so many waits.
pub data Reach (child_cnt : ℕ) : ℕ → ℕ → Guardian → Type 0 where
  begins :
      {g : Guardian} (mapping : Mapping)
      → guardian_begin mapping child_cnt ≡ goes_on g
      → Reach child_cnt 0 0 g
  forks :
      {f w : ℕ} {g h : Guardian} (r : Answers)
      → Reach child_cnt f w g
      → guardian_turn child_cnt r g ≡ goes_on h
      → g.now_child_cnt < child_cnt
      → Reach child_cnt (suc f) w h
  waits :
      {f w : ℕ} {g h : Guardian} (r : Answers)
      → Reach child_cnt f w g
      → guardian_turn child_cnt r g ≡ goes_on h
      → child_cnt ≤ g.now_child_cnt
      → Reach child_cnt f (suc w) h

record Accounted (child_cnt f w : ℕ) (g : Guardian) : Type 0 where
  alive : g.now_child_cnt + w ≡ f
  left : g.times_left + w ≡ 10
  some_left : 1 ≤ g.times_left
  bounded : g.now_child_cnt ≤ child_cnt
  wanted : 1 ≤ child_cnt

-- What the loop begins with.
guardian_begin-Accounted :
    (mapping : Mapping) (child_cnt : ℕ) {g : Guardian}
    → guardian_begin mapping child_cnt ≡ goes_on g
    → Accounted child_cnt 0 0 g
unfolding guardian_begin
guardian_begin-Accounted mapping zero e = absurd (cc)
guardian_begin-Accounted null (suc n) e = absurd (cc)
guardian_begin-Accounted map_failed (suc n) e = absurd (cc)
guardian_begin-Accounted mapped (suc n) e = ground arith

-- A round that goes on forks or waits.
module _ (child_cnt : ℕ) (r : Answers) (g : Guardian) {h : Guardian}
    (e : guardian_turn child_cnt r g ≡ goes_on h) where
  after_fork :
      g.now_child_cnt < child_cnt
      → (h.now_child_cnt ≡ g.now_child_cnt + 1) × (h.times_left ≡ g.times_left)
  unfolding guardian_turn
  after_fork l = ground arith

  after_wait :
      child_cnt ≤ g.now_child_cnt
      → (h.now_child_cnt ≡ g.now_child_cnt - 1)
        × (h.times_left ≡ g.times_left - 1)
        × (2 ≤ g.times_left)
  unfolding guardian_turn
  after_wait l = ground arith

Reach-Accounted :
    {child_cnt f w : ℕ} {g : Guardian} → Reach child_cnt f w g → Accounted child_cnt f w g
Reach-Accounted {child_cnt} (begins mapping e) = guardian_begin-Accounted mapping child_cnt e
Reach-Accounted {child_cnt} (forks {g = g} r reached e l) =
    ground (arith, Reach-Accounted reached, after_fork child_cnt r g e l)
Reach-Accounted {child_cnt} (waits {g = g} r reached e l) =
    ground (arith, Reach-Accounted reached, after_wait child_cnt r g e l)

-- In each state that the loop of the guardian of child_cnt children reaches, from the state that
-- guardian gives it: at most child_cnt children that were not waited for, at most 9 waits, and at
-- most child_cnt + 9 forks.
pub Reach_bounds :
    {child_cnt f w : ℕ} {g : Guardian}
    → Reach child_cnt f w g
    → (f ≤ child_cnt + w) × (w ≤ 9) × (f ≤ child_cnt + 9)
Reach_bounds reached = ground (arith, Reach-Accounted reached)

-- The rounds that are left at most.
abbrev rounds_left : ℕ → Guardian → ℕ
rounds_left child_cnt g = child_cnt - g.now_child_cnt + 2 * g.times_left - 1

guardian_turn_measure :
    (child_cnt : ℕ) (r : Answers) (g : Guardian) {h : Guardian}
    → guardian_turn child_cnt r g ≡ goes_on h
    → g.now_child_cnt ≤ child_cnt
    → 1 ≤ child_cnt
    → 1 ≤ g.times_left
    → (rounds_left child_cnt h < rounds_left child_cnt g)
      × (h.now_child_cnt ≤ child_cnt)
      × (1 ≤ h.times_left)
unfolding guardian_turn
guardian_turn_measure child_cnt r g e a b c = ground arith

Turn-cases : (t : Turn) → ((h : Guardian) × (t ≡ goes_on h)) ⊎ ((e : Ending) × (t ≡ ends e))
Turn-cases (goes_on h) = inl (h, refl)
Turn-cases (ends e) = inr (e, refl)

-- The loop ends by a return or by `exit(0)`.
abbrev pub IsOrderly : Ending → Type 0
IsOrderly (returned b) = Unit {0}
IsOrderly (exited n) = n ≡ 0
IsOrderly thrown = ⊥
IsOrderly crashed = ⊥

abbrev EndsOrderly : Turn → Type 0
EndsOrderly (goes_on h) = Unit {0}
EndsOrderly (ends e) = IsOrderly e

after_fork_orderly :
    (f : Fork) (h : Guardian)
    → EndsOrderly (elim f [
      | fork_failed ↦ ends (returned false)
      | in_child ↦ ends (returned true)
      | in_parent ↦ goes_on h
    ])
after_fork_orderly fork_failed h = tt
after_fork_orderly in_child h = tt
after_fork_orderly in_parent h = tt

guardian_turn-EndsOrderly :
    (child_cnt : ℕ) (r : Answers) (g : Guardian) → EndsOrderly (guardian_turn child_cnt r g)
unfolding guardian_turn
guardian_turn-EndsOrderly child_cnt r g =
    if_elim EndsOrderly r.running _ _
      (λ _.
        if_elim EndsOrderly (ltb g.now_child_cnt child_cnt) _ _ (λ _. after_fork_orderly r.fork _)
          (λ _.
            if_elim EndsOrderly (not r.waited) _ _ (λ _. tt)
              (λ _. if_elim EndsOrderly (g.times_left - 1 == 0) _ _ (λ _. tt) (λ _. tt))))
      (λ _. if_elim EndsOrderly r.still_running _ _ (λ _. tt) (λ _. refl))

guardian_loop_ends :
    (fuel child_cnt : ℕ) (rounds : ℕ → Answers) (n : ℕ) (g : Guardian)
    → rounds_left child_cnt g ≤ fuel
    → g.now_child_cnt ≤ child_cnt
    → 1 ≤ child_cnt
    → 1 ≤ g.times_left
    → (e : Ending) × (guardian_loop fuel child_cnt rounds n g ≡ some e) × IsOrderly e
unfolding guardian_loop
guardian_loop_ends zero child_cnt rounds n g m a b c = absurd (omega arith)
guardian_loop_ends (suc fuel) child_cnt rounds n g m a b c =
    elim (Turn-cases (guardian_turn child_cnt (rounds n) g)) [
      | inr (e, p) ↦ (
        e,
        rw (p, guardian_loop) refl,
        subst EndsOrderly p (guardian_turn-EndsOrderly child_cnt (rounds n) g),
      )
      | inl (h, p) ↦
          let s = guardian_turn_measure child_cnt (rounds n) g p a b c in
          rw (p, guardian_loop)
            (guardian_loop_ends fuel child_cnt rounds (n + 1) h (omega arith) s.1 b s.2)
    ]

-- What `guardian` can end with.
abbrev pub IsEndOf : Mapping → ℕ → Ending → Type 0
IsEndOf null zero e = e ≡ thrown
IsEndOf map_failed zero e = e ≡ thrown
IsEndOf mapped zero e = e ≡ thrown
IsEndOf null (suc n) e = e ≡ returned false
IsEndOf map_failed (suc n) e = e ≡ crashed
IsEndOf mapped (suc n) e = IsOrderly e

-- However the system calls answer, guardian ends within child_cnt + 19 rounds of its loop: by a
-- failed XASSERT for a child_cnt below 1, else by writing through the address -1 where mmap failed,
-- else by a return or by exit(0).
pub guardian_ends :
    (mapping : Mapping) (rounds : ℕ → Answers) (child_cnt fuel : ℕ)
    → child_cnt + 19 ≤ fuel
    → (e : Ending) × (guardian fuel mapping rounds child_cnt ≡ some e) × IsEndOf mapping child_cnt e
unfolding guardian
guardian_ends null rounds zero fuel h = (thrown, refl, refl)
guardian_ends map_failed rounds zero fuel h = (thrown, refl, refl)
guardian_ends mapped rounds zero fuel h = (thrown, refl, refl)
guardian_ends null rounds (suc n) fuel h = (returned false, refl, refl)
guardian_ends map_failed rounds (suc n) fuel h = (crashed, refl, refl)
guardian_ends mapped rounds (suc n) fuel h =
    guardian_loop_ends fuel (suc n) rounds 0 (record { now_child_cnt = 0; times_left = 10 })
      (omega arith) (omega arith) (omega arith) (omega arith)
