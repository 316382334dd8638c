-- ===== src/Time/Intervals.antt =====
-- How often a checker says yes.
use tcp_udp_proxy.Prelude.{
  ℕ, ◌+◌, ◌*◌, ℤ, pos, ◌+ℤ◌, ◌-ℤ◌, ◌≤ℤ◌, ltb_ℤ, leb_ℤ, ◌≡◌, subst, Bool, true, List, [], ◌∷◌,
  if◌then◌else◌, if_elim, arith, +ℤ_parts, -ℤ_parts, pos_part, neg_part, ◌≤◌,
}
use tcp_udp_proxy.Time.{is_launchtime, IntervalChecker, check_and_update}

-- For an interval that is not negative, the new TS_CHECKOUT is not before the present time and at
-- most one interval after it.
pub is_launchtime-next :
    (checkout now : ℤ) (interval : ℕ)
    → (now ≤ℤ (is_launchtime checkout (pos interval) now).1)
      × ((is_launchtime checkout (pos interval) now).1 ≤ℤ now +ℤ pos interval)
unfolding is_launchtime
is_launchtime-next checkout now interval =
    if_elim {A = Bool × ℤ} Next (ltb_ℤ (checkout +ℤ pos interval) now) _ _ (λ e. later)
      λ a.
        if_elim {A = Bool × ℤ} Next (ltb_ℤ checkout now) _ _
          (λ e. (
            ground (
              arith,
              +ℤ_parts now (pos interval),
              +ℤ_parts checkout (pos interval),
              -ℤ_parts checkout (pos interval),
              a,
            ),
            ground (
              arith,
              +ℤ_parts now (pos interval),
              +ℤ_parts checkout (pos interval),
              -ℤ_parts checkout (pos interval),
              e,
            ),
          ))
          λ b.
            if_elim {A = Bool × ℤ} Next (ltb_ℤ (checkout -ℤ pos interval) now) _ _
              (λ e. (
                ground (
                  arith,
                  +ℤ_parts now (pos interval),
                  +ℤ_parts checkout (pos interval),
                  -ℤ_parts checkout (pos interval),
                  b,
                ),
                ground (
                  arith,
                  +ℤ_parts now (pos interval),
                  +ℤ_parts checkout (pos interval),
                  -ℤ_parts checkout (pos interval),
                  e,
                ),
              ))
              (λ e. later)
  where
    Next : Bool × ℤ → Type 0
    Next r = (now ≤ℤ r.1) × (r.1 ≤ℤ now +ℤ pos interval)

    later : (now ≤ℤ now +ℤ pos interval) × (now +ℤ pos interval ≤ℤ now +ℤ pos interval)
    later = (ground (arith, +ℤ_parts now (pos interval)), ground arith)

-- The checks at the times ts, one after the other: how many said yes, and the checker at the end.
pub run_checks : List ℤ → IntervalChecker → ℕ × IntervalChecker
run_checks [] c = (0, c)
run_checks (t ∷ ts) c =
    let (ok, d) = check_and_update t c in
    let (n, last) = run_checks ts d in ((if ok then 1 else 0) + n, last)

-- The time of the last yes moves on by at least the interval with each yes.
abbrev Spaced : ℕ → ℤ → ℕ → ℤ → Type 0
Spaced interval a n b = pos_part a + neg_part b + interval * n ≤ pos_part b + neg_part a

one_check :
    (interval : ℕ) (t : ℤ) (c : IntervalChecker)
    → c.interval ≡ pos interval
    → Spaced interval c.last_time_ms
        (if (check_and_update t c).0 then 1 else 0)
        (check_and_update t c).1.last_time_ms
      × ((check_and_update t c).1.interval ≡ pos interval)
unfolding check_and_update
one_check interval t c q =
    if_elim {A = Bool × IntervalChecker}
      (λ r.
        Spaced interval c.last_time_ms (if r.0 then 1 else 0) r.1.last_time_ms
        × (r.1.interval ≡ pos interval))
      (leb_ℤ c.interval (t -ℤ c.last_time_ms)) _ _
      (λ e. (
        ground (
          arith,
          -ℤ_parts t c.last_time_ms,
          subst (λ x. leb_ℤ x (t -ℤ c.last_time_ms) ≡ true) q e,
        ),
        q,
      ))
      (λ e. (omega arith, q))

add-Spaced :
    (interval n m : ℕ) (a b c : ℤ)
    → Spaced interval a n b
    → Spaced interval b m c
    → Spaced interval a (n + m) c
add-Spaced interval n m a b c h k = omega arith

run_checks-Spaced :
    (interval : ℕ) (ts : List ℤ) (c : IntervalChecker)
    → c.interval ≡ pos interval
    → Spaced interval c.last_time_ms (run_checks ts c).0 (run_checks ts c).1.last_time_ms
unfolding run_checks
run_checks-Spaced interval [] c q = omega arith
run_checks-Spaced interval (t ∷ ts) c q =
    let d : IntervalChecker = (check_and_update t c).1 in
    let (h, p) = one_check interval t c q in
    add-Spaced interval (if (check_and_update t c).0 then 1 else 0) (run_checks ts d).0
      c.last_time_ms d.last_time_ms (run_checks ts d).1.last_time_ms h
      (run_checks-Spaced interval ts d p)

-- However the checks of a checker with an interval that is not negative follow one another: the
-- time of its last yes moves on by at least the interval for each check that says yes.
pub check_and_update-spacing :
    (interval : ℕ) (ts : List ℤ) (c : IntervalChecker)
    → c.interval ≡ pos interval
    → c.last_time_ms +ℤ pos (interval * (run_checks ts c).0) ≤ℤ (run_checks ts c).1.last_time_ms
check_and_update-spacing interval ts c q = omega (
  arith,
  run_checks-Spaced interval ts c q,
  +ℤ_parts c.last_time_ms (pos (interval * (run_checks ts c).0)),
)
