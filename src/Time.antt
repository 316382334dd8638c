-- ===== src/Time.antt =====
-- src/xttime.h: `is_launchtime`, `interval_checker` and `interval_manager`. Times are `msec_t`. The
-- methods that read the clock are those that take the time, at the time that it gives.
pub mod Intervals
pub mod Manager
mod Examples
use tcp_udp_proxy.Prelude.{
  ℤ, pos, ◌+ℤ◌, ◌-ℤ◌, ltb_ℤ, leb_ℤ, Bool, true, false, Option, none, some, List, [], if◌then◌else◌,
  Outcome, done, fault, assertion_failed,
}
use tcp_udp_proxy.Prelude.Maps.{Eq, lookup, insert}

-- The answer, and the new value of TS_CHECKOUT.
unfoldable pub is_launchtime : ℤ → ℤ → ℤ → Bool × ℤ
is_launchtime checkout interval now =
    if ltb_ℤ (checkout +ℤ interval) now
    then (true, now +ℤ interval)
    else if ltb_ℤ checkout now
    then (true, checkout +ℤ interval)
    else if ltb_ℤ (checkout -ℤ interval) now
    then (false, checkout)
    else (true, now +ℤ interval)

pub record IntervalChecker : Type 0 where
  pub interval : ℤ
  pub last_time_ms : ℤ

unfoldable pub default_checker : IntervalChecker
default_checker = record { interval = pos 0; last_time_ms = pos 0 }

-- `ms` is the time that the clock gives.
unfoldable pub new_checker : ℤ → Bool → ℤ → IntervalChecker
new_checker interval available_at_once ms = record {
  interval = interval;
  last_time_ms = (if available_at_once then pos 0 else ms);
}

unfoldable pub check_and_update : ℤ → IntervalChecker → Bool × IntervalChecker
check_and_update check_time c =
    if leb_ℤ c.interval (check_time -ℤ c.last_time_ms)
    then (true, record c { last_time_ms = check_time })
    else (false, c)

module _ {K : Type 0} ⦃e : Eq K⦄ where
  unfoldable pub add_checker :
      K → ℤ → Bool → ℤ → List (K × IntervalChecker) → List (K × IntervalChecker)
  unfolding new_checker
  add_checker key interval at_once ms m = elim (lookup key m) [
    | none ↦ insert key (new_checker interval at_once ms) m
    | some c ↦ m
  ]

  unfoldable pub check_key :
      K → ℤ → List (K × IntervalChecker) → Outcome (Bool × List (K × IntervalChecker))
  unfolding check_and_update
  check_key key check_time m = elim (lookup key m) [
    | none ↦ fault assertion_failed
    | some c ↦ let (ok, c') = check_and_update check_time c in done (ok, insert key c' m)
  ]
