-- ===== src/IoServicePool.antt =====
-- src/io_service_pool.h and src/io_service_pool.cpp: `global::io_service_pool`. A thread is the
-- index of the io_service that it runs; its `run` returns once that io_service is stopped. The
-- methods that lock the recursive mutex run whole, and `get_io_service` is called by one thread.
pub mod Life
mod Examples
use tcp_udp_proxy.Prelude.{
  ℕ, zero, suc, ◌+◌, ◌==◌, Bool, true, false, ◌&&◌, Option, none, some, List, [], ◌∷◌, ◌++◌, map,
  length, if◌then◌else◌, Outcome, done, fault, assertion_failed,
}

-- `step_t`
pub data Step : Type 0 where
  at_begin at_start at_stop at_finish : Step

pub record IoService : Type 0 where
  pub work : Bool
  pub stopped : Bool

pub record IoServicePool : Type 0 where
  pub io_services : List IoService
  pub threads : List ℕ
  pub step : Step
  pub next_io_service : ℕ

-- Each io_service has its work from the start.
abbrev pub working : ℕ → List IoService
working zero = []
working (suc n) = record { work = true; stopped = false } ∷ working n

unfoldable pub new_pool : ℕ → IoServicePool
new_pool pool_size = record {
  io_services = working pool_size;
  threads = [];
  step = at_begin;
  next_io_service = 0;
}

-- One thread for each io_service, from the index i on.
abbrev pub spawn : ℕ → List IoService → List ℕ
spawn i [] = []
spawn i (s ∷ ss) = i ∷ spawn (i + 1) ss

abbrev pub is_step : Step → Step → Bool
is_step at_begin at_begin = true
is_step at_start at_start = true
is_step at_stop at_stop = true
is_step at_finish at_finish = true
is_step _ _ = false

unfoldable pub start : IoServicePool → Outcome IoServicePool
start p =
    if is_step p.step at_begin
    then done (record p { step = at_start; threads = p.threads ++ spawn 0 p.io_services })
    else fault assertion_failed

abbrev pub stop_service : IoService → IoService
stop_service s = record s { stopped = true }

unfoldable pub stop : IoServicePool → IoServicePool
stop p =
    if is_step p.step at_start
    then record p { step = at_stop; io_services = map stop_service p.io_services }
    else p

-- Whether the `run` of the io_service with the index i returns.
abbrev pub returns : ℕ → List IoService → Bool
returns i [] = false
returns zero (s ∷ ss) = s.stopped
returns (suc i) (s ∷ ss) = returns i ss

abbrev pub all_return : List ℕ → List IoService → Bool
all_return [] ss = true
all_return (i ∷ is) ss = returns i ss && all_return is ss

-- None where the wait for a thread does not end.
unfoldable pub join : IoServicePool → Option IoServicePool
join p =
    if is_step p.step at_stop
    then if all_return p.threads p.io_services then some (record p { step = at_finish }) else none
    else some p

-- The index of the io_service that it gives; none where it throws a `std::runtime_error`.
unfoldable pub get_io_service : IoServicePool → Option (ℕ × IoServicePool)
get_io_service p =
    if length p.io_services == 0
    then none
    else let next : ℕ = p.next_io_service + 1 in
      some (
        p.next_io_service,
        record p { next_io_service = (if next == length p.io_services then 0 else next) },
      )
