-- ===== src/IoServicePool/Examples.antt =====
-- Runs of a pool of three io_services.
use tcp_udp_proxy.Prelude.{ℕ, ◌%◌, ◌≡◌, refl, some, [], ◌∷◌, arith}
use tcp_udp_proxy.IoServicePool.{
  IoServicePool, at_start, new_pool, start, stop, join, get_io_service,
}
use tcp_udp_proxy.IoServicePool.Life.{Reach, created, starts, gets, get_io_service-turn}

methods : Unit {0}
unfolding new_pool start stop join get_io_service
methods = tt

abbrev fresh : IoServicePool
fresh = new_pool 3

abbrev started : IoServicePool
started = record fresh { step = at_start; threads = 0 ∷ 1 ∷ 2 ∷ [] }

abbrev used : ℕ → IoServicePool
used i = record started { next_io_service = i }

used_reached : Reach 3 4 (used 1)
unfolding methods
used_reached = gets (gets (gets (gets (starts created refl) refl) refl) refl) refl

get_io_service-turn_example : (q : IoServicePool) × (get_io_service (used 1) ≡ some (4 % 3, q))
unfolding methods
get_io_service-turn_example = get_io_service-turn used_reached (omega arith)
