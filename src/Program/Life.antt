-- ===== src/Program/Life.antt =====
-- src/faraway_proxy.cpp, src/shared_data.cpp: the program ends, and stops what it started.
use tcp_udp_proxy.Prelude.{
  ℕ, zero, suc, ◌≤◌, ◌≡◌, refl, ◌∙◌, ap, true, false, inl, inr, Option-cases, none, some, List, [],
  ◌∷◌, ◌++◌, map, arith,
}
use tcp_udp_proxy.IoServicePool.{
  IoServicePool, at_begin, at_start, spawn, new_pool, join, get_io_service,
}
use tcp_udp_proxy.IoServicePool
use tcp_udp_proxy.IoServicePool.Life.{
  Reach, created, starts, stops, gets, get_io_service-turn, join-ends,
}
use tcp_udp_proxy.Tcp.Proxy.{TcpProxy}
use tcp_udp_proxy.Tcp.Proxy
use tcp_udp_proxy.Daemon.{Ending, exited}
use tcp_udp_proxy.Args.Start.{Process, Started, ready, ended}
use tcp_udp_proxy.Args.Start
use tcp_udp_proxy.Program.{
  Program, initial_program, take_services, Configured, init_shared, start_shared, stop_udp, stop_ip,
  stop_pool, stop_shared, run, destroy_server, serve,
}

-- A pool before its start, after k calls of `get_io_service`.
record IsFresh (n k : ℕ) (pool : IoServicePool) : Type 0 where
  reached : Reach n k pool
  unstarted : pool.step ≡ at_begin

step-get_io_service :
    (p q : IoServicePool) (i : ℕ) → get_io_service p ≡ some (i, q) → q.step ≡ p.step
unfolding get_io_service
step-get_io_service p q i e = ground arith

new_pool-IsFresh : (n : ℕ) → IsFresh n 0 (new_pool n)
unfolding new_pool
new_pool-IsFresh n = record { reached = created; unstarted = refl }

-- A pool that has an io_service gives one to each rule.
take_services-IsFresh :
    (rules n k : ℕ) (pool : IoServicePool)
    → 1 ≤ n
    → IsFresh n k pool
    → (j : ℕ) × (next : IoServicePool) × (take_services rules pool ≡ some next) × IsFresh n j next
unfolding take_services
take_services-IsFresh zero n k pool h f = (k, pool, refl, f)
take_services-IsFresh (suc rules) n k pool h f =
    let (q, e) = get_io_service-turn f.reached h in
    let rest = take_services-IsFresh rules n (suc k) q h (record {
      reached = gets f.reached e;
      unstarted = step-get_io_service pool q _ e ∙ f.unstarted;
    }) in
    (rest.0, rest.1, rw (e, take_services) rest.2, rest.3)

module _ {E A : Type 0} where
  -- Every listening port is to be closed.
  abbrev pub AllClosing : List (TcpProxy E A) → Type 0
  AllClosing [] = Unit {0}
  AllClosing (p ∷ ps) = (p.close_flag ≡ true) × AllClosing ps

  -- No thread of the program runs, its pool is deleted, and every listening port is to be closed.
  pub record IsStopped (p : Program E A) : Type 0 where
    pub flag : p.running_flag ≡ false
    pub ports : AllClosing p.proxies
    pub udp : p.udp_thread ≡ false
    pub ip : p.ip_proxies.routine ≡ false
    pub pool : p.network_io_service_pool ≡ none

  stop-AllClosing : (ps : List (TcpProxy E A)) → AllClosing (map Proxy.stop ps)
  unfolding Proxy.stop
  stop-AllClosing [] = tt
  stop-AllClosing (p ∷ ps) = (refl, stop-AllClosing ps)

  -- The destructor ends on a pool that its methods led to, whatever threads there are.
  destroy_server-IsStopped :
      {n k : ℕ} {pool : IoServicePool} (p : Program E A)
      → p.network_io_service_pool ≡ some pool
      → Reach n k pool
      → (s : Program E A) × (destroy_server p ≡ some s)
        × IsStopped s
        × (s.proxies ≡ map Proxy.stop p.proxies)
  unfolding destroy_server stop_shared stop_udp stop_ip stop_pool
  destroy_server-IsStopped {pool = pool} p e r = (
    record p {
      running_flag = false;
      proxies = map Proxy.stop p.proxies;
      udp_thread = false;
      ip_proxies = record p.ip_proxies { routine = false };
      network_io_service_pool = none;
    },
    ground (arith, join-ends (stops r)),
    record { flag = refl; ports = stop-AllClosing p.proxies; udp = refl; ip = refl; pool = refl },
    refl,
  )

  -- The proxies that the rules of the configuration file gave.
  abbrev pub proxies_of : Configured E A → List (TcpProxy E A)
  proxies_of c = elim c.loaded [ none ↦ [] | some l ↦ map c.started l.proxies ]

  init_shared-proxies :
      (c : Configured E A) (n : ℕ)
      → 1 ≤ n
      → (init_shared c n initial_program).1.proxies ≡ proxies_of c
  unfolding init_shared initial_program
  init_shared-proxies c n h = elim (Option-cases c.loaded) [
    | inl e ↦ ground arith
    | inr (l, e) ↦
        let (k, next, f, g) =
          take_services-IsFresh c.rules n 0 (new_pool n) h (new_pool-IsFresh n) in
        ground arith
  ]

  init_shared-IsFresh :
      (c : Configured E A) (n : ℕ) (p : Program E A)
      → 1 ≤ n
      → (k : ℕ) × (pool : IoServicePool) × ((init_shared c n p).0 ≡ true)
        × ((init_shared c n p).1.network_io_service_pool ≡ some pool)
        × IsFresh n k pool
  unfolding init_shared
  init_shared-IsFresh c n p h = elim (Option-cases c.loaded) [
    | inl e ↦ (0, new_pool n, ground arith, ground arith, new_pool-IsFresh n)
    | inr (l, e) ↦
        let (k, next, f, g) =
          take_services-IsFresh c.rules n 0 (new_pool n) h (new_pool-IsFresh n) in
        (k, next, ground arith, ground arith, g)
  ]

  run-Reach :
      {n k : ℕ} {pool : IoServicePool} (p : Program E A)
      → p.network_io_service_pool ≡ some pool
      → IsFresh n k pool
      → (next : IoServicePool) × ((run p).0 ≡ true)
        × ((run p).1.network_io_service_pool ≡ some next)
        × Reach n k next
        × ((run p).1.proxies ≡ p.proxies)
  unfolding run start_shared IoServicePool.start
  run-Reach {pool = pool} p e f =
      let next : IoServicePool = record pool {
        step = at_start;
        threads = pool.threads ++ spawn 0 pool.io_services;
      } in
      (next, ground arith, ground arith, starts f.reached (ground arith), ground arith)

  -- With at least one thread the server starts, and once its wait has ended it stops what it started:
  -- the process ends with the status 0, no thread is left that is waited for in vain, the pool is
  -- deleted, and what is left of the ports are those of the rules, each of them to be closed.
  pub serve-IsStopped :
      (c : Configured E A) (n : ℕ)
      → 1 ≤ n
      → (s : Program E A) × (serve c n initial_program ≡ some (0, s))
        × IsStopped s
        × (s.proxies ≡ map Proxy.stop (proxies_of c))
  unfolding serve
  serve-IsStopped c n h =
      let q : Program E A = (init_shared c n initial_program).1 in
      let (k, pool, made, e, fresh) = init_shared-IsFresh c n initial_program h in
      let (next, ran, d, r, same) = run-Reach q e fresh in
      let (s, f, g, stopped) = destroy_server-IsStopped (run q).1 d r in
      (s, ground arith, g, stopped ∙ ap (map Proxy.stop) (same ∙ init_shared-proxies c n h))

  -- What `main` ends with, after `init` of the arguments gave r. Where init ended the process, it is
  -- with that end, and nothing was made. Where it did not, it is with the status 0, after the server
  -- stopped all that it started for the configuration c.
  abbrev pub IsEndOfMain : (Process → Configured E A) → Started → Ending → Program E A → Type 0
  IsEndOfMain configured (ended f q) e s = (e ≡ f) × (s ≡ initial_program)
  IsEndOfMain configured (ready q) e s =
      (e ≡ exited 0) × IsStopped s × (s.proxies ≡ map Proxy.stop (proxies_of (configured q)))
