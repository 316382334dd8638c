-- ===== src/Program.antt =====
-- src/faraway_proxy.cpp and src/shared_data.cpp: the life of the program, from `main` on. A thread of
-- `UdpProxyServer` or of `IPProxies` ends once `args.running_flag` is false.
pub mod Life
mod Examples
use tcp_udp_proxy.Prelude.{
  ℕ, zero, suc, ℤ, pos, Bool, true, false, ◌&&◌, Option, none, some, List, [], ◌∷◌, map,
  if◌then◌else◌, Outcome, done, fault,
}
use tcp_udp_proxy.Strings.Tokens.{String}
use tcp_udp_proxy.Config.{TcpProxyRule}
use tcp_udp_proxy.IpProxy.{IpProxies, new_ip_proxies}
use tcp_udp_proxy.IpProxy
use tcp_udp_proxy.IoServicePool.{IoServicePool, new_pool, join, get_io_service}
use tcp_udp_proxy.IoServicePool
use tcp_udp_proxy.Tcp.Proxy.{TcpProxy}
use tcp_udp_proxy.Tcp.Proxy
use tcp_udp_proxy.SharedData.{Loading}
use tcp_udp_proxy.Daemon.{Ending, exited}
use tcp_udp_proxy.Args.{ServerInfo}
use tcp_udp_proxy.Args.Options.{ProgramOptions}
use tcp_udp_proxy.Args.Start.{Machine, Process, ready, ended}
use tcp_udp_proxy.Args.Start

-- `sdata`, `args.running_flag` and the threads. `udp_thread` says that the group of
-- `udp_proxy_server` has a thread; for `ip_proxies` its field `routine` says so.
pub record Program (E A : Type 0) : Type 0 where
  pub running_flag : Bool
  pub proxies : List (TcpProxy E A)
  pub udp_thread : Bool
  pub ip_proxies : IpProxies A
  pub network_io_service_pool : Option IoServicePool

-- What `main` gives to `ServerInfo::init`.
abbrev pub proxy_info : ServerInfo
proxy_info = record {
  software_name = b'p' ∷ b'r' ∷ b'o' ∷ b'x' ∷ b'y' ∷ [];
  module_name =
      b'f' ∷ b'a' ∷ b'r' ∷ b'a' ∷ b'w' ∷ b'a' ∷ b'y' ∷ b'_' ∷ b'p' ∷ b'r' ∷ b'o' ∷ b'x' ∷ b'y' ∷ [];
  version_str =
      b'f' ∷ b'a' ∷ b'r' ∷ b'a' ∷ b'w' ∷ b'a' ∷ b'y' ∷ b'_' ∷ b'p' ∷ b'r' ∷ b'o' ∷ b'x' ∷ b'y'
      ∷ b' ' ∷ b'1' ∷ b'.' ∷ b'0' ∷ b'.' ∷ b'0' ∷ b'0' ∷ b'0' ∷ [];
}

-- Before `main`.
unfoldable pub initial_program : {E A : Type 0} → Program E A
initial_program = record {
  running_flag = true;
  proxies = [];
  udp_thread = false;
  ip_proxies = new_ip_proxies;
  network_io_service_pool = none;
}

-- `get_io_service` for each of so many rules; none where it throws.
unfoldable pub take_services : ℕ → IoServicePool → Option IoServicePool
take_services zero pool = some pool
take_services (suc rules) pool = elim (get_io_service pool) [
  | none ↦ none
  | some (i, next) ↦ take_services rules next
]

-- What `SharedData::init` makes of the configuration file: its rules and limits, none where it does
-- not open, how many rules take an io_service, and the proxy that was started for a rule.
pub record Configured (E A : Type 0) : Type 0 where
  pub loaded : Option (Loading E)
  pub rules : ℕ
  pub started : TcpProxyRule E → TcpProxy E A
  pub now : ℤ

module _ {E A : Type 0} where
  -- `SharedData::init` for a pool of so many threads, and whether it did not throw. A pool that has
  -- no io_service throws at the first rule.
  unfoldable pub init_shared : Configured E A → ℕ → Program E A → Bool × Program E A
  init_shared c network_thread_num p =
      let pool : IoServicePool = new_pool network_thread_num in
      let q : Program E A = record p { network_io_service_pool = some pool } in
      elim c.loaded [
        | none ↦ (true, q)
        | some l ↦ elim (take_services c.rules pool) [
          | none ↦ (false, q)
          | some next ↦ (
            true,
            record p {
              proxies = map c.started l.proxies;
              ip_proxies = IpProxy.start l.ip_send_bandwith l.ip_recv_bandwidth c.now p.ip_proxies;
              network_io_service_pool = some next;
            },
          )
        ]
      ]

  -- `SharedData::start`, and whether it did not throw.
  unfoldable pub start_shared : Program E A → Bool × Program E A
  start_shared p =
      let q : Program E A = record p { udp_thread = true } in
      elim p.network_io_service_pool [
        | none ↦ (false, q)
        | some pool ↦ elim (IoServicePool.start pool) [
          | fault e ↦ (false, q)
          | done next ↦ (true, record q { network_io_service_pool = some next })
        ]
      ]

  -- `udp_proxy_server.stop` and `ip_proxies.stop`; none where `join_all` does not end.
  unfoldable pub stop_udp : Program E A → Option (Program E A)
  stop_udp p =
      if p.udp_thread && p.running_flag then none else some (record p { udp_thread = false })

  unfoldable pub stop_ip : Program E A → Option (Program E A)
  stop_ip p =
      if p.ip_proxies.routine && p.running_flag
      then none
      else some (record p { ip_proxies = record p.ip_proxies { routine = false } })

  -- The pool is stopped, joined and deleted.
  unfoldable pub stop_pool : Program E A → Option (Program E A)
  stop_pool p = elim p.network_io_service_pool [
    | none ↦ some p
    | some pool ↦ elim (join (IoServicePool.stop pool)) [
      | none ↦ none
      | some _ ↦ some (record p { network_io_service_pool = none })
    ]
  ]

  -- `SharedData::stop`
  unfoldable pub stop_shared : Program E A → Option (Program E A)
  stop_shared p = elim (stop_udp (record p { proxies = map Proxy.stop p.proxies })) [
    | none ↦ none
    | some q ↦ elim (stop_ip q) [ none ↦ none | some r ↦ stop_pool r ]
  ]

  -- `ProxyServer::run`, once its wait has ended, and whether it did not throw.
  unfoldable pub run : Program E A → Bool × Program E A
  run p =
      let (started, q) = start_shared (record p { running_flag = true }) in
      if started then (true, record q { running_flag = false }) else (false, q)

  -- `~ProxyServer`; none where it does not end.
  unfoldable pub destroy_server : Program E A → Option (Program E A)
  destroy_server p = stop_shared (record p { running_flag = false })

  -- The server of `main`: the exit status and what is left; none where it does not end. Where its
  -- constructor throws, the destructor is not run.
  unfoldable pub serve : Configured E A → ℕ → Program E A → Option (ℕ × Program E A)
  serve c network_thread_num p =
      let (made, q) = init_shared c network_thread_num p in
      let (ran, r) = run q in
      let left : Option (Program E A) = destroy_server r in
      if made
      then elim left [ none ↦ none | some s ↦ some ((if ran then 0 else 1), s) ]
      else some (1, q)

  -- `main`: how the process ends, and what is left; none where it does not end. What the
  -- configuration holds may depend on the arguments.
  unfoldable pub main :
      {Place : Type 0}
      → Machine Place
      → ProgramOptions
      → (Process → Configured E A)
      → List String
      → Process
      → Option (Ending × Program E A)
  main m o configured argv p = elim (Start.init m o proxy_info argv p) [
    | none ↦ none
    | some (ended e q) ↦ some (e, initial_program)
    | some (ready q) ↦ elim (serve (configured q) q.args.more.network_thread_num initial_program) [
      | none ↦ none
      | some (status, s) ↦ some (exited status, s)
    ]
  ]
