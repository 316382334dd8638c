-- ===== src/Tcp/Proxy/Examples.antt =====
-- Runs of a proxy on concrete times. Endpoints and addresses are numbers here.
use tcp_udp_proxy.Prelude.{
  ℤ, ErrorCode, to_int, div_thousand, ◌-ℤ◌, ◌*ℤ◌, ℕ, ◌+ℤ◌, pos, refl, [], arith, success, add_int,
  other_error, fault, done, some, Runs, Safe,
}
use tcp_udp_proxy.Prelude.Maps.{ℕ_eq, lookup, insert}
use tcp_udp_proxy.Config.{TcpProxyRule}
use tcp_udp_proxy.IpProxy.{IpProxies, new_ip_proxies, start, get_ip_proxy}
use tcp_udp_proxy.IpProxy.Holders.{count, IsCounted}
use tcp_udp_proxy.Tcp.Connection.{new_connection}
use tcp_udp_proxy.Tcp.Connection
use tcp_udp_proxy.Tcp.Proxy.{
  TcpProxy, Listening, new_proxy, accept, start_accept, handle_accept, handle_wait, round_bytes,
  flush_bytes, async_wait, close, flush_round, flush_all,
}
use tcp_udp_proxy.Tcp.Proxy.Sound.{Sound}
use tcp_udp_proxy.Tcp.Proxy.Flush.{RoundOf, handle_wait-RoundOf}
use tcp_udp_proxy.Tcp.Proxy.Handlers.{handle_wait-Sound, handle_accept-Sound}

calls : Unit {0}
unfolding new_ip_proxies start new_proxy get_ip_proxy accept handle_accept Connection.start
    start_accept new_connection lookup insert count add_int ◌+ℤ◌
calls = tt

abbrev quiet : Listening
quiet = record {
  open_ec = success;
  option_ec = success;
  bind_ec = success;
  listen_ec = success;
  timer_ec = success;
}

abbrev rule : TcpProxyRule ℕ
rule = record { src_port = 8080; dst_endpoint = 99; max_bandwidth = pos 1000; delay_ms = pos 5 }

abbrev ips : IpProxies ℕ
ips = start (pos 1000) (pos 2000) (pos 1000) new_ip_proxies

abbrev accepted : TcpProxy ℕ ℕ
accepted = new_proxy rule (pos 1000) ips

ips-IsCounted : IsCounted ips []
unfolding calls
ips-IsCounted = record { is_map = tt; counted = λ a. refl; few = omega arith }

accepted-Sound : Sound accepted []
unfolding calls
accepted-Sound = record { entries = tt; accounts = ips-IsCounted }

abbrev one_connection : TcpProxy ℕ ℕ
one_connection = elim (accept (some 7) accepted) [ done q ↦ q | fault f ↦ accepted ]

handle_accept-Sound_example : Safe (λ q. Sound q []) (handle_accept success quiet (some 7) accepted)
unfolding calls
handle_accept-Sound_example =
    handle_accept-Sound [] success quiet (some 7) accepted (omega arith) accepted-Sound

one_connection-Sound : Sound one_connection []
unfolding calls
one_connection-Sound =
    handle_accept-Sound [] success quiet (some 7) accepted (omega arith) accepted-Sound

handle_wait-Sound_example :
    Runs
      (λ q. Sound q [])
      (handle_wait success (other_error 22) (pos 1500) (pos 100) one_connection)
unfolding calls
handle_wait-Sound_example =
    handle_wait-Sound [] success (other_error 22) (pos 1500) (pos 100) one_connection
      one_connection-Sound

handle_wait-RoundOf_example :
    Runs
      (λ q. RoundOf (pos 1500) (pos 100) one_connection q × Sound q [])
      (handle_wait success success (pos 1500) (pos 100) one_connection)
unfolding calls
handle_wait-RoundOf_example =
    handle_wait-RoundOf (pos 1500) (pos 100) one_connection [] one_connection-Sound refl
      (omega arith)

-- Three runs of the timer's handler without connections: at 1010, again at 1010, and at 1025, where
-- the timer cannot be armed again.
timers : Unit {0}
unfolding calls round_bytes flush_bytes async_wait close flush_round flush_all handle_wait to_int
    div_thousand ◌-ℤ◌ ◌*ℤ◌
timers = tt

abbrev waited : ErrorCode → ℤ → TcpProxy ℕ ℕ → TcpProxy ℕ ℕ
waited ec now p = elim (handle_wait success ec now (pos 100) p) [ done q ↦ q | fault f ↦ p ]

abbrev once : TcpProxy ℕ ℕ
once = waited success (pos 1010) accepted

abbrev twice : TcpProxy ℕ ℕ
twice = waited success (pos 1010) once

abbrev thrice : TcpProxy ℕ ℕ
thrice = waited (other_error 22) (pos 1025) twice
