-- ===== src/Program/Examples.antt =====
-- A configuration with one tcp rule and a limit for each client. Endpoints and addresses are
-- numbers.
use tcp_udp_proxy.Prelude.{ℕ, ◌≡◌, refl, pos, true, some, [], ◌∷◌}
use tcp_udp_proxy.Config.{tcp_proxy_rule}
use tcp_udp_proxy.IpProxy.{new_ip_proxies}
use tcp_udp_proxy.IpProxy
use tcp_udp_proxy.IoServicePool.{new_pool, get_io_service, join}
use tcp_udp_proxy.IoServicePool
use tcp_udp_proxy.Tcp.Proxy.{new_proxy}
use tcp_udp_proxy.Args.Start
use tcp_udp_proxy.Program.{
  Program, initial_program, take_services, Configured, init_shared, start_shared,
}

abbrev configured : Configured ℕ ℕ
configured = record {
  loaded = some (record {
    line_num = 2;
    ip_send_bandwith = pos 1000;
    ip_recv_bandwidth = pos 1000;
    proxies = tcp_proxy_rule 80 7 ∷ [];
    udp_rules = [];
    errors = [];
  });
  rules = 1;
  started = λ rule. record (new_proxy rule (pos 5) new_ip_proxies) {
    acceptor_open = true;
    accepts = 1;
    waits = 1;
  };
  now = pos 5;
}

-- While the server runs both threads run, and its port is not closing.
running : Program ℕ ℕ
running = (start_shared (init_shared configured 4 initial_program).1).1

threads : (running.udp_thread ≡ true) × (running.ip_proxies.routine ≡ true)
unfolding running start_shared init_shared initial_program take_services IpProxy.start
    IoServicePool.start new_pool get_io_service new_ip_proxies
threads = (refl, refl)
