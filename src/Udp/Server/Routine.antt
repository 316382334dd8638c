-- ===== src/Udp/Server/Routine.antt =====
-- src/udp_proxy.cpp: `UdpProxyServer` and its thread.
use tcp_udp_proxy.Prelude.{◌==◌ as same_port}
use tcp_udp_proxy.Prelude.{
  ℕ, ℤ, pos, ◌-ℤ◌, leb_ℤ, Option, none, List, [], map, if◌then◌else◌, Outcome, done, ◌>>=◌,
  ErrorCode,
}
use tcp_udp_proxy.Prelude.Maps.{Eq, lookup, insert}
use tcp_udp_proxy.Config.{UdpProxyRule}
use tcp_udp_proxy.IpProxy.{IpProxies, get_ip_proxy}
use tcp_udp_proxy.Udp.Endpoint.{UdpEndpointProxy, Opening, new_endpoint, stop}
use tcp_udp_proxy.Udp.Server.{Surroundings, Sent, Round, destroy_entry}
use tcp_udp_proxy.Udp.Server.Receive.{recv_pass, insert_new}
use tcp_udp_proxy.Udp.Server.Send.{send_pass}

module _ {E A : Type 0} ⦃e : Eq E⦄ ⦃a : Eq A⦄ (env : Surroundings E A) where
  unfoldable pub run_round : Round E A → Outcome (Round E A)
  unfolding recv_pass insert_new send_pass
  run_round r = do
    r1 ← recv_pass env (map (λ p. p.0) r.endpoints) r
    r2 ← insert_new r1.new_epts r1
    send_pass env (map (λ p. p.0) r2.endpoints) r2

-- `last_flush_tm` is a variable of the thread.
pub record UdpProxyServer (E A : Type 0) : Type 0 where
  pub endpoints : List (E × UdpEndpointProxy E A)
  pub last_flush_tm : ℤ

unfoldable pub new_server : {E A : Type 0} → ℤ → UdpProxyServer E A
new_server ms = record { endpoints = []; last_flush_tm = ms }

abbrev pub begin_round : {E A : Type 0} → UdpProxyServer E A → IpProxies A → Round E A
begin_round s ips = record {
  endpoints = s.endpoints;
  new_epts = [];
  ip_proxies = ips;
  inits = 0;
  sends = 0;
  wire = [];
}

module _ {E A : Type 0} ⦃e : Eq E⦄ ⦃a : Eq A⦄ where
  -- `reset` destroys the endpoint that stood there. A rule whose port is 0 takes an `IPProxy`.
  unfoldable pub add_server_proxy :
      (E → A)
      → Opening
      → UdpProxyRule E
      → UdpProxyServer E A
      → IpProxies A
      → Outcome (UdpProxyServer E A × IpProxies A)
  unfolding new_endpoint destroy_entry
  add_server_proxy address r rule s ips = do
    let taken : Option A × IpProxies A =
        if same_port rule.src_port 0
        then get_ip_proxy (address rule.dst_endpoint) ips
        else (none, ips)
    t ← destroy_entry (lookup rule.dst_endpoint s.endpoints) taken.1
    done (
      record s { endpoints = insert rule.dst_endpoint (new_endpoint rule taken.0 r) s.endpoints },
      t,
    )

  -- One turn of the loop of `routineThreadHandler`, at the time ms. The messages sent are the third
  -- result.
  unfoldable pub routine_turn :
      ℤ
      → ℤ
      → (E → A)
      → (ℕ → Opening)
      → (ℕ → ErrorCode)
      → UdpProxyServer E A
      → IpProxies A
      → Outcome (UdpProxyServer E A × IpProxies A × List (Sent E))
  unfolding run_round
  routine_turn ms udp_timeout address opening send_result s ips =
      if leb_ℤ (ms -ℤ s.last_flush_tm) (pos 0) then done (s, ips, []) else do
        r ←
            run_round
              (record {
                now = ms;
                active_timeout_tm = ms -ℤ udp_timeout;
                interval = ms -ℤ s.last_flush_tm;
                address = address;
                opening = opening;
                send_result = send_result;
              })
              (begin_round s ips)
        done (record { endpoints = r.endpoints; last_flush_tm = ms }, r.ip_proxies, r.wire)

  -- What the thread does at the end.
  unfoldable pub close : UdpProxyServer E A → UdpProxyServer E A
  unfolding stop
  close s = record s { endpoints = map (λ p. (p.0, stop p.1)) s.endpoints }
