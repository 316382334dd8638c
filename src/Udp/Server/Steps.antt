-- ===== src/Udp/Server/Steps.antt =====
-- src/udp_proxy.cpp: `UdpProxyServer` step by step, beside other users of `ip_proxies`.
use tcp_udp_proxy.Prelude.{◌-ℤ◌, leb_ℤ}
use tcp_udp_proxy.Prelude.{
  ℕ, ◌+◌, ◌<◌, ℤ, pos, ◌≡◌, ◌≢◌, sym, subst, ◌∙◌, some, List, [], length, if_elim, arith, Pair,
  Runs, Runs-bind,
}
use tcp_udp_proxy.Prelude.Maps.{Eq, lookup, insert, erase, insert-IsMap}
use tcp_udp_proxy.IpProxy.{IpProxies}
use tcp_udp_proxy.IpProxy.Holders.{hold, IsCounted}
use tcp_udp_proxy.IpProxy.Pointers.{Known}
use tcp_udp_proxy.Udp.Endpoint.{UdpEndpointProxy}
use tcp_udp_proxy.Udp.Server.Entries.{
  queued, lookup-AllEntries, insert-AllEntries, SameHolders-IsCounted,
}
use tcp_udp_proxy.Udp.Server.Holders.{holders, holders-replace}
use tcp_udp_proxy.Udp.Server.Sound.{Sound, Good, Quiet}
use tcp_udp_proxy.Udp.Server.Routine.{UdpProxyServer, begin_round, routine_turn, add_server_proxy}
use tcp_udp_proxy.Udp.Endpoint.{Opening}
use tcp_udp_proxy.Udp.Server.SendPass.{Settled}
use tcp_udp_proxy.Udp.Server.Rounds.{run_round-Settled}
use tcp_udp_proxy.Prelude.{ErrorCode}
use tcp_udp_proxy.Config.{UdpProxyRule}
use tcp_udp_proxy.Udp.Endpoint.{new_endpoint}
use tcp_udp_proxy.Udp.Server.Holders.{destroy_entry-IsCounted, holders_kept}
use tcp_udp_proxy.Udp.Server.Feeds.{Fed, Good-Fed}
use tcp_udp_proxy.Udp.Server.Taking.{opened, taken, taken-Taken}

module _ {E A : Type 0} ⦃e : Eq E⦄ ⦃a : Eq A⦄ (bw : Pair ℤ) where
  -- The server is sound beside other holders hs of `ip_proxies`.
  abbrev pub SoundServer : List A → UdpProxyServer E A → IpProxies A → Type 0
  SoundServer hs s ips = Sound bw hs [] (begin_round s ips)

  -- The pointers and the waiting messages together are fewer than a reference count can hold.
  abbrev pub Fits : List A → UdpProxyServer E A → Type 0
  Fits hs s = length (holders s.endpoints hs) + queued s.endpoints < 2147483647

  -- A turn of the thread ends, and the server is sound after it.
  pub turn_lem :
      (hs : List A) (ms udp_timeout : ℤ) (address : E → A) (opening : ℕ → Opening)
      (result : ℕ → ErrorCode) (s : UdpProxyServer E A) (ips : IpProxies A)
      → SoundServer hs s ips
      → Fits hs s
      → Runs
          (λ (t, jps, w). SoundServer hs t jps)
          (routine_turn ms udp_timeout address opening result s ips)
  unfolding routine_turn
  turn_lem hs ms udp_timeout address opening result s ips d h =
      if_elim (Runs (λ (t, jps, w). SoundServer hs t jps)) (leb_ℤ (ms -ℤ s.last_flush_tm) (pos 0)) _
        _ (λ _. d)
        (λ _.
          Runs-bind (Settled bw hs) (λ (t, jps, w). SoundServer hs t jps) _ _
            (run_round-Settled bw hs
              (record {
                now = ms;
                active_timeout_tm = ms -ℤ udp_timeout;
                interval = ms -ℤ s.last_flush_tm;
                address = address;
                opening = opening;
                send_result = result;
              })
              (begin_round s ips) (d, omega (arith, h)))
            (λ r c. record {
              map_endpoints = c.map_endpoints;
              map_fresh = tt;
              limits = c.limits;
              good_endpoints = c.good_endpoints;
              good_fresh = tt;
              accounts = c.accounts;
            }))

  -- A completed receive of the endpoint k, of a datagram that does not come from k.
  pub receive_lem :
      (hs : List A) (s : UdpProxyServer E A) (ips : IpProxies A) (k from : E)
      (x y : UdpEndpointProxy E A)
      → SoundServer hs s ips
      → lookup k s.endpoints ≡ some x
      → from ≢ k
      → Fed from x y
      → SoundServer hs (record s { endpoints = insert k y s.endpoints }) ips
  receive_lem hs s ips k from x y d q n f = record {
    map_endpoints = insert-IsMap k y s.endpoints d.map_endpoints;
    map_fresh = tt;
    limits = d.limits;
    good_endpoints =
        insert-AllEntries (Good bw) k y s.endpoints
          (Good-Fed bw k from x y n f
            (lookup-AllEntries (Good bw) k s.endpoints x q d.good_endpoints))
          d.good_endpoints;
    good_fresh = tt;
    accounts = subst (IsCounted ips) (sym (holders-replace k y x s.endpoints hs q f.0)) d.accounts;
  }

  pub add_lem :
      (hs : List A) (address : E → A) (o : Opening) (rule : UdpProxyRule E) (s : UdpProxyServer E A)
      (ips : IpProxies A)
      → SoundServer hs s ips
      → Fits hs s
      → Runs (λ (t, jps). SoundServer hs t jps) (add_server_proxy address o rule s ips)
  unfolding add_server_proxy
  add_lem hs address o rule s ips d h =
      let (b, c, n, f) =
        taken-Taken (holders s.endpoints hs) address rule ips d.accounts (omega (arith, h)) in
      let ip = taken address rule ips in
      let k = rule.dst_endpoint in
      let x = new_endpoint rule ip.0 o in
      let (p, g, w) = opened rule ip.0 o n in
      Runs-bind
        (λ t.
          (t.bandwidth ≡ ip.1.bandwidth)
          × IsCounted t (hold ip.0 (holders (erase k s.endpoints) hs)))
        (λ (t, jps). SoundServer hs t jps) _ _
        (destroy_entry-IsCounted ip.1 k ip.0 [] s.endpoints hs d.map_endpoints c)
        (λ t (u, v). record {
          map_endpoints = insert-IsMap k x s.endpoints d.map_endpoints;
          map_fresh = tt;
          limits = u ∙ b ∙ d.limits;
          good_endpoints =
              insert-AllEntries (Good bw) k x s.endpoints
                (
                  λ q.
                      subst (Known bw) (sym p)
                        (subst (λ l. Known l ip.0) d.limits (f (ground (arith, g, q)))),
                  subst (Quiet k) (sym w) tt,
                )
                d.good_endpoints;
          good_fresh = tt;
          accounts =
              SameHolders-IsCounted t _ _ (holders_kept k x [] s.endpoints hs d.map_endpoints)
                (subst (λ q. IsCounted t (hold q (holders (erase k s.endpoints) hs))) (sym p) v);
        })
