-- ===== src/Udp/Server/Taking.antt =====
-- src/udp_proxy.cpp: the endpoint that `addServerProxy` makes for a rule.
use tcp_udp_proxy.Prelude.{◌==◌ as same_port}
use tcp_udp_proxy.Prelude.{not}
use tcp_udp_proxy.Prelude.{
  ◌<◌, pos, ◌≡◌, refl, sym, ◌∙◌, Bool, true, false, Option, none, List, [], length, if◌then◌else◌,
}
use tcp_udp_proxy.Prelude.Maps.{Eq}
use tcp_udp_proxy.IpProxy.{IpProxies}
use tcp_udp_proxy.IpProxy.Holders.{hold, IsCounted}
use tcp_udp_proxy.IpProxy.Pointers.{Known}
use tcp_udp_proxy.Udp.Endpoint.{Opening}
use tcp_udp_proxy.Config.{UdpProxyRule}
use tcp_udp_proxy.Udp.Endpoint.{new_endpoint}
use tcp_udp_proxy.IpProxy.{get_ip_proxy}
use tcp_udp_proxy.IpProxy.Holders.{acquire-IsCounted}
use tcp_udp_proxy.IpProxy.Pointers.{get_ip_proxy-Known}
use tcp_udp_proxy.Udp.Server.Sound.{init-Alike}

-- The pointer is counted, and is there where the endpoint is a client's and a limit is set.
abbrev pub Taken :
    {A : Type 0} ⦃a : Eq A⦄ → List A → IpProxies A → Bool → Option A × IpProxies A → Type 0
Taken hs ips t (o, jps) =
    (jps.bandwidth ≡ ips.bandwidth)
    × IsCounted jps (hold o hs)
    × (t ≡ false → o ≡ none)
    × (t ≡ true → Known ips.bandwidth o)

module _ {E A : Type 0} ⦃a : Eq A⦄ where
  -- The constructor for a rule, with the pointer that it has taken where the rule has no port.
  pub opened :
      (rule : UdpProxyRule E) (ip : Option A) (o : Opening)
      → (same_port rule.src_port 0 ≡ false → ip ≡ none)
      → ((new_endpoint rule ip o).client_ip ≡ ip)
        × ((new_endpoint rule ip o).server_flag ≡ not (same_port rule.src_port 0))
        × ((new_endpoint rule ip o).recv_queue ≡ [])
  unfolding new_endpoint
  opened rule ip o h =
      let server : Bool = not (same_port rule.src_port 0) in
      let (p, f, w) = init-Alike o (record {
        proxy_rule = rule;
        is_open = false;
        receives = 0;
        server_flag = server;
        active_tm = pos 0;
        recv_queue = [];
        send_queue = [];
        recv_avail_bytes = pos 0;
        send_avail_bytes = pos 0;
        recving_flag = true;
        client_ip = (if server then none else ip);
      }) in
      (p ∙ pointer (same_port rule.src_port 0) h, f, w)
    where
      pointer : (t : Bool) → (t ≡ false → ip ≡ none) → (if not t then none else ip) ≡ ip
      pointer true h = refl
      pointer false h = sym (h refl)

  -- The address that a rule takes.
  abbrev pub taken : (E → A) → UdpProxyRule E → IpProxies A → Option A × IpProxies A
  taken address rule ips =
      if same_port rule.src_port 0
      then get_ip_proxy (address rule.dst_endpoint) ips
      else (none, ips)

  pub taken-Taken :
      (hs : List A) (address : E → A) (rule : UdpProxyRule E) (ips : IpProxies A)
      → IsCounted ips hs
      → length hs < 2147483647
      → Taken hs ips (same_port rule.src_port 0) (taken address rule ips)
  taken-Taken hs address rule ips c h = choose (same_port rule.src_port 0)
    where
      choose :
          (t : Bool)
          → Taken hs ips t (if t then get_ip_proxy (address rule.dst_endpoint) ips else (none, ips))
      choose true =
          let (f, b) = get_ip_proxy-Known (address rule.dst_endpoint) ips in
          (b, acquire-IsCounted ips hs (address rule.dst_endpoint) h c, λ n. cc, λ _. f)
      choose false = (refl, c, λ _. refl, λ n. cc)
