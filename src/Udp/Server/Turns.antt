-- ===== src/Udp/Server/Turns.antt =====
-- src/udp_proxy.cpp: `UdpProxyServer` over its whole life, beside other users of `ip_proxies`.
use tcp_udp_proxy.Prelude.{
  ℕ, ℤ, pos, ◌≡◌, ◌≢◌, subst, ◌∙◌, some, List, [], if_elim, Pair, done, Runs,
}
use tcp_udp_proxy.Prelude.Maps.{Eq, lookup, insert}
use tcp_udp_proxy.IpProxy.{IpProxies}
use tcp_udp_proxy.IpProxy.Holders.{IsCounted}
use tcp_udp_proxy.Udp.Endpoint.{UdpEndpointProxy}
use tcp_udp_proxy.Udp.Server.Holders.{holders}
use tcp_udp_proxy.Udp.Server.Sound.{Good}
use tcp_udp_proxy.Udp.Server.Routine.{UdpProxyServer, new_server, routine_turn, add_server_proxy}
use tcp_udp_proxy.Udp.Endpoint.{Opening}
use tcp_udp_proxy.Udp.Server.{Sent}
use tcp_udp_proxy.Prelude.{ErrorCode}
use tcp_udp_proxy.Config.{UdpProxyRule}
use tcp_udp_proxy.Udp.Endpoint.{Datagram, handle_recv}
use tcp_udp_proxy.Udp.Server.Feeds.{handle_recv-Fed}
use tcp_udp_proxy.IpProxy.References.{Counted}
use tcp_udp_proxy.IpProxy.Holders.{count}
use tcp_udp_proxy.Prelude.{Runs-done}
use tcp_udp_proxy.Prelude.{[], ◌∷◌, ◌||◌, ltb_ℤ, refl, false, if_elim}
use tcp_udp_proxy.Udp.Server.Entries.{Entries, AllEntries}
use tcp_udp_proxy.IpProxy.{start}
use tcp_udp_proxy.IpProxy.Pointers.{Known}
use tcp_udp_proxy.Udp.Server.Steps.{SoundServer, Fits, turn_lem, receive_lem, add_lem}

start_bandwidth :
    {A : Type 0} (send recv now : ℤ) (s : IpProxies A)
    → (start send recv now s).bandwidth ≡ record { at0 = send; at1 = recv }
unfolding start
start_bandwidth {A} send recv now s =
    if_elim (λ (t : IpProxies A). t.bandwidth ≡ record { at0 = send; at1 = recv })
      (ltb_ℤ (pos 0) send || ltb_ℤ (pos 0) recv) _ _ (λ _. refl) (λ _. refl)

start-IsCounted :
    {A : Type 0} ⦃a : Eq A⦄ (send recv now : ℤ) (s : IpProxies A) (hs : List A)
    → IsCounted s hs
    → IsCounted (start send recv now s) hs
unfolding start
start-IsCounted {A} send recv now s hs i =
    if_elim (λ (t : IpProxies A). IsCounted t hs) (ltb_ℤ (pos 0) send || ltb_ℤ (pos 0) recv) _ _
      (λ _. record { is_map = i.is_map; counted = i.counted; few = i.few })
      (λ _. record { is_map = i.is_map; counted = i.counted; few = i.few })

-- An endpoint that is not a rule with a port has a `client_ip` wherever a limit is set.
abbrev pub IsPointed : {E A : Type 0} → Pair ℤ → E → UdpEndpointProxy E A → Type 0
IsPointed bw k x = x.server_flag ≡ false → Known bw x.client_ip

-- Such endpoints are good under the new limits.
Good-limits :
    {E A : Type 0} (bw cw : Pair ℤ) (m : Entries E A)
    → AllEntries (IsPointed bw) m
    → AllEntries (Good cw) m
    → AllEntries (Good bw) m
Good-limits bw cw [] pointed g = tt
Good-limits bw cw ((k, x) ∷ m) (f, pointed) ((h, q), g) = ((f, q), Good-limits bw cw m pointed g)

module _ {E A : Type 0} ⦃e : Eq E⦄ ⦃a : Eq A⦄ where
  -- The states of a server where each client has an allowance bw, beside the holders that others
  -- have. A rule is added; the limits are set, where each endpoint but those of rules with a port has
  -- a `client_ip` if a limit is positive; a receive completes with a datagram that does not come from
  -- the endpoint's own key; the thread takes a turn; or others use `ip_proxies`, keep it counted and
  -- leave the limits alone.
  pub data Reach : Pair ℤ → List A → UdpProxyServer E A → IpProxies A → Type 0 where
    started :
        {bw : Pair ℤ} {hs : List A} {ips : IpProxies A} (ms : ℤ)
        → ips.bandwidth ≡ bw
        → IsCounted ips hs
        → Reach bw hs (new_server ms) ips
    adds :
        {bw : Pair ℤ} {hs : List A} {s t : UdpProxyServer E A} {ips jps : IpProxies A}
        (address : E → A) (o : Opening) (rule : UdpProxyRule E)
        → Reach bw hs s ips
        → Fits bw hs s
        → add_server_proxy address o rule s ips ≡ done (t, jps)
        → Reach bw hs t jps
    receives :
        {bw : Pair ℤ} {hs : List A} {s : UdpProxyServer E A} {ips : IpProxies A} (k : E)
        (x : UdpEndpointProxy E A) (ec : ErrorCode) (now drawn : ℤ) (o : Opening) (d : Datagram E)
        → Reach bw hs s ips
        → lookup k s.endpoints ≡ some x
        → d.from ≢ k
        → Reach bw hs
            (record s { endpoints = insert k (handle_recv ec now drawn o d x) s.endpoints })
            ips
    turns :
        {bw : Pair ℤ} {hs : List A} {s t : UdpProxyServer E A} {ips jps : IpProxies A}
        {w : List (Sent E)} (ms udp_timeout : ℤ) (address : E → A) (opening : ℕ → Opening)
        (result : ℕ → ErrorCode)
        → Reach bw hs s ips
        → Fits bw hs s
        → routine_turn ms udp_timeout address opening result s ips ≡ done (t, jps, w)
        → Reach bw hs t jps
    limits :
        {bw : Pair ℤ} {hs : List A} {s : UdpProxyServer E A} {ips : IpProxies A} (send recv now : ℤ)
        → Reach bw hs s ips
        → AllEntries (IsPointed (record { at0 = send; at1 = recv })) s.endpoints
        → Reach (record { at0 = send; at1 = recv }) hs s (start send recv now ips)
    others :
        {bw : Pair ℤ} {hs ks : List A} {s : UdpProxyServer E A} {ips jps : IpProxies A}
        → Reach bw hs s ips
        → jps.bandwidth ≡ ips.bandwidth
        → IsCounted jps (holders s.endpoints ks)
        → Reach bw ks s jps

  pub Reach-Sound :
      {bw : Pair ℤ} {hs : List A} {s : UdpProxyServer E A} {ips : IpProxies A}
      → Reach bw hs s ips
      → SoundServer bw hs s ips
  unfolding new_server
  Reach-Sound (started ms b c) = record {
    map_endpoints = tt;
    map_fresh = tt;
    limits = b;
    good_endpoints = tt;
    good_fresh = tt;
    accounts = c;
  }
  Reach-Sound {bw} {hs} (adds {s = s} {ips = ips} address o rule r h q) =
      subst (Runs (λ (t, jps). SoundServer bw hs t jps)) q
        (add_lem bw hs address o rule s ips (Reach-Sound r) h)
  Reach-Sound {bw} {hs} (receives {s = s} {ips = ips} k x ec now drawn o d r q n) =
      receive_lem bw hs s ips k d.from x (handle_recv ec now drawn o d x) (Reach-Sound r) q n
        (handle_recv-Fed ec now drawn o d x)
  Reach-Sound {bw} {hs} (limits {bw = cw} {s = s} {ips = ips} send recv now r pointed) =
      let d = Reach-Sound r in
      record {
        map_endpoints = d.map_endpoints;
        map_fresh = tt;
        limits = start_bandwidth send recv now ips;
        good_endpoints =
            Good-limits (record { at0 = send; at1 = recv }) cw s.endpoints pointed d.good_endpoints;
        good_fresh = tt;
        accounts = start-IsCounted send recv now ips (holders s.endpoints hs) d.accounts;
      }
  Reach-Sound {bw} {hs} (turns {s = s} {ips = ips} ms u address opening result r h q) =
      subst (Runs (λ (t, jps, w). SoundServer bw hs t jps)) q
        (turn_lem bw hs ms u address opening result s ips (Reach-Sound r) h)
  Reach-Sound (others r b c) =
      let d = Reach-Sound r in
      record {
        map_endpoints = d.map_endpoints;
        map_fresh = tt;
        limits = b ∙ d.limits;
        good_endpoints = d.good_endpoints;
        good_fresh = tt;
        accounts = c;
      }

  -- In each state that the server reaches, beside others that hold the addresses hs, the number of
  -- endpoints and others that hold an address is the `ref_cnt` of its entry in `ip_proxies`; an
  -- address that none holds has no entry, or one with a `ref_cnt` of 0.
  pub endpoints-Counted :
      {bw : Pair ℤ} {hs : List A} {s : UdpProxyServer E A} {ips : IpProxies A}
      → Reach bw hs s ips
      → (x : A) → Counted (lookup x ips.addrs) (count x (holders s.endpoints hs))
  endpoints-Counted r x = (Reach-Sound r).accounts.counted x

  -- From each state that the server reaches with room for the messages that wait, a turn of the
  -- thread comes to its end without a failed assertion and without a null or dangling pointer, and
  -- the state after it is again one that the server reaches. It is a condition of these states that
  -- a positive limit is not set while an endpoint of a rule without a port has no `client_ip`, as it
  -- has none if it was added before the limits, and that none but `start` of `ip_proxies` sets the
  -- limits.
  pub turn_runs :
      {bw : Pair ℤ} {hs : List A} {s : UdpProxyServer E A} {ips : IpProxies A} (ms udp_timeout : ℤ)
      (address : E → A) (opening : ℕ → Opening) (result : ℕ → ErrorCode)
      → Reach bw hs s ips
      → Fits bw hs s
      → (z : UdpProxyServer E A × IpProxies A × List (Sent E)) × (routine_turn ms udp_timeout
            address opening result s ips
          ≡ done z)
        × Reach bw hs z.0 z.1
  turn_runs {bw} {hs} {s} {ips} ms u address opening result r h =
      let (z, q, d) =
        Runs-done (λ (t, jps, w). SoundServer bw hs t jps) _
          (turn_lem bw hs ms u address opening result s ips (Reach-Sound r) h) in
      (z, q, turns ms u address opening result r h q)

  -- From each such state a rule can be added, with or without a port of its own.
  pub add_runs :
      {bw : Pair ℤ} {hs : List A} {s : UdpProxyServer E A} {ips : IpProxies A} (address : E → A)
      (o : Opening) (rule : UdpProxyRule E)
      → Reach bw hs s ips
      → Fits bw hs s
      → (z : UdpProxyServer E A × IpProxies A) × (add_server_proxy address o rule s ips ≡ done z)
        × Reach bw hs z.0 z.1
  add_runs {bw} {hs} {s} {ips} address o rule r h =
      let (z, q, d) =
        Runs-done (λ (t, jps). SoundServer bw hs t jps) _
          (add_lem bw hs address o rule s ips (Reach-Sound r) h) in
      (z, q, adds address o rule r h q)
