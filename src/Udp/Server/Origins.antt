-- ===== src/Udp/Server/Origins.antt =====
-- src/udp_proxy.cpp: which message a call of `send_to` forwards, and to whom.
use tcp_udp_proxy.Prelude.{
  ℕ, ℤ, pos, ◌-ℤ◌, leb_ℤ, ◌≡◌, refl, subst, none, some, List, [], ◌∷◌, if_elim, ◌⊎◌, inl, inr,
  ErrorCode, done, Ends, Ends-bind, Pair, arith,
}
use tcp_udp_proxy.Prelude.Maps.{Eq, lookup, IsMap}
use tcp_udp_proxy.IpProxy.{IpProxies}
use tcp_udp_proxy.Udp.Endpoint.{UdpMsg, UdpEndpointProxy, Opening}
use tcp_udp_proxy.Udp.Server.{Surroundings, Sent}
use tcp_udp_proxy.Udp.Server.Routine.{UdpProxyServer, begin_round, run_round, routine_turn}
use tcp_udp_proxy.Udp.Server.Entries.{Entries, AllEntries}
use tcp_udp_proxy.Udp.Server.Routes.{AllMessages, Traffic, Routed, AllSent, RoutedRound}
use tcp_udp_proxy.Udp.Server.Dispatch.{run_round-Routed}
use tcp_udp_proxy.Udp.Server.Turns.{Reach, Reach-Sound}

abbrev pub IsIn : {E : Type 0} → UdpMsg E → List (UdpMsg E) → Type 0
IsIn m [] = ⊥
IsIn m (x ∷ ms) = (m ≡ x) ⊎ IsIn m ms

module _ {E A : Type 0} ⦃e : Eq E⦄ where
  -- The message waits in the receive queue, or in the send queue, of the endpoint k.
  abbrev pub WasReceived : Entries E A → E → UdpMsg E → Type 0
  WasReceived eps k m = (x : UdpEndpointProxy E A) × (lookup k eps ≡ some x) × IsIn m x.recv_queue

  abbrev pub Waited : Entries E A → E → UdpMsg E → Type 0
  Waited eps k m = (x : UdpEndpointProxy E A) × (lookup k eps ≡ some x) × IsIn m x.send_queue

  -- A message that the endpoint `from` may send: it waited in its send queue, or it was received by
  -- the endpoint of its destination, and its source was `from`.
  abbrev pub HasOrigin : Entries E A → E → UdpMsg E → Type 0
  HasOrigin eps from m =
      Waited eps from m
      ⊎ ((n : UdpMsg E) × WasReceived eps m.src n × (n.src ≡ from) × (record n { src = m.src } ≡ m))

  abbrev pub traffic : Entries E A → Traffic E
  traffic eps = record {
    In = WasReceived eps;
    Out = HasOrigin eps;
    turned = λ k m i. inr (m, i, refl, refl);
  }

  -- Each entry of a map is what its key finds.
  AllEntries-map :
      (P Q : E → UdpEndpointProxy E A → Type 0) (m : Entries E A)
      → ((k : E) (x : UdpEndpointProxy E A) → P k x → Q k x)
      → AllEntries P m
      → AllEntries Q m
  AllEntries-map P Q [] h all = tt
  AllEntries-map P Q ((k, x) ∷ m) h (p, all) = (h k x p, AllEntries-map P Q m h all)

  found_deeper :
      (j k : E) (x y : UdpEndpointProxy E A) (m : Entries E A)
      → lookup k m ≡ none
      → lookup j m ≡ some y
      → lookup j ((k, x) ∷ m) ≡ some y
  unfolding lookup
  found_deeper j k x y m n h = ground (arith, e.beq_iff k j)

  found_here : (k : E) (x : UdpEndpointProxy E A) (m : Entries E A) → lookup k ((k, x) ∷ m) ≡ some x
  unfolding lookup
  found_here k x m = ground (arith, e.beq_iff k k)

  entries_found : (m : Entries E A) → IsMap m → AllEntries (λ k x. lookup k m ≡ some x) m
  entries_found [] h = tt
  entries_found ((k, x) ∷ m) (n, h) = (
    found_here k x m,
    AllEntries-map (λ j y. lookup j m ≡ some y) (λ j y. lookup j ((k, x) ∷ m) ≡ some y) m
        (λ j y q. found_deeper j k x y m n q) (entries_found m h),
  )

AllMessages-self :
    {E : Type 0} (P : UdpMsg E → Type 0) (ms : List (UdpMsg E))
    → ((m : UdpMsg E) → IsIn m ms → P m)
    → AllMessages P ms
AllMessages-self P [] h = tt
AllMessages-self P (m ∷ ms) h = (h m (inl refl), AllMessages-self P ms (λ n i. h n (inr i)))

module _ {E A : Type 0} ⦃e : Eq E⦄ ⦃a : Eq A⦄ where
  begin_round-Routed :
      (s : UdpProxyServer E A) (ips : IpProxies A)
      → IsMap s.endpoints
      → RoutedRound (traffic s.endpoints) (begin_round s ips)
  begin_round-Routed s ips h = record {
    endpoints =
        AllEntries-map (λ k x. lookup k s.endpoints ≡ some x) (Routed (traffic s.endpoints))
          s.endpoints
          (λ k x q. (
            AllMessages-self (HasOrigin s.endpoints k) x.send_queue (λ m i. inl (x, q, i)),
            AllMessages-self (WasReceived s.endpoints k) x.recv_queue (λ m i. (x, q, i)),
          ))
          (entries_found s.endpoints h);
    new_epts = tt;
    wire = tt;
  }

  abbrev AllOrigins : Entries E A → UdpProxyServer E A × IpProxies A × List (Sent E) → Type 0
  AllOrigins eps (s, ips, w) = AllSent (traffic eps) w

  routine_turn-AllOrigins :
      (ms udp_timeout : ℤ) (address : E → A) (opening : ℕ → Opening) (result : ℕ → ErrorCode)
      (s : UdpProxyServer E A) (ips : IpProxies A)
      → IsMap s.endpoints
      → Ends (AllOrigins s.endpoints) (routine_turn ms udp_timeout address opening result s ips)
  unfolding routine_turn
  routine_turn-AllOrigins ms udp_timeout address opening result s ips h =
      if_elim (Ends (AllOrigins s.endpoints)) (leb_ℤ (ms -ℤ s.last_flush_tm) (pos 0)) _ _ (λ _. tt)
        (λ _.
          let env : Surroundings E A = record {
            now = ms;
            active_timeout_tm = ms -ℤ udp_timeout;
            interval = ms -ℤ s.last_flush_tm;
            address = address;
            opening = opening;
            send_result = result;
          } in
          Ends-bind (RoutedRound (traffic s.endpoints)) (AllOrigins s.endpoints)
            (run_round env (begin_round s ips))
            (λ r.
              done (record { endpoints = r.endpoints; last_flush_tm = ms }, r.ip_proxies, r.wire))
            (run_round-Routed (traffic s.endpoints) env (begin_round s ips)
              (begin_round-Routed s ips h))
            (λ t g. g.wire))

  -- In each state that the server reaches, whatever a turn of its thread sends is either a message
  -- that waited in the send queue of the endpoint that sends it, or a message that was received by the
  -- endpoint of its destination and came from the client or the server of the endpoint that sends it,
  -- with its bytes unchanged: no message is invented, altered or sent to another destination.
  pub turn_sends_received :
      {bw : Pair ℤ} {hs : List A} {s t : UdpProxyServer E A} {ips jps : IpProxies A}
      {w : List (Sent E)} (ms udp_timeout : ℤ) (address : E → A) (opening : ℕ → Opening)
      (result : ℕ → ErrorCode)
      → Reach bw hs s ips
      → routine_turn ms udp_timeout address opening result s ips ≡ done (t, jps, w)
      → AllSent (traffic s.endpoints) w
  turn_sends_received {s = s} {ips = ips} ms udp_timeout address opening result r q =
      subst (Ends (AllOrigins s.endpoints)) q (
        routine_turn-AllOrigins ms udp_timeout address opening result s ips
          (Reach-Sound r).map_endpoints)
