-- ===== src/Udp/Server/Dispatch.antt =====
-- src/udp_proxy.cpp: where the messages of a round go, from the endpoints to the wire.
use tcp_udp_proxy.Prelude.{
  pos, ltb_ℤ, ◌≡◌, refl, sym, subst, Bool, true, false, Option, none, some, List, [], ◌∷◌, ◌++◌,
  map, if_elim, p0, is_error, done, Ends, Ends-bind, Ends-any, ◌>>=◌,
}
use tcp_udp_proxy.Prelude.Maps.{Eq, lookup, insert}
use tcp_udp_proxy.Buffer.{Buffer}
use tcp_udp_proxy.IpProxy.{IpProxies}
use tcp_udp_proxy.Udp.Endpoint.{UdpMsg, UdpEndpointProxy}
use tcp_udp_proxy.Udp.Server.{Surroundings, Sent, Round, limited, charge_ip}
use tcp_udp_proxy.Udp.Server.Send.{sent_message, send_front, drain_send, send_pass}
use tcp_udp_proxy.Udp.Server.Routine.{run_round}
use tcp_udp_proxy.Udp.Server.Entries.{lookup-AllEntries}
use tcp_udp_proxy.Udp.Server.Routes.{
  AllMessages, Traffic, Routed, AllSent, RoutedRound, counted, restart-Routed,
}
use tcp_udp_proxy.Udp.Server.Routing.{Kept, put_back, recv_pass-Routed, insert_new-Routed}

module _ {E A : Type 0} ⦃e : Eq E⦄ ⦃a : Eq A⦄ (f : Traffic E) (env : Surroundings E A) where
  open f use {In, Out}

  AllSent-append :
      (w : List (Sent E)) (s : Sent E)
      → AllSent f w
      → Out s.from s.message
      → AllSent f (w ++ s ∷ [])
  AllSent-append [] s h o = (o, tt)
  AllSent-append (x ∷ w) s (p, h) o = (p, AllSent-append w s h o)

  abbrev Fronted : E → List (UdpMsg E) → Bool × UdpEndpointProxy E A × Round E A → Type 0
  Fronted k ms (true, x, r) = (x.send_queue ≡ ms) × Routed f k x × RoutedRound f r
  Fronted k ms (false, x, r) = Routed f k x × RoutedRound f r

  sent_message-Routed :
      (k : E) (ms : List (UdpMsg E)) (b : Buffer) (x : UdpEndpointProxy E A)
      → AllMessages (Out k) ms
      → AllMessages (In k) x.recv_queue
      → ((sent_message ms b x).send_queue ≡ ms) × Routed f k (sent_message ms b x)
  unfolding sent_message
  sent_message-Routed k ms b x s q =
      if_elim (λ (y : UdpEndpointProxy E A). (y.send_queue ≡ ms) × Routed f k y) (limited x) _ _
        (λ _. (refl, (s, q))) (λ _. (refl, (s, q)))

  send_front-Fronted :
      (k : E) (m : UdpMsg E) (ms : List (UdpMsg E)) (x : UdpEndpointProxy E A) (r : Round E A)
      → x.send_queue ≡ m ∷ ms
      → Kept f env k (x, r)
      → Fronted k ms (send_front env k m ms x r)
  unfolding send_front
  send_front-Fronted k m ms x r q (p, h) =
      let (o, s) : AllMessages (Out k) (m ∷ ms) = subst (AllMessages (Out k)) q p.0 in
      if_elim (Fronted k ms) (is_error (env.send_result r.sends)) _ _
        (λ _. (
          restart-Routed f k (env.opening r.inits) x p,
          record { endpoints = h.endpoints; new_epts = h.new_epts; wire = h.wire },
        ))
        (λ _.
          let (l, n) = sent_message-Routed k ms m.msg x s p.1 in
          (
            l,
            n,
            record {
              endpoints = h.endpoints;
              new_epts = h.new_epts;
              wire = AllSent-append r.wire (record { from = k; message = m }) h.wire o;
            },
          ))

  after_front :
      (k : E) (ms : List (UdpMsg E)) (z : Bool × UdpEndpointProxy E A × Round E A)
      → ((y : UdpEndpointProxy E A) (t : Round E A)
          → y.send_queue ≡ ms
          → Kept f env k (y, t)
          → Ends (Kept f env k) (drain_send env k ms y t))
      → Fronted k ms z
      → Ends (Kept f env k) (
          let (more, x', r') = z in
          elim more [ true ↦ drain_send env k ms x' r' | false ↦ done (x', r') ])
  after_front k ms (true, y, t) go (q, p, g) = go y t q (p, g)
  after_front k ms (false, y, t) go g = g

  after_charge :
      (k : E) (m : UdpMsg E) (ms : List (UdpMsg E)) (x : UdpEndpointProxy E A) (r : Round E A)
      (o : Option (IpProxies A))
      → ((y : UdpEndpointProxy E A) (t : Round E A)
          → y.send_queue ≡ ms
          → Kept f env k (y, t)
          → Ends (Kept f env k) (drain_send env k ms y t))
      → x.send_queue ≡ m ∷ ms
      → Kept f env k (x, r)
      → Ends (Kept f env k) (elim o [
        | none ↦ done (x, r)
        | some ips ↦
            let (more, x', r') = send_front env k m ms x (record r { ip_proxies = ips }) in
            elim more [ true ↦ drain_send env k ms x' r' | false ↦ done (x', r') ]
      ])
  after_charge k m ms x r none go q h = h
  after_charge k m ms x r (some t) go q (p, h) =
      after_front k ms (send_front env k m ms x (record r { ip_proxies = t })) go
        (send_front-Fronted k m ms x (record r { ip_proxies = t }) q (p, counted f env r t h))

  drain_send-Kept :
      (k : E) (ms : List (UdpMsg E)) (x : UdpEndpointProxy E A) (r : Round E A)
      → x.send_queue ≡ ms
      → Kept f env k (x, r)
      → Ends (Kept f env k) (drain_send env k ms x r)
  unfolding drain_send
  drain_send-Kept k [] x r q h = h
  drain_send-Kept k (m ∷ ms) x r q h =
      if_elim (Ends (Kept f env k)) (ltb_ℤ x.send_avail_bytes (pos 0)) _ _ (λ _. h)
        (λ _.
          Ends-bind (λ o. Unit {0}) (Kept f env k) _ _
            (Ends-any (λ o. Unit {0}) (charge_ip p0 m.msg x r.ip_proxies) (λ o. tt))
            (λ o _. after_charge k m ms x r o (drain_send-Kept k ms) q h))

  send_pass-Routed :
      (ks : List E) (r : Round E A) → RoutedRound f r → Ends (RoutedRound f) (send_pass env ks r)
  unfolding send_pass
  send_pass-Routed [] r h = h
  send_pass-Routed (k ∷ ks) r h =
      Ends-bind (RoutedRound f) (RoutedRound f) _ _ (visited (lookup k r.endpoints) refl)
        (λ t g. send_pass-Routed ks t g)
    where
      visited :
          (o : Option (UdpEndpointProxy E A))
          → o ≡ lookup k r.endpoints
          → Ends (RoutedRound f) (elim o [
            | none ↦ done r
            | some x ↦ drain_send env k x.send_queue x r >>= λ z.
                done (record z.1 { endpoints = insert k z.0 z.1.endpoints })
          ])
      visited none q = h
      visited (some x) q =
          Ends-bind (Kept f env k) (RoutedRound f) _ _
            (drain_send-Kept k x.send_queue x r refl
              (lookup-AllEntries (Routed f) k r.endpoints x (sym q) h.endpoints, h))
            (λ (y, t) g. put_back f env k y t g)

  pub run_round-Routed : (r : Round E A) → RoutedRound f r → Ends (RoutedRound f) (run_round env r)
  unfolding run_round
  run_round-Routed r h =
      Ends-bind (RoutedRound f) (RoutedRound f) _ _
        (recv_pass-Routed f env (map (λ p. p.0) r.endpoints) r h)
        (λ t g.
          Ends-bind (RoutedRound f) (RoutedRound f) _ _
            (insert_new-Routed f env t.new_epts t g.new_epts g)
            (λ u w. send_pass-Routed (map (λ p. p.0) u.endpoints) u w))
