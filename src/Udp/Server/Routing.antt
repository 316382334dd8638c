-- ===== src/Udp/Server/Routing.antt =====
-- src/udp_proxy.cpp: where the messages of a round go, from the queues of received messages to endpoints.
use tcp_udp_proxy.Prelude.{
  ℤ, pos, ltb_ℤ, ◌≡◌, refl, sym, subst, Option, none, some, List, [], ◌∷◌, if_elim, p1, done, Ends,
  Ends-bind, Ends-any, ◌>>=◌,
}
use tcp_udp_proxy.Prelude.Maps.{Eq, ◌==◌, lookup, insert, erase}
use tcp_udp_proxy.IpProxy.{IpProxies}
use tcp_udp_proxy.Udp.Endpoint.{UdpMsg, UdpEndpointProxy}
use tcp_udp_proxy.Udp.Server.{
  Surroundings, Round, limited, refill, is_expired, take_message, charge_ip, discard,
}
use tcp_udp_proxy.Udp.Server.Receive.{
  deliver, forward_one, drain, forward_all, visit_entry, recv_pass, insert_new,
}
use tcp_udp_proxy.Udp.Server.Entries.{
  Entries, AllEntries, lookup-AllEntries, insert-AllEntries, erase-AllEntries,
}
use tcp_udp_proxy.Udp.Server.Sound.{take_message-Popped}
use tcp_udp_proxy.Udp.Server.Routes.{
  AllMessages, Traffic, Routed, RoutedRound, counted, refill-Routed, take_message-Routed,
  discard-Routed, deliver-Routed,
}

module _ {E A : Type 0} ⦃e : Eq E⦄ ⦃a : Eq A⦄ (f : Traffic E) (env : Surroundings E A) where
  open f use {In, Out}

  abbrev pub Kept : E → UdpEndpointProxy E A × Round E A → Type 0
  Kept k (x, r) = Routed f k x × RoutedRound f r

  abbrev Forwarded : E → List (UdpMsg E) → Option (UdpEndpointProxy E A × Round E A) → Type 0
  Forwarded k ms none = Unit {0}
  Forwarded k ms (some (x, r)) = (x.recv_queue ≡ ms) × Routed f k x × RoutedRound f r

  charged :
      (k : E) (m : UdpMsg E) (ms : List (UdpMsg E)) (x : UdpEndpointProxy E A) (r : Round E A)
      (o : Option (IpProxies A))
      → x.recv_queue ≡ m ∷ ms
      → In k m
      → Kept k (x, r)
      → Ends (Forwarded k ms) (elim o [
        | none ↦ done none
        | some ips ↦ deliver env k m x (record r { ip_proxies = ips }) >>= λ u.
            done (some (take_message m.msg x, u))
      ])
  charged k m ms x r none q i h = tt
  charged k m ms x r (some t) q i (p, h) =
      Ends-bind (RoutedRound f) (Forwarded k ms) _ _
        (deliver-Routed f env k m x (record r { ip_proxies = t }) i (counted f env r t h))
        (λ u v.
          ((take_message-Popped m.msg m ms x q).2, take_message-Routed f k m.msg m ms x q p, v))

  forward_one-Forwarded :
      (k : E) (m : UdpMsg E) (ms : List (UdpMsg E)) (x : UdpEndpointProxy E A) (r : Round E A)
      → x.recv_queue ≡ m ∷ ms
      → Kept k (x, r)
      → Ends (Forwarded k ms) (forward_one env k m x r)
  unfolding forward_one
  forward_one-Forwarded k m ms x r q h =
      let (i, _) : AllMessages (In k) (m ∷ ms) = subst (AllMessages (In k)) q h.0.1 in
      if_elim (Ends (Forwarded k ms)) (ltb_ℤ x.recv_avail_bytes (pos 0)) _ _ (λ _. tt)
        (λ _.
          if_elim (Ends (Forwarded k ms)) (m.src == k) _ _ (λ _. tt)
            (λ _.
              if_elim (Ends (Forwarded k ms)) (ltb_ℤ env.now m.time) _ _ (λ _. tt)
                (λ _.
                  Ends-bind (λ o. Unit {0}) (Forwarded k ms) _ _
                    (Ends-any (λ o. Unit {0}) (charge_ip p1 m.msg x r.ip_proxies) (λ o. tt))
                    (λ o _. charged k m ms x r o q i h))))

  rest_Kept :
      (k : E) (ms : List (UdpMsg E)) (x : UdpEndpointProxy E A) (r : Round E A)
      (o : Option (UdpEndpointProxy E A × Round E A))
      → ((y : UdpEndpointProxy E A) (t : Round E A)
          → y.recv_queue ≡ ms
          → Kept k (y, t)
          → Ends (Kept k) (drain env k ms y t))
      → Kept k (x, r)
      → Forwarded k ms o
      → Ends (Kept k) (elim o [ none ↦ done (x, r) | some (x', r') ↦ drain env k ms x' r' ])
  rest_Kept k ms x r none go h g = h
  rest_Kept k ms x r (some (y, t)) go h (q, p, g) = go y t q (p, g)

  drain-Kept :
      (k : E) (ms : List (UdpMsg E)) (x : UdpEndpointProxy E A) (r : Round E A)
      → x.recv_queue ≡ ms
      → Kept k (x, r)
      → Ends (Kept k) (drain env k ms x r)
  unfolding drain
  drain-Kept k [] x r q h = h
  drain-Kept k (m ∷ ms) x r q h =
      Ends-bind (Forwarded k ms) (Kept k) _ _ (forward_one-Forwarded k m ms x r q h)
        (λ o g. rest_Kept k ms x r o (drain-Kept k ms) h g)

  -- The endpoint goes back into the map.
  pub put_back :
      (k : E) (x : UdpEndpointProxy E A) (r : Round E A)
      → Kept k (x, r)
      → RoutedRound f (record r { endpoints = insert k x r.endpoints })
  put_back k x r (p, h) = record {
    endpoints = insert-AllEntries (Routed f) k x r.endpoints p h.endpoints;
    new_epts = h.new_epts;
    wire = h.wire;
  }

  recv_queue-refill :
      (interval : ℤ) (x : UdpEndpointProxy E A) → (refill interval x).recv_queue ≡ x.recv_queue
  unfolding refill
  recv_queue-refill interval x =
      if_elim (λ (y : UdpEndpointProxy E A). y.recv_queue ≡ x.recv_queue) (limited x) _ _
        (λ _. refl) (λ _. refl)

  visit_entry-Routed :
      (k : E) (x : UdpEndpointProxy E A) (r : Round E A)
      → Kept k (x, r)
      → Ends (RoutedRound f) (visit_entry env k x r)
  unfolding visit_entry forward_all
  visit_entry-Routed k x r (p, h) =
      if_elim (Ends (RoutedRound f)) (is_expired env.active_timeout_tm x) _ _
        (λ _.
          discard-Routed f env x (record r { endpoints = erase k r.endpoints })
            (record {
              endpoints = erase-AllEntries (Routed f) k r.endpoints h.endpoints;
              new_epts = h.new_epts;
              wire = h.wire;
            }))
        (λ _.
          Ends-bind (Kept k) (RoutedRound f) _ _
            (drain-Kept k x.recv_queue (refill env.interval x) r (recv_queue-refill env.interval x)
              (refill-Routed f k env.interval x p, h))
            (λ (y, t) g. put_back k y t g))

  pub recv_pass-Routed :
      (ks : List E) (r : Round E A) → RoutedRound f r → Ends (RoutedRound f) (recv_pass env ks r)
  unfolding recv_pass
  recv_pass-Routed [] r h = h
  recv_pass-Routed (k ∷ ks) r h =
      Ends-bind (RoutedRound f) (RoutedRound f) _ _ (visited (lookup k r.endpoints) refl)
        (λ t g. recv_pass-Routed ks t g)
    where
      visited :
          (o : Option (UdpEndpointProxy E A))
          → o ≡ lookup k r.endpoints
          → Ends (RoutedRound f) (elim o [ none ↦ done r | some x ↦ visit_entry env k x r ])
      visited none q = h
      visited (some x) q =
          visit_entry-Routed k x r
            (lookup-AllEntries (Routed f) k r.endpoints x (sym q) h.endpoints, h)

  pub insert_new-Routed :
      (new_epts : Entries E A) (r : Round E A)
      → AllEntries (Routed f) new_epts
      → RoutedRound f r
      → Ends (RoutedRound f) (insert_new new_epts r)
  unfolding insert_new
  insert_new-Routed [] r all h = record { endpoints = h.endpoints; new_epts = tt; wire = h.wire }
  insert_new-Routed ((k, x) ∷ rest) r (p, all) h =
      Ends-bind (RoutedRound f) (RoutedRound f) _ _ (inserted (lookup k r.endpoints))
        (λ t g. insert_new-Routed rest t all g)
    where
      inserted :
          (o : Option (UdpEndpointProxy E A))
          → Ends (RoutedRound f) (elim o [
            | none ↦ done (record r { endpoints = insert k x r.endpoints })
            | some old ↦ discard x r
          ])
      inserted none = put_back k x r (p, h)
      inserted (some old) = discard-Routed f env x r h
