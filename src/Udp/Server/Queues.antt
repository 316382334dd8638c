-- ===== src/Udp/Server/Queues.antt =====
-- src/udp_proxy.cpp: what the loops of a round take off the queues of one endpoint, and in which
-- order.
use tcp_udp_proxy.Prelude.{
  ℤ, pos, ◌≤ℤ◌, ltb_ℤ, ◌≡◌, refl, sym, ap, subst, ◌∙◌, false, Option, none, some, List, [], ◌∷◌,
  ◌++◌, if_elim, arith, p1, Outcome, done, fault, ◌>>=◌, Ends, Ends-bind,
}
use tcp_udp_proxy.Prelude.Maps.{Eq, ◌==◌}
use tcp_udp_proxy.IpProxy.{IpProxies}
use tcp_udp_proxy.Udp.Endpoint.{UdpMsg, UdpEndpointProxy}
use tcp_udp_proxy.Udp.Server.{Surroundings, Round, charge_ip, take_message}
use tcp_udp_proxy.Udp.Server.Receive.{deliver, forward_one, drain}
use tcp_udp_proxy.Udp.Server.Sound.{take_message-Popped}

-- Each message is due.
abbrev pub Due : {E : Type 0} → ℤ → List (UdpMsg E) → Type 0
Due now [] = Unit {0}
Due now (m ∷ ms) = (m.time ≤ℤ now) × Due now ms

module _ {E A : Type 0} ⦃e : Eq E⦄ ⦃a : Eq A⦄ (env : Surroundings E A) (k : E) where
  -- The messages are handed on one after the other: each is paid for by the client that sent it,
  -- delivered, and taken off the queue, and nothing else is done in between.
  pub data Handed
      : List (UdpMsg E)
        → UdpEndpointProxy E A
        → Round E A
        → UdpEndpointProxy E A
        → Round E A
        → Type 0 where
    nil : {x : UdpEndpointProxy E A} {r : Round E A} → Handed [] x r x r
    hands :
        {m : UdpMsg E} {ms : List (UdpMsg E)} {x y : UdpEndpointProxy E A} {r u t : Round E A}
        (ips : IpProxies A)
        → charge_ip p1 m.msg x r.ip_proxies ≡ done (some ips)
        → deliver env k m x (record r { ip_proxies = ips }) ≡ done u
        → Handed ms (take_message m.msg x) u y t
        → Handed (m ∷ ms) x r y t

  -- Of its queue, the loop took a first part off, of messages that were due, and handed these on.
  abbrev pub TookDue : UdpEndpointProxy E A → Round E A → UdpEndpointProxy E A → Round E A → Type 0
  TookDue x r y t =
      (taken : List (UdpMsg E)) × (x.recv_queue ≡ taken ++ y.recv_queue)
      × Due env.now taken
      × Handed taken x r y t

  -- What one round of the loop does.
  abbrev Forwarded :
      UdpMsg E
      → UdpEndpointProxy E A
      → Round E A
      → Option (UdpEndpointProxy E A × Round E A)
      → Type 0
  Forwarded m x r none = Unit {0}
  Forwarded m x r (some (y, u)) =
      (ips : IpProxies A) × (charge_ip p1 m.msg x r.ip_proxies ≡ done (some ips))
      × (deliver env k m x (record r { ip_proxies = ips }) ≡ done u)
      × (y ≡ take_message m.msg x)
      × (m.time ≤ℤ env.now)

  Ends-self : {B : Type 0} (o : Outcome B) → Ends (λ b. o ≡ done b) o
  Ends-self (done b) = refl
  Ends-self (fault f) = tt

  charged :
      (m : UdpMsg E) (x : UdpEndpointProxy E A) (r : Round E A) (o : Option (IpProxies A))
      → m.time ≤ℤ env.now
      → charge_ip p1 m.msg x r.ip_proxies ≡ done o
      → Ends (Forwarded m x r) (elim o [
        | none ↦ done none
        | some ips ↦ deliver env k m x (record r { ip_proxies = ips }) >>= λ u.
            done (some (take_message m.msg x, u))
      ])
  charged m x r none h q = tt
  charged m x r (some ips) h q =
      let delivered = deliver env k m x (record r { ip_proxies = ips }) in
      Ends-bind (λ u. delivered ≡ done u) (Forwarded m x r) _ _ (Ends-self delivered)
        (λ u d. (ips, q, d, refl, h))

  due : (now time : ℤ) → ltb_ℤ now time ≡ false → time ≤ℤ now
  due now time h = ground arith

  forward_one-Forwarded :
      (m : UdpMsg E) (x : UdpEndpointProxy E A) (r : Round E A)
      → Ends (Forwarded m x r) (forward_one env k m x r)
  unfolding forward_one
  forward_one-Forwarded m x r =
      if_elim (Ends (Forwarded m x r)) (ltb_ℤ x.recv_avail_bytes (pos 0)) _ _ (λ _. tt)
        (λ _.
          if_elim (Ends (Forwarded m x r)) (m.src == k) _ _ (λ _. tt)
            (λ _.
              if_elim (Ends (Forwarded m x r)) (ltb_ℤ env.now m.time) _ _ (λ _. tt)
                (λ late.
                  Ends-bind (λ o. charge_ip p1 m.msg x r.ip_proxies ≡ done o) (Forwarded m x r) _ _
                    (Ends-self (charge_ip p1 m.msg x r.ip_proxies))
                    (λ o q. charged m x r o (due env.now m.time late) q))))

  abbrev Drained : UdpEndpointProxy E A → Round E A → UdpEndpointProxy E A × Round E A → Type 0
  Drained x r (y, t) = TookDue x r y t

  one_more :
      (m : UdpMsg E) (ms : List (UdpMsg E)) (x y : UdpEndpointProxy E A) (r u t : Round E A)
      → x.recv_queue ≡ m ∷ ms
      → Forwarded m x r (some (take_message m.msg x, u))
      → TookDue (take_message m.msg x) u y t
      → TookDue x r y t
  one_more m ms x y r u t q (ips, c, d, _, h) (taken, p, due_all, handed) = (
    m ∷ taken,
    q ∙ ap (λ l. m ∷ l) (sym (take_message-Popped m.msg m ms x q).2 ∙ p),
    (h, due_all),
    hands ips c d handed,
  )

  rest_Drained :
      (m : UdpMsg E) (ms : List (UdpMsg E)) (x : UdpEndpointProxy E A) (r : Round E A)
      (o : Option (UdpEndpointProxy E A × Round E A))
      → ((y : UdpEndpointProxy E A) (u : Round E A)
          → y.recv_queue ≡ ms
          → Ends (Drained y u) (drain env k ms y u))
      → x.recv_queue ≡ m ∷ ms
      → Forwarded m x r o
      → Ends (Drained x r) (elim o [ none ↦ done (x, r) | some (y, u) ↦ drain env k ms y u ])
  rest_Drained m ms x r none go q f = ([], refl, tt, nil)
  rest_Drained m ms x r (some (y, u)) go q (ips, c, d, s, h) =
      subst (λ y. Ends (Drained x r) (drain env k ms y u)) (sym s)
        (longer (drain env k ms (take_message m.msg x) u)
          (go (take_message m.msg x) u (take_message-Popped m.msg m ms x q).2))
    where
      longer :
          (o : Outcome (UdpEndpointProxy E A × Round E A))
          → Ends (Drained (take_message m.msg x) u) o
          → Ends (Drained x r) o
      longer (done (z, t)) took = one_more m ms x z r u t q (ips, c, d, refl, h) took
      longer (fault f) took = tt

  drain-Drained :
      (ms : List (UdpMsg E)) (x : UdpEndpointProxy E A) (r : Round E A)
      → x.recv_queue ≡ ms
      → Ends (Drained x r) (drain env k ms x r)
  unfolding drain
  drain-Drained [] x r q = ([], refl, tt, nil)
  drain-Drained (m ∷ ms) x r q =
      Ends-bind (Forwarded m x r) (Drained x r) _ _ (forward_one-Forwarded m x r)
        (λ o f. rest_Drained m ms x r o (drain-Drained ms) q f)

  -- The receive loop of a round takes a first part of the queue off it, in which each message is due.
  -- What the loop does to the endpoint and to the state of the round is that it hands these messages
  -- on, in their order, each of them once: each is paid for, delivered and taken off the queue.
  pub drain_in_order :
      (x y : UdpEndpointProxy E A) (r t : Round E A)
      → drain env k x.recv_queue x r ≡ done (y, t)
      → TookDue x r y t
  drain_in_order x y r t q = subst (Ends (Drained x r)) q (drain-Drained x.recv_queue x r refl)
