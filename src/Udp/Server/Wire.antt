-- ===== src/Udp/Server/Wire.antt =====
-- src/udp_proxy.cpp: what the send loop of a round puts on the wire, and in which order.
use tcp_udp_proxy.Prelude.{
  pos, ltb_ℤ, ◌≡◌, refl, sym, ap, subst, ◌∙◌, Bool, true, false, Option, none, some, List, [], ◌∷◌,
  ◌++◌, map, if_elim, p0, is_error, Outcome, done, fault, Ends, Ends-bind, Ends-any,
}
use mathlib.Core.List.{append_assoc, append-nil}
use tcp_udp_proxy.Prelude.Maps.{Eq}
use tcp_udp_proxy.Buffer.{Buffer}
use tcp_udp_proxy.IpProxy.{IpProxies}
use tcp_udp_proxy.Udp.Endpoint.{UdpMsg, UdpEndpointProxy, Opening, restart, init, stop, async_recv}
use tcp_udp_proxy.Udp.Server.{Surroundings, Sent, Round, limited, charge_ip}
use tcp_udp_proxy.Udp.Server.Send.{sent_message, send_front, drain_send}

module _ {E A : Type 0} where
  restart_send_queue :
      (o : Opening) (x : UdpEndpointProxy E A) → (restart o x).send_queue ≡ x.send_queue
  unfolding restart init stop async_recv
  restart_send_queue o x =
      if_elim P x.server_flag _ _
        (λ _.
          if_elim P (is_error o.open_ec) _ _ (λ _. refl)
            (λ _.
              if_elim P (is_error o.option_ec) _ _ (λ _. refl)
                (λ _. if_elim P (is_error o.bind_ec) _ _ (λ _. refl) (λ _. refl))))
        (λ _. refl)
    where
      P : UdpEndpointProxy E A → Type 0
      P y = y.send_queue ≡ x.send_queue

  sent_message_queue :
      (ms : List (UdpMsg E)) (b : Buffer) (x : UdpEndpointProxy E A)
      → (sent_message ms b x).send_queue ≡ ms
  unfolding sent_message
  sent_message_queue ms b x =
      if_elim (λ (y : UdpEndpointProxy E A). y.send_queue ≡ ms) (limited x) _ _ (λ _. refl)
        (λ _. refl)

-- A message of the endpoint k on the wire.
abbrev pub on_wire : {E : Type 0} → E → UdpMsg E → Sent E
on_wire k m = record { from = k; message = m }

module _ {E A : Type 0} (k : E) where
  -- Of the queue ms, a first part went onto the wire, and the rest waits.
  abbrev pub PutOnWire : List (UdpMsg E) → List (Sent E) → UdpEndpointProxy E A × Round E A → Type 0
  PutOnWire ms before (ept, r) =
      (sent : List (UdpMsg E)) × (ms ≡ sent ++ ept.send_queue)
      × (r.wire ≡ before ++ map (on_wire k) sent)

  -- After one call of `send_to`, the message is on the wire and off the queue, or waits where it was.
  abbrev Front :
      UdpMsg E → List (UdpMsg E) → List (Sent E) → Bool × UdpEndpointProxy E A × Round E A → Type 0
  Front m ms before (true, x, t) = (x.send_queue ≡ ms) × (t.wire ≡ before ++ on_wire k m ∷ [])
  Front m ms before (false, x, t) = (x.send_queue ≡ m ∷ ms) × (t.wire ≡ before)

  nothing_sent :
      (ept : UdpEndpointProxy E A) (r : Round E A) → PutOnWire ept.send_queue r.wire (ept, r)
  nothing_sent ept r = ([], refl, sym (append-nil r.wire))

  one_sent :
      (m : UdpMsg E) (ms : List (UdpMsg E)) (before after : List (Sent E))
      (z : UdpEndpointProxy E A × Round E A)
      → after ≡ before ++ on_wire k m ∷ []
      → PutOnWire ms after z
      → PutOnWire (m ∷ ms) before z
  one_sent m ms before after (x, t) q (sent, p, w) = (
    m ∷ sent,
    ap (λ l. m ∷ l) p,
    w
        ∙ ap (λ l. l ++ map (on_wire k) sent) q
        ∙ append_assoc before (on_wire k m ∷ []) (map (on_wire k) sent),
  )

  longer :
      (m : UdpMsg E) (ms : List (UdpMsg E)) (before after : List (Sent E))
      (o : Outcome (UdpEndpointProxy E A × Round E A))
      → after ≡ before ++ on_wire k m ∷ []
      → Ends (PutOnWire ms after) o
      → Ends (PutOnWire (m ∷ ms) before) o
  longer m ms before after (done z) q h = one_sent m ms before after z q h
  longer m ms before after (fault f) q h = tt

module _ {E A : Type 0} ⦃e : Eq E⦄ ⦃a : Eq A⦄ (env : Surroundings E A) (k : E) where
  send_front-Front :
      (m : UdpMsg E) (ms : List (UdpMsg E)) (ept : UdpEndpointProxy E A) (r : Round E A)
      → ept.send_queue ≡ m ∷ ms
      → Front k m ms r.wire (send_front env k m ms ept r)
  unfolding send_front
  send_front-Front m ms ept r q =
      if_elim (Front k m ms r.wire) (is_error (env.send_result r.sends)) _ _
        (λ _. (restart_send_queue (env.opening r.inits) ept ∙ q, refl))
        (λ _. (sent_message_queue ms m.msg ept, refl))

  after-Front :
      (m : UdpMsg E) (ms : List (UdpMsg E)) (before : List (Sent E))
      (z : Bool × UdpEndpointProxy E A × Round E A)
      → ((x : UdpEndpointProxy E A) (t : Round E A)
          → x.send_queue ≡ ms
          → Ends (PutOnWire k ms t.wire) (drain_send env k ms x t))
      → Front k m ms before z
      → Ends (PutOnWire k (m ∷ ms) before) (
          let (more, ept', r') = z in
          elim more [ true ↦ drain_send env k ms ept' r' | false ↦ done (ept', r') ])
  after-Front m ms before (true, x, t) go (q, w) =
      longer k m ms before t.wire (drain_send env k ms x t) w (go x t q)
  after-Front m ms before (false, x, t) go (q, w) = ([], sym q, w ∙ sym (append-nil before))

  after_charge :
      (m : UdpMsg E) (ms : List (UdpMsg E)) (ept : UdpEndpointProxy E A) (r : Round E A)
      (o : Option (IpProxies A))
      → ((x : UdpEndpointProxy E A) (t : Round E A)
          → x.send_queue ≡ ms
          → Ends (PutOnWire k ms t.wire) (drain_send env k ms x t))
      → ept.send_queue ≡ m ∷ ms
      → Ends (PutOnWire k (m ∷ ms) r.wire) (elim o [
        | none ↦ done (ept, r)
        | some ips ↦
            let (more, ept', r') = send_front env k m ms ept (record r { ip_proxies = ips }) in
            elim more [ true ↦ drain_send env k ms ept' r' | false ↦ done (ept', r') ]
      ])
  after_charge m ms ept r none go q =
      subst (λ l. PutOnWire k l r.wire (ept, r)) q (nothing_sent k ept r)
  after_charge m ms ept r (some t) go q =
      after-Front m ms r.wire (send_front env k m ms ept (record r { ip_proxies = t })) go
        (send_front-Front m ms ept (record r { ip_proxies = t }) q)

  drain_send-PutOnWire :
      (ms : List (UdpMsg E)) (ept : UdpEndpointProxy E A) (r : Round E A)
      → ept.send_queue ≡ ms
      → Ends (PutOnWire k ms r.wire) (drain_send env k ms ept r)
  unfolding drain_send
  drain_send-PutOnWire [] ept r q =
      subst (λ l. PutOnWire k l r.wire (ept, r)) q (nothing_sent k ept r)
  drain_send-PutOnWire (m ∷ ms) ept r q =
      if_elim (Ends (PutOnWire k (m ∷ ms) r.wire)) (ltb_ℤ ept.send_avail_bytes (pos 0)) _ _
        (λ _. subst (λ l. PutOnWire k l r.wire (ept, r)) q (nothing_sent k ept r))
        (λ _.
          Ends-bind (λ o. Unit {0}) (PutOnWire k (m ∷ ms) r.wire) _ _
            (Ends-any (λ o. Unit {0}) (charge_ip p0 m.msg ept r.ip_proxies) (λ o. tt))
            (λ o _. after_charge m ms ept r o (drain_send-PutOnWire ms) q))

  -- The send loop of a round sends a first part of the queue, each message once and in its order, and
  -- what it has not sent still waits, in its order: also after an error of `send_to`, which leaves the
  -- message that it was called with at the front.
  pub drain_send_in_order :
      (ept x : UdpEndpointProxy E A) (r t : Round E A)
      → drain_send env k ept.send_queue ept r ≡ done (x, t)
      → PutOnWire k ept.send_queue r.wire (x, t)
  drain_send_in_order ept x r t q =
      subst (Ends (PutOnWire k ept.send_queue r.wire)) q
        (drain_send-PutOnWire ept.send_queue ept r refl)
