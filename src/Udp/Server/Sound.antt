-- ===== src/Udp/Server/Sound.antt =====
-- src/udp_proxy.cpp: the state of a round together with the `ip_proxies` that it changes.
use tcp_udp_proxy.Prelude.{
  ℤ, pos, ltb, ◌≡◌, ◌≢◌, refl, sym, subst, ◌∙◌, true, false, not, Option, List, [], ◌∷◌, length,
  if_elim, Pair, is_error,
}
use tcp_udp_proxy.Prelude.Maps.{Eq, IsMap}
use tcp_udp_proxy.Buffer.{Buffer}
use tcp_udp_proxy.Config.{UdpProxyRule, max_udp_msg_queue_size}
use tcp_udp_proxy.IpProxy.{is_zero}
use tcp_udp_proxy.IpProxy.Holders.{IsCounted}
use tcp_udp_proxy.IpProxy.Pointers.{Known}
use tcp_udp_proxy.Udp.Endpoint.{
  UdpMsg, UdpEndpointProxy, Opening, new_endpoint, init, async_recv, stop, restart, pop, pop_recv,
  push_send,
}
use tcp_udp_proxy.Udp.Server.{Round, limited, refill, touch, client_rule, take_message}
use tcp_udp_proxy.Udp.Server.Send.{sent_message}
use tcp_udp_proxy.Udp.Server.Entries.{Entries, AllEntries}
use tcp_udp_proxy.Udp.Server.Holders.{holders}

-- No message waits that comes from the endpoint with this key.
abbrev pub Quiet : {E : Type 0} → E → List (UdpMsg E) → Type 0
Quiet k [] = Unit {0}
Quiet k (m ∷ ms) = (m.src ≢ k) × Quiet k ms

-- The endpoint of a client has a pointer wherever a limit is set.
abbrev pub Good : {E A : Type 0} → Pair ℤ → E → UdpEndpointProxy E A → Type 0
Good bw k x = (x.server_flag ≡ false → Known bw x.client_ip) × Quiet k x.recv_queue

-- The maps are maps, their endpoints are good, and each entry of `ip_proxies` counts the endpoints
-- that hold it, beside other holders hs. `fresh` is what is left of `new_epts`.
pub record Sound {E A : Type 0} ⦃e : Eq E⦄ ⦃a : Eq A⦄ (bw : Pair ℤ) (hs : List A)
    (fresh : Entries E A) (r : Round E A) : Type 0 where
  pub map_endpoints : IsMap r.endpoints
  pub map_fresh : IsMap fresh
  pub limits : r.ip_proxies.bandwidth ≡ bw
  pub good_endpoints : AllEntries (Good bw) r.endpoints
  pub good_fresh : AllEntries (Good bw) fresh
  pub accounts : IsCounted r.ip_proxies (holders r.endpoints (holders fresh hs))

-- The two agree on what the accounts and the routing read.
abbrev pub Alike : {E A : Type 0} → UdpEndpointProxy E A → UdpEndpointProxy E A → Type 0
Alike x y =
    (x.client_ip ≡ y.client_ip) × (x.server_flag ≡ y.server_flag) × (x.recv_queue ≡ y.recv_queue)

module _ {E A : Type 0} where
  pub Alike-trans : (x y z : UdpEndpointProxy E A) → Alike x y → Alike y z → Alike x z
  Alike-trans x y z (p, q, r) (u, v, w) = (p ∙ u, q ∙ v, r ∙ w)

  pub Good-Alike :
      (bw : Pair ℤ) (k : E) (x y : UdpEndpointProxy E A) → Alike x y → Good bw k y → Good bw k x
  Good-Alike bw k x y (p, q, r) (g, u) =
      (λ f. subst (Known bw) (sym p) (g (sym q ∙ f)), subst (Quiet k) (sym r) u)

  pub refill-Alike : (n : ℤ) (x : UdpEndpointProxy E A) → Alike (refill n x) x
  unfolding refill
  refill-Alike n x =
      if_elim (λ (y : UdpEndpointProxy E A). Alike y x) (limited x) _ _ (λ _. (refl, refl, refl))
        (λ _. (refl, refl, refl))

  push_send-Alike : (m : UdpMsg E) (x : UdpEndpointProxy E A) → Alike (push_send m x) x
  unfolding push_send
  push_send-Alike m x =
      if_elim (λ (y : UdpEndpointProxy E A). Alike y x)
        (ltb (length x.send_queue) max_udp_msg_queue_size) _ _ (λ _. (refl, refl, refl))
        (λ _. (refl, refl, refl))

  touch-Alike : (n : ℤ) (x : UdpEndpointProxy E A) → Alike (touch n x) x
  unfolding touch
  touch-Alike n x =
      if_elim (λ (y : UdpEndpointProxy E A). Alike y x) (is_zero x.active_tm) _ _
        (λ _. (refl, refl, refl)) (λ _. (refl, refl, refl))

  -- A message that an endpoint is given to send.
  pub given-Alike :
      (n : ℤ) (m : UdpMsg E) (x : UdpEndpointProxy E A) → Alike (push_send m (touch n x)) x
  given-Alike n m x =
      Alike-trans (push_send m (touch n x)) (touch n x) x (push_send-Alike m (touch n x))
        (touch-Alike n x)

  pub sent_message-Alike :
      (ms : List (UdpMsg E)) (b : Buffer) (x : UdpEndpointProxy E A) → Alike (sent_message ms b x) x
  unfolding sent_message
  sent_message-Alike ms b x =
      if_elim (λ (y : UdpEndpointProxy E A). Alike y x) (limited x) _ _ (λ _. (refl, refl, refl))
        (λ _. (refl, refl, refl))

  pub init-Alike : (o : Opening) (x : UdpEndpointProxy E A) → Alike (init o x) x
  unfolding init async_recv
  init-Alike o x =
      if_elim P (is_error o.open_ec) _ _ (λ _. (refl, refl, refl))
        (λ _.
          if_elim P (is_error o.option_ec) _ _ (λ _. (refl, refl, refl))
            (λ _.
              if_elim P (is_error o.bind_ec) _ _ (λ _. (refl, refl, refl))
                (λ _. (refl, refl, refl))))
    where
      P : UdpEndpointProxy E A → Type 0
      P y = Alike y x

  pub restart-Alike : (o : Opening) (x : UdpEndpointProxy E A) → Alike (restart o x) x
  unfolding restart stop
  restart-Alike o x =
      if_elim (λ (y : UdpEndpointProxy E A). Alike y x) x.server_flag _ _
        (λ _. Alike-trans (init o (stop x)) (stop x) x (init-Alike o (stop x)) (refl, refl, refl))
        (λ _. (refl, refl, refl))

  pub new_client-Alike :
      (m : UdpMsg E) (rule : UdpProxyRule E) (src : E) (ip : Option A) (o : Opening)
      → ((push_send m (new_endpoint (client_rule rule src) ip o)).client_ip ≡ ip)
        × ((push_send m (new_endpoint (client_rule rule src) ip o)).recv_queue ≡ [])
  unfolding new_endpoint
  new_client-Alike m rule src ip o =
      let (p, q, r) = push_send-Alike m (new_endpoint (client_rule rule src) ip o) in
      let (u, v, w) = init-Alike o (record {
        proxy_rule = client_rule rule src;
        is_open = false;
        receives = 0;
        server_flag = false;
        active_tm = pos 0;
        recv_queue = [];
        send_queue = [];
        recv_avail_bytes = pos 0;
        send_avail_bytes = pos 0;
        recving_flag = true;
        client_ip = ip;
      }) in
      (p ∙ u, r ∙ w)

  -- What `pop` leaves of an endpoint.
  abbrev pub Popped : List (UdpMsg E) → UdpEndpointProxy E A → UdpEndpointProxy E A → Type 0
  Popped ms x y =
      (y.client_ip ≡ x.client_ip) × (y.server_flag ≡ x.server_flag) × (y.recv_queue ≡ ms)

  pop-Popped :
      (m : UdpMsg E) (ms : List (UdpMsg E)) (x : UdpEndpointProxy E A)
      → x.recv_queue ≡ m ∷ ms
      → Popped ms x (pop x)
  unfolding pop pop_recv async_recv
  pop-Popped m ms x q =
      subst (λ l. Popped ms x (pop_recv x l)) (sym q)
        (if_elim (Popped ms x) (not x.recving_flag) _ _ (λ _. (refl, refl, refl))
          (λ _. (refl, refl, refl)))

  pub take_message-Popped :
      (b : Buffer) (m : UdpMsg E) (ms : List (UdpMsg E)) (x : UdpEndpointProxy E A)
      → x.recv_queue ≡ m ∷ ms
      → Popped ms x (take_message b x)
  unfolding take_message
  take_message-Popped b m ms x q =
      if_elim (λ (y : UdpEndpointProxy E A). Popped ms x (pop y)) (limited x) _ _
        (λ _. pop-Popped m ms _ q) (λ _. pop-Popped m ms x q)
