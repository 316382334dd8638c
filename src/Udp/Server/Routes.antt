-- ===== src/Udp/Server/Routes.antt =====
-- src/udp_proxy.cpp: where the messages of a round go, in the endpoints and in the receive pass.
use tcp_udp_proxy.Prelude.{
  ◌+◌, ℤ, ltb, ◌≡◌, refl, sym, subst, not, Option, List, [], ◌∷◌, ◌++◌, length, if_elim,
  Option-cases, inl, inr, is_error, Ends, Ends-bind, Ends-any,
}
use tcp_udp_proxy.Prelude.Maps.{Eq, lookup}
use tcp_udp_proxy.Config.{UdpProxyRule, max_udp_msg_queue_size}
use tcp_udp_proxy.Buffer.{Buffer}
use tcp_udp_proxy.IpProxy.{IpProxies, is_zero, get_ip_proxy}
use tcp_udp_proxy.IpProxy.Pointers.{destroy}
use tcp_udp_proxy.Udp.Endpoint.{
  UdpMsg, UdpEndpointProxy, Opening, init, new_endpoint, stop, restart, pop, pop_recv, push_send,
  async_recv,
}
use tcp_udp_proxy.Udp.Server.{
  Surroundings, Sent, Round, limited, refill, touch, take_message, keep_new, discard, destroy_entry,
  client_rule,
}
use tcp_udp_proxy.Udp.Server.Receive.{new_sender, deliver_new, deliver}
use tcp_udp_proxy.Udp.Server.Sound.{take_message-Popped}
use tcp_udp_proxy.Udp.Server.Entries.{AllEntries, lookup-AllEntries, insert-AllEntries}

-- Each message of a queue satisfies P.
abbrev pub AllMessages : {E : Type 0} → (UdpMsg E → Type 0) → List (UdpMsg E) → Type 0
AllMessages P [] = Unit {0}
AllMessages P (m ∷ ms) = P m × AllMessages P ms

AllMessages-append :
    {E : Type 0} (P : UdpMsg E → Type 0) (xs ys : List (UdpMsg E))
    → AllMessages P xs
    → AllMessages P ys
    → AllMessages P (xs ++ ys)
AllMessages-append P [] ys h k = k
AllMessages-append P (m ∷ xs) ys (p, h) k = (p, AllMessages-append P xs ys h k)

-- What may be received by an endpoint, and what it may send. A message that was received by the
-- endpoint k may be sent to k by the endpoint of its source.
pub record Traffic (E : Type 0) : Type 1 where
  pub In : E → UdpMsg E → Type 0
  pub Out : E → UdpMsg E → Type 0
  pub turned : (k : E) (m : UdpMsg E) → In k m → Out m.src (record m { src = k })

abbrev pub AllSent : {E : Type 0} → Traffic E → List (Sent E) → Type 0
AllSent f [] = Unit {0}
AllSent f (s ∷ w) = f.Out s.from s.message × AllSent f w

send_queue-pop_recv :
    {E A : Type 0} (x : UdpEndpointProxy E A) (ms : List (UdpMsg E))
    → (pop_recv x ms).send_queue ≡ x.send_queue
unfolding pop_recv async_recv
send_queue-pop_recv x [] = refl
send_queue-pop_recv {E} {A} x (m ∷ ms) =
    if_elim (λ (y : UdpEndpointProxy E A). y.send_queue ≡ x.send_queue) (not x.recving_flag) _ _
      (λ _. refl) (λ _. refl)

send_queue-take_message :
    {E A : Type 0} (b : Buffer) (x : UdpEndpointProxy E A)
    → (take_message b x).send_queue ≡ x.send_queue
unfolding take_message pop
send_queue-take_message {E} {A} b x =
    if_elim (λ (y : UdpEndpointProxy E A). (pop y).send_queue ≡ x.send_queue) (limited x) _ _
      (λ _. send_queue-pop_recv _ x.recv_queue) (λ _. send_queue-pop_recv x x.recv_queue)

module _ {E A : Type 0} (f : Traffic E) where
  open f use {In, Out, turned}

  -- The queues of an endpoint have such messages alone.
  abbrev pub Routed : E → UdpEndpointProxy E A → Type 0
  Routed k x = AllMessages (Out k) x.send_queue × AllMessages (In k) x.recv_queue

  pub record RoutedRound (r : Round E A) : Type 0 where
    pub endpoints : AllEntries Routed r.endpoints
    pub new_epts : AllEntries Routed r.new_epts
    pub wire : AllSent f r.wire

  push_send-Routed :
      (k : E) (m : UdpMsg E) (x : UdpEndpointProxy E A)
      → Out k m
      → Routed k x
      → Routed k (push_send m x)
  unfolding push_send
  push_send-Routed k m x o (s, q) =
      if_elim (Routed k) (ltb (length x.send_queue) max_udp_msg_queue_size) _ _
        (λ _. (AllMessages-append (Out k) x.send_queue (m ∷ []) s (o, tt), q)) (λ _. (s, q))

  touch-Routed : (k : E) (now : ℤ) (x : UdpEndpointProxy E A) → Routed k x → Routed k (touch now x)
  unfolding touch
  touch-Routed k now x h = if_elim (Routed k) (is_zero x.active_tm) _ _ (λ _. h) (λ _. h)

  pub refill-Routed :
      (k : E) (interval : ℤ) (x : UdpEndpointProxy E A) → Routed k x → Routed k (refill interval x)
  unfolding refill
  refill-Routed k interval x h = if_elim (Routed k) (limited x) _ _ (λ _. h) (λ _. h)

  init-Routed : (k : E) (o : Opening) (x : UdpEndpointProxy E A) → Routed k x → Routed k (init o x)
  unfolding init async_recv
  init-Routed k o x h =
      if_elim (Routed k) (is_error o.open_ec) _ _ (λ _. h)
        (λ _.
          if_elim (Routed k) (is_error o.option_ec) _ _ (λ _. h)
            (λ _. if_elim (Routed k) (is_error o.bind_ec) _ _ (λ _. h) (λ _. h)))

  pub restart-Routed :
      (k : E) (o : Opening) (x : UdpEndpointProxy E A) → Routed k x → Routed k (restart o x)
  unfolding restart stop
  restart-Routed k o x h =
      if_elim (Routed k) x.server_flag _ _ (λ _. init-Routed k o (stop x) h) (λ _. h)

  new_endpoint-Routed :
      (k : E) (rule : UdpProxyRule E) (ip : Option A) (o : Opening)
      → Routed k (new_endpoint rule ip o)
  unfolding new_endpoint
  new_endpoint-Routed k rule ip o = init-Routed k o _ (tt, tt)

  -- The first message leaves the queue.
  pub take_message-Routed :
      (k : E) (b : Buffer) (m : UdpMsg E) (ms : List (UdpMsg E)) (x : UdpEndpointProxy E A)
      → x.recv_queue ≡ m ∷ ms
      → Routed k x
      → Routed k (take_message b x)
  take_message-Routed k b m ms x q (s, h) = (
    subst (AllMessages (Out k)) (sym (send_queue-take_message b x)) s,
    subst (AllMessages (In k)) (sym (take_message-Popped b m ms x q).2)
        (rest (subst (AllMessages (In k)) q h)),
  )
    where
      rest : AllMessages (In k) (m ∷ ms) → AllMessages (In k) ms
      rest (p, t) = t

module _ {E A : Type 0} ⦃e : Eq E⦄ ⦃a : Eq A⦄ (f : Traffic E) (env : Surroundings E A) where
  open f use {In, Out, turned}

  abbrev pub Routes : Round E A → Type 0
  Routes r = RoutedRound f r

  -- The reference counts are not part of it.
  pub counted : (r : Round E A) (t : IpProxies A) → Routes r → Routes (record r { ip_proxies = t })
  counted r t h = record { endpoints = h.endpoints; new_epts = h.new_epts; wire = h.wire }

  pub discard-Routed :
      (x : UdpEndpointProxy E A) (r : Round E A) → Routes r → Ends Routes (discard x r)
  unfolding discard
  discard-Routed x r h =
      Ends-bind (λ t. Unit {0}) Routes _ _
        (Ends-any (λ t. Unit {0}) (destroy x.client_ip r.ip_proxies) (λ t. tt))
        (λ t _. counted r t h)

  keep_new-Routed :
      (k : E) (x : UdpEndpointProxy E A) (r : Round E A)
      → Routed f k x
      → Routes r
      → Ends Routes (keep_new k x r)
  unfolding keep_new
  keep_new-Routed k x r p h =
      Ends-bind (λ t. Unit {0}) Routes _ _
        (Ends-any (λ t. Unit {0}) (destroy_entry (lookup k r.new_epts) r.ip_proxies) (λ t. tt))
        (λ t _. record {
          endpoints = h.endpoints;
          new_epts = insert-AllEntries (Routed f) k x r.new_epts p h.new_epts;
          wire = h.wire;
        })

  deliver_new-Routed :
      (k : E) (m : UdpMsg E) (x : UdpEndpointProxy E A) (r : Round E A)
      → In k m
      → Routes r
      → Ends Routes (deliver_new env k m x r)
  unfolding deliver_new new_sender
  deliver_new-Routed k m x r i h =
      let sender : UdpEndpointProxy E A = new_sender env k m x r in
      let good : Routed f m.src sender =
        push_send-Routed f m.src (record m { src = k }) _ (turned k m i)
          (new_endpoint-Routed f m.src (client_rule x.proxy_rule m.src)
            (get_ip_proxy (env.address m.src) r.ip_proxies).0 (env.opening r.inits)) in
      let next : Routes (record r {
        ip_proxies = (get_ip_proxy (env.address m.src) r.ip_proxies).1;
        inits = r.inits + 1;
      }) =
        record { endpoints = h.endpoints; new_epts = h.new_epts; wire = h.wire } in
      if_elim (Ends Routes) (is_zero sender.active_tm) _ _ (λ _. discard-Routed sender _ next)
        (λ _. keep_new-Routed m.src sender _ good next)

  pub deliver-Routed :
      (k : E) (m : UdpMsg E) (x : UdpEndpointProxy E A) (r : Round E A)
      → In k m
      → Routes r
      → Ends Routes (deliver env k m x r)
  unfolding deliver
  deliver-Routed k m x r i h = elim (Option-cases (lookup m.src r.endpoints)) [
    | inl n ↦ rw (n, deliver) (deliver_new-Routed k m x r i h)
    | inr (y, q) ↦
        rw (q, deliver)
          (record {
            endpoints =
                insert-AllEntries (Routed f) m.src _ r.endpoints
                  (push_send-Routed f m.src (record m { src = k }) (touch env.now y) (turned k m i)
                    (touch-Routed f m.src env.now y
                      (lookup-AllEntries (Routed f) m.src r.endpoints y q h.endpoints)))
                  h.endpoints;
            new_epts = h.new_epts;
            wire = h.wire;
          })
  ]
