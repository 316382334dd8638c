-- ===== src/Udp/Server/Handing.antt =====
-- src/udp_proxy.cpp: what the receive pass takes from the allowance of a client's address.
use tcp_udp_proxy.Prelude.{
  ℕ, ◌+◌, pos, ltb_ℤ, ◌≡◌, refl, ap, subst, ◌∙◌, Option, none, some, List, [], ◌∷◌, ◌++◌, PairId,
  p1, other, get, if_elim, done, fault, dangling_pointer, Ends, Ends-bind, arith,
}
use tcp_udp_proxy.Prelude.Maps.{Eq, lookup, insert}
use tcp_udp_proxy.IpProxy.{IpProxy, IpProxies, is_zero, get_ip_proxy, release}
use tcp_udp_proxy.IpProxy.Pointers.{destroy, get_ip_proxy-Known}
use tcp_udp_proxy.Tcp.Connection.Lives.{Owes, appears, acquires-Owes, releases-Owes}
use tcp_udp_proxy.Udp.Endpoint.{UdpMsg, UdpEndpointProxy, push_send}
use tcp_udp_proxy.Udp.Server.{
  Surroundings, Round, touch, charge_ip, destroy_entry, keep_new, discard,
}
use tcp_udp_proxy.Udp.Server.Receive.{new_sender, deliver_new, deliver, drain}
use tcp_udp_proxy.Udp.Server.Sound.{take_message-Popped}
use tcp_udp_proxy.Udp.Server.Queues.{Handed, nil, hands, drain_in_order}
use tcp_udp_proxy.Udp.Server.Allowance.{
  message_bytes, queue_bytes, AllDatagrams, Limited, PaidFor, charge_ip-PaidFor,
}

queue_bytes-append :
    {E : Type 0} (xs ys : List (UdpMsg E))
    → queue_bytes (xs ++ ys) ≡ queue_bytes xs + queue_bytes ys
queue_bytes-append [] ys = omega arith
queue_bytes-append (x ∷ xs) ys = omega (arith, queue_bytes-append xs ys)

AllDatagrams-append :
    {E : Type 0} (xs ys : List (UdpMsg E)) → AllDatagrams (xs ++ ys) → AllDatagrams xs
AllDatagrams-append [] ys d = tt
AllDatagrams-append (x ∷ xs) ys (h, d) = (h, AllDatagrams-append xs ys d)

module _ {A : Type 0} ⦃a : Eq A⦄ (p : PairId) (x : A) (n g w : ℕ) where
  -- A change of `ip_proxies` that takes nothing from the allowance.
  abbrev pub Unspent : IpProxies A → IpProxies A → Type 0
  Unspent s t = Owes p x n g w t × (t.bandwidth ≡ s.bandwidth)

  destroy-Unspent :
      (o : Option A) (s : IpProxies A) → Owes p x n g w s → Ends (Unspent s) (destroy o s)
  unfolding destroy
  destroy-Unspent none s h = (h, refl)
  destroy-Unspent (some y) s h = released (release y s) refl
    where
      released :
          (o : Option (IpProxies A))
          → release y s ≡ o
          → Ends (Unspent s) (elim o [ none ↦ fault dangling_pointer | some t ↦ done t ])
      released none q = tt
      released (some t) q = releases-Owes p x n g w y s t q h

  destroy_entry-Unspent :
      {E : Type 0} (o : Option (UdpEndpointProxy E A)) (s : IpProxies A)
      → Owes p x n g w s
      → Ends (Unspent s) (destroy_entry o s)
  unfolding destroy_entry
  destroy_entry-Unspent none s h = (h, refl)
  destroy_entry-Unspent (some ept) s h = destroy-Unspent ept.client_ip s h

  get_ip_proxy-Unspent :
      (y : A) (s : IpProxies A) (ip : IpProxy)
      → lookup x s.addrs ≡ some ip
      → Owes p x n g w s
      → Unspent s (get_ip_proxy y s).1
  get_ip_proxy-Unspent y s ip q h = (
    subst (λ j. Owes p x j g w (get_ip_proxy y s).1)
        (ap (λ o. n + appears o (lookup x (get_ip_proxy y s).1.addrs)) q ∙ omega arith)
        (acquires-Owes p x n g w y s h),
    (get_ip_proxy-Known y s).1,
  )

  module _ {E : Type 0} ⦃e : Eq E⦄ (env : Surroundings E A) (k : E) where
    keep_new-Unspent :
        (y : E) (ept : UdpEndpointProxy E A) (r : Round E A) (s : IpProxies A)
        → Unspent s r.ip_proxies
        → Ends (λ u. Unspent s u.ip_proxies) (keep_new y ept r)
    unfolding keep_new
    keep_new-Unspent y ept r s (h, b) =
        Ends-bind (Unspent r.ip_proxies) (λ u. Unspent s u.ip_proxies) _ _
          (destroy_entry-Unspent (lookup y r.new_epts) r.ip_proxies h) (λ t (i, c). (i, c ∙ b))

    discard-Unspent :
        (ept : UdpEndpointProxy E A) (r : Round E A) (s : IpProxies A)
        → Unspent s r.ip_proxies
        → Ends (λ (u : Round E A). Unspent s u.ip_proxies) (discard ept r)
    unfolding discard
    discard-Unspent ept r s (h, b) =
        Ends-bind (Unspent r.ip_proxies) (λ (u : Round E A). Unspent s u.ip_proxies) _ _
          (destroy-Unspent ept.client_ip r.ip_proxies h) (λ t (i, c). (i, c ∙ b))

    deliver_new-Unspent :
        (m : UdpMsg E) (ept : UdpEndpointProxy E A) (r : Round E A)
        → Unspent r.ip_proxies (get_ip_proxy (env.address m.src) r.ip_proxies).1
        → Ends (λ (u : Round E A). Unspent r.ip_proxies u.ip_proxies) (deliver_new env k m ept r)
    unfolding deliver_new
    deliver_new-Unspent m ept r got =
        if_elim (Ends (λ (u : Round E A). Unspent r.ip_proxies u.ip_proxies))
          (is_zero (new_sender env k m ept r).active_tm) _ _
          (λ _. discard-Unspent (new_sender env k m ept r) _ r.ip_proxies got)
          (λ _. keep_new-Unspent m.src (new_sender env k m ept r) _ r.ip_proxies got)

    deliver-Unspent :
        (m : UdpMsg E) (ept : UdpEndpointProxy E A) (r : Round E A) (ip : IpProxy)
        → lookup x r.ip_proxies.addrs ≡ some ip
        → Owes p x n g w r.ip_proxies
        → Ends (λ (u : Round E A). Unspent r.ip_proxies u.ip_proxies) (deliver env k m ept r)
    unfolding deliver
    deliver-Unspent m ept r ip q h = found (lookup m.src r.endpoints)
      where
        found :
            (o : Option (UdpEndpointProxy E A))
            → Ends
                (λ (u : Round E A). Unspent r.ip_proxies u.ip_proxies)
                (elim o [
                  | none ↦ deliver_new env k m ept r
                  | some sender ↦ done (record r {
                    endpoints =
                        insert m.src
                          (push_send (record m { src = k }) (touch env.now sender))
                          r.endpoints;
                  })
                ])
        found none =
            deliver_new-Unspent m ept r
              (get_ip_proxy-Unspent (env.address m.src) r.ip_proxies ip q h)
        found (some sender) = (h, refl)

module _ {E A : Type 0} ⦃e : Eq E⦄ ⦃a : Eq A⦄ (env : Surroundings E A) (k : E) (p : PairId) (x : A)
    (n g : ℕ) (side : other p ≡ p1) where
  Handed-Owes :
      {taken : List (UdpMsg E)} {ept y : UdpEndpointProxy E A} {r t : Round E A} (w : ℕ)
      (rest : List (UdpMsg E))
      → Handed env k taken ept r y t
      → ept.recv_queue ≡ taken ++ rest
      → AllDatagrams taken
      → Limited p x ept r.ip_proxies
      → Owes p x n g w r.ip_proxies
      → Owes p x n g (w + queue_bytes taken) t.ip_proxies
  Handed-Owes {t = t} w rest nil q d l h = subst (λ v. Owes p x n g v t.ip_proxies) (omega arith) h
  Handed-Owes {taken = m ∷ ms} {ept = ept} {r = r} {t = t} w rest (hands {u = u} ips c f handed) q
        (size, d) l h =
      let (paid, b, ip, there) = subst (Ends (PaidFor p x n g w m.msg r.ip_proxies)) c (
        subst
          (λ z. Ends (PaidFor p x n g w m.msg r.ip_proxies) (charge_ip z m.msg ept r.ip_proxies))
          side (charge_ip-PaidFor p x n g w m.msg ept r.ip_proxies size l h)) in
      let (owes, same) =
        subst (Ends (λ (v : Round E A). Unspent p x n g (w + message_bytes m) ips v.ip_proxies)) f (
          deliver-Unspent p x n g (w + message_bytes m) env k m ept (record r { ip_proxies = ips })
            ip there paid) in
      let popped = take_message-Popped m.msg m (ms ++ rest) ept q in
      subst (λ v. Owes p x n g v t.ip_proxies) (omega arith)
        (Handed-Owes (w + message_bytes m) rest handed popped.2 d
          (record {
            client = popped.0 ∙ l.client;
            of_client = popped.1 ∙ l.of_client;
            limit = ap (λ z. ltb_ℤ (pos 0) (get (other p) z)) (same ∙ b) ∙ l.limit;
          })
          owes)

  -- What the receive loop took off the queue was paid for.
  pub drain-Owes :
      (w w' : ℕ) (ept y : UdpEndpointProxy E A) (r t : Round E A)
      → AllDatagrams ept.recv_queue
      → Limited p x ept r.ip_proxies
      → Owes p x n g w r.ip_proxies
      → drain env k ept.recv_queue ept r ≡ done (y, t)
      → w' + queue_bytes y.recv_queue ≡ w + queue_bytes ept.recv_queue
      → Owes p x n g w' t.ip_proxies
  drain-Owes w w' ept y r t d l h q f =
      let (taken, split, _, handed) = drain_in_order env k ept y r t q in
      subst (λ v. Owes p x n g v t.ip_proxies)
        (omega (arith, f, ap queue_bytes split, queue_bytes-append taken y.recv_queue))
        (Handed-Owes w y.recv_queue handed split
          (AllDatagrams-append taken y.recv_queue (subst AllDatagrams split d)) l h)
