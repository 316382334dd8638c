-- ===== src/Udp/Server/RecvPass.antt =====
-- src/udp_proxy.cpp: the loop of the receive pass over the queue of one endpoint.
use tcp_udp_proxy.Prelude.{
  ◌+◌, ◌≤◌, ℤ, pos, ltb_ℤ, ◌≡◌, ◌≢◌, sym, ap, subst, ◌∙◌, Option, none, some, List, [], ◌∷◌, length,
  if_elim, arith, Pair, p1, done, Runs, Runs-bind, ◌>>=◌,
}
use tcp_udp_proxy.Prelude.Maps.{Eq, ◌==◌, lookup, erase}
use tcp_udp_proxy.IpProxy.{IpProxies}
use tcp_udp_proxy.IpProxy.Holders.{hold}
use tcp_udp_proxy.IpProxy.Pointers.{Known}
use tcp_udp_proxy.Udp.Endpoint.{UdpMsg, UdpEndpointProxy}
use tcp_udp_proxy.Udp.Server.{Surroundings, Round, take_message}
use tcp_udp_proxy.Udp.Server.Receive.{deliver, forward_one, drain}
use tcp_udp_proxy.Udp.Server.Entries.{queued, queued-lookup, SameHolders}
use tcp_udp_proxy.Udp.Server.Holders.{holders, holders-erase, Paid, charge_ip-Paid}
use tcp_udp_proxy.Udp.Server.Sound.{Sound, Good, Quiet, take_message-Popped}
use tcp_udp_proxy.Udp.Server.Deliveries.{all_holders, Delivered, deliver-Delivered}

module _ {E A : Type 0} ⦃e : Eq E⦄ ⦃a : Eq A⦄ (bw : Pair ℤ) (hs : List A) where
  -- There are few enough holders and waiting messages that no reference count can wrap around.
  abbrev pub Room : Round E A → Type 0
  Room r = length (all_holders hs r) + queued r.endpoints ≤ 2147483647

  -- The loop over the queue of the endpoint k, which `endpoints` has as it was before the loop.
  pub record Draining (k : E) (ept : UdpEndpointProxy E A) (r : Round E A) : Type 0 where
    pub sound : Sound bw hs r.new_epts r
    pub before : UdpEndpointProxy E A
    pub at : lookup k r.endpoints ≡ some before
    pub pointer : ept.client_ip ≡ before.client_ip
    pub good : Good bw k ept
    pub room :
        length (all_holders hs r) + length ept.recv_queue + queued r.endpoints
        ≤ 2147483647 + length before.recv_queue

  abbrev pub Drained : E → UdpEndpointProxy E A × Round E A → Type 0
  Drained k (ept, r) = Draining k ept r

  abbrev Forwarded : E → List (UdpMsg E) → Option (UdpEndpointProxy E A × Round E A) → Type 0
  Forwarded k ms none = Unit {0}
  Forwarded k ms (some (ept, r)) = Draining k ept r × (ept.recv_queue ≡ ms)

  -- The pointer of the endpoint, before the other holders.
  own_pointer :
      (k : E) (ept : UdpEndpointProxy E A) (r : Round E A)
      → Draining k ept r
      → SameHolders
          (all_holders hs r)
          (hold ept.client_ip (holders (erase k r.endpoints) (holders r.new_epts hs)))
  own_pointer k ept r d =
      subst
        (λ o.
          SameHolders (all_holders hs r)
            (hold o (holders (erase k r.endpoints) (holders r.new_epts hs))))
        (sym d.pointer)
        (holders-erase k d.before r.endpoints (holders r.new_epts hs) d.sound.map_endpoints d.at)

  paid :
      (r : Round E A) (t : IpProxies A)
      → Paid r.ip_proxies (all_holders hs r) (some t)
      → Sound bw hs r.new_epts r
      → Sound bw hs r.new_epts (record r { ip_proxies = t })
  paid r t (u, v) s = record {
    map_endpoints = s.map_endpoints;
    map_fresh = s.map_fresh;
    limits = u ∙ s.limits;
    good_endpoints = s.good_endpoints;
    good_fresh = s.good_fresh;
    accounts = v;
  }

  module _ (env : Surroundings E A) (k : E) where
    -- The message has been paid for.
    forward-Paid :
        (m : UdpMsg E) (ms : List (UdpMsg E)) (ept : UdpEndpointProxy E A) (r : Round E A)
        (t : IpProxies A)
        → ept.recv_queue ≡ m ∷ ms
        → m.src ≢ k
        → Quiet k ms
        → Draining k ept r
        → Paid r.ip_proxies (all_holders hs r) (some t)
        → Runs (Forwarded k ms) (
            deliver env k m ept (record r { ip_proxies = t }) >>= λ u.
            done (some (take_message m.msg ept, u)))
    forward-Paid m ms ept r t q n w d c =
        let (x, y, z) = take_message-Popped m.msg m ms ept q in
        let long : length ept.recv_queue ≡ length ms + 1 =
          omega (arith, ap (λ (l : List (UdpMsg E)). length l) q) in
        Runs-bind (Delivered bw hs k (record r { ip_proxies = t })) (Forwarded k ms) _ _
          (deliver-Delivered bw hs k env m ept (record r { ip_proxies = t }) n (paid r t c d.sound)
            (omega (arith, d.room, long, queued-lookup k d.before r.endpoints d.at)))
          (λ u v. (
            record {
              sound = v.sound;
              before = d.before;
              at = v.same ∙ d.at;
              pointer = x ∙ d.pointer;
              good =
                  (λ f. subst (Known bw) (sym x) (d.good.0 (sym y ∙ f)), subst (Quiet k) (sym z) w);
              room =
                  omega (
                    arith,
                    d.room,
                    v.one,
                    v.waiting,
                    long,
                    ap (λ (l : List (UdpMsg E)). length l) z,
                  );
            },
            z,
          ))

    after_charge :
        (m : UdpMsg E) (ms : List (UdpMsg E)) (ept : UdpEndpointProxy E A) (r : Round E A)
        (o : Option (IpProxies A))
        → ept.recv_queue ≡ m ∷ ms
        → m.src ≢ k
        → Quiet k ms
        → Draining k ept r
        → Paid r.ip_proxies (all_holders hs r) o
        → Runs (Forwarded k ms) (elim o [
          | none ↦ done none
          | some ips ↦ deliver env k m ept (record r { ip_proxies = ips }) >>= λ u.
              done (some (take_message m.msg ept, u))
        ])
    after_charge m ms ept r none q n w d c = tt
    after_charge m ms ept r (some t) q n w d c = forward-Paid m ms ept r t q n w d c

    forward_one-Forwarded :
        (m : UdpMsg E) (ms : List (UdpMsg E)) (ept : UdpEndpointProxy E A) (r : Round E A)
        → ept.recv_queue ≡ m ∷ ms
        → Draining k ept r
        → Runs (Forwarded k ms) (forward_one env k m ept r)
    unfolding forward_one
    forward_one-Forwarded m ms ept r q d =
        let (n, w) : Quiet k (m ∷ ms) = subst (Quiet k) q d.good.1 in
        if_elim (Runs (Forwarded k ms)) (ltb_ℤ ept.recv_avail_bytes (pos 0)) _ _ (λ _. tt)
          (λ _.
            if_elim (Runs (Forwarded k ms)) (m.src == k) _ _
              (λ t. absurd (n ((e.beq_iff m.src k).0 t)))
              (λ _.
                if_elim (Runs (Forwarded k ms)) (ltb_ℤ env.now m.time) _ _ (λ _. tt)
                  (λ _.
                    Runs-bind (Paid r.ip_proxies (all_holders hs r)) (Forwarded k ms) _ _
                      (charge_ip-Paid r.ip_proxies _ _ p1 m.msg ept
                        (λ f. subst (λ l. Known l ept.client_ip) (sym d.sound.limits) (d.good.0 f))
                        (own_pointer k ept r d) d.sound.accounts)
                      (λ o c. after_charge m ms ept r o q n w d c))))

    rest_Drained :
        (ms : List (UdpMsg E)) (ept : UdpEndpointProxy E A) (r : Round E A)
        (o : Option (UdpEndpointProxy E A × Round E A))
        → ((x : UdpEndpointProxy E A) (t : Round E A)
            → x.recv_queue ≡ ms
            → Draining k x t
            → Runs (Drained k) (drain env k ms x t))
        → Draining k ept r
        → Forwarded k ms o
        → Runs
            (Drained k)
            (elim o [ none ↦ done (ept, r) | some (ept', r') ↦ drain env k ms ept' r' ])
    rest_Drained ms ept r none go d f = d
    rest_Drained ms ept r (some (x, t)) go d (f, z) = go x t z f

    pub drain-Drained :
        (ms : List (UdpMsg E)) (ept : UdpEndpointProxy E A) (r : Round E A)
        → ept.recv_queue ≡ ms
        → Draining k ept r
        → Runs (Drained k) (drain env k ms ept r)
    unfolding drain
    drain-Drained [] ept r q d = d
    drain-Drained (m ∷ ms) ept r q d =
        Runs-bind (Forwarded k ms) (Drained k) _ _ (forward_one-Forwarded m ms ept r q d)
          (λ o f. rest_Drained ms ept r o (drain-Drained ms) d f)
