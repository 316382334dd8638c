-- ===== src/Udp/Server/Deliveries.antt =====
-- src/udp_proxy.cpp: one message of the receive pass, on its way to the endpoint that sends it on.
use tcp_udp_proxy.Prelude.{
  ℕ, ◌+◌, ◌≤◌, ◌<◌, ℤ, ◌≡◌, ◌≢◌, refl, sym, ap, subst, ◌∙◌, some, List, length, if_elim,
  Option-cases, inl, inr, arith, Pair, Runs, Runs-bind,
}
use tcp_udp_proxy.Prelude.Maps.{Eq, lookup, insert, erase, lookup-insert, insert-IsMap}
use tcp_udp_proxy.IpProxy.{IpProxies, is_zero, get_ip_proxy}
use tcp_udp_proxy.IpProxy.Holders.{hold, IsCounted, acquire-IsCounted}
use tcp_udp_proxy.IpProxy.Pointers.{Known, get_ip_proxy-Known}
use tcp_udp_proxy.Udp.Endpoint.{UdpMsg, UdpEndpointProxy, push_send}
use tcp_udp_proxy.Udp.Server.{Surroundings, Round, keep_new, discard, touch}
use tcp_udp_proxy.Udp.Server.Receive.{new_sender, deliver_new, deliver}
use tcp_udp_proxy.Udp.Server.Entries.{
  Entries, queued, queued-insert, lookup-AllEntries, insert-AllEntries, SameHolders-IsCounted,
  SameHolders-refl,
}
use tcp_udp_proxy.Udp.Server.Holders.{
  holders, holders-replace, destroy_one, destroy_entry-IsCounted, holders_kept, length-kept,
}
use tcp_udp_proxy.Udp.Server.Sound.{
  Sound, Good, Quiet, Alike, Good-Alike, given-Alike, new_client-Alike,
}

module _ {E A : Type 0} ⦃e : Eq E⦄ ⦃a : Eq A⦄ where
  abbrev pub all_holders : List A → Round E A → List A
  all_holders hs r = holders r.endpoints (holders r.new_epts hs)

  -- From one state of a round to a later one, an endpoint other than k at most gets a message to
  -- send, and at most one address more is held.
  pub record Delivered (bw : Pair ℤ) (hs : List A) (k : E) (r t : Round E A) : Type 0 where
    pub sound : Sound bw hs t.new_epts t
    pub same : lookup k t.endpoints ≡ lookup k r.endpoints
    pub waiting : queued t.endpoints ≡ queued r.endpoints
    pub one : length (all_holders hs t) ≤ length (all_holders hs r) + 1

  lookup-insert_other :
      (j k : E) (x : UdpEndpointProxy E A) (m : Entries E A)
      → j ≢ k
      → lookup k (insert j x m) ≡ lookup k m
  lookup-insert_other j k x m n = ground (arith, lookup-insert j k x m, e.beq_iff j k, n)

module _ {E A : Type 0} ⦃e : Eq E⦄ ⦃a : Eq A⦄ (bw : Pair ℤ) (hs : List A) (k : E) where
  -- An endpoint gets a message to send.
  give-Delivered :
      (j : E) (x y : UdpEndpointProxy E A) (r : Round E A)
      → j ≢ k
      → lookup j r.endpoints ≡ some y
      → Alike x y
      → Sound bw hs r.new_epts r
      → Delivered bw hs k r (record r { endpoints = insert j x r.endpoints })
  give-Delivered j x y r n q (p, f, w) s =
      let same : holders (insert j x r.endpoints) (holders r.new_epts hs) ≡ all_holders hs r =
        holders-replace j x y r.endpoints (holders r.new_epts hs) q p in
      record {
        sound = record {
          map_endpoints = insert-IsMap j x r.endpoints s.map_endpoints;
          map_fresh = s.map_fresh;
          limits = s.limits;
          good_endpoints =
              insert-AllEntries (Good bw) j x r.endpoints
                (Good-Alike bw j x y (p, f, w)
                  (lookup-AllEntries (Good bw) j r.endpoints y q s.good_endpoints))
                s.good_endpoints;
          good_fresh = s.good_fresh;
          accounts = subst (IsCounted r.ip_proxies) (sym same) s.accounts;
        };
        same = lookup-insert_other j k x r.endpoints n;
        waiting =
            omega
              (arith, queued-insert j x y r.endpoints q, ap (λ (l : List (UdpMsg E)). length l) w);
        one = omega (arith, ap (λ (l : List A). length l) same);
      }

  -- The new endpoint of a client is destroyed at once.
  discard-Delivered :
      (x : UdpEndpointProxy E A) (r : Round E A) (s : IpProxies A) (n : ℕ)
      → Sound bw hs r.new_epts r
      → s.bandwidth ≡ bw
      → IsCounted s (hold x.client_ip (all_holders hs r))
      → Runs (Delivered bw hs k r) (discard x (record r { ip_proxies = s; inits = n }))
  unfolding discard
  discard-Delivered x r s n d b c =
      Runs-bind (λ t. (t.bandwidth ≡ s.bandwidth) × IsCounted t (all_holders hs r))
        (Delivered bw hs k r) _ _
        (destroy_one s _ (all_holders hs r) x.client_ip (SameHolders-refl _) c)
        (λ t (u, v). record {
          sound = record {
            map_endpoints = d.map_endpoints;
            map_fresh = d.map_fresh;
            limits = u ∙ b;
            good_endpoints = d.good_endpoints;
            good_fresh = d.good_fresh;
            accounts = v;
          };
          same = refl;
          waiting = refl;
          one = omega arith;
        })

  -- It is kept for the end of the pass.
  keep_new-Delivered :
      (j : E) (x : UdpEndpointProxy E A) (r : Round E A) (s : IpProxies A) (n : ℕ)
      → Sound bw hs r.new_epts r
      → Good bw j x
      → s.bandwidth ≡ bw
      → IsCounted s (hold x.client_ip (all_holders hs r))
      → Runs (Delivered bw hs k r) (keep_new j x (record r { ip_proxies = s; inits = n }))
  unfolding keep_new
  keep_new-Delivered j x r s n d g b c =
      Runs-bind
        (λ t.
          (t.bandwidth ≡ s.bandwidth)
          × IsCounted t (hold x.client_ip (holders r.endpoints (holders (erase j r.new_epts) hs))))
        (Delivered bw hs k r) _ _
        (destroy_entry-IsCounted s j x.client_ip r.endpoints r.new_epts hs d.map_fresh c)
        (λ t (u, v). record {
          sound = record {
            map_endpoints = d.map_endpoints;
            map_fresh = insert-IsMap j x r.new_epts d.map_fresh;
            limits = u ∙ b;
            good_endpoints = d.good_endpoints;
            good_fresh = insert-AllEntries (Good bw) j x r.new_epts g d.good_fresh;
            accounts =
                SameHolders-IsCounted t _ _ (holders_kept j x r.endpoints r.new_epts hs d.map_fresh)
                  v;
          };
          same = refl;
          waiting = refl;
          one = length-kept j x r.endpoints r.new_epts hs d.map_fresh;
        })

  pub deliver-Delivered :
      (env : Surroundings E A) (m : UdpMsg E) (ept : UdpEndpointProxy E A) (r : Round E A)
      → m.src ≢ k
      → Sound bw hs r.new_epts r
      → length (all_holders hs r) < 2147483647
      → Runs (Delivered bw hs k r) (deliver env k m ept r)
  unfolding deliver deliver_new new_sender
  deliver-Delivered env m ept r n s h = elim (Option-cases (lookup m.src r.endpoints)) [
    | inl q ↦
        let ip = get_ip_proxy (env.address m.src) r.ip_proxies in
        let (p, w) =
          new_client-Alike (record m { src = k }) ept.proxy_rule m.src ip.0 (env.opening r.inits) in
        let (f, b) = get_ip_proxy-Known (env.address m.src) r.ip_proxies in
        let x = new_sender env k m ept r in
        let c : IsCounted ip.1 (hold x.client_ip (all_holders hs r)) =
          subst (λ o. IsCounted ip.1 (hold o (all_holders hs r))) (sym p)
            (acquire-IsCounted r.ip_proxies (all_holders hs r) (env.address m.src) h s.accounts) in
        rw (q, deliver)
          (if_elim (Runs (Delivered bw hs k r)) (is_zero x.active_tm) _ _
            (λ _. discard-Delivered x r ip.1 (r.inits + 1) s (b ∙ s.limits) c)
            (λ _.
              keep_new-Delivered m.src x r ip.1 (r.inits + 1) s
                (
                  λ _. subst (Known bw) (sym p) (subst (λ l. Known l ip.0) s.limits f),
                  subst (Quiet m.src) (sym w) tt,
                )
                (b ∙ s.limits) c))
    | inr (y, q) ↦
        rw (q, deliver)
          (give-Delivered m.src (push_send (record m { src = k }) (touch env.now y)) y r n q
            (given-Alike env.now (record m { src = k }) y) s)
  ]
