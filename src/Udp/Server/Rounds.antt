-- ===== src/Udp/Server/Rounds.antt =====
-- src/udp_proxy.cpp: the rounds of the thread of `UdpProxyServer`.
use tcp_udp_proxy.Prelude.{
  ℤ, ◌≡◌, subst, ◌∙◌, none, some, List, [], ◌∷◌, map, Option-cases, ◌⊎◌, inl, inr, Pair, done, Runs,
  Runs-bind,
}
use tcp_udp_proxy.Prelude.Maps.{Eq, lookup, insert, insert-IsMap}
use tcp_udp_proxy.IpProxy.Holders.{hold, IsCounted}
use tcp_udp_proxy.Udp.Endpoint.{UdpEndpointProxy}
use tcp_udp_proxy.Udp.Server.{Surroundings, Round, discard}
use tcp_udp_proxy.Udp.Server.Receive.{insert_new}
use tcp_udp_proxy.Udp.Server.Entries.{
  Entries, insert-AllEntries, erase_absent, SameHolders, SameHolders-IsCounted, SameHolders-trans,
  SameHolders-sym,
}
use tcp_udp_proxy.Udp.Server.Holders.{holders, holders-hold, holders-insert, destroy_one}
use tcp_udp_proxy.Udp.Server.Sound.{Sound, Good}
use tcp_udp_proxy.Udp.Server.Passes.{Kept, recv_pass-Kept}
use tcp_udp_proxy.Udp.Server.Routine.{run_round}
use tcp_udp_proxy.Udp.Server.SendPass.{Settled, send_pass-Settled}

module _ {E A : Type 0} ⦃e : Eq E⦄ ⦃a : Eq A⦄ (bw : Pair ℤ) (hs : List A) where
  insert-Sound :
      (k : E) (x : UdpEndpointProxy E A) (fresh : Entries E A) (r : Round E A)
      → lookup k r.endpoints ≡ none
      → Sound bw hs ((k, x) ∷ fresh) r
      → Sound bw hs fresh (record r { endpoints = insert k x r.endpoints })
  insert-Sound k x fresh r q s = record {
    map_endpoints = insert-IsMap k x r.endpoints s.map_endpoints;
    map_fresh = s.map_fresh.1;
    limits = s.limits;
    good_endpoints = insert-AllEntries (Good bw) k x r.endpoints s.good_fresh.0 s.good_endpoints;
    good_fresh = s.good_fresh.1;
    accounts =
        SameHolders-IsCounted r.ip_proxies _ _
          (SameHolders-trans _ _ _ (holders-hold x.client_ip r.endpoints (holders fresh hs)) (
            SameHolders-sym _ _ (
              subst
                (λ m.
                  SameHolders (holders (insert k x r.endpoints) (holders fresh hs))
                    (hold x.client_ip (holders m (holders fresh hs))))
                (erase_absent k r.endpoints q)
                (holders-insert k x r.endpoints (holders fresh hs) s.map_endpoints))))
          s.accounts;
  }

  discard-Sound :
      (k : E) (x : UdpEndpointProxy E A) (fresh : Entries E A) (r : Round E A)
      → Sound bw hs ((k, x) ∷ fresh) r
      → Runs (Sound bw hs fresh) (discard x r)
  unfolding discard
  discard-Sound k x fresh r s =
      Runs-bind
        (λ t.
          (t.bandwidth ≡ r.ip_proxies.bandwidth)
          × IsCounted t (holders r.endpoints (holders fresh hs)))
        (Sound bw hs fresh) _ _
        (destroy_one r.ip_proxies _ _ x.client_ip
          (holders-hold x.client_ip r.endpoints (holders fresh hs)) s.accounts)
        (λ t (u, v). record {
          map_endpoints = s.map_endpoints;
          map_fresh = s.map_fresh.1;
          limits = u ∙ s.limits;
          good_endpoints = s.good_endpoints;
          good_fresh = s.good_fresh.1;
          accounts = v;
        })

  insert_one :
      (k : E) (x : UdpEndpointProxy E A) (fresh : Entries E A) (r : Round E A)
      → Sound bw hs ((k, x) ∷ fresh) r
      → (lookup k r.endpoints ≡ none)
        ⊎ ((y : UdpEndpointProxy E A) × (lookup k r.endpoints ≡ some y))
      → Runs (Sound bw hs fresh) (elim (lookup k r.endpoints) [
        | none ↦ done (record r { endpoints = insert k x r.endpoints })
        | some old ↦ discard x r
      ])
  insert_one k x fresh r s (inl q) = rw q (insert-Sound k x fresh r q s)
  insert_one k x fresh r s (inr (y, q)) = rw q (discard-Sound k x fresh r s)

  insert_new-Settled :
      (fresh : Entries E A) (r : Round E A)
      → Sound bw hs fresh r
      → Runs (Settled bw hs) (insert_new fresh r)
  unfolding insert_new
  insert_new-Settled [] r s = record {
    map_endpoints = s.map_endpoints;
    map_fresh = tt;
    limits = s.limits;
    good_endpoints = s.good_endpoints;
    good_fresh = tt;
    accounts = s.accounts;
  }
  insert_new-Settled ((k, x) ∷ fresh) r s =
      Runs-bind (Sound bw hs fresh) (Settled bw hs) _ _
        (insert_one k x fresh r s (Option-cases (lookup k r.endpoints)))
        (λ t. insert_new-Settled fresh t)

  pub run_round-Settled :
      (env : Surroundings E A) (r : Round E A)
      → Kept bw hs r
      → Runs (Settled bw hs) (run_round env r)
  unfolding run_round
  run_round-Settled env r s =
      Runs-bind (Kept bw hs) (Settled bw hs) _ _
        (recv_pass-Kept bw hs env (map (λ p. p.0) r.endpoints) r s)
        (λ r1 (s1, _).
          Runs-bind (Settled bw hs) (Settled bw hs) _ _ (insert_new-Settled r1.new_epts r1 s1)
            (λ r2 s2. send_pass-Settled bw hs env (map (λ p. p.0) r2.endpoints) r2 s2))
