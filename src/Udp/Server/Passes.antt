-- ===== src/Udp/Server/Passes.antt =====
-- src/udp_proxy.cpp: the receive pass of a round, and the insertion of the new endpoints.
use tcp_udp_proxy.Prelude.{
  ℤ, ◌≡◌, sym, ap, subst, ◌∙◌, none, some, List, [], ◌∷◌, length, if_elim, Option-cases, ◌⊎◌, inl,
  inr, arith, Pair, done, Runs, Runs-bind,
}
use tcp_udp_proxy.Prelude.Maps.{Eq, lookup, insert, erase, insert-IsMap, erase-IsMap}
use tcp_udp_proxy.IpProxy.Holders.{IsCounted}
use tcp_udp_proxy.Udp.Endpoint.{UdpMsg, UdpEndpointProxy}
use tcp_udp_proxy.Udp.Server.{Surroundings, Round, refill, is_expired, discard}
use tcp_udp_proxy.Udp.Server.Receive.{forward_all, visit_entry, recv_pass}
use tcp_udp_proxy.Udp.Server.Entries.{
  queued-insert, queued-erase-le, lookup-AllEntries, insert-AllEntries, erase-AllEntries,
}
use tcp_udp_proxy.Udp.Server.Holders.{
  holders, holders-replace, holders-erase, length-holders-erase, destroy_one,
}
use tcp_udp_proxy.Udp.Server.Sound.{Sound, Good, Good-Alike, refill-Alike}
use tcp_udp_proxy.Udp.Server.Deliveries.{all_holders}
use tcp_udp_proxy.Udp.Server.RecvPass.{Room, Draining, Drained, drain-Drained}

module _ {E A : Type 0} ⦃e : Eq E⦄ ⦃a : Eq A⦄ (bw : Pair ℤ) (hs : List A) where
  abbrev pub Kept : Round E A → Type 0
  Kept t = Sound bw hs t.new_epts t × Room bw hs t

  -- The endpoint goes back into the map.
  put_back :
      (k : E) (x : UdpEndpointProxy E A) (r : Round E A)
      → Draining bw hs k x r
      → Kept (record r { endpoints = insert k x r.endpoints })
  put_back k x r d =
      let same : holders (insert k x r.endpoints) (holders r.new_epts hs) ≡ all_holders hs r =
        holders-replace k x d.before r.endpoints (holders r.new_epts hs) d.at d.pointer in
      (
        record {
          map_endpoints = insert-IsMap k x r.endpoints d.sound.map_endpoints;
          map_fresh = d.sound.map_fresh;
          limits = d.sound.limits;
          good_endpoints =
              insert-AllEntries (Good bw) k x r.endpoints d.good d.sound.good_endpoints;
          good_fresh = d.sound.good_fresh;
          accounts = subst (IsCounted r.ip_proxies) (sym same) d.sound.accounts;
        },
        omega (
          arith,
          d.room,
          ap (λ (l : List A). length l) same,
          queued-insert k x d.before r.endpoints d.at,
        ),
      )

  module _ (env : Surroundings E A) where
    forward_all-Kept :
        (k : E) (ept : UdpEndpointProxy E A) (r : Round E A)
        → lookup k r.endpoints ≡ some ept
        → Kept r
        → Runs Kept (forward_all env k ept r)
    unfolding forward_all
    forward_all-Kept k ept r q (s, h) =
        let (x, y, z) = refill-Alike env.interval ept in
        Runs-bind (Drained bw hs k) Kept _ _
          (drain-Drained bw hs env k ept.recv_queue (refill env.interval ept) r z (record {
            sound = s;
            before = ept;
            at = q;
            pointer = x;
            good =
                Good-Alike bw k (refill env.interval ept) ept (x, y, z)
                  (lookup-AllEntries (Good bw) k r.endpoints ept q s.good_endpoints);
            room = omega (arith, h, ap (λ (l : List (UdpMsg E)). length l) z);
          }))
          (λ (x', t) d. put_back k x' t d)

    -- An endpoint that has expired is erased and destroyed.
    drop-Kept :
        (k : E) (ept : UdpEndpointProxy E A) (r : Round E A)
        → lookup k r.endpoints ≡ some ept
        → Kept r
        → Runs Kept (discard ept (record r { endpoints = erase k r.endpoints }))
    unfolding discard
    drop-Kept k ept r q (s, h) =
        let own = holders-erase k ept r.endpoints (holders r.new_epts hs) s.map_endpoints q in
        Runs-bind
          (λ t.
            (t.bandwidth ≡ r.ip_proxies.bandwidth)
            × IsCounted t (holders (erase k r.endpoints) (holders r.new_epts hs)))
          Kept _ _ (destroy_one r.ip_proxies _ _ ept.client_ip own s.accounts)
          (λ t (u, v). (
            record {
              map_endpoints = erase-IsMap k r.endpoints s.map_endpoints;
              map_fresh = s.map_fresh;
              limits = u ∙ s.limits;
              good_endpoints = erase-AllEntries (Good bw) k r.endpoints s.good_endpoints;
              good_fresh = s.good_fresh;
              accounts = v;
            },
            omega (
              arith,
              h,
              queued-erase-le k r.endpoints,
              length-holders-erase k r.endpoints (holders r.new_epts hs),
            ),
          ))

    pub recv_pass-Kept : (ks : List E) (r : Round E A) → Kept r → Runs Kept (recv_pass env ks r)
    unfolding recv_pass visit_entry
    recv_pass-Kept [] r s = s
    recv_pass-Kept (k ∷ ks) r s =
        Runs-bind Kept Kept _ _ (visited (Option-cases (lookup k r.endpoints)))
          (λ t. recv_pass-Kept ks t)
      where
        visited :
            (lookup k r.endpoints ≡ none)
              ⊎ ((x : UdpEndpointProxy E A) × (lookup k r.endpoints ≡ some x))
            → Runs Kept
                (elim (lookup k r.endpoints) [ none ↦ done r | some ept ↦ visit_entry env k ept r ])
        visited (inl q) = rw (q, visit_entry) s
        visited (inr (x, q)) =
            rw (q, visit_entry)
              (if_elim (Runs Kept) (is_expired env.active_timeout_tm x) _ _
                (λ _. drop-Kept k x r q s) (λ _. forward_all-Kept k x r q s))
