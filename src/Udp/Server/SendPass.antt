-- ===== src/Udp/Server/SendPass.antt =====
-- src/udp_proxy.cpp: the send pass of a round.
use tcp_udp_proxy.Prelude.{
  ℤ, pos, ltb_ℤ, ◌≡◌, refl, sym, ap, subst, ◌∙◌, Bool, true, false, Option, none, some, List, [],
  ◌∷◌, if_elim, Option-cases, ◌⊎◌, inl, inr, Pair, p0, is_error, done, Runs, Runs-bind, ◌>>=◌,
}
use tcp_udp_proxy.Prelude.Maps.{Eq, lookup, insert, erase, IsMap, insert-IsMap}
use tcp_udp_proxy.IpProxy.{IpProxies}
use tcp_udp_proxy.IpProxy.Holders.{hold, IsCounted}
use tcp_udp_proxy.IpProxy.Pointers.{Known}
use tcp_udp_proxy.Udp.Endpoint.{UdpMsg, UdpEndpointProxy}
use tcp_udp_proxy.Udp.Server.{Surroundings, Round, charge_ip}
use tcp_udp_proxy.Udp.Server.Entries.{AllEntries, lookup-AllEntries, insert-AllEntries, SameHolders}
use tcp_udp_proxy.Udp.Server.Holders.{holders, holders-replace, holders-erase, Paid, charge_ip-Paid}
use tcp_udp_proxy.Udp.Server.Sound.{Sound, Good, Alike, Good-Alike}
use tcp_udp_proxy.Udp.Server.Send.{sent_message, send_front, drain_send, send_pass}
use tcp_udp_proxy.Udp.Endpoint.{restart}
use tcp_udp_proxy.Udp.Server.Sound.{Alike-trans, restart-Alike, sent_message-Alike}

module _ {E A : Type 0} ⦃e : Eq E⦄ ⦃a : Eq A⦄ (bw : Pair ℤ) (hs : List A) where
  -- Nothing is left to insert.
  abbrev pub Settled : Round E A → Type 0
  Settled r = Sound bw hs [] r

  -- The loop over the send queue of the endpoint k, which `endpoints` has as it was before the loop.
  record Sending (k : E) (ept : UdpEndpointProxy E A) (r : Round E A) : Type 0 where
    settled : Settled r
    before : UdpEndpointProxy E A
    at : lookup k r.endpoints ≡ some before
    alike : Alike ept before

  abbrev SentAll : E → UdpEndpointProxy E A × Round E A → Type 0
  SentAll k (ept, r) = Sending k ept r

  put_sent :
      (k : E) (ept : UdpEndpointProxy E A) (r : Round E A)
      → Sending k ept r
      → Settled (record r { endpoints = insert k ept r.endpoints })
  put_sent k ept r d =
      let s = d.settled in
      record {
        map_endpoints = insert-IsMap k ept r.endpoints s.map_endpoints;
        map_fresh = tt;
        limits = s.limits;
        good_endpoints =
            insert-AllEntries (Good bw) k ept r.endpoints
              (Good-Alike bw k ept d.before d.alike
                (lookup-AllEntries (Good bw) k r.endpoints d.before d.at s.good_endpoints))
              s.good_endpoints;
        good_fresh = tt;
        accounts =
            subst (IsCounted r.ip_proxies)
              (sym (holders-replace k ept d.before r.endpoints hs d.at d.alike.0)) s.accounts;
      }

  -- The endpoint changes, and what the accounts do not read.
  moved :
      (k : E) (ept x : UdpEndpointProxy E A) (r t : Round E A)
      → Sending k ept r
      → Alike x ept
      → t.endpoints ≡ r.endpoints
      → t.ip_proxies ≡ r.ip_proxies
      → Sending k x t
  moved k ept x r t d y p q = record {
    settled = record {
      map_endpoints = subst IsMap (sym p) d.settled.map_endpoints;
      map_fresh = tt;
      limits = ap (λ (l : IpProxies A). l.bandwidth) q ∙ d.settled.limits;
      good_endpoints = subst (AllEntries (Good bw)) (sym p) d.settled.good_endpoints;
      good_fresh = tt;
      accounts =
          subst (λ l. IsCounted l (holders t.endpoints hs)) (sym q)
            (subst (λ l. IsCounted r.ip_proxies (holders l hs)) (sym p) d.settled.accounts);
    };
    before = d.before;
    at = ap (lookup k) p ∙ d.at;
    alike = Alike-trans x ept d.before y d.alike;
  }

  Paid-Sending :
      (k : E) (ept : UdpEndpointProxy E A) (r : Round E A) (t : IpProxies A)
      → Sending k ept r
      → Paid r.ip_proxies (holders r.endpoints hs) (some t)
      → Sending k ept (record r { ip_proxies = t })
  Paid-Sending k ept r t d (u, v) = record {
    settled = record {
      map_endpoints = d.settled.map_endpoints;
      map_fresh = tt;
      limits = u ∙ d.settled.limits;
      good_endpoints = d.settled.good_endpoints;
      good_fresh = tt;
      accounts = v;
    };
    before = d.before;
    at = d.at;
    alike = d.alike;
  }

  charge-Sending :
      (k : E) (m : UdpMsg E) (ept : UdpEndpointProxy E A) (r : Round E A)
      → Sending k ept r
      → Runs (Paid r.ip_proxies (holders r.endpoints hs)) (charge_ip p0 m.msg ept r.ip_proxies)
  charge-Sending k m ept r d =
      let (p, f, w) = d.alike in
      let s = d.settled in
      let g = lookup-AllEntries (Good bw) k r.endpoints d.before d.at s.good_endpoints in
      charge_ip-Paid r.ip_proxies _ (holders (erase k r.endpoints) hs) p0 m.msg ept
        (λ h.
          subst (Known r.ip_proxies.bandwidth) (sym p)
            (subst (λ l. Known l d.before.client_ip) (sym s.limits) (g.0 (sym f ∙ h))))
        (subst
          (λ o. SameHolders (holders r.endpoints hs) (hold o (holders (erase k r.endpoints) hs)))
          (sym p) (holders-erase k d.before r.endpoints hs s.map_endpoints d.at))
        s.accounts

  module _ (env : Surroundings E A) (k : E) where
    send_front-SentAll :
        (m : UdpMsg E) (ms : List (UdpMsg E)) (ept : UdpEndpointProxy E A) (r : Round E A)
        → Sending k ept r
        → Sending k (send_front env k m ms ept r).1 (send_front env k m ms ept r).2
    unfolding send_front
    send_front-SentAll m ms ept r d =
        if_elim (λ (z : Bool × UdpEndpointProxy E A × Round E A). Sending k z.1 z.2)
          (is_error (env.send_result r.sends)) _ _
          (λ _.
            moved k ept (restart (env.opening r.inits) ept) r _ d
              (restart-Alike (env.opening r.inits) ept) refl refl)
          (λ _.
            moved k ept (sent_message ms m.msg ept) r _ d (sent_message-Alike ms m.msg ept) refl
              refl)

    front_done :
        (ms : List (UdpMsg E)) (z : Bool × UdpEndpointProxy E A × Round E A)
        → ((x : UdpEndpointProxy E A) (t : Round E A)
            → Sending k x t
            → Runs (SentAll k) (drain_send env k ms x t))
        → Sending k z.1 z.2
        → Runs (SentAll k) (
            let (more, ept', r') = z in
            elim more [ true ↦ drain_send env k ms ept' r' | false ↦ done (ept', r') ])
    front_done ms (true, x, t) go d = go x t d
    front_done ms (false, x, t) go d = d

    charge_done :
        (m : UdpMsg E) (ms : List (UdpMsg E)) (ept : UdpEndpointProxy E A) (r : Round E A)
        (o : Option (IpProxies A))
        → ((x : UdpEndpointProxy E A) (t : Round E A)
            → Sending k x t
            → Runs (SentAll k) (drain_send env k ms x t))
        → Sending k ept r
        → Paid r.ip_proxies (holders r.endpoints hs) o
        → Runs (SentAll k) (elim o [
          | none ↦ done (ept, r)
          | some ips ↦
              let (more, ept', r') = send_front env k m ms ept (record r { ip_proxies = ips }) in
              elim more [ true ↦ drain_send env k ms ept' r' | false ↦ done (ept', r') ]
        ])
    charge_done m ms ept r none go d c = d
    charge_done m ms ept r (some t) go d c =
        front_done ms (send_front env k m ms ept (record r { ip_proxies = t })) go
          (send_front-SentAll m ms ept (record r { ip_proxies = t }) (Paid-Sending k ept r t d c))

    drain_send-SentAll :
        (ms : List (UdpMsg E)) (ept : UdpEndpointProxy E A) (r : Round E A)
        → Sending k ept r
        → Runs (SentAll k) (drain_send env k ms ept r)
    unfolding drain_send
    drain_send-SentAll [] ept r d = d
    drain_send-SentAll (m ∷ ms) ept r d =
        if_elim (Runs (SentAll k)) (ltb_ℤ ept.send_avail_bytes (pos 0)) _ _ (λ _. d)
          (λ _.
            Runs-bind (Paid r.ip_proxies (holders r.endpoints hs)) (SentAll k) _ _
              (charge-Sending k m ept r d)
              (λ o c. charge_done m ms ept r o (drain_send-SentAll ms) d c))

  pub send_pass-Settled :
      (env : Surroundings E A) (ks : List E) (r : Round E A)
      → Settled r
      → Runs Settled (send_pass env ks r)
  unfolding send_pass
  send_pass-Settled env [] r s = s
  send_pass-Settled env (k ∷ ks) r s =
      Runs-bind Settled Settled _ _ (visited (Option-cases (lookup k r.endpoints)))
        (λ t. send_pass-Settled env ks t)
    where
      visited :
          (lookup k r.endpoints ≡ none)
            ⊎ ((x : UdpEndpointProxy E A) × (lookup k r.endpoints ≡ some x))
          → Runs Settled (elim (lookup k r.endpoints) [
            | none ↦ done r
            | some ept ↦ drain_send env k ept.send_queue ept r >>= λ (ept', r').
                done (record r' { endpoints = insert k ept' r'.endpoints })
          ])
      visited (inl q) = rw q s
      visited (inr (x, q)) = rw q (
          Runs-bind (SentAll k) Settled _ _
            (drain_send-SentAll env k x.send_queue x r
              (record { settled = s; before = x; at = q; alike = (refl, refl, refl) }))
            (λ (y, t) d. put_sent k y t d))
