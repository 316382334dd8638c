-- ===== src/IpProxy/Pointers.antt =====
-- src/tcp_proxy.cpp and src/udp_proxy.cpp: `IPProxy *client_ip`, the pointer that a connection or a
-- UDP endpoint keeps.
use mathlib.Core.Option.{some-injective}
use tcp_udp_proxy.Prelude.{
  ℤ, pos, negsuc, arith, ◌≤ℤ◌, ◌≡◌, refl, ap, ◌∙◌, true, ◌&&◌, Option, none, some, List, Pair,
  if_elim, Outcome, done, fault, dangling_pointer, Runs,
}
use tcp_udp_proxy.Prelude.Maps.{Eq, lookup, insert}
use tcp_udp_proxy.IpProxy.{IpProxy, IpProxies, release, get_ip_proxy, is_zero}
use tcp_udp_proxy.IpProxy.Holders.{hold, IsCounted}
use tcp_udp_proxy.IpProxy.Accounts.{charge-IsCounted, held_by_first, release_first}

-- The object behind a pointer, and a change of it.
unfoldable pub load : {A : Type 0} ⦃e : Eq A⦄ → Option A → IpProxies A → Outcome (Option IpProxy)
load none s = done none
load (some a) s = elim (lookup a s.addrs) [
  | none ↦ fault dangling_pointer
  | some ip ↦ done (some ip)
]

unfoldable pub store :
    {A : Type 0} ⦃e : Eq A⦄ → Option A → Option IpProxy → IpProxies A → IpProxies A
store (some a) (some ip) s = record s { addrs = insert a ip s.addrs }
store (some a) none s = s
store none o s = s

-- The destructor of an object that keeps the pointer.
unfoldable pub destroy : {A : Type 0} ⦃e : Eq A⦄ → Option A → IpProxies A → Outcome (IpProxies A)
destroy none s = done s
destroy (some a) s = elim (release a s) [ none ↦ fault dangling_pointer | some t ↦ done t ]

-- `client_ip` of a connection is null only where no limit is set.
abbrev pub Known : {A : Type 0} → Pair ℤ → Option A → Type 0
Known bw none = (bw.at0 ≤ℤ pos 0) × (bw.at1 ≤ℤ pos 0)
Known bw (some a) = Unit {0}

-- The `ref_cnt` behind a pointer.
abbrev pub ref_of : Option IpProxy → Option ℤ
ref_of none = none
ref_of (some ip) = some ip.ref_cnt

module _ {A : Type 0} ⦃e : Eq A⦄ (s : IpProxies A) where
  -- What a pointer leads to.
  abbrev pub Loaded : Option A → Option IpProxy → Type 0
  Loaded none o = o ≡ none
  Loaded (some a) o = (ip : IpProxy) × (o ≡ some ip) × (lookup a s.addrs ≡ some ip)

  pub load-Loaded :
      (o : Option A) (hs : List A) → IsCounted s (hold o hs) → Runs (Loaded o) (load o s)
  unfolding load
  load-Loaded none hs i = refl
  load-Loaded (some a) hs i = let (ip, q) = held_by_first s hs a i in rw (q, load) (ip, refl, q)

  pub store-IsCounted :
      (o : Option A) (i j : Option IpProxy) (hs : List A)
      → Loaded o i
      → ref_of j ≡ ref_of i
      → IsCounted s hs
      → IsCounted (store o j s) hs
  unfolding store
  store-IsCounted none i j hs l r c = c
  store-IsCounted (some a) i none hs l r c = c
  store-IsCounted (some a) i (some jp) hs (ip, q, f) r c =
      charge-IsCounted s hs a ip jp f (some-injective _ _ (r ∙ ap ref_of q)) c

  pub store_bandwidth : (o : Option A) (j : Option IpProxy) → (store o j s).bandwidth ≡ s.bandwidth
  unfolding store
  store_bandwidth none j = refl
  store_bandwidth (some a) none = refl
  store_bandwidth (some a) (some jp) = refl

  pub destroy-IsCounted :
      (o : Option A) (hs : List A)
      → IsCounted s (hold o hs)
      → Runs (λ t. (t.bandwidth ≡ s.bandwidth) × IsCounted t hs) (destroy o s)
  unfolding destroy
  destroy-IsCounted none hs i = (refl, i)
  destroy-IsCounted (some a) hs i =
      let (t, q, b, c) = release_first s hs a i in rw (q, destroy) (b, c)

unlimited : (a b : ℤ) → (is_zero a && is_zero b) ≡ true → (a ≤ℤ pos 0) × (b ≤ℤ pos 0)
unlimited (pos n) (pos m) z = ground arith
unlimited (pos n) (negsuc m) z = ground arith
unlimited (negsuc n) b z = cc

pub get_ip_proxy-Known :
    {A : Type 0} ⦃e : Eq A⦄ (a : A) (s : IpProxies A)
    → Known s.bandwidth (get_ip_proxy a s).0 × ((get_ip_proxy a s).1.bandwidth ≡ s.bandwidth)
unfolding get_ip_proxy
get_ip_proxy-Known {A} a s =
    if_elim {A = Option A × IpProxies A}
      (λ r. Known s.bandwidth r.0 × (r.1.bandwidth ≡ s.bandwidth))
      (is_zero s.bandwidth.at0 && is_zero s.bandwidth.at1) _ _
      (λ z. (unlimited s.bandwidth.at0 s.bandwidth.at1 z, refl)) (λ _. (tt, refl))
