-- ===== src/Tcp/Proxy/Sound.antt =====
-- The connections of a proxy together with the `ip_proxies` that they share.
use tcp_udp_proxy.Prelude.{
  ℤ, ◌≡◌, refl, sym, ap, subst, Option, none, some, List, [], ◌∷◌, ◌++◌, Pair,
}
use tcp_udp_proxy.Prelude.Maps.{Eq}
use tcp_udp_proxy.IpProxy.{IpProxy, IpProxies}
use tcp_udp_proxy.IpProxy.Holders.{hold, IsCounted}
use tcp_udp_proxy.IpProxy.Accounts.{hold_later, hold_earlier}
use tcp_udp_proxy.Tcp.Connection.{Link}
use tcp_udp_proxy.Tcp.Connection.Cases.{IpKnown}
use tcp_udp_proxy.Tcp.Connection.Invariant.{Lanes, IsAlive, Inv}
use tcp_udp_proxy.IpProxy.Pointers.{Known, Loaded}
use tcp_udp_proxy.Tcp.Proxy.{Entry, TcpProxy}

abbrev pub link : {A : Type 0} → Entry A → Option IpProxy → Link
link c ip = record { conn = c.conn; sockets = c.sockets; client_ip = ip }

-- Each connection satisfies the invariant of connections.
abbrev pub SoundEntry : {A : Type 0} → Pair ℤ → Entry A → Type 0
SoundEntry bw c = Lanes (link c none) × IsAlive (link c none) × Known bw c.client_ip

abbrev pub SoundAll : {A : Type 0} → Pair ℤ → List (Entry A) → Type 0
SoundAll bw [] = Unit {0}
SoundAll bw (c ∷ cs) = SoundEntry bw c × SoundAll bw cs

-- The addresses that the connections hold, and those that others hold.
abbrev pub holders : {A : Type 0} ⦃e : Eq A⦄ → List (Entry A) → List A → List A
holders [] hs = hs
holders (c ∷ cs) hs = hold c.client_ip (holders cs hs)

-- The proxy is sound beside other holders hs of `ip_proxies`: each connection satisfies the
-- invariant of connections, and each entry of `ip_proxies` counts its holders.
pub record Sound {E A : Type 0} ⦃e : Eq A⦄ (p : TcpProxy E A) (hs : List A) : Type 0 where
  pub entries : SoundAll p.ip_proxies.bandwidth p.tcp_connections
  pub accounts : IsCounted p.ip_proxies (holders p.tcp_connections hs)

module _ {A : Type 0} ⦃e : Eq A⦄ where
  append_hold : (o : Option A) (xs ys hs : List A) → xs ++ hs ≡ ys → hold o xs ++ hs ≡ hold o ys
  append_hold none xs ys hs q = q
  append_hold (some a) xs ys hs q = ap (λ zs. a ∷ zs) q

  holders-append : (cs : List (Entry A)) (hs : List A) → holders cs [] ++ hs ≡ holders cs hs
  holders-append [] hs = refl
  holders-append (c ∷ cs) hs =
      append_hold c.client_ip (holders cs []) (holders cs hs) hs (holders-append cs hs)

  pub holders_later :
      (t : IpProxies A) (o : Option A) (cs : List (Entry A)) (hs : List A)
      → IsCounted t (hold o (holders cs hs))
      → IsCounted t (holders cs (hold o hs))
  holders_later t o cs hs i = subst (IsCounted t) (holders-append cs (hold o hs)) (
      hold_later t o (holders cs []) hs
        (subst (λ xs. IsCounted t (hold o xs)) (sym (holders-append cs hs)) i))

  pub holders_earlier :
      (t : IpProxies A) (o : Option A) (cs : List (Entry A)) (hs : List A)
      → IsCounted t (holders cs (hold o hs))
      → IsCounted t (hold o (holders cs hs))
  holders_earlier t o cs hs i =
      subst (λ xs. IsCounted t (hold o xs)) (holders-append cs hs)
        (hold_earlier t o (holders cs []) hs
          (subst (IsCounted t) (sym (holders-append cs (hold o hs))) i))

relink : {A : Type 0} (c : Entry A) (i j : Option IpProxy) → Lanes (link c i) → Lanes (link c j)
relink c i j l = record { lane0 = l.lane0; lane1 = l.lane1; half = l.half }

pub entry-Inv :
    {A : Type 0} (bw : Pair ℤ) (c : Entry A) (ip : Option IpProxy)
    → (Known bw c.client_ip → IpKnown bw ip)
    → SoundEntry bw c
    → Inv bw (link c ip)
entry-Inv bw c ip f (l, a, k) = (relink c none ip l, a, f k)

pub Inv-entry :
    {A : Type 0} (bw : Pair ℤ) (c : Entry A) (ip : Option IpProxy)
    → Known bw c.client_ip
    → Inv bw (link c ip)
    → SoundEntry bw c
Inv-entry bw c ip k (l, a, j) = (relink c ip none l, a, k)

pub Loaded-Known :
    {A : Type 0} ⦃e : Eq A⦄ (s : IpProxies A) (bw : Pair ℤ) (o : Option A) (ip : Option IpProxy)
    → Loaded s o ip
    → Known bw o
    → IpKnown bw ip
Loaded-Known s bw none ip q k = subst (IpKnown bw) (sym q) k
Loaded-Known s bw (some a) ip (x, q, _) k = subst (IpKnown bw) (sym q) tt
