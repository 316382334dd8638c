-- ===== src/Udp/Server/Entries.antt =====
-- src/udp_proxy.cpp: the map of endpoints, with who holds an address in it and what is queued.
use tcp_udp_proxy.Prelude.{
  ℕ, ◌+◌, ◌≤◌, ◌≡◌, refl, sym, ap, subst, ◌∙◌, Option, none, some, List, [], ◌∷◌, length, if_elim,
  Bool-cases, inl, inr, arith,
}
use mathlib.Core.Option.{some-injective}
use tcp_udp_proxy.Prelude.Maps.{Eq, ◌==◌, lookup, insert, erase}
use tcp_udp_proxy.IpProxy.{IpProxies}
use tcp_udp_proxy.IpProxy.Holders.{count, hold, IsCounted}
use tcp_udp_proxy.IpProxy.Accounts.{IsCounted-exchange}
use tcp_udp_proxy.Udp.Endpoint.{UdpEndpointProxy}

module _ {A : Type 0} ⦃a : Eq A⦄ where
  -- The same holders, in any order.
  abbrev pub SameHolders : List A → List A → Type 0
  SameHolders hs ks = ((x : A) → count x hs ≡ count x ks) × (length hs ≡ length ks)

  pub SameHolders-IsCounted :
      (s : IpProxies A) (hs ks : List A) → SameHolders hs ks → IsCounted s hs → IsCounted s ks
  SameHolders-IsCounted s hs ks (c, n) i = IsCounted-exchange s hs ks c n i

  pub SameHolders-refl : (hs : List A) → SameHolders hs hs
  SameHolders-refl hs = (λ x. refl, refl)

  pub SameHolders-trans :
      (hs ks ls : List A) → SameHolders hs ks → SameHolders ks ls → SameHolders hs ls
  SameHolders-trans hs ks ls (c, n) (d, m) = (λ x. c x ∙ d x, n ∙ m)

  pub SameHolders-sym : (hs ks : List A) → SameHolders hs ks → SameHolders ks hs
  SameHolders-sym hs ks (c, n) = (λ x. sym (c x), sym n)

  pub SameHolders-hold :
      (o : Option A) (hs ks : List A) → SameHolders hs ks → SameHolders (hold o hs) (hold o ks)
  unfolding count
  SameHolders-hold none hs ks h = h
  SameHolders-hold (some x) hs ks (c, n) = (λ y. omega (arith, c y), omega (arith, n))

  pub SameHolders-swap :
      (o p : Option A) (hs : List A) → SameHolders (hold o (hold p hs)) (hold p (hold o hs))
  unfolding count
  SameHolders-swap none p hs = SameHolders-refl (hold p hs)
  SameHolders-swap (some x) none hs = SameHolders-refl (x ∷ hs)
  SameHolders-swap (some x) (some y) hs = (λ z. omega arith, refl)

abbrev pub Entries : Type 0 → Type 0 → Type 0
Entries E A = List (E × UdpEndpointProxy E A)

abbrev pub AllEntries : {E A : Type 0} → (E → UdpEndpointProxy E A → Type 0) → Entries E A → Type 0
AllEntries P [] = Unit {0}
AllEntries P ((k, x) ∷ m) = P k x × AllEntries P m

-- The messages that wait in the receive queues.
abbrev pub queued : {E A : Type 0} → Entries E A → ℕ
queued [] = 0
queued ((k, x) ∷ m) = length x.recv_queue + queued m

module _ {E A : Type 0} ⦃e : Eq E⦄ where
  pub erase_absent : (k : E) (m : Entries E A) → lookup k m ≡ none → erase k m ≡ m
  unfolding lookup erase
  erase_absent k [] h = refl
  erase_absent k ((j, x) ∷ m) h = ground (arith, erase_absent k m)

  module _ (P : E → UdpEndpointProxy E A → Type 0) where
    pub lookup-AllEntries :
        (k : E) (m : Entries E A) (x : UdpEndpointProxy E A)
        → lookup k m ≡ some x
        → AllEntries P m
        → P k x
    unfolding lookup
    lookup-AllEntries k [] x h all = cc
    lookup-AllEntries k ((j, y) ∷ m) x h (p, all) = elim (Bool-cases (j == k)) [
      | inl t ↦
          subst (λ i. P i x) ((e.beq_iff j k).0 t)
            (subst (P j) (some-injective y x (ground (arith, t, h))) p)
      | inr t ↦ lookup-AllEntries k m x (ground (arith, t, h)) all
    ]

    pub insert-AllEntries :
        (k : E) (x : UdpEndpointProxy E A) (m : Entries E A)
        → P k x
        → AllEntries P m
        → AllEntries P (insert k x m)
    unfolding insert
    insert-AllEntries k x [] p all = (p, tt)
    insert-AllEntries k x ((j, y) ∷ m) p (q, all) =
        if_elim (AllEntries P) (j == k) _ _ (λ t. (p, all))
          (λ t. (q, insert-AllEntries k x m p all))

    pub erase-AllEntries : (k : E) (m : Entries E A) → AllEntries P m → AllEntries P (erase k m)
    unfolding erase
    erase-AllEntries k [] all = tt
    erase-AllEntries k ((j, y) ∷ m) (q, all) =
        if_elim (AllEntries P) (j == k) _ _ (λ t. erase-AllEntries k m all)
          (λ t. (q, erase-AllEntries k m all))

  pub queued-insert :
      (k : E) (x y : UdpEndpointProxy E A) (m : Entries E A)
      → lookup k m ≡ some y
      → queued (insert k x m) + length y.recv_queue ≡ queued m + length x.recv_queue
  unfolding lookup insert
  queued-insert k x y [] h = cc
  queued-insert k x y ((j, z) ∷ m) h = elim (Bool-cases (j == k)) [
    | inl t ↦
        let same : z ≡ y = some-injective z y (ground (arith, t, h)) in
        ground (arith, t, ap (λ (w : UdpEndpointProxy E A). length w.recv_queue) same)
    | inr t ↦ ground (arith, t, queued-insert k x y m (ground (arith, t, h)))
  ]

  pub queued-insert-le :
      (k : E) (x : UdpEndpointProxy E A) (m : Entries E A)
      → queued (insert k x m) ≤ queued m + length x.recv_queue
  unfolding insert
  queued-insert-le k x [] = omega arith
  queued-insert-le k x ((j, z) ∷ m) = ground (arith, queued-insert-le k x m)

  pub queued-erase-le : (k : E) (m : Entries E A) → queued (erase k m) ≤ queued m
  unfolding erase
  queued-erase-le k [] = omega arith
  queued-erase-le k ((j, z) ∷ m) = ground (arith, queued-erase-le k m)

  pub queued-lookup :
      (k : E) (x : UdpEndpointProxy E A) (m : Entries E A)
      → lookup k m ≡ some x
      → length x.recv_queue ≤ queued m
  unfolding lookup
  queued-lookup k x [] h = cc
  queued-lookup k x ((j, z) ∷ m) h = elim (Bool-cases (j == k)) [
    | inl t ↦
        let same : z ≡ x = some-injective z x (ground (arith, t, h)) in
        omega (arith, ap (λ (w : UdpEndpointProxy E A). length w.recv_queue) same)
    | inr t ↦ omega (arith, queued-lookup k x m (ground (arith, t, h)))
  ]
