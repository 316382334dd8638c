-- ===== src/Udp/Server/Holders.antt =====
-- src/udp_proxy.cpp: the addresses that the endpoints of a map hold.
use tcp_udp_proxy.Prelude.{
  ◌+◌, ◌≤◌, Option-cases, ℤ, pos, ◌≤ℤ◌, ltb_ℤ, leb_ℤ, ◌≡◌, refl, sym, ap, subst, ◌∙◌, Bool, true,
  false, not, ◌&&◌, Option, none, some, List, [], ◌∷◌, length, if◌then◌else◌, if_elim, Bool-cases,
  inl, inr, arith, PairId, p0, p1, get, Runs,
}
use mathlib.Core.Option.{some-injective}
use tcp_udp_proxy.Prelude.Maps.{Eq, ◌==◌, lookup, insert, erase, IsMap}
use tcp_udp_proxy.Buffer.{Buffer}
use tcp_udp_proxy.IpProxy.{IpProxies}
use tcp_udp_proxy.IpProxy.Holders.{hold, IsCounted}
use tcp_udp_proxy.IpProxy.Accounts.{held_by_first, charge-IsCounted}
use tcp_udp_proxy.IpProxy.Pointers.{Known, destroy, destroy-IsCounted}
use tcp_udp_proxy.Udp.Endpoint.{UdpEndpointProxy}
use tcp_udp_proxy.Udp.Server.{charge_pointer, charge_ip, destroy_entry}
use tcp_udp_proxy.Udp.Server.Entries.{
  SameHolders, SameHolders-IsCounted, SameHolders-refl, SameHolders-trans, SameHolders-sym,
  SameHolders-hold, SameHolders-swap, Entries, erase_absent,
}

abbrev pub holders : {E A : Type 0} ⦃a : Eq A⦄ → Entries E A → List A → List A
holders [] hs = hs
holders ((k, x) ∷ m) hs = hold x.client_ip (holders m hs)

module _ {E A : Type 0} ⦃a : Eq A⦄ where
  pub holders-cong :
      (m : Entries E A) (hs ks : List A)
      → SameHolders hs ks
      → SameHolders (holders m hs) (holders m ks)
  holders-cong [] hs ks h = h
  holders-cong ((k, x) ∷ m) hs ks h =
      SameHolders-hold x.client_ip (holders m hs) (holders m ks) (holders-cong m hs ks h)

  pub holders-hold :
      (o : Option A) (m : Entries E A) (hs : List A)
      → SameHolders (holders m (hold o hs)) (hold o (holders m hs))
  holders-hold o [] hs = SameHolders-refl (hold o hs)
  holders-hold o ((k, x) ∷ m) hs =
      SameHolders-trans (hold x.client_ip (holders m (hold o hs)))
        (hold x.client_ip (hold o (holders m hs))) (hold o (hold x.client_ip (holders m hs)))
        (SameHolders-hold x.client_ip _ _ (holders-hold o m hs))
        (SameHolders-swap x.client_ip o (holders m hs))

module _ {E A : Type 0} ⦃e : Eq E⦄ ⦃a : Eq A⦄ where
  -- A changed entry that keeps its pointer.
  pub holders-replace :
      (k : E) (x y : UdpEndpointProxy E A) (m : Entries E A) (hs : List A)
      → lookup k m ≡ some y
      → x.client_ip ≡ y.client_ip
      → holders (insert k x m) hs ≡ holders m hs
  unfolding lookup insert
  holders-replace k x y [] hs h q = cc
  holders-replace k x y ((j, z) ∷ m) hs h q = elim (Bool-cases (j == k)) [
    | inl t ↦
        let same : z ≡ y = some-injective z y (ground (arith, t, h)) in
        rw (t, ◌==◌)
          (ap (λ o. hold o (holders m hs))
            (q ∙ sym (ap (λ (w : UdpEndpointProxy E A). w.client_ip) same)))
    | inr t ↦
        rw (t, ◌==◌) (ap (hold z.client_ip) (holders-replace k x y m hs (ground (arith, t, h)) q))
  ]

  -- What an entry of the map holds, taken first.
  pub holders-erase :
      (k : E) (x : UdpEndpointProxy E A) (m : Entries E A) (hs : List A)
      → IsMap m
      → lookup k m ≡ some x
      → SameHolders (holders m hs) (hold x.client_ip (holders (erase k m) hs))
  unfolding lookup erase
  holders-erase k x [] hs i h = cc
  holders-erase k x ((j, z) ∷ m) hs (u, i) h = elim (Bool-cases (j == k)) [
    | inl t ↦
        let same : z ≡ x = some-injective z x (ground (arith, t, h)) in
        let gone : erase k m ≡ m =
          erase_absent k m (subst (λ b. lookup b m ≡ none) ((e.beq_iff j k).0 t) u) in
        rw (t, gone, ◌==◌)
          (subst
            (λ (w : UdpEndpointProxy E A).
              SameHolders (hold z.client_ip (holders m hs)) (hold w.client_ip (holders m hs)))
            same (SameHolders-refl (hold z.client_ip (holders m hs))))
    | inr t ↦
        rw (t, ◌==◌)
          (SameHolders-trans _ _ _
            (SameHolders-hold z.client_ip _ _ (holders-erase k x m hs i (ground (arith, t, h))))
            (SameHolders-swap z.client_ip x.client_ip (holders (erase k m) hs)))
  ]

  -- An entry that is put into the map, in the place of what stood there.
  pub holders-insert :
      (k : E) (x : UdpEndpointProxy E A) (m : Entries E A) (hs : List A)
      → IsMap m
      → SameHolders (holders (insert k x m) hs) (hold x.client_ip (holders (erase k m) hs))
  unfolding insert erase
  holders-insert k x [] hs i = SameHolders-refl (hold x.client_ip hs)
  holders-insert k x ((j, z) ∷ m) hs (u, i) = elim (Bool-cases (j == k)) [
    | inl t ↦
        let gone : erase k m ≡ m =
          erase_absent k m (subst (λ b. lookup b m ≡ none) ((e.beq_iff j k).0 t) u) in
        rw (t, gone, ◌==◌) (SameHolders-refl (hold x.client_ip (holders m hs)))
    | inr t ↦
        rw (t, ◌==◌)
          (SameHolders-trans _ _ _ (SameHolders-hold z.client_ip _ _ (holders-insert k x m hs i))
            (SameHolders-swap z.client_ip x.client_ip (holders (erase k m) hs)))
  ]

module _ {A : Type 0} ⦃a : Eq A⦄ (s : IpProxies A) (hs : List A) where
  -- A charge, if there was one, left the limits and the accounts.
  abbrev pub Paid : Option (IpProxies A) → Type 0
  Paid none = Unit {0}
  Paid (some t) = (t.bandwidth ≡ s.bandwidth) × IsCounted t hs

module _ {A : Type 0} ⦃a : Eq A⦄ (s : IpProxies A) (hs ks : List A) where
  -- One of the holders goes.
  pub destroy_one :
      (o : Option A)
      → SameHolders hs (hold o ks)
      → IsCounted s hs
      → Runs (λ t. (t.bandwidth ≡ s.bandwidth) × IsCounted t ks) (destroy o s)
  destroy_one o h i = destroy-IsCounted s o ks (SameHolders-IsCounted s hs (hold o ks) h i)

  Paid-if :
      (t : Bool) (u : IpProxies A) → Paid s hs (some u) → Paid s hs (if t then some u else none)
  Paid-if true u h = h
  Paid-if false u h = tt

  charge_pointer-Paid :
      (side : PairId) (b : Buffer) (o : Option A)
      → pos 1 ≤ℤ get side s.bandwidth
      → Known s.bandwidth o
      → SameHolders hs (hold o ks)
      → IsCounted s hs
      → Runs (Paid s hs) (charge_pointer side b o s)
  unfolding charge_pointer
  charge_pointer-Paid p0 b none p (k0, k1) h i = absurd (omega arith)
  charge_pointer-Paid p1 b none p (k0, k1) h i = absurd (omega arith)
  charge_pointer-Paid side b (some x) p k h i =
      let (ip, q) = held_by_first s ks x (SameHolders-IsCounted s hs (x ∷ ks) h i) in
      rw (q, charge_pointer)
        (Paid-if (leb_ℤ (pos 0) (get side ip.avail_bytes)) _
          (refl, charge-IsCounted s hs x ip _ q refl i))

  guarded :
      (flag : Bool) (z : ℤ) → (not flag && ltb_ℤ (pos 0) z) ≡ true → (flag ≡ false) × (pos 1 ≤ℤ z)
  guarded true z h = cc
  guarded false z h = (refl, ground arith)

  pub charge_ip-Paid :
      {E : Type 0} (side : PairId) (b : Buffer) (ept : UdpEndpointProxy E A)
      → (ept.server_flag ≡ false → Known s.bandwidth ept.client_ip)
      → SameHolders hs (hold ept.client_ip ks)
      → IsCounted s hs
      → Runs (Paid s hs) (charge_ip side b ept s)
  unfolding charge_ip
  charge_ip-Paid side b ept k h i =
      if_elim (Runs (Paid s hs)) (not ept.server_flag && ltb_ℤ (pos 0) (get side s.bandwidth)) _ _
        (λ g.
          let (f, p) = guarded ept.server_flag (get side s.bandwidth) g in
          charge_pointer-Paid side b ept.client_ip p (k f) h i)
        (λ _. (refl, i))

module _ {A : Type 0} ⦃a : Eq A⦄ where
  length-hold_cong :
      (o : Option A) (hs ks : List A)
      → length hs ≤ length ks
      → length (hold o hs) ≤ length (hold o ks)
  length-hold_cong none hs ks h = h
  length-hold_cong (some x) hs ks h = omega (arith, h)

  pub length-hold_le : (o : Option A) (hs : List A) → length (hold o hs) ≤ length hs + 1
  length-hold_le none hs = omega arith
  length-hold_le (some x) hs = omega arith

  hold-le : (o : Option A) (hs : List A) → length hs ≤ length (hold o hs)
  hold-le none hs = omega arith
  hold-le (some x) hs = omega arith

module _ {E A : Type 0} ⦃a : Eq A⦄ where
  length-holders_cong :
      (m : Entries E A) (hs ks : List A)
      → length hs ≤ length ks
      → length (holders m hs) ≤ length (holders m ks)
  length-holders_cong [] hs ks h = h
  length-holders_cong ((k, x) ∷ m) hs ks h =
      length-hold_cong x.client_ip _ _ (length-holders_cong m hs ks h)

module _ {E A : Type 0} ⦃e : Eq E⦄ ⦃a : Eq A⦄ where
  pub length-holders-erase :
      (k : E) (m : Entries E A) (hs : List A)
      → length (holders (erase k m) hs) ≤ length (holders m hs)
  unfolding erase
  length-holders-erase k [] hs = omega arith
  length-holders-erase k ((j, x) ∷ m) hs =
      if_elim
        (λ (l : Entries E A). length (holders l hs) ≤ length (hold x.client_ip (holders m hs)))
        (j == k) _ _
        (λ _. omega (arith, length-holders-erase k m hs, hold-le x.client_ip (holders m hs)))
        (λ _. length-hold_cong x.client_ip _ _ (length-holders-erase k m hs))

  pub destroy_entry-IsCounted :
      (s : IpProxies A) (k : E) (p : Option A) (l m : Entries E A) (hs : List A)
      → IsMap m
      → IsCounted s (hold p (holders l (holders m hs)))
      → Runs
          (λ t.
            (t.bandwidth ≡ s.bandwidth) × IsCounted t (hold p (holders l (holders (erase k m) hs))))
          (destroy_entry (lookup k m) s)
  unfolding destroy_entry
  destroy_entry-IsCounted s k p l m hs i c = elim (Option-cases (lookup k m)) [
    | inl q ↦
        rw (q, destroy_entry)
          (
            refl,
            subst (λ n. IsCounted s (hold p (holders l (holders n hs)))) (sym (erase_absent k m q))
                c,
          )
    | inr (x, q) ↦
        rw (q, destroy_entry)
          (destroy_one s _ (hold p (holders l (holders (erase k m) hs))) x.client_ip
            (SameHolders-trans _ _ _
              (SameHolders-hold p _ _ (
                SameHolders-trans _ _ _ (holders-cong l _ _ (holders-erase k x m hs i q))
                  (holders-hold x.client_ip l (holders (erase k m) hs))))
              (SameHolders-swap p x.client_ip (holders l (holders (erase k m) hs))))
            c)
  ]

  -- A holder of p becomes an entry of a map.
  pub holders_kept :
      (k : E) (x : UdpEndpointProxy E A) (l m : Entries E A) (hs : List A)
      → IsMap m
      → SameHolders
          (hold x.client_ip (holders l (holders (erase k m) hs)))
          (holders l (holders (insert k x m) hs))
  holders_kept k x l m hs i = SameHolders-sym _ _ (
      SameHolders-trans _ _ _ (holders-cong l _ _ (holders-insert k x m hs i))
        (holders-hold x.client_ip l (holders (erase k m) hs)))

  pub length-kept :
      (k : E) (x : UdpEndpointProxy E A) (l m : Entries E A) (hs : List A)
      → IsMap m
      → length (holders l (holders (insert k x m) hs)) ≤ length (holders l (holders m hs)) + 1
  length-kept k x l m hs i = omega (
    arith,
    (holders_kept k x l m hs i).1,
    length-hold_le x.client_ip (holders l (holders (erase k m) hs)),
    length-holders_cong l _ _ (length-holders-erase k m hs),
  )
