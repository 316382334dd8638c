-- ===== src/IpProxy/Accounts.antt =====
-- The accounts of `ip_proxies` as a client of it sees them: what a charge and the end of a
-- connection leave of the counts, in whatever order the holders are listed.
use tcp_udp_proxy.Prelude.{
  ℕ, ◌+◌, ◌≤◌, ◌≡◌, refl, sym, ap, subst, ◌∙◌, Bool, true, false, Option, none, some, List, [], ◌∷◌,
  ◌++◌, length, length-append, if◌then◌else◌, arith,
}
use tcp_udp_proxy.Prelude.Maps.{Eq, ◌==◌, lookup, insert, lookup-insert, insert-IsMap}
use tcp_udp_proxy.IpProxy.{IpProxy, IpProxies, release}
use tcp_udp_proxy.IpProxy.References.{Counted}
use tcp_udp_proxy.IpProxy.Holders.{
  count, drop_one, hold, IsCounted, held_entry, release-IsCounted, release-eq, released,
}

module _ {A : Type 0} ⦃e : Eq A⦄ where
  count-append : (a : A) (xs ys : List A) → count a (xs ++ ys) ≡ count a xs + count a ys
  unfolding count
  count-append a [] ys = omega arith
  count-append a (x ∷ xs) ys = omega (arith, count-append a xs ys)

  -- The counts do not depend on the order of the holders.
  pub IsCounted-exchange :
      (s : IpProxies A) (hs ks : List A)
      → ((a : A) → count a hs ≡ count a ks)
      → length hs ≡ length ks
      → IsCounted s hs
      → IsCounted s ks
  IsCounted-exchange s hs ks c n i = record {
    is_map = i.is_map;
    counted = λ a. subst (Counted (lookup a s.addrs)) (c a) (i.counted a);
    few = omega (arith, i.few);
  }

  count-hold :
      (o : Option A) (a : A) (xs ys : List A)
      → count a (xs ++ hold o ys) ≡ count a (hold o (xs ++ ys))
  unfolding count
  count-hold none a xs ys = refl
  count-hold (some b) a xs ys = omega (arith, count-append a xs ys, count-append a xs (b ∷ ys))

  length-hold :
      (o : Option A) (xs ys : List A) → length (xs ++ hold o ys) ≡ length (hold o (xs ++ ys))
  length-hold none xs ys = refl
  length-hold (some b) xs ys = omega (arith, length-append xs ys, length-append xs (b ∷ ys))

  pub hold_later :
      (s : IpProxies A) (o : Option A) (xs ys : List A)
      → IsCounted s (hold o (xs ++ ys))
      → IsCounted s (xs ++ hold o ys)
  hold_later s o xs ys =
      IsCounted-exchange s _ _ (λ a. sym (count-hold o a xs ys)) (sym (length-hold o xs ys))

  pub hold_earlier :
      (s : IpProxies A) (o : Option A) (xs ys : List A)
      → IsCounted s (xs ++ hold o ys)
      → IsCounted s (hold o (xs ++ ys))
  hold_earlier s o xs ys =
      IsCounted-exchange s _ _ (λ a. count-hold o a xs ys) (length-hold o xs ys)

  charged :
      (a b : A) (ip jp : IpProxy) (o : Option IpProxy) (n : ℕ) (t : Bool)
      → (t ≡ true → o ≡ some ip)
      → jp.ref_cnt ≡ ip.ref_cnt
      → Counted o n
      → Counted (if t then some jp else o) n
  charged a b ip jp o n true q r c = r ∙ subst (λ x. Counted x n) (q refl) c
  charged a b ip jp o n false q r c = c

  -- A charge changes an entry and not its count.
  pub charge-IsCounted :
      (s : IpProxies A) (hs : List A) (a : A) (ip jp : IpProxy)
      → lookup a s.addrs ≡ some ip
      → jp.ref_cnt ≡ ip.ref_cnt
      → IsCounted s hs
      → IsCounted (record s { addrs = insert a jp s.addrs }) hs
  charge-IsCounted s hs a ip jp q r i = record {
    is_map = insert-IsMap a jp s.addrs i.is_map;
    counted = λ b.
        subst (λ o. Counted o (count b hs)) (sym (lookup-insert a b jp s.addrs))
          (charged a b ip jp (lookup b s.addrs) (count b hs) (a == b)
            (λ t. ap (λ x. lookup x s.addrs) (sym ((e.beq_iff a b).0 t)) ∙ q) r (i.counted b));
    few = i.few;
  }

  drop_one-hold : (a : A) (hs : List A) → drop_one a (a ∷ hs) ≡ hs
  unfolding drop_one
  drop_one-hold a hs = ground (arith, e.beq_iff a a)

  holds : (a : A) (hs : List A) → 1 ≤ count a (a ∷ hs)
  unfolding count
  holds a hs = ground (arith, e.beq_iff a a)

  pub held_by_first :
      (s : IpProxies A) (hs : List A) (a : A)
      → IsCounted s (a ∷ hs)
      → (ip : IpProxy) × (lookup a s.addrs ≡ some ip)
  held_by_first s hs a i =
      let (ip, q, _) =
        held_entry (lookup a s.addrs) (count a (a ∷ hs)) (holds a hs) (i.counted a) in
      (ip, q)

  -- The first holder goes.
  pub release_first :
      (s : IpProxies A) (hs : List A) (a : A)
      → IsCounted s (a ∷ hs)
      → (t : IpProxies A) × (release a s ≡ some t) × (t.bandwidth ≡ s.bandwidth) × IsCounted t hs
  release_first s hs a i =
      let (ip, q) = held_by_first s hs a i in
      (
        released a ip s,
        release-eq s a ip q,
        refl,
        subst (IsCounted (released a ip s)) (drop_one-hold a hs)
            (release-IsCounted s (a ∷ hs) a ip q (holds a hs) i),
      )
