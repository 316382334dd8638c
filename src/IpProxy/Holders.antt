-- ===== src/IpProxy/Holders.antt =====
-- src/ip_proxy.cpp: the states of `IPProxies` as connections come and go and its thread runs, with
-- the connections that hold an address.
use mathlib.Core.Option
use mathlib.Core.Option.{some-injective}
use tcp_udp_proxy.Prelude.{
  ℕ, suc, ◌+◌, ◌≤◌, ◌<◌, ℤ, pos, add_int, sub_int, ◌<ℤ◌, ◌||◌, ltb_ℤ, leb_ℤ, ◌≡◌, ◌≢◌, refl, sym,
  ◌∙◌, ap, subst, Bool, true, false, ◌&&◌, Option, none, some, List, [], ◌∷◌, length, if◌then◌else◌,
  if_elim, Pair, arith,
}
use tcp_udp_proxy.Prelude.Maps.{
  Eq, ◌==◌, lookup, insert, IsMap, lookup-insert, insert-IsMap, erase_all-IsMap,
}
use tcp_udp_proxy.IpProxy.{
  IpProxy, IpProxies, new_ip_proxies, start, or_new, is_zero, get_ip_proxy, release, routine_round,
  sweep, interval, bytes_for, unused, refill_used,
}
use tcp_udp_proxy.IpProxy.References.{
  Counted, is_unused, refilled, Counted-acquire, Counted-release, Counted-sweep, lookup-sweep,
  refill_used-IsMap,
}

pub held_entry :
    (o : Option IpProxy) (n : ℕ)
    → 1 ≤ n
    → Counted o n
    → (ip : IpProxy) × (o ≡ some ip) × (ip.ref_cnt ≡ pos n)
held_entry none n h c = absurd (omega arith)
held_entry (some ip) n h c = (ip, refl, c)

forgotten :
    (bytes : Pair ℤ) (o : Option IpProxy) (n : ℕ)
    → n ≡ 0
    → Counted o n
    → (if is_unused o then none else Option.map (refilled bytes) o) ≡ none
forgotten bytes none n z c = refl
forgotten bytes (some ip) n z c = ground arith

module _ {A : Type 0} ⦃e : Eq A⦄ where
  unfoldable pub count : A → List A → ℕ
  count a [] = 0
  count a (x ∷ xs) = (if x == a then 1 else 0) + count a xs

  unfoldable pub drop_one : A → List A → List A
  drop_one a [] = []
  drop_one a (x ∷ xs) = if x == a then xs else x ∷ drop_one a xs

  count-drop_one :
      (a b : A) (xs : List A)
      → 1 ≤ count a xs
      → count b (drop_one a xs) + (if a == b then 1 else 0) ≡ count b xs
  unfolding count drop_one
  count-drop_one a b [] h = absurd (omega arith)
  count-drop_one a b (x ∷ xs) h =
      ground (arith, count-drop_one a b xs, e.beq_iff x a, e.beq_iff x b, e.beq_iff a b)

  count-le : (a : A) (xs : List A) → count a xs ≤ length xs
  unfolding count
  count-le a [] = omega arith
  count-le a (x ∷ xs) = ground (arith, count-le a xs)

  abbrev pub hold : Option A → List A → List A
  hold none hs = hs
  hold (some a) hs = a ∷ hs

  -- A connection is made, a connection that holds a pointer is destroyed, or the thread runs. There
  -- are fewer than 2 ^ 31 - 1 connections.
  pub data Reach : IpProxies A → List A → Type 0 where
    started : (send recv now : ℤ) → Reach (start send recv now new_ip_proxies) []
    acquires :
        {s : IpProxies A} {hs : List A} (a : A)
        → Reach s hs
        → length hs < 2147483647
        → Reach (get_ip_proxy a s).1 (hold (get_ip_proxy a s).0 hs)
    releases :
        {s t : IpProxies A} {hs : List A} (a : A)
        → Reach s hs
        → 1 ≤ count a hs
        → release a s ≡ some t
        → Reach t (drop_one a hs)
    rounds : {s : IpProxies A} {hs : List A} (now : ℤ) → Reach s hs → Reach (routine_round now s) hs

  pub record IsCounted (s : IpProxies A) (hs : List A) : Type 0 where
    pub is_map : IsMap s.addrs
    pub counted : (a : A) → Counted (lookup a s.addrs) (count a hs)
    pub few : length hs ≤ 2147483647

  acquire-Counted :
      (s : IpProxies A) (hs : List A) (a b : A) (t : Bool)
      → (t ≡ true → a ≡ b)
      → length hs < 2147483647
      → IsCounted s hs
      → Counted
          (if t
            then some (record (or_new (lookup a s.addrs)) {
              ref_cnt = add_int (or_new (lookup a s.addrs)).ref_cnt (pos 1);
            })
            else lookup b s.addrs)
          ((if t then 1 else 0) + count b hs)
  acquire-Counted s hs a b true same h i =
      Counted-acquire (lookup a s.addrs) (count a hs) (omega (arith, count-le a hs)) (i.counted a)
      ∙ ap pos (omega (arith, ap (λ x. count x hs) (same refl)))
  acquire-Counted s hs a b false same h i =
      subst (Counted (lookup b s.addrs)) (omega arith) (i.counted b)

  pub acquire-IsCounted :
      (s : IpProxies A) (hs : List A) (a : A)
      → length hs < 2147483647
      → IsCounted s hs
      → IsCounted (get_ip_proxy a s).1 (hold (get_ip_proxy a s).0 hs)
  unfolding get_ip_proxy count
  acquire-IsCounted s hs a h i =
      if_elim {A = Option A × IpProxies A} (λ r. IsCounted r.1 (hold r.0 hs))
        (is_zero s.bandwidth.at0 && is_zero s.bandwidth.at1) _ _ (λ _. i)
        (λ _. record {
          is_map = insert-IsMap a _ s.addrs i.is_map;
          counted = λ b.
              subst (λ o. Counted o (count b (a ∷ hs))) (sym (lookup-insert a b _ s.addrs))
                (acquire-Counted s hs a b (a == b) (e.beq_iff a b).0 h i);
          few = omega arith;
        })

  release-Counted :
      (s : IpProxies A) (hs : List A) (a b : A) (t : Bool) (ip : IpProxy) (n : ℕ)
      → (t ≡ true → a ≡ b)
      → lookup a s.addrs ≡ some ip
      → 1 ≤ count a hs
      → n + (if t then 1 else 0) ≡ count b hs
      → IsCounted s hs
      → Counted
          (if t
            then some (record ip { ref_cnt = sub_int ip.ref_cnt (pos 1) })
            else lookup b s.addrs)
          n
  release-Counted s hs a b true ip n same q h c i =
      let r : ip.ref_cnt ≡ pos (suc n) =
        subst (λ o. Counted o (count a hs)) q (i.counted a)
        ∙ ap pos (omega (arith, ap (λ x. count x hs) (same refl))) in
      ap (λ x. sub_int x (pos 1)) r ∙ Counted-release n (omega (arith, count-le b hs, i.few))
  release-Counted s hs a b false ip n same q h c i =
      subst (Counted (lookup b s.addrs)) (omega arith) (i.counted b)

  length-drop_one : (a : A) (xs : List A) → length (drop_one a xs) ≤ length xs
  unfolding drop_one
  length-drop_one a [] = omega arith
  length-drop_one a (x ∷ xs) = ground (arith, length-drop_one a xs)

  abbrev pub released : A → IpProxy → IpProxies A → IpProxies A
  released a ip s = record s {
    addrs = insert a (record ip { ref_cnt = sub_int ip.ref_cnt (pos 1) }) s.addrs;
  }

  pub release-eq :
      (s : IpProxies A) (a : A) (ip : IpProxy)
      → lookup a s.addrs ≡ some ip
      → release a s ≡ some (released a ip s)
  unfolding release
  release-eq s a ip q = rw (q, release)

  pub release-IsCounted :
      (s : IpProxies A) (hs : List A) (a : A) (ip : IpProxy)
      → lookup a s.addrs ≡ some ip
      → 1 ≤ count a hs
      → IsCounted s hs
      → IsCounted (released a ip s) (drop_one a hs)
  release-IsCounted s hs a ip q h i = record {
    is_map = insert-IsMap a _ s.addrs i.is_map;
    counted = λ b.
        subst (λ o. Counted o (count b (drop_one a hs))) (sym (lookup-insert a b _ s.addrs))
          (release-Counted s hs a b (a == b) ip (count b (drop_one a hs)) (e.beq_iff a b).0 q h
            (count-drop_one a b hs h) i);
    few = omega (arith, i.few, length-drop_one a hs);
  }

  round-IsCounted :
      (now : ℤ) (s : IpProxies A) (hs : List A)
      → IsCounted s hs
      → IsCounted (routine_round now s) hs
  unfolding routine_round sweep
  round-IsCounted now s hs i =
      if_elim (λ t. IsCounted t hs) (leb_ℤ (interval now s) (pos 0)) s
        (record s { addrs = sweep (bytes_for now s) s.addrs; last_flush_tm = now }) (λ _. i)
        (λ _. record {
          is_map =
              erase_all-IsMap (unused s.addrs) (refill_used (bytes_for now s) s.addrs)
                (refill_used-IsMap (bytes_for now s) s.addrs i.is_map);
          counted = λ b.
              subst (λ o. Counted o (count b hs))
                (sym (lookup-sweep (bytes_for now s) b s.addrs i.is_map))
                (Counted-sweep (bytes_for now s) (lookup b s.addrs) (count b hs) (i.counted b));
          few = i.few;
        })

  start-IsCounted : (send recv now : ℤ) → IsCounted (start send recv now new_ip_proxies) []
  unfolding start new_ip_proxies lookup count
  start-IsCounted send recv now =
      if_elim (λ t. IsCounted t []) (ltb_ℤ (pos 0) send || ltb_ℤ (pos 0) recv) _ _
        (λ _. record { is_map = tt; counted = λ b. refl; few = omega arith })
        (λ _. record { is_map = tt; counted = λ b. refl; few = omega arith })

  Reach-IsCounted : {s : IpProxies A} {hs : List A} → Reach s hs → IsCounted s hs
  Reach-IsCounted (started send recv now) = start-IsCounted send recv now
  Reach-IsCounted (acquires {s} {hs} a r h) = acquire-IsCounted s hs a h (Reach-IsCounted r)
  Reach-IsCounted (releases {s} {t} {hs} a r h q) =
      let (ip, p, _) =
        held_entry (lookup a s.addrs) (count a hs) h ((Reach-IsCounted r).counted a) in
      subst (λ u. IsCounted u (drop_one a hs))
        (some-injective (released a ip s) t (sym (release-eq s a ip p) ∙ q))
        (release-IsCounted s hs a ip p h (Reach-IsCounted r))
  Reach-IsCounted (rounds {s} {hs} now r) = round-IsCounted now s hs (Reach-IsCounted r)

  -- After any sequence of connections made and destroyed and of rounds of the thread, with fewer
  -- than 2 ^ 31 - 1 connections when one is made: the address that a live connection holds has an
  -- entry in `addrs`, whose `ref_cnt` is the number of its holders.
  pub held_pointer_valid :
      {s : IpProxies A} {hs : List A}
      → Reach s hs
      → (a : A) → 1 ≤ count a hs
      → (ip : IpProxy) × (lookup a s.addrs ≡ some ip) × (ip.ref_cnt ≡ pos (count a hs))
  held_pointer_valid {s} {hs} r a h =
      held_entry (lookup a s.addrs) (count a hs) h ((Reach-IsCounted r).counted a)

  -- After any sequence of connections made and destroyed and of rounds of the thread, with fewer
  -- than 2 ^ 31 - 1 connections when one is made: the destructor of a connection that holds an
  -- address finds its entry.
  pub release_total :
      {s : IpProxies A} {hs : List A} → Reach s hs → (a : A) → 1 ≤ count a hs → release a s ≢ none
  release_total {s} r a h q =
      let (ip, p, _) = held_pointer_valid r a h in absurd (cc (release-eq s a ip p))

  -- After any sequence of connections made and destroyed and of rounds of the thread, with fewer
  -- than 2 ^ 31 - 1 connections when one is made: a round that is run when its interval is positive
  -- leaves no entry for an address that no live connection holds.
  pub round_forgets :
      {s : IpProxies A} {hs : List A}
      → Reach s hs
      → (now : ℤ) → pos 0 <ℤ interval now s
      → (a : A) → count a hs ≡ 0
      → lookup a (routine_round now s).addrs ≡ none
  unfolding routine_round
  round_forgets {s} {hs} r now h a z =
      if_elim (λ t. lookup a t.addrs ≡ none) (leb_ℤ (interval now s) (pos 0)) s
        (record s { addrs = sweep (bytes_for now s) s.addrs; last_flush_tm = now })
        (λ e. absurd (ground arith))
        (λ _.
          lookup-sweep (bytes_for now s) a s.addrs i.is_map
          ∙ forgotten (bytes_for now s) (lookup a s.addrs) (count a hs) z (i.counted a))
    where
      i : IsCounted s hs
      i = Reach-IsCounted r
