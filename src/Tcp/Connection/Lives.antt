-- ===== src/Tcp/Connection/Lives.antt =====
-- src/ip_proxy.cpp: the entry of one client address in `ip_proxies`, over all the objects that are made
-- for it, and its allowance in one direction.
use mathlib.Core.Option
use tcp_udp_proxy.Prelude.{
  ℕ, suc, ◌+◌, ◌*◌, ◌≤◌, ℤ, pos, leb_ℤ, ◌≡◌, refl, sym, ap, subst, ◌∙◌, Bool, true, false, Option,
  none, some, List, PairId, other, Pair, get, ◌&&◌, if◌then◌else◌, if_elim, arith, add_int, sub_int,
}
use tcp_udp_proxy.Prelude.Maps.{
  Eq, ◌==◌, lookup, insert, IsMap, lookup-insert, insert-IsMap, erase_all-IsMap,
}
use tcp_udp_proxy.IpProxy.{
  IpProxy, IpProxies, new_ip_proxy, or_new, is_zero, refill, unused, refill_used, get_ip_proxy,
  release, sweep,
}
use tcp_udp_proxy.IpProxy.References.{is_unused, refilled, refill_used-IsMap, lookup-sweep}
use tcp_udp_proxy.Tcp.Connection.Charges.{Held, fresh-Held, refills-Held}

-- Whether an entry appeared where there was none.
abbrev pub appears : Option IpProxy → Option IpProxy → ℕ
appears none none = 0
appears none (some jp) = 1
appears (some ip) o = 0

appears_same : (o : Option IpProxy) → appears o o ≡ 0
appears_same none = refl
appears_same (some ip) = refl

module _ (p : PairId) where
  -- After n objects: the bytes w that were spent exceed the g that were granted by no more than 4150
  -- for each object that is gone, and by what the last one owes.
  abbrev pub Owed : ℕ → ℕ → ℕ → Option IpProxy → Type 0
  Owed n g w none = w ≤ g + 4150 * n
  Owed n g w (some ip) = (k : ℕ) × (n ≡ suc k) × Held p (g + 4150 * k) w ip

  pub Owed-le : (n g w : ℕ) (o : Option IpProxy) → Owed n g w o → w ≤ g + 4150 * n
  Owed-le n g w none h = h
  Owed-le n g w (some ip) (k, q, h) = omega (arith, q, h)

  Owed-same : (n g w : ℕ) (o : Option IpProxy) → Owed n g w o → Owed (n + appears o o) g w o
  Owed-same n g w none h = omega (arith, h)
  Owed-same n g w (some ip) (k, q, h) = (k, omega (arith, q), h)

  -- A holder takes the entry, which is made where there is none.
  Owed-acquired :
      (n g w : ℕ) (c : ℤ) (o : Option IpProxy)
      → Owed n g w o
      → Owed
          (n + appears o (some (record (or_new o) { ref_cnt = c })))
          g
          w
          (some (record (or_new o) { ref_cnt = c }))
  unfolding new_ip_proxy
  Owed-acquired n g w c none h = (n, omega arith, omega (arith, h, fresh-Held p))
  Owed-acquired n g w c (some ip) (k, q, h) = (k, omega (arith, q), h)

  Owed-refilled :
      (n g w c : ℕ) (bytes : Pair ℤ) (o : Option IpProxy)
      → get (other p) bytes ≡ pos c
      → c ≤ 2147483647
      → Owed n g w o
      → Owed n (g + c) w (if is_unused o then none else Option.map (refilled bytes) o)
  unfolding refilled
  Owed-refilled n g w c bytes none q small h = omega (arith, h)
  Owed-refilled n g w c bytes (some ip) q small (k, e, h) = settled (leb_ℤ ip.ref_cnt (pos 0))
    where
      settled :
          (b : Bool)
          → Owed n (g + c) w (if b then none else some (if b then ip else refill bytes ip))
      settled true = omega (arith, e, h)
      settled false = (
        k,
        e,
        subst (λ a. Held p a w (refill bytes ip)) (omega arith)
            (refills-Held p (g + 4150 * k) w c bytes ip h q small),
      )

module _ {A : Type 0} ⦃e : Eq A⦄ (p : PairId) (x : A) where
  pub record Owes (n g w : ℕ) (s : IpProxies A) : Type 0 where
    pub is_map : IsMap s.addrs
    pub owed : Owed p n g w (lookup x s.addrs)

  pub lookup-insert_self :
      {V : Type 0} (v : V) (m : List (A × V)) → lookup x (insert x v m) ≡ some v
  lookup-insert_self v m = ground (arith, lookup-insert x x v m, e.beq_iff x x)

  -- An entry is put in place of the one of x.
  pub puts-Owes :
      (n g w : ℕ) (jp : IpProxy) (s : IpProxies A)
      → IsMap s.addrs
      → Owed p n g w (some jp)
      → Owes n g w (record s { addrs = insert x jp s.addrs })
  puts-Owes n g w jp s m h = record {
    is_map = insert-IsMap x jp s.addrs m;
    owed = subst (Owed p n g w) (sym (lookup-insert_self jp s.addrs)) h;
  }

  -- An entry is put, which for x owes the same.
  pub keeps-Owes :
      (n g w : ℕ) (y : A) (jp : IpProxy) (s : IpProxies A)
      → (y ≡ x → Owed p n g w (some jp))
      → Owes n g w s
      → Owes n g w (record s { addrs = insert y jp s.addrs })
  keeps-Owes n g w y jp s f o = record {
    is_map = insert-IsMap y jp s.addrs o.is_map;
    owed =
        subst (Owed p n g w) (sym (lookup-insert y x jp s.addrs))
          (if_elim (Owed p n g w) (y == x) _ _ (λ t. f ((e.beq_iff y x).0 t)) (λ _. o.owed));
  }

  acquired :
      (n g w : ℕ) (y : A) (c : ℤ) (s : IpProxies A)
      → Owes n g w s
      → Owes
          (n
            + appears
                (lookup x s.addrs)
                (lookup x (insert y (record (or_new (lookup y s.addrs)) { ref_cnt = c }) s.addrs)))
          g
          w
          (record s {
            addrs = insert y (record (or_new (lookup y s.addrs)) { ref_cnt = c }) s.addrs;
          })
  acquired n g w y c s o =
      let old = lookup x s.addrs in
      record {
        is_map = insert-IsMap y _ s.addrs o.is_map;
        owed =
            subst (λ r. Owed p (n + appears old r) g w r) (sym (lookup-insert y x _ s.addrs))
              (if_elim (λ r. Owed p (n + appears old r) g w r) (y == x) _ _
                (λ t.
                  subst
                    (λ z.
                      Owed p
                        (n
                          + appears old (some (record (or_new (lookup z s.addrs)) { ref_cnt = c })))
                        g w (some (record (or_new (lookup z s.addrs)) { ref_cnt = c })))
                    (sym ((e.beq_iff y x).0 t)) (Owed-acquired p n g w c old o.owed))
                (λ _. Owed-same p n g w old o.owed));
      }

  pub acquires-Owes :
      (n g w : ℕ) (y : A) (s : IpProxies A)
      → Owes n g w s
      → Owes
          (n + appears (lookup x s.addrs) (lookup x (get_ip_proxy y s).1.addrs))
          g
          w
          (get_ip_proxy y s).1
  unfolding get_ip_proxy
  acquires-Owes n g w y s o =
      if_elim {A = Option A × IpProxies A}
        (λ r. Owes (n + appears (lookup x s.addrs) (lookup x r.1.addrs)) g w r.1)
        (is_zero s.bandwidth.at0 && is_zero s.bandwidth.at1) _ _
        (λ _. record { is_map = o.is_map; owed = Owed-same p n g w (lookup x s.addrs) o.owed })
        (λ _. acquired n g w y (add_int (or_new (lookup y s.addrs)).ref_cnt (pos 1)) s o)

  abbrev OwesAfter : ℕ → ℕ → ℕ → IpProxies A → Option (IpProxies A) → Type 0
  OwesAfter n g w s none = Unit {0}
  OwesAfter n g w s (some t) = Owes n g w t × (t.bandwidth ≡ s.bandwidth)

  releases :
      (n g w : ℕ) (y : A) (s : IpProxies A) (o : Option IpProxy)
      → lookup y s.addrs ≡ o
      → Owes n g w s
      → OwesAfter n g w s (elim o [
        | none ↦ none
        | some ip ↦ some (record s {
          addrs = insert y (record ip { ref_cnt = sub_int ip.ref_cnt (pos 1) }) s.addrs;
        })
      ])
  releases n g w y s none q h = tt
  releases n g w y s (some ip) q h = (
    keeps-Owes n g w y _ s
        (λ same. subst (Owed p n g w) (ap (λ z. lookup z s.addrs) (sym same) ∙ q) h.owed) h,
    refl,
  )

  pub releases-Owes :
      (n g w : ℕ) (y : A) (s t : IpProxies A)
      → release y s ≡ some t
      → Owes n g w s
      → Owes n g w t × (t.bandwidth ≡ s.bandwidth)
  unfolding release
  releases-Owes n g w y s t q h =
      subst (OwesAfter n g w s) q (releases n g w y s (lookup y s.addrs) refl h)

  pub sweeps-Owes :
      (n g w c : ℕ) (bytes : Pair ℤ) (now : ℤ) (s : IpProxies A)
      → get (other p) bytes ≡ pos c
      → c ≤ 2147483647
      → Owes n g w s
      → Owes n (g + c) w (record s { addrs = sweep bytes s.addrs; last_flush_tm = now })
  unfolding sweep
  sweeps-Owes n g w c bytes now s q small h = record {
    is_map =
        erase_all-IsMap (unused s.addrs) (refill_used bytes s.addrs)
          (refill_used-IsMap bytes s.addrs h.is_map);
    owed =
        subst (Owed p n (g + c) w) (sym (lookup-sweep bytes x s.addrs h.is_map))
          (Owed-refilled p n g w c bytes (lookup x s.addrs) q small h.owed);
  }
