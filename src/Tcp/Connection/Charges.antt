-- ===== src/Tcp/Connection/Charges.antt =====
-- src/ip_proxy.cpp, src/tcp_proxy.cpp and src/udp_proxy.cpp: what a charge and a round do to the allowance
-- of a client's address.
use tcp_udp_proxy.Prelude.{
  ℕ, ◌+◌, ◌≤◌, ℤ, pos, pos_part, neg_part, to_int, add_int, sub_int, ◌+ℤ◌, ◌≤ℤ◌, int_max, ltb_ℤ,
  leb_ℤ, ◌≡◌, refl, sym, ap, subst, ◌∙◌, ◌⊎◌, inl, inr, true, Option, some, [], ◌∷◌, ◌++◌, PairId,
  p0, p1, other, Pair, get, put, get-put_self, both, if◌then◌else◌, Ends, if_elim, arith,
}
use mathlib.Core.Option.{some-injective}
use tcp_udp_proxy.Buffer.{Buffer}
use tcp_udp_proxy.IpProxy.{IpProxy, new_ip_proxy, refill}
use tcp_udp_proxy.Config.{udp_buffer_size}
use tcp_udp_proxy.Udp.Server.{charge as udp_charge}
use tcp_udp_proxy.Tcp.Connection.{View, Link, charge, set_idle, issue_write, charge_client}
use tcp_udp_proxy.Tcp.Connection.Rate.{
  IsSize, spent, spent-append, size-le, charge-eq, nonneg, sub_int_charge, add_int_grant,
}

-- A datagram that one receive filled.
abbrev pub IsDatagram : Buffer → Type 0
IsDatagram b = (pos 0 ≤ℤ b.buf_size) × (b.buf_size ≤ℤ pos udp_buffer_size)

-- What an allowance says of the bytes that were spent and granted.
abbrev Account : ℤ → ℕ → ℕ → Type 0
Account a w g = (pos_part a + w ≤ g + neg_part a) × (neg_part a ≤ 4150) × (a ≤ℤ int_max)

Account-charge :
    (a : ℤ) (c w g : ℕ)
    → pos 0 ≤ℤ a
    → c ≤ 4150
    → Account a w g
    → Account (sub_int a (pos c)) (w + c) g
Account-charge a c w g lo small (h, n, hi) =
    let (x, y, z) = sub_int_charge a c lo hi small in (omega (arith, nonneg a lo), y, z)

Account-grant :
    (a : ℤ) (c w g : ℕ)
    → c ≤ 2147483647
    → Account a w g
    → Account (if ltb_ℤ a (pos 0) then add_int a (pos c) else a) w (g + c)
Account-grant a c w g small (h, n, hi) =
    if_elim (λ x. Account x w (g + c)) (ltb_ℤ a (pos 0)) _ _
      (λ t. let (x, y, z) = add_int_grant a c (ground (arith, t)) n small in (omega arith, y, z))
      (λ _. (omega arith, n, hi))

pub udp-size-le : (b : Buffer) → IsDatagram b → pos_part b.buf_size ≤ udp_buffer_size
udp-size-le b h = ground arith

pub udp_charge_eq : (b : Buffer) → IsDatagram b → udp_charge b ≡ pos (pos_part b.buf_size + 42)
unfolding udp_charge add_int to_int ◌+ℤ◌
udp_charge_eq b h = ground arith

module _ (v : View) (p : PairId) (b : Buffer) (l : Link) where
  -- A write that the client's allowance lets through is charged to it; else nothing is written.
  abbrev pub Charged : IpProxy → Link → Type 0
  Charged ip next =
      ((pos 0 ≤ℤ get (other p) ip.avail_bytes)
        × (next.client_ip
            ≡ some (record ip {
              avail_bytes =
                  put (other p) (sub_int (get (other p) ip.avail_bytes) (charge b)) ip.avail_bytes;
            }))
        × (get p next.sockets.written ≡ get p l.sockets.written ++ b ∷ []))
      ⊎ ((next.client_ip ≡ l.client_ip) × (get p next.sockets.written ≡ get p l.sockets.written))

  not_negative : (a : ℤ) → leb_ℤ (pos 0) a ≡ true → pos 0 ≤ℤ a
  not_negative a h = ground arith

  pub charge_client-Charged : (ip : IpProxy) → Ends (Charged ip) (charge_client v p b l (some ip))
  unfolding charge_client issue_write set_idle
  charge_client-Charged ip =
      if_elim (Ends (Charged ip)) (leb_ℤ (pos 0) (get (other p) ip.avail_bytes)) _ _
        (λ t. inl (
          not_negative (get (other p) ip.avail_bytes) t,
          refl,
          get-put_self p (get p l.sockets.written ++ b ∷ []) l.sockets.written,
        ))
        (λ _. inr (refl, refl))

untouched :
    (p : PairId) (x : ℤ) (a : Pair ℤ) → get (other p) (put (other (other p)) x a) ≡ get (other p) a
untouched p0 x a = refl
untouched p1 x a = refl

module _ (p : PairId) where
  abbrev pub Held : ℕ → ℕ → IpProxy → Type 0
  Held g w ip = Account (get (other p) ip.avail_bytes) w g

  get-both : (q : PairId) → get q (both (pos 0)) ≡ pos 0
  get-both p0 = refl
  get-both p1 = refl

  pub fresh-Held : Held 0 0 new_ip_proxy
  unfolding new_ip_proxy
  fresh-Held = subst (λ a. Account a 0 0) (sym (get-both (other p))) (omega arith)

  -- The allowance in this direction after a charge of c bytes.
  pub charged-Held :
      (g w c : ℕ) (ip jp : IpProxy) (o : Option IpProxy)
      → Held g w ip
      → pos 0 ≤ℤ get (other p) ip.avail_bytes
      → c ≤ 4150
      → o
        ≡ some (record ip {
          avail_bytes =
              put (other p) (sub_int (get (other p) ip.avail_bytes) (pos c)) ip.avail_bytes;
        })
      → o ≡ some jp
      → Held g (w + c) jp
  charged-Held g w c ip jp o h lo small r n =
      subst (Held g (w + c)) (some-injective _ _ (sym r ∙ n)) (
        subst (λ a. Account a (w + c) g)
          (sym (
            get-put_self (other p) (sub_int (get (other p) ip.avail_bytes) (pos c)) ip.avail_bytes))
          (Account-charge (get (other p) ip.avail_bytes) c w g lo small h))

  pub writes-Held :
      (g w w' : ℕ) (ip jp : IpProxy) (v : View) (b : Buffer) (l next : Link)
      → Held g w ip
      → IsSize b
      → l.client_ip ≡ some ip
      → Charged v p b l ip next
      → next.client_ip ≡ some jp
      → w' + spent (get p l.sockets.written) ≡ w + spent (get p next.sockets.written)
      → Held g w' jp
  writes-Held g w w' ip jp v b l next h size q (inl (lo, r, o)) n f =
      subst (λ u. Held g u jp)
        (omega (arith, f, ap spent o, spent-append (get p l.sockets.written) b))
        (charged-Held g w (pos_part b.buf_size + 54) ip jp next.client_ip h lo
          (omega (arith, size-le b size))
          (subst
            (λ c.
              next.client_ip
              ≡ some (record ip {
                avail_bytes =
                    put (other p) (sub_int (get (other p) ip.avail_bytes) c) ip.avail_bytes;
              }))
            (charge-eq b size) r)
          n)
  writes-Held g w w' ip jp v b l next h size q (inr (r, o)) n f =
      subst (λ u. Held g u jp) (omega (arith, f, ap spent o))
        (subst (Held g w) (some-injective _ _ (sym q ∙ sym r ∙ n)) h)

  -- A charge in the other direction.
  pub crosses-Held :
      (g w : ℕ) (ip jp : IpProxy) (v : View) (b : Buffer) (l next : Link)
      → Held g w ip
      → l.client_ip ≡ some ip
      → Charged v (other p) b l ip next
      → next.client_ip ≡ some jp
      → Held g w jp
  crosses-Held g w ip jp v b l next h q (inl (lo, r, o)) n =
      subst (Held g w) (some-injective _ _ (sym r ∙ n)) (
        subst (λ a. Account a w g)
          (sym (
            untouched p (sub_int (get (other (other p)) ip.avail_bytes) (charge b)) ip.avail_bytes))
          h)
  crosses-Held g w ip jp v b l next h q (inr (r, o)) n =
      subst (Held g w) (some-injective _ _ (sym q ∙ sym r ∙ n)) h

pub refills-Held :
    (p : PairId) (g w c : ℕ) (bytes : Pair ℤ) (ip : IpProxy)
    → Held p g w ip
    → get (other p) bytes ≡ pos c
    → c ≤ 2147483647
    → Held p (g + c) w (refill bytes ip)
unfolding refill
refills-Held p0 g w c bytes ip h q small =
    subst
      (λ x.
        Account
          (if ltb_ℤ ip.avail_bytes.at1 (pos 0)
            then add_int ip.avail_bytes.at1 x
            else ip.avail_bytes.at1)
          w (g + c))
      (sym q) (Account-grant ip.avail_bytes.at1 c w g small h)
refills-Held p1 g w c bytes ip h q small =
    subst
      (λ x.
        Account
          (if ltb_ℤ ip.avail_bytes.at0 (pos 0)
            then add_int ip.avail_bytes.at0 x
            else ip.avail_bytes.at0)
          w (g + c))
      (sym q) (Account-grant ip.avail_bytes.at0 c w g small h)
