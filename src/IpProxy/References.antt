-- ===== src/IpProxy/References.antt =====
-- src/ip_proxy.cpp: the count of an entry, and what one operation does to it.
use mathlib.Core.Option
use tcp_udp_proxy.Prelude.{
  ℕ, suc, ◌<◌, ℤ, pos, add_int, sub_int, ◌+ℤ◌, ◌-ℤ◌, to_int, leb_ℤ, ◌≡◌, refl, ◌∙◌, ap, ap₂, Bool,
  false, Option, none, some, List, [], ◌∷◌, if◌then◌else◌, if_elim, Pair, arith,
}
use tcp_udp_proxy.Prelude.Maps.{Eq, lookup, IsMap, contains, lookup-erase_all}
use tcp_udp_proxy.IpProxy.{IpProxy, new_ip_proxy, or_new, sweep, unused, refill_used, refill}

abbrev pub is_unused : Option IpProxy → Bool
is_unused none = false
is_unused (some ip) = leb_ℤ ip.ref_cnt (pos 0)

-- The entry counts n holders; no entry, no holder.
abbrev pub Counted : Option IpProxy → ℕ → Type 0
Counted none n = n ≡ 0
Counted (some ip) n = ip.ref_cnt ≡ pos n

unfoldable pub refilled : Pair ℤ → IpProxy → IpProxy
unfolding refill
refilled bytes ip = if leb_ℤ ip.ref_cnt (pos 0) then ip else refill bytes ip

refilled-ref_cnt : (bytes : Pair ℤ) (ip : IpProxy) → (refilled bytes ip).ref_cnt ≡ ip.ref_cnt
unfolding refilled
refilled-ref_cnt bytes ip = ground arith

pub Counted-acquire :
    (o : Option IpProxy) (n : ℕ)
    → n < 2147483647
    → Counted o n
    → add_int (or_new o).ref_cnt (pos 1) ≡ pos (suc n)
unfolding add_int to_int ◌+ℤ◌ new_ip_proxy
Counted-acquire none n h c = ground arith
Counted-acquire (some ip) n h c = rw c (ground arith)

pub Counted-release : (n : ℕ) → n < 2147483647 → sub_int (pos (suc n)) (pos 1) ≡ pos n
unfolding sub_int to_int ◌-ℤ◌
Counted-release n h = ground arith

pub Counted-sweep :
    (bytes : Pair ℤ) (o : Option IpProxy) (n : ℕ)
    → Counted o n
    → Counted (if is_unused o then none else Option.map (refilled bytes) o) n
Counted-sweep bytes none n c = c
Counted-sweep bytes (some ip) n c =
    if_elim (λ r. Counted r n) (leb_ℤ ip.ref_cnt (pos 0)) _ _ (λ e. ground arith)
      (λ e. refilled-ref_cnt bytes ip ∙ c)

module _ {A : Type 0} ⦃e : Eq A⦄ where
  lookup-refill_used :
      (bytes : Pair ℤ) (a : A) (m : List (A × IpProxy))
      → lookup a (refill_used bytes m) ≡ Option.map (refilled bytes) (lookup a m)
  unfolding lookup refill_used refilled
  lookup-refill_used bytes a [] = refl
  lookup-refill_used bytes a ((b, ip) ∷ m) = ground (arith, lookup-refill_used bytes a m)

  pub refill_used-IsMap :
      (bytes : Pair ℤ) (m : List (A × IpProxy)) → IsMap m → IsMap (refill_used bytes m)
  unfolding refill_used
  refill_used-IsMap bytes [] h = tt
  refill_used-IsMap bytes ((b, ip) ∷ m) h = (
    lookup-refill_used bytes b m ∙ ap (Option.map (refilled bytes)) h.0,
    refill_used-IsMap bytes m h.1,
  )

  contains-unused :
      (a : A) (m : List (A × IpProxy)) → IsMap m → contains (unused m) a ≡ is_unused (lookup a m)
  unfolding lookup unused contains
  contains-unused a [] h = refl
  contains-unused a ((b, ip) ∷ m) h = ground (arith, contains-unused a m h.1, e.beq_iff b a)

  -- A round forgets the entries that nobody holds, and refills the others.
  pub lookup-sweep :
      (bytes : Pair ℤ) (a : A) (m : List (A × IpProxy))
      → IsMap m
      → lookup a (sweep bytes m)
        ≡ (if is_unused (lookup a m) then none else Option.map (refilled bytes) (lookup a m))
  unfolding sweep
  lookup-sweep bytes a m h =
      lookup-erase_all (unused m) a (refill_used bytes m)
      ∙ ap₂ (λ b o. if b then none else o) (contains-unused a m h) (lookup-refill_used bytes a m)
