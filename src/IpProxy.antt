-- ===== src/IpProxy.antt =====
-- src/ip_proxy.h and src/ip_proxy.cpp: the traffic allowance that all connections of one client
-- address share. A is the type of addresses of Boost.Asio. A pointer to an `IPProxy` is the address
-- that it belongs to: `std::map` does not move its entries. Each function here runs under a lock,
-- and is one step; the mutexes themselves are not modelled.
pub mod References
pub mod Holders
pub mod Accounts
pub mod Pointers
mod Examples
use tcp_udp_proxy.Prelude.{
  ℕ, ℤ, pos, negsuc, ◌*ℤ◌, ◌-ℤ◌, to_int, add_int, sub_int, div_thousand, leb_ℤ, ltb_ℤ, ◌==◌, Bool,
  true, false, ◌&&◌, ◌||◌, Option, none, some, List, [], ◌∷◌, if◌then◌else◌, Pair, PairId, p0, p1,
  get, put, both,
}
use tcp_udp_proxy.Prelude.Maps.{Eq, lookup, insert, erase_all}

pub record IpProxy : Type 0 where
  pub avail_bytes : Pair ℤ
  pub ref_cnt : ℤ

unfoldable pub new_ip_proxy : IpProxy
new_ip_proxy = record { avail_bytes = both (pos 0); ref_cnt = pos 0 }

-- `routine` says that the thread of `routineThreadHandler` was created; `last_flush_tm` is its.
pub record IpProxies (A : Type 0) : Type 0 where
  pub addrs : List (A × IpProxy)
  pub bandwidth : Pair ℤ
  pub routine : Bool
  pub last_flush_tm : ℤ

unfoldable pub new_ip_proxies : {A : Type 0} → IpProxies A
new_ip_proxies = record {
  addrs = [];
  bandwidth = both (pos 0);
  routine = false;
  last_flush_tm = pos 0;
}

-- `now` is the time at which the thread starts.
unfoldable pub start : {A : Type 0} → ℤ → ℤ → ℤ → IpProxies A → IpProxies A
start send_bandwidth recv_bandwidth now s =
    let limits : Pair ℤ = record { at0 = send_bandwidth; at1 = recv_bandwidth } in
    if ltb_ℤ (pos 0) send_bandwidth || ltb_ℤ (pos 0) recv_bandwidth
    then record s { bandwidth = limits; routine = true; last_flush_tm = now }
    else record s { bandwidth = limits }

abbrev pub is_zero : ℤ → Bool
is_zero (pos n) = n == 0
is_zero (negsuc n) = false

abbrev pub or_new : Option IpProxy → IpProxy
or_new none = new_ip_proxy
or_new (some ip) = ip

-- `bytes[i] = interval * bandwidth[i] / 1000`, a product of two `int`.
unfoldable pub grant_bytes : ℤ → ℤ → ℤ
grant_bytes interval bandwidth = div_thousand (to_int (interval *ℤ bandwidth))

refill_one : ℤ → ℤ → ℤ
refill_one bytes avail = if ltb_ℤ avail (pos 0) then add_int avail bytes else avail

unfoldable pub refill : Pair ℤ → IpProxy → IpProxy
unfolding refill_one
refill bytes ip = record ip {
  avail_bytes = record {
    at0 = refill_one bytes.at0 ip.avail_bytes.at0;
    at1 = refill_one bytes.at1 ip.avail_bytes.at1;
  };
}

-- The loop over `addrs`: the keys that go to `delete_proies`, and what it leaves of the entries.
pub unused : {A : Type 0} → List (A × IpProxy) → List A
unused [] = []
unused ((a, ip) ∷ m) = if leb_ℤ ip.ref_cnt (pos 0) then a ∷ unused m else unused m

pub refill_used : {A : Type 0} → Pair ℤ → List (A × IpProxy) → List (A × IpProxy)
refill_used bytes [] = []
refill_used bytes ((a, ip) ∷ m) =
    (a, (if leb_ℤ ip.ref_cnt (pos 0) then ip else refill bytes ip)) ∷ refill_used bytes m

-- The milliseconds since the last round, and the bytes that they grant in each direction.
abbrev pub interval : {A : Type 0} → ℤ → IpProxies A → ℤ
interval now s = to_int (now -ℤ s.last_flush_tm)

abbrev pub bytes_for : {A : Type 0} → ℤ → IpProxies A → Pair ℤ
bytes_for now s = record {
  at0 = grant_bytes (interval now s) s.bandwidth.at0;
  at1 = grant_bytes (interval now s) s.bandwidth.at1;
}

module _ {A : Type 0} ⦃e : Eq A⦄ where
  -- The pointer that a new connection keeps, none for null.
  unfoldable pub get_ip_proxy : A → IpProxies A → Option A × IpProxies A
  get_ip_proxy a s =
      if is_zero s.bandwidth.at0 && is_zero s.bandwidth.at1
      then (none, s)
      else let ip : IpProxy = or_new (lookup a s.addrs) in
        (
          some a,
          record s {
            addrs = insert a (record ip { ref_cnt = add_int ip.ref_cnt (pos 1) }) s.addrs;
          },
        )

  -- What the destructor of a connection does; none where the pointer dangles.
  unfoldable pub release : A → IpProxies A → Option (IpProxies A)
  release a s = elim (lookup a s.addrs) [
    | none ↦ none
    | some ip ↦
        some (record s {
          addrs = insert a (record ip { ref_cnt = sub_int ip.ref_cnt (pos 1) }) s.addrs;
        })
  ]

  unfoldable pub sweep : Pair ℤ → List (A × IpProxy) → List (A × IpProxy)
  unfolding unused refill_used
  sweep bytes m = erase_all (unused m) (refill_used bytes m)

  -- One round of `routineThreadHandler`, 10 ms or more after the last.
  unfoldable pub routine_round : ℤ → IpProxies A → IpProxies A
  routine_round now s =
      if leb_ℤ (interval now s) (pos 0)
      then s
      else record s { addrs = sweep (bytes_for now s) s.addrs; last_flush_tm = now }
