-- ===== src/IpProxy/Examples.antt =====
-- Runs of `ip_proxies` on concrete addresses, numbers here.
use tcp_udp_proxy.Prelude.{
  ℕ, pos, ◌-ℤ◌, ◌+ℤ◌, add_int, sub_int, to_int, div_thousand, ◌*ℤ◌, ◌≡◌, refl, none, some, [], ◌∷◌,
  arith,
}
use tcp_udp_proxy.Prelude.Maps.{ℕ_eq, lookup, insert, erase_all}
use tcp_udp_proxy.IpProxy.{
  IpProxy, IpProxies, new_ip_proxies, new_ip_proxy, start, get_ip_proxy, release, routine_round,
  sweep, grant_bytes, refill,
}
use tcp_udp_proxy.IpProxy.Holders.{
  Reach, started, acquires, releases, count, drop_one, held_pointer_valid, round_forgets,
}

calls : Unit {0}
unfolding new_ip_proxies new_ip_proxy start get_ip_proxy release routine_round sweep grant_bytes
    refill lookup insert erase_all count drop_one add_int sub_int to_int div_thousand ◌+ℤ◌ ◌-ℤ◌ ◌*ℤ◌
calls = tt

abbrev begun : IpProxies ℕ
begun = start (pos 1000) (pos 2000) (pos 500) new_ip_proxies

-- Two connections of the client 7 and one of the client 9.
abbrev one : IpProxies ℕ
one = (get_ip_proxy 7 begun).1

abbrev two : IpProxies ℕ
two = (get_ip_proxy 9 one).1

abbrev three : IpProxies ℕ
three = (get_ip_proxy 7 two).1

-- The connection of the client 9 is gone.
abbrev left : IpProxies ℕ
left = elim (release 9 three) [ none ↦ three | some t ↦ t ]

three_reached : Reach three (7 ∷ 9 ∷ 7 ∷ [])
unfolding calls
three_reached =
    acquires 7
      (acquires 9 (acquires 7 (started (pos 1000) (pos 2000) (pos 500)) (omega arith))
        (omega arith))
      (omega arith)

held_pointer_valid_example :
    (ip : IpProxy) × (lookup 7 three.addrs ≡ some ip) × (ip.ref_cnt ≡ pos 2)
unfolding calls
held_pointer_valid_example = held_pointer_valid three_reached 7 (omega arith)

left_reached : Reach left (7 ∷ 7 ∷ [])
unfolding calls
left_reached = releases 9 three_reached (omega arith) refl

round_forgets_example : lookup 9 (routine_round (pos 600) left).addrs ≡ none
unfolding calls
round_forgets_example = round_forgets left_reached (pos 600) (omega arith) 9 refl
