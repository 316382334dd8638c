-- ===== src/Tcp/Connection/Clients/Examples.antt =====
-- The client 5 writes 3 bytes on a connection and a datagram of 10 bytes, leaves, is forgotten, and
-- comes back.
use tcp_udp_proxy.Prelude.{
  ℕ, pos, to_int, add_int, sub_int, div_thousand, ◌+ℤ◌, ◌-ℤ◌, ◌*ℤ◌, ◌≡◌, refl, true, none, some, [],
  ◌∷◌, negsuc, p1, both, success, done, fault,
}
use tcp_udp_proxy.Prelude.Maps.{ℕ_eq, lookup, insert, erase, erase_all, contains}
use tcp_udp_proxy.Buffer.{Buffer}
use tcp_udp_proxy.Config.{UdpProxyRule}
use tcp_udp_proxy.IpProxy.{
  IpProxy, IpProxies, new_ip_proxy, new_ip_proxies, start, grant_bytes, refill, get_ip_proxy,
  release, sweep, routine_round,
}
use tcp_udp_proxy.Udp.Endpoint.{
  UdpMsg, UdpEndpointProxy, async_recv, init, stop, restart, new_endpoint,
}
use tcp_udp_proxy.Udp.Server.{
  Surroundings, Round, charge as udp_charge, limited, charge_pointer, charge_ip,
}
use tcp_udp_proxy.Udp.Server.Send.{sent_message, send_front, drain_send}
use tcp_udp_proxy.Tcp.Connection.{
  View, Link, new_connection, charge, set_idle, issue_write, charge_client,
}
use tcp_udp_proxy.Tcp.Connection.Clients.{sends}

methods : Unit {0}
unfolding to_int add_int sub_int div_thousand ◌+ℤ◌ ◌-ℤ◌ ◌*ℤ◌ lookup insert erase erase_all contains
    new_ip_proxy new_ip_proxies start grant_bytes refill get_ip_proxy release sweep routine_round
    async_recv init stop restart new_endpoint udp_charge limited charge_pointer charge_ip
    sent_message send_front drain_send new_connection charge set_idle issue_write charge_client
methods = tt

abbrev view : View
view = record {
  now = pos 0;
  delay_ms = pos 0;
  max_bandwidth = pos 0;
  ip_bandwidth = both (pos 1000);
  has_remote = both true;
}

abbrev begun : IpProxies ℕ
begun = start (pos 1000) (pos 1000) (pos 0) new_ip_proxies

abbrev joined : IpProxies ℕ
joined = (get_ip_proxy 5 begun).1

abbrev first : IpProxy
first = record { avail_bytes = both (pos 0); ref_cnt = pos 1 }

abbrev greeting : Buffer
greeting = record { buf = some (72 ∷ 101 ∷ 121 ∷ []); buf_size = pos 3 }

abbrev opened : Link
opened = record (new_connection (pos 0) none) { client_ip = some first }

abbrev wrote : Link
wrote = elim (charge_client view p1 greeting opened (some first)) [ done m ↦ m | fault f ↦ opened ]

abbrev used : IpProxy
used = record { avail_bytes = record { at0 = negsuc 56; at1 = pos 0 }; ref_cnt = pos 1 }

abbrev refilled_once : IpProxies ℕ
refilled_once = routine_round (pos 100) (record joined { addrs = insert 5 used joined.addrs })

abbrev datagram : UdpMsg ℕ
datagram = record { src = 7; time = pos 0; msg = record { buf = none; buf_size = pos 10 } }

abbrev rule : UdpProxyRule ℕ
rule = record {
  src_port = 0;
  dst_endpoint = 1;
  max_bandwidth = pos 0;
  delay_ms = pos 0;
  drop_prob = pos 0;
}

abbrev endpoint : UdpEndpointProxy ℕ ℕ
endpoint =
    record (new_endpoint rule (some 5)
      (record { open_ec = success; option_ec = success; bind_ec = success; ms = pos 100 })) {
        send_queue = datagram ∷ [];
      }

abbrev env : Surroundings ℕ ℕ
env = record {
  now = pos 100;
  active_timeout_tm = pos 0;
  interval = pos 10;
  address = λ n. n;
  opening = λ n. record { open_ec = success; option_ec = success; bind_ec = success; ms = pos 100 };
  send_result = λ n. success;
}

abbrev round : Round ℕ ℕ
round = record {
  endpoints = [];
  new_epts = [];
  ip_proxies = refilled_once;
  inits = 0;
  sends = 0;
  wire = [];
}

abbrev sent : UdpEndpointProxy ℕ ℕ × Round ℕ ℕ
sent = elim (drain_send env 9 endpoint.send_queue endpoint round) [
  | done z ↦ z
  | fault f ↦ (endpoint, round)
]

abbrev left : IpProxies ℕ
left = elim (release 5 sent.1.ip_proxies) [ none ↦ begun | some t ↦ t ]

-- Nobody holds the address at the next round.
forgotten : lookup 5 (routine_round (pos 200) left).addrs ≡ none
unfolding methods
forgotten = refl

abbrev back : IpProxies ℕ
back = (get_ip_proxy 5 (routine_round (pos 200) left)).1
