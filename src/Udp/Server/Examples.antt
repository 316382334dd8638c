-- ===== src/Udp/Server/Examples.antt =====
-- Turns of a server with one rule. Endpoints and addresses are numbers here.
use tcp_udp_proxy.Udp.Server.Turns.{limits}
use tcp_udp_proxy.Prelude.{null_dereference}
use tcp_udp_proxy.Prelude.{
  ℕ, ℤ, pos, ◌≡◌, refl, none, List, [], ◌∷◌, map, length, success, arith, ◌+ℤ◌, ◌-ℤ◌, ◌*ℤ◌, to_int,
  add_int, sub_int, div_thousand, if◌then◌else◌, ◌==◌, Outcome, done, fault, both, ErrorCode,
  other_error,
}
use tcp_udp_proxy.Prelude.Maps.{ℕ_eq, lookup, insert, erase, erase_all, contains}
use tcp_udp_proxy.Buffer.{resize, sized_buffer}
use tcp_udp_proxy.Config.{UdpProxyRule}
use tcp_udp_proxy.IpProxy.{IpProxies, new_ip_proxies, new_ip_proxy, start, get_ip_proxy, release}
use tcp_udp_proxy.IpProxy.Pointers.{destroy}
use tcp_udp_proxy.IpProxy.Holders.{count}
use tcp_udp_proxy.IpProxy.References.{Counted}
use tcp_udp_proxy.Udp.Endpoint.{
  UdpEndpointProxy, Opening, Datagram, async_recv, init, stop, restart, new_endpoint, dropped,
  received, push_recv, recv_done, handle_recv, pop, pop_recv, push_send,
}
use tcp_udp_proxy.Udp.Server.{
  Surroundings, Sent, Round, charge, round_bytes, refill_one, limited, refill, is_expired, touch,
  take_message, charge_pointer, charge_ip, destroy_entry, keep_new, discard,
}
use tcp_udp_proxy.Udp.Server.Receive.{
  new_sender, deliver_new, deliver, forward_one, drain, forward_all, visit_entry, recv_pass,
  insert_new,
}
use tcp_udp_proxy.Udp.Server.Send.{sent_message, send_front, drain_send, send_pass}
use tcp_udp_proxy.Udp.Server.Routine.{
  run_round, UdpProxyServer, new_server, begin_round, add_server_proxy, routine_turn,
}
use tcp_udp_proxy.Udp.Server.Holders.{holders}
use tcp_udp_proxy.Udp.Server.Turns.{
  Reach, started, adds, receives, turns, endpoints-Counted, turn_runs, add_runs,
}
use tcp_udp_proxy.Udp.Server.Queues.{TookDue, drain_in_order}
use tcp_udp_proxy.Udp.Server.Wire.{PutOnWire, drain_send_in_order}
use tcp_udp_proxy.Udp.Server.Routes.{AllSent}
use tcp_udp_proxy.Udp.Server.Origins.{traffic, turn_sends_received}

methods : Unit {0}
unfolding async_recv init stop restart new_endpoint dropped received push_recv recv_done handle_recv
    pop pop_recv push_send resize sized_buffer to_int add_int sub_int div_thousand ◌+ℤ◌ ◌-ℤ◌ ◌*ℤ◌
    lookup insert erase erase_all contains new_ip_proxies new_ip_proxy start get_ip_proxy release
    destroy count charge round_bytes refill_one limited refill is_expired touch take_message
    charge_pointer charge_ip destroy_entry keep_new discard new_sender deliver_new deliver
    forward_one drain forward_all visit_entry recv_pass insert_new sent_message send_front
    drain_send send_pass run_round new_server add_server_proxy routine_turn
methods = tt

-- The rule listens on port 9000 for the server 1.
abbrev rule : UdpProxyRule ℕ
rule = record {
  src_port = 9000;
  dst_endpoint = 1;
  max_bandwidth = pos 0;
  delay_ms = pos 20;
  drop_prob = pos 0;
}

abbrev address : ℕ → ℕ
address n = n

abbrev opens : ℤ → Opening
opens ms = record { open_ec = success; option_ec = success; bind_ec = success; ms = ms }

abbrev unlimited : IpProxies ℕ
unlimited = new_ip_proxies

abbrev empty : UdpProxyServer ℕ ℕ
empty = new_server (pos 0)

empty_reached : Reach (both (pos 0)) [] empty unlimited
unfolding methods
empty_reached =
    started (pos 0) refl (record { is_map = tt; counted = λ x. refl; few = omega arith })

abbrev State : Type 0
State = UdpProxyServer ℕ ℕ × IpProxies ℕ

abbrev added : Outcome State → State
added (done z) = z
added (fault f) = (empty, unlimited)

abbrev listening : State
listening = added (add_server_proxy address (opens (pos 10)) rule empty unlimited)

listening_reached : Reach (both (pos 0)) [] listening.0 listening.1
unfolding methods
listening_reached = adds address (opens (pos 10)) rule empty_reached (omega arith) refl

-- Then the limits are set.
abbrev limited_proxies : IpProxies ℕ
limited_proxies = start (pos 1000) (pos 1000) (pos 12) listening.1

ready_reached : Reach (both (pos 1000)) [] listening.0 limited_proxies
unfolding methods
ready_reached = limits (pos 1000) (pos 1000) (pos 12) listening_reached (λ n. absurd (cc), tt)

abbrev endpoint : UdpEndpointProxy ℕ ℕ
endpoint = new_endpoint rule none (opens (pos 10))

-- A datagram of the client 7.
abbrev datagram : Datagram ℕ
datagram = record { arr = 4 ∷ 5 ∷ 6 ∷ []; bytes_transferred = 3; from = 7 }

abbrev fed : UdpProxyServer ℕ ℕ
fed = record {
  endpoints = (1, handle_recv success (pos 15) (pos 1) (opens (pos 0)) datagram endpoint) ∷ [];
  last_flush_tm = pos 0;
}

fed_reached : Reach (both (pos 1000)) [] fed limited_proxies
unfolding methods
fed_reached =
    receives 1 endpoint success (pos 15) (pos 1) (opens (pos 0)) datagram ready_reached refl
      (λ q. absurd (omega (arith, q)))

abbrev opening : ℕ → Opening
opening n = opens (pos 50)

abbrev result : ℕ → ErrorCode
result n = success

abbrev turned : Outcome (UdpProxyServer ℕ ℕ × IpProxies ℕ × List (Sent ℕ))
turned = routine_turn (pos 50) (pos 60000) address opening result fed limited_proxies

turn_runs_example :
    (z : UdpProxyServer ℕ ℕ × IpProxies ℕ × List (Sent ℕ)) × (turned ≡ done z)
    × Reach (both (pos 1000)) [] z.0 z.1
unfolding methods
turn_runs_example = turn_runs (pos 50) (pos 60000) address opening result fed_reached (omega arith)

add_runs_example :
    (z : State) × (add_server_proxy address
        (opens (pos 11))
        (record rule { src_port = 0 })
        fed
        limited_proxies
      ≡ done z)
    × Reach (both (pos 1000)) [] z.0 z.1
unfolding methods
add_runs_example =
    add_runs address (opens (pos 11)) (record rule { src_port = 0 }) fed_reached (omega arith)

-- The server after the turn, in which the client 7 has an endpoint.
abbrev served : State
served = elim turned [ done (s, ips, w) ↦ (s, ips) | fault f ↦ (fed, limited_proxies) ]

served_reached : Reach (both (pos 1000)) [] served.0 served.1
unfolding methods
served_reached = turns (pos 50) (pos 60000) address opening result fed_reached (omega arith) refl

endpoints-Counted_example :
    Counted (lookup 7 served.1.addrs) (count 7 (holders served.0.endpoints []))
unfolding methods
endpoints-Counted_example = endpoints-Counted served_reached 7

held_once : count 7 (holders served.0.endpoints []) ≡ 1
unfolding methods
held_once = refl

-- The datagram went out from the endpoint of the client to the server's.
sent_once :
    map (λ (s : Sent ℕ). s.from) (elim turned [ done (s, ips, w) ↦ w | fault f ↦ [] ]) ≡ 7 ∷ []
unfolding methods
sent_once = refl

-- Two datagrams of the client 7 wait: its endpoint is new in this turn, and only the later message
-- goes out.
abbrev twice : UdpProxyServer ℕ ℕ
twice = record {
  endpoints =
      (
        1,
        handle_recv success (pos 16) (pos 1) (opens (pos 0)) (record datagram { arr = 8 ∷ 9 ∷ [] })
            (handle_recv success (pos 15) (pos 1) (opens (pos 0)) datagram endpoint),
      )
      ∷ [];
  last_flush_tm = pos 0;
}

later_only :
    map
      (λ (s : Sent ℕ). s.message.time)
      (elim (routine_turn (pos 50) (pos 60000) address opening result twice limited_proxies) [
        | done (s, ips, w) ↦ w
        | fault f ↦ []
      ])
    ≡ pos 36 ∷ []
unfolding methods
later_only = refl

abbrev env : Surroundings ℕ ℕ
env = record {
  now = pos 35;
  active_timeout_tm = pos 0;
  interval = pos 35;
  address = address;
  opening = opening;
  send_result = (λ n. if n == 0 then success else other_error 5);
}

abbrev waiting : UdpEndpointProxy ℕ ℕ
waiting =
    handle_recv success (pos 16) (pos 1) (opens (pos 0)) (record datagram { arr = 8 ∷ 9 ∷ [] })
      (handle_recv success (pos 15) (pos 1) (opens (pos 0)) datagram endpoint)

abbrev round : Round ℕ ℕ
round = begin_round twice limited_proxies

abbrev unrun : UdpEndpointProxy ℕ ℕ × Round ℕ ℕ
unrun = (endpoint, round)

abbrev drained : UdpEndpointProxy ℕ ℕ × Round ℕ ℕ
drained = elim (drain env 1 waiting.recv_queue waiting round) [ done z ↦ z | fault f ↦ unrun ]

-- At 35 the first message is due and the second is not.
drain_in_order_example : TookDue env 1 waiting round drained.0 drained.1
unfolding methods
drain_in_order_example = drain_in_order env 1 waiting drained.0 round drained.1 refl

one_waits : length drained.0.recv_queue ≡ 1
unfolding methods
one_waits = refl

-- The second call of `send_to` fails.
abbrev full : UdpEndpointProxy ℕ ℕ
full = record endpoint { send_queue = waiting.recv_queue }

abbrev flushed : UdpEndpointProxy ℕ ℕ × Round ℕ ℕ
flushed = elim (drain_send env 1 full.send_queue full round) [ done z ↦ z | fault f ↦ unrun ]

drain_send_in_order_example : PutOnWire 1 full.send_queue [] (flushed.0, flushed.1)
unfolding methods
drain_send_in_order_example = drain_send_in_order env 1 full flushed.0 round flushed.1 refl

-- A rule whose port is 0 is added before the limits are set, and so without a pointer: once a
-- message waits in its endpoint the thread dereferences a null pointer.
abbrev portless : State
portless =
    added (add_server_proxy address (opens (pos 10)) (record rule { src_port = 0 }) empty unlimited)

abbrev portless_fed : UdpProxyServer ℕ ℕ
portless_fed = record portless.0 {
  endpoints =
      map (λ p. (p.0, handle_recv success (pos 15) (pos 1) (opens (pos 0)) datagram p.1))
        portless.0.endpoints;
}

null_pointer :
    routine_turn
      (pos 50)
      (pos 60000)
      address
      opening
      result
      portless_fed
      (start (pos 1000) (pos 1000) (pos 12) portless.1)
    ≡ fault null_dereference
unfolding methods
null_pointer = refl

-- What that turn sent.
abbrev sent : List (Sent ℕ)
sent = elim turned [ done (s, ips, w) ↦ w | fault f ↦ [] ]

turn_sends_received_example : AllSent (traffic fed.endpoints) sent
unfolding methods
turn_sends_received_example =
    turn_sends_received {t = served.0} {jps = served.1} (pos 50) (pos 60000) address opening result
      fed_reached refl
