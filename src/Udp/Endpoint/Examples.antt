-- ===== src/Udp/Endpoint/Examples.antt =====
-- Runs of the endpoint of one client. Endpoints and addresses are numbers here.
use tcp_udp_proxy.Prelude.{
  ℕ, pos, ◌≤◌, ◌≡◌, ◌⊎◌, refl, true, none, [], ◌∷◌, length, success, arith, ◌+ℤ◌, to_int,
}
use tcp_udp_proxy.Buffer.{resize, sized_buffer}
use tcp_udp_proxy.Config.{UdpProxyRule}
use tcp_udp_proxy.Udp.Endpoint.{
  UdpEndpointProxy, Datagram, async_recv, init, new_endpoint, dropped, received, push_recv,
  recv_done, handle_recv,
}
use tcp_udp_proxy.Udp.Endpoint.Life.{
  Reach, created, next, Event, receives, step, opened, queues_bounded, open_receives,
}

methods : Unit {0}
unfolding async_recv init new_endpoint dropped received push_recv recv_done handle_recv step resize
    sized_buffer to_int ◌+ℤ◌
methods = tt

abbrev rule : UdpProxyRule ℕ
rule = record {
  src_port = 0;
  dst_endpoint = 5353;
  max_bandwidth = pos 0;
  delay_ms = pos 20;
  drop_prob = pos 100;
}

abbrev datagram : Datagram ℕ
datagram = record { arr = 1 ∷ 2 ∷ []; bytes_transferred = 2; from = 5353 }

abbrev fresh : UdpEndpointProxy ℕ ℕ
fresh = new_endpoint rule none (opened (pos 1000))

-- The draw 5000 keeps the datagram.
abbrev arrives : Event ℕ
arrives = receives success (pos 1010) (pos 5000) (opened (pos 0)) datagram

abbrev filled : UdpEndpointProxy ℕ ℕ
filled = step arrives fresh

filled_reached : Reach filled
unfolding methods
filled_reached = next arrives (created rule none (pos 1000) refl) (omega arith, λ q. absurd (cc))

queues_bounded_example :
    (filled.receives ≤ 1)
    × (length filled.recv_queue ≤ 51)
    × (length filled.send_queue ≤ 50)
    × (filled.recving_flag ≡ true ⊎ (filled.receives ≡ 0 × length filled.recv_queue ≡ 51))
unfolding methods
queues_bounded_example = queues_bounded filled_reached

open_receives_example : (filled.receives ≡ 1) ⊎ (length filled.recv_queue ≡ 51)
unfolding methods
open_receives_example = open_receives filled_reached refl
