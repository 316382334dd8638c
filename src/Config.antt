-- ===== src/Config.antt =====
-- src/common.h: the sizes, the limits and the forwarding rules.
use tcp_udp_proxy.Prelude.{ℕ, ℤ, pos}

abbrev pub udp_buffer_size : ℕ
udp_buffer_size = 1500

abbrev pub tcp_buffer_size : ℕ
tcp_buffer_size = 4096

abbrev pub max_udp_msg_queue_size : ℕ
max_udp_msg_queue_size = 50

abbrev pub max_tcp_msg_queue_size : ℕ
max_tcp_msg_queue_size = 1

-- 8 + 20 + 14
abbrev pub udp_packet_extra_overhead : ℤ
udp_packet_extra_overhead = pos 42

-- 20 + 20 + 14
abbrev pub tcp_packet_extra_overhead : ℤ
tcp_packet_extra_overhead = pos 54

-- An endpoint is a type of Boost.Asio, E here.
pub record TcpProxyRule (E : Type 0) : Type 0 where
  pub src_port : ℕ
  pub dst_endpoint : E
  pub max_bandwidth : ℤ
  pub delay_ms : ℤ

unfoldable pub tcp_proxy_rule : {E : Type 0} → ℕ → E → TcpProxyRule E
tcp_proxy_rule port dst = record {
  src_port = port;
  dst_endpoint = dst;
  max_bandwidth = pos 0;
  delay_ms = pos 0;
}

pub record UdpProxyRule (E : Type 0) : Type 0 where
  pub src_port : ℕ
  pub dst_endpoint : E
  pub max_bandwidth : ℤ
  pub delay_ms : ℤ
  pub drop_prob : ℤ

unfoldable pub udp_proxy_rule : {E : Type 0} → ℕ → E → UdpProxyRule E
udp_proxy_rule port dst = record {
  src_port = port;
  dst_endpoint = dst;
  max_bandwidth = pos 0;
  delay_ms = pos 0;
  drop_prob = pos 0;
}
