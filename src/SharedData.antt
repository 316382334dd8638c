-- ===== src/SharedData.antt =====
-- src/shared_data.h and src/shared_data.cpp: `SharedData`. Its `init` reads the configuration file
-- with the extractions of `std::istream` (`Streams`).
pub mod Streams
pub mod Numbers
pub mod Lines
pub mod Files
pub mod Errors
mod Examples
use tcp_udp_proxy.Prelude.{
  ℕ, ◌+◌, ◌==◌, ℤ, pos, Bool, true, false, Option, none, some, List, [], ◌∷◌, ◌++◌, if◌then◌else◌,
}
use tcp_udp_proxy.Strings.Tokens.{String}
use tcp_udp_proxy.Strings.Equal.{equal}
use tcp_udp_proxy.Config.{TcpProxyRule, tcp_proxy_rule, UdpProxyRule, udp_proxy_rule}
use tcp_udp_proxy.SharedData.Streams.{Stream, stream, read_word, read_int, read_uint16, getlines}

-- What `init` calls: `boost::trim`, `address::from_string`, which may fail, the endpoint of an
-- address and a port, and whether `TcpProxy::start` is true for the rule of a line.
pub record Calls (E A : Type 0) : Type 0 where
  pub trim : String → String
  pub from_string : String → Option A
  pub endpoint : A → ℕ → E
  pub starts : ℕ → TcpProxyRule E → Bool

-- `proxies` has the rules of the proxies that were started, `udp_rules` those given to
-- `addServerProxy`; `errors` has the numbers of the lines that were reported.
pub record Loading (E : Type 0) : Type 0 where
  pub line_num : ℕ
  pub ip_send_bandwith : ℤ
  pub ip_recv_bandwidth : ℤ
  pub proxies : List (TcpProxyRule E)
  pub udp_rules : List (UdpProxyRule E)
  pub errors : List ℕ

-- "ip", "tcp" and "udp"
abbrev pub ip_proto : String
ip_proto = b'i' ∷ b'p' ∷ []

abbrev pub tcp_proto : String
tcp_proto = b't' ∷ b'c' ∷ b'p' ∷ []

abbrev pub udp_proto : String
udp_proto = b'u' ∷ b'd' ∷ b'p' ∷ []

-- `if (is >> extra_param)`
unfoldable pub extra : {R : Type 0} → (ℤ → R → R) → Stream → R → R × Stream
unfolding read_int
extra change is rule =
    let (v, next) = read_int (pos 0) is in (if next.fail then rule else change v rule, next)

module _ {E : Type 0} where
  unfoldable pub report : Loading E → Loading E
  report l = record l { errors = l.errors ++ l.line_num ∷ [] }

  unfoldable pub load_ip : Stream → Loading E → Loading E
  unfolding read_int report
  load_ip is l =
      let (send, is1) = read_int l.ip_send_bandwith is in
      let first : Loading E = record l { ip_send_bandwith = send } in
      let (recv, is2) = read_int l.ip_recv_bandwidth is1 in
      let second : Loading E = record first { ip_recv_bandwidth = recv } in
      if is1.fail then report first else if is2.fail then report second else second

  unfoldable pub tcp_extras : Stream → TcpProxyRule E → TcpProxyRule E
  unfolding extra
  tcp_extras is rule =
      let (rule1, is1) = extra (λ v (r : TcpProxyRule E). record r { max_bandwidth = v }) is rule in
      (extra (λ v (r : TcpProxyRule E). record r { delay_ms = v }) is1 rule1).0

  unfoldable pub udp_extras : Stream → UdpProxyRule E → UdpProxyRule E
  unfolding extra
  udp_extras is rule =
      let (rule1, is1) = extra (λ v (r : UdpProxyRule E). record r { max_bandwidth = v }) is rule in
      let (rule2, is2) = extra (λ v (r : UdpProxyRule E). record r { delay_ms = v }) is1 rule1 in
      (extra (λ v (r : UdpProxyRule E). record r { drop_prob = v }) is2 rule2).0

abbrev pub rule_of :
    {E A : Type 0}
    → Calls E A
    → Option ℕ
    → Option String
    → Option ℕ
    → Stream
    → Option (ℕ × E × Stream)
rule_of calls (some port) (some ip) (some dst) next = elim (calls.from_string ip) [
  | none ↦ none
  | some ip_addr ↦ some (port, calls.endpoint ip_addr dst, next)
]
rule_of calls _ _ _ next = none

-- The fields that a tcp line and a udp line have in common: a port, an address and its port; none
-- where one of them is malformed.
unfoldable pub read_rule : {E A : Type 0} → Calls E A → Stream → Option (ℕ × E × Stream)
unfolding read_uint16 read_word
read_rule calls is =
    let (src_port, is1) = read_uint16 is in
    let (dst_ip, is2) = read_word is1 in
    let (dst_port, is3) = read_uint16 is2 in rule_of calls src_port dst_ip dst_port is3

module _ {E A : Type 0} (calls : Calls E A) where
  unfoldable pub load_tcp : Stream → Loading E → Loading E
  unfolding read_rule tcp_extras report
  load_tcp is l = elim (read_rule calls is) [
    | none ↦ report l
    | some (port, dst, next) ↦
        let rule : TcpProxyRule E = tcp_extras next (tcp_proxy_rule port dst) in
        if calls.starts l.line_num rule
        then record l { proxies = l.proxies ++ rule ∷ [] }
        else report l
  ]

  unfoldable pub load_udp : Stream → Loading E → Loading E
  unfolding read_rule udp_extras report
  load_udp is l = elim (read_rule calls is) [
    | none ↦ report l
    | some (port, dst, next) ↦ record l {
      udp_rules = l.udp_rules ++ udp_extras next (udp_proxy_rule port dst) ∷ [];
    }
  ]

  -- The choice by `proto`, the first word of the line.
  unfoldable pub load_proto : Option String → Stream → Loading E → Loading E
  unfolding load_ip load_tcp load_udp report
  load_proto none is l = report l
  load_proto (some proto) is l =
      if equal proto ip_proto
      then load_ip is l
      else if equal proto tcp_proto
      then load_tcp is l
      else if equal proto udp_proto
      then load_udp is l
      else report l

  -- A line that was trimmed.
  unfoldable pub load_trimmed : String → Loading E → Loading E
  unfolding read_word load_proto stream
  load_trimmed [] l = l
  load_trimmed (c ∷ s) l =
      let (proto, is) = read_word (stream (c ∷ s)) in if c == b'#' then l else load_proto proto is l

  -- A round of the loop of `init`.
  unfoldable pub load_line : String → Loading E → Loading E
  unfolding load_trimmed
  load_line line l = load_trimmed (calls.trim line) (record l { line_num = l.line_num + 1 })

  unfoldable pub load_lines : List String → Loading E → Loading E
  unfolding load_line
  load_lines [] l = l
  load_lines (line ∷ lines) l = load_lines lines (load_line line l)

  -- What `init` leaves; none where the file does not open, and `ip_proxies` is not started.
  unfoldable pub load_config : Option String → Option (Loading E)
  unfolding load_lines getlines
  load_config none = none
  load_config (some content) = some (
      load_lines (getlines content) (record {
        line_num = 0;
        ip_send_bandwith = pos 0;
        ip_recv_bandwidth = pos 0;
        proxies = [];
        udp_rules = [];
        errors = [];
      }))
