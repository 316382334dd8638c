-- ===== src/SharedData/Lines.antt =====
-- src/shared_data.cpp: lines of the configuration file that are written from their fields.
use tcp_udp_proxy.Prelude.{
  ℕ, ◌+◌, ◌≤◌, ◌==◌, pos, false, some, [], ◌∷◌, ◌++◌, if◌then◌else◌, ◌≡◌, refl, ap, ◌∙◌,
}
use tcp_udp_proxy.Strings.Tokens.{String}
use tcp_udp_proxy.Config.{TcpProxyRule, tcp_proxy_rule, UdpProxyRule, udp_proxy_rule}
use tcp_udp_proxy.SharedData.{
  Calls, Loading, ip_proto, tcp_proto, udp_proto, report, load_ip, extra, tcp_extras, udp_extras,
  rule_of, read_rule, load_tcp, load_udp, load_proto, load_trimmed, load_line,
}
use tcp_udp_proxy.SharedData.Streams.{Stream, stream}
use tcp_udp_proxy.SharedData.Numbers.{
  decimal, Ends, IsWord, read_uint16-decimal, read_int-decimal, read_word-append,
}

abbrev pub good : String → Stream
good s = record { rest = s; fail = false }

-- The words of a rule: its port, the address and its port.
abbrev pub rule_fields : ℕ → String → ℕ → String → String
rule_fields port ip dst rest = b' ' ∷ decimal port (b' ' ∷ ip ++ b' ' ∷ decimal dst rest)

-- A word or a number that follows.
abbrev pub field : ℕ → String → String
field n rest = b' ' ∷ decimal n rest

module _ {E A : Type 0} (calls : Calls E A) where
  rule_of_eq :
      (port : ℕ) (ip : String) (addr : A) (dst : ℕ) (next : Stream)
      → calls.from_string ip ≡ some addr
      → rule_of calls (some port) (some ip) (some dst) next
        ≡ some (port, calls.endpoint addr dst, next)
  rule_of_eq port ip addr dst next f = rw (f, rule_of) refl

  read_rule-rule_fields :
      (port : ℕ) (ip : String) (addr : A) (dst : ℕ) (rest : String)
      → port ≤ 65535
      → dst ≤ 65535
      → IsWord ip
      → calls.from_string ip ≡ some addr
      → Ends rest
      → read_rule calls (good (rule_fields port ip dst rest))
        ≡ some (port, calls.endpoint addr dst, good rest)
  unfolding read_rule
  read_rule-rule_fields port ip addr dst rest h k w f n =
      rw
        (
          read_uint16-decimal port (b' ' ∷ ip ++ b' ' ∷ decimal dst rest) h refl,
          (read_word-append ip (b' ' ∷ decimal dst rest) w refl).1,
          read_uint16-decimal dst rest k n,
        )
        (rule_of_eq port ip addr dst (good rest) f)

  tcp_extras_eq :
      (bw delay : ℕ) (rule : TcpProxyRule E)
      → bw ≤ 2147483647
      → delay ≤ 2147483647
      → tcp_extras (good (field bw (field delay []))) rule
        ≡ record rule { max_bandwidth = pos bw; delay_ms = pos delay }
  unfolding tcp_extras extra
  tcp_extras_eq bw delay rule h k =
      rw
        (
          read_int-decimal (pos 0) bw (field delay []) h refl,
          read_int-decimal (pos 0) delay [] k tt,
        )
        refl

  udp_extras_eq :
      (bw delay drop : ℕ) (rule : UdpProxyRule E)
      → bw ≤ 2147483647
      → delay ≤ 2147483647
      → drop ≤ 2147483647
      → udp_extras (good (field bw (field delay (field drop [])))) rule
        ≡ record rule { max_bandwidth = pos bw; delay_ms = pos delay; drop_prob = pos drop }
  unfolding udp_extras extra
  udp_extras_eq bw delay drop rule h k n =
      rw
        (
          read_int-decimal (pos 0) bw (field delay (field drop [])) h refl,
          read_int-decimal (pos 0) delay (field drop []) k refl,
          read_int-decimal (pos 0) drop [] n tt,
        )
        refl

  -- The first word of a line decides how it is read.
  load_line-proto :
      (c : ℕ) (proto rest : String) (l : Loading E)
      → calls.trim ((c ∷ proto) ++ rest) ≡ (c ∷ proto) ++ rest
      → IsWord (c ∷ proto)
      → Ends rest
      → (c == b'#') ≡ false
      → load_line calls ((c ∷ proto) ++ rest) l
        ≡ load_proto calls (some (c ∷ proto)) (good rest) (record l { line_num = l.line_num + 1 })
  unfolding load_line load_trimmed stream
  load_line-proto c proto rest l q w k f =
      ap (λ s. load_trimmed calls s (record l { line_num = l.line_num + 1 })) q
      ∙ rw (f, ◌==◌)
          (ap (λ z. load_proto calls z.0 z.1 (record l { line_num = l.line_num + 1 }))
            (read_word-append (c ∷ proto) rest w k).0)

-- A line of the file by its fields: the two limits, or a rule with the port, the name and the value
-- of its address, the port there, and the numbers that follow.
pub data Directive (A : Type 0) : Type 0 where
  ip : ℕ → ℕ → Directive A
  tcp : ℕ → String → A → ℕ → ℕ → ℕ → Directive A
  udp : ℕ → String → A → ℕ → ℕ → ℕ → ℕ → Directive A

unfoldable pub written : {A : Type 0} → Directive A → String
written (ip send recv) = ip_proto ++ field send (field recv [])
written (tcp port name addr dst bw delay) =
    tcp_proto ++ rule_fields port name dst (field bw (field delay []))
written (udp port name addr dst bw delay drop) =
    udp_proto ++ rule_fields port name dst (field bw (field delay (field drop [])))

-- The ports have 16 bits, the numbers are such that an `int` holds, and the address is one.
abbrev pub Readable : {E A : Type 0} → Calls E A → Directive A → Type 0
Readable calls (ip send recv) = (send ≤ 2147483647) × (recv ≤ 2147483647)
Readable calls (tcp port name addr dst bw delay) =
    (port ≤ 65535)
    × (dst ≤ 65535)
    × IsWord name
    × (calls.from_string name ≡ some addr)
    × (bw ≤ 2147483647)
    × (delay ≤ 2147483647)
Readable calls (udp port name addr dst bw delay drop) =
    (port ≤ 65535)
    × (dst ≤ 65535)
    × IsWord name
    × (calls.from_string name ≡ some addr)
    × (bw ≤ 2147483647)
    × (delay ≤ 2147483647)
    × (drop ≤ 2147483647)

-- What a line asks for.
unfoldable pub applied : {E A : Type 0} → Calls E A → Directive A → Loading E → Loading E
applied calls (ip send recv) l = record l {
  ip_send_bandwith = pos send;
  ip_recv_bandwidth = pos recv;
}
applied calls (tcp port name addr dst bw delay) l =
    let rule : TcpProxyRule _ = record {
      src_port = port;
      dst_endpoint = calls.endpoint addr dst;
      max_bandwidth = pos bw;
      delay_ms = pos delay;
    } in
    if calls.starts l.line_num rule
    then record l { proxies = l.proxies ++ rule ∷ [] }
    else record l { errors = l.errors ++ l.line_num ∷ [] }
applied calls (udp port name addr dst bw delay drop) l = record l {
  udp_rules =
      l.udp_rules
      ++ record {
        src_port = port;
        dst_endpoint = calls.endpoint addr dst;
        max_bandwidth = pos bw;
        delay_ms = pos delay;
        drop_prob = pos drop;
      }
        ∷ [];
}

abbrev pub next_line : {E : Type 0} → Loading E → Loading E
next_line l = record l { line_num = l.line_num + 1 }

module _ {E A : Type 0} (calls : Calls E A) where
  load_tcp_eq :
      (is next : Stream) (port : ℕ) (dst : E) (rule : TcpProxyRule E) (l : Loading E)
      → read_rule calls is ≡ some (port, dst, next)
      → tcp_extras next (tcp_proxy_rule port dst) ≡ rule
      → load_tcp calls is l ≡ (
          if calls.starts l.line_num rule
          then record l { proxies = l.proxies ++ rule ∷ [] }
          else report l)
  unfolding load_tcp
  load_tcp_eq is next port dst rule l q r = rw (q, r, load_tcp) refl

  load_udp_eq :
      (is next : Stream) (port : ℕ) (dst : E) (rule : UdpProxyRule E) (l : Loading E)
      → read_rule calls is ≡ some (port, dst, next)
      → udp_extras next (udp_proxy_rule port dst) ≡ rule
      → load_udp calls is l ≡ record l { udp_rules = l.udp_rules ++ rule ∷ [] }
  unfolding load_udp
  load_udp_eq is next port dst rule l q r = rw (q, r, load_udp) refl

  pub load_line-written :
      (d : Directive A) (l : Loading E)
      → Readable calls d
      → calls.trim (written d) ≡ written d
      → load_line calls (written d) l ≡ applied calls d (next_line l)
  unfolding written applied load_proto load_ip report tcp_proxy_rule udp_proxy_rule
  load_line-written (ip send recv) l (h, k) q =
      load_line-proto calls b'i' (b'p' ∷ []) (field send (field recv [])) l q (refl, (refl, tt))
        refl refl
      ∙ rw
          (
            read_int-decimal l.ip_send_bandwith send (field recv []) h refl,
            read_int-decimal l.ip_recv_bandwidth recv [] k tt,
          )
          refl
  load_line-written (tcp port name addr dst bw delay) l (h, k, w, f, m, n) q =
      load_line-proto calls b't' (b'c' ∷ b'p' ∷ [])
        (rule_fields port name dst (field bw (field delay []))) l q (refl, (refl, (refl, tt))) refl
        refl
      ∙ load_tcp_eq (good (rule_fields port name dst (field bw (field delay []))))
          (good (field bw (field delay []))) port (calls.endpoint addr dst) _ (next_line l)
          (read_rule-rule_fields calls port name addr dst (field bw (field delay [])) h k w f refl)
          (tcp_extras_eq calls bw delay (tcp_proxy_rule port (calls.endpoint addr dst)) m n)
  load_line-written (udp port name addr dst bw delay drop) l (h, k, w, f, m, n, o) q =
      load_line-proto calls b'u' (b'd' ∷ b'p' ∷ [])
        (rule_fields port name dst (field bw (field delay (field drop [])))) l q
        (refl, (refl, (refl, tt))) refl refl
      ∙ load_udp_eq (good (rule_fields port name dst (field bw (field delay (field drop [])))))
          (good (field bw (field delay (field drop [])))) port (calls.endpoint addr dst) _
          (next_line l)
          (read_rule-rule_fields calls port name addr dst (field bw (field delay (field drop []))) h
            k w f refl)
          (udp_extras_eq calls bw delay drop (udp_proxy_rule port (calls.endpoint addr dst)) m n o)
