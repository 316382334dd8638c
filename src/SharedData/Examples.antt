-- ===== src/SharedData/Examples.antt =====
-- A file with one line of each kind. Addresses are numbers, and "7" is the only one.
use tcp_udp_proxy.Prelude.{
  ℕ, ◌==◌, ltb, pos, Option, none, some, List, [], ◌∷◌, if◌then◌else◌, ◌≡◌, refl, arith,
}
use tcp_udp_proxy.Strings.Tokens.{String}
use tcp_udp_proxy.Config.{tcp_proxy_rule, udp_proxy_rule}
use tcp_udp_proxy.SharedData.{
  Calls, report, load_ip, extra, tcp_extras, udp_extras, read_rule, load_tcp, load_udp, load_proto,
  load_trimmed, load_line, load_lines, load_config,
}
use tcp_udp_proxy.SharedData.Streams.{
  stream, skip_spaces, split_word, word_at, read_word, scan_digits, unsigned_at, number_at, int_at,
  int_from, read_int, uint16_at, read_uint16, getlines,
}
use tcp_udp_proxy.SharedData.Numbers.{digits, decimal}
use tcp_udp_proxy.SharedData.Lines.{Directive, ip, tcp, udp, written, applied, next_line}
use tcp_udp_proxy.SharedData.Files.{content, applied_all, nothing_loaded, load_config-content}
use tcp_udp_proxy.SharedData.Errors.{OneRule, load_line-OneRule}

methods : Unit {0}
unfolding report load_ip extra tcp_extras udp_extras read_rule load_tcp load_udp load_proto
    load_trimmed load_line load_lines load_config stream skip_spaces split_word word_at read_word
    scan_digits unsigned_at number_at int_at int_from read_int uint16_at read_uint16 getlines digits
    decimal written applied tcp_proxy_rule udp_proxy_rule
methods = tt

abbrev seven : String → Option ℕ
seven (c ∷ []) = if c == b'7' then some 7 else none
seven _ = none

-- The proxy of the first line does not start.
abbrev calls : Calls (ℕ × ℕ) ℕ
calls = record {
  trim = λ s. s;
  from_string = seven;
  endpoint = λ addr port. (addr, port);
  starts = λ line_num rule. ltb 1 line_num;
}

abbrev directives : List (Directive ℕ)
directives =
    tcp 3443 (b'7' ∷ []) 7 80 0 5
    ∷ tcp 3444 (b'7' ∷ []) 7 81 100000 0
    ∷ ip 1000 2000
    ∷ udp 65535 (b'7' ∷ []) 7 53 0 20 100
    ∷ []

load_config-content_example :
    load_config calls (some (content directives))
    ≡ some (next_line (applied_all calls directives nothing_loaded))
unfolding methods
load_config-content_example =
    load_config-content calls directives
      (
        (omega arith, omega arith, (refl, tt), refl, omega arith, omega arith),
        refl,
        (
          (omega arith, omega arith, (refl, tt), refl, omega arith, omega arith),
          refl,
          (
            (omega arith, omega arith),
            refl,
            (
              (omega arith, omega arith, (refl, tt), refl, omega arith, omega arith, omega arith),
              refl,
              tt,
            ),
          ),
        ),
      )
      refl

-- "tcp 80 8 80": the address is none.
abbrev malformed : String
malformed = b't' ∷ b'c' ∷ b'p' ∷ b' ' ∷ b'8' ∷ b'0' ∷ b' ' ∷ b'8' ∷ b' ' ∷ b'8' ∷ b'0' ∷ []

load_line-OneRule_example :
    OneRule (next_line nothing_loaded) (load_line calls malformed nothing_loaded)
unfolding methods
load_line-OneRule_example = load_line-OneRule calls malformed nothing_loaded

malformed_reported : (load_line calls malformed nothing_loaded).errors ≡ 1 ∷ []
unfolding methods
malformed_reported = refl

-- "ip 5 x": the line is reported, and its first number stays.
abbrev half_malformed : String
half_malformed = b'i' ∷ b'p' ∷ b' ' ∷ b'5' ∷ b' ' ∷ b'x' ∷ []

first_number_stays :
    ((load_line calls half_malformed nothing_loaded).errors ≡ 1 ∷ [])
    × ((load_line calls half_malformed nothing_loaded).ip_send_bandwith ≡ pos 5)
unfolding methods
first_number_stays = (refl, refl)
