-- ===== src/SharedData/Errors.antt =====
-- src/shared_data.cpp: what a line of the configuration file changes, whatever it contains.
use tcp_udp_proxy.Prelude.{
  ℕ, ◌+◌, ◌≤◌, ◌==◌, Option, none, some, [], ◌∷◌, ◌++◌, length, length-append, if◌then◌else◌,
  if_elim, ◌≡◌, refl, ◌⊎◌, inl, inr, arith,
}
use tcp_udp_proxy.Strings.Tokens.{String}
use tcp_udp_proxy.Strings.Equal.{equal}
use tcp_udp_proxy.Config.{TcpProxyRule, tcp_proxy_rule, udp_proxy_rule}
use tcp_udp_proxy.SharedData.{
  Calls, Loading, ip_proto, tcp_proto, udp_proto, report, load_ip, tcp_extras, udp_extras,
  read_rule, load_tcp, load_udp, load_proto, load_trimmed, load_line,
}
use tcp_udp_proxy.SharedData.Streams.{Stream, stream, read_word, read_int}

-- From l to t a line was reported and added no rule, or was not reported and added at most one rule.
abbrev pub OneRule : {E : Type 0} → Loading E → Loading E → Type 0
OneRule l t =
    ((t.errors ≡ l.errors ++ l.line_num ∷ [])
      × (t.proxies ≡ l.proxies)
      × (t.udp_rules ≡ l.udp_rules))
    ⊎ ((t.errors ≡ l.errors)
        × (length t.proxies + length t.udp_rules ≤ length l.proxies + length l.udp_rules + 1))

module _ {E A : Type 0} (calls : Calls E A) where
  load_ip-OneRule : (is : Stream) (l : Loading E) → OneRule l (load_ip is l)
  unfolding load_ip report
  load_ip-OneRule is l =
      if_elim (OneRule l) (read_int l.ip_send_bandwith is).1.fail _ _ (λ _. inl (refl, refl, refl))
        (λ _.
          if_elim (OneRule l)
            (read_int l.ip_recv_bandwidth (read_int l.ip_send_bandwith is).1).1.fail _ _
            (λ _. inl (refl, refl, refl)) (λ _. inr (refl, omega arith)))

  tcp_rule-OneRule :
      (o : Option (ℕ × E × Stream)) (l : Loading E)
      → OneRule l (elim o [
        | none ↦ report l
        | some (port, dst, next) ↦
            let rule : TcpProxyRule E = tcp_extras next (tcp_proxy_rule port dst) in
            if calls.starts l.line_num rule
            then record l { proxies = l.proxies ++ rule ∷ [] }
            else report l
      ])
  unfolding report
  tcp_rule-OneRule none l = inl (refl, refl, refl)
  tcp_rule-OneRule (some (port, dst, next)) l =
      let rule : TcpProxyRule E = tcp_extras next (tcp_proxy_rule port dst) in
      if_elim (OneRule l) (calls.starts l.line_num rule) _ _
        (λ _. inr (refl, omega (arith, length-append l.proxies (rule ∷ []))))
        (λ _. inl (refl, refl, refl))

  udp_rule-OneRule :
      (o : Option (ℕ × E × Stream)) (l : Loading E)
      → OneRule l (elim o [
        | none ↦ report l
        | some (port, dst, next) ↦ record l {
          udp_rules = l.udp_rules ++ udp_extras next (udp_proxy_rule port dst) ∷ [];
        }
      ])
  unfolding report
  udp_rule-OneRule none l = inl (refl, refl, refl)
  udp_rule-OneRule (some (port, dst, next)) l = inr (
    refl,
    omega (arith, length-append l.udp_rules (udp_extras next (udp_proxy_rule port dst) ∷ [])),
  )

  load_proto-OneRule :
      (o : Option String) (is : Stream) (l : Loading E) → OneRule l (load_proto calls o is l)
  unfolding load_proto load_tcp load_udp report
  load_proto-OneRule none is l = inl (refl, refl, refl)
  load_proto-OneRule (some proto) is l =
      if_elim (OneRule l) (equal proto ip_proto) _ _ (λ _. load_ip-OneRule is l)
        (λ _.
          if_elim (OneRule l) (equal proto tcp_proto) _ _
            (λ _. tcp_rule-OneRule (read_rule calls is) l)
            (λ _.
              if_elim (OneRule l) (equal proto udp_proto) _ _
                (λ _. udp_rule-OneRule (read_rule calls is) l) (λ _. inl (refl, refl, refl))))

  load_trimmed-OneRule : (s : String) (l : Loading E) → OneRule l (load_trimmed calls s l)
  unfolding load_trimmed
  load_trimmed-OneRule [] l = inr (refl, omega arith)
  load_trimmed-OneRule (c ∷ s) l =
      if_elim (OneRule l) (c == b'#') _ _ (λ _. inr (refl, omega arith))
        (λ _. load_proto-OneRule (read_word (stream (c ∷ s))).0 (read_word (stream (c ∷ s))).1 l)

  -- Whatever a line contains: either it is reported, under its number, and adds no rule, or it is not
  -- reported and adds at most one rule.
  pub load_line-OneRule :
      (line : String) (l : Loading E)
      → OneRule (record l { line_num = l.line_num + 1 }) (load_line calls line l)
  unfolding load_line
  load_line-OneRule line l =
      load_trimmed-OneRule (calls.trim line) (record l { line_num = l.line_num + 1 })
