-- ===== src/SharedData/Files.antt =====
-- src/shared_data.cpp: configuration files that are written line by line.
use tcp_udp_proxy.Prelude.{
  ℕ, zero, suc, ◌+◌, ◌/◌, ◌%◌, ◌==◌, ltb, pos, false, some, List, [], ◌∷◌, ◌++◌, if_elim, ◌≡◌, refl,
  ap, ◌∙◌, arith,
}
use tcp_udp_proxy.Strings.Tokens.{String}
use tcp_udp_proxy.SharedData.{Calls, Loading, load_trimmed, load_lines, load_config}
use tcp_udp_proxy.SharedData.Streams.{getlines}
use tcp_udp_proxy.SharedData.Numbers.{digits, decimal, AllSolid, IsWord}
use tcp_udp_proxy.SharedData.Lines.{
  Directive, ip, tcp, udp, written, Readable, applied, next_line, field, rule_fields,
  load_line-written,
}

-- A string within a line.
OneLine : String → Type 0
OneLine [] = Unit {0}
OneLine (c ∷ s) = ((c == 10) ≡ false) × OneLine s

OneLine-append : (s t : String) → OneLine s → OneLine t → OneLine (s ++ t)
unfolding OneLine
OneLine-append [] t h k = k
OneLine-append (c ∷ s) t (f, h) k = (f, OneLine-append s t h k)

AllSolid-OneLine : (s : String) → AllSolid s → OneLine s
unfolding OneLine
AllSolid-OneLine [] h = tt
AllSolid-OneLine (c ∷ s) (f, h) = (ground (arith, f), AllSolid-OneLine s h)

IsWord-OneLine : (s : String) → IsWord s → OneLine s
IsWord-OneLine [] h = absurd h
IsWord-OneLine (c ∷ s) h = AllSolid-OneLine (c ∷ s) h

digits-OneLine : (k n : ℕ) (rest : String) → OneLine rest → OneLine (digits k n rest)
unfolding digits OneLine
digits-OneLine zero n rest h = h
digits-OneLine (suc k) n rest h =
    if_elim OneLine (ltb n 10) _ _ (λ t. (ground arith, h))
      (λ t. digits-OneLine k (n / 10) ((b'0' + n % 10) ∷ rest) (ground arith, h))

field-OneLine : (n : ℕ) (rest : String) → OneLine rest → OneLine (field n rest)
unfolding OneLine decimal
field-OneLine n rest h = (refl, digits-OneLine (suc n) n rest h)

rule_fields-OneLine :
    (port : ℕ) (name : String) (dst : ℕ) (rest : String)
    → IsWord name
    → OneLine rest
    → OneLine (rule_fields port name dst rest)
unfolding OneLine
rule_fields-OneLine port name dst rest w h =
    field-OneLine port (b' ' ∷ name ++ field dst rest) (
      refl,
      OneLine-append name (field dst rest) (IsWord-OneLine name w) (field-OneLine dst rest h),
    )

written-OneLine :
    {E A : Type 0} (calls : Calls E A) (d : Directive A) → Readable calls d → OneLine (written d)
unfolding OneLine written
written-OneLine calls (ip send recv) r =
    (refl, (refl, field-OneLine send (field recv []) (field-OneLine recv [] tt)))
written-OneLine calls (tcp port name addr dst bw delay) (h, k, w, f, m, n) = (
  refl,
  (
    refl,
    (
      refl,
      rule_fields-OneLine port name dst (field bw (field delay [])) w
          (field-OneLine bw (field delay []) (field-OneLine delay [] tt)),
    ),
  ),
)
written-OneLine calls (udp port name addr dst bw delay drop) (h, k, w, f, m, n, o) = (
  refl,
  (
    refl,
    (
      refl,
      rule_fields-OneLine port name dst (field bw (field delay (field drop []))) w (
          field-OneLine bw (field delay (field drop []))
            (field-OneLine delay (field drop []) (field-OneLine drop [] tt))),
    ),
  ),
)

getlines-append :
    (line rest : String) → OneLine line → getlines (line ++ 10 ∷ rest) ≡ line ∷ getlines rest
unfolding getlines OneLine
getlines-append [] rest h = refl
getlines-append (c ∷ s) rest (f, h) = rw (f, ◌==◌, getlines-append s rest h) refl

-- The file with a line for each directive, each ended by a newline.
pub content : {A : Type 0} → List (Directive A) → String
content [] = []
content (d ∷ ds) = written d ++ 10 ∷ content ds

-- Each directive can be read, and its line has no space at its ends that would be trimmed.
abbrev pub AllReadable : {E A : Type 0} → Calls E A → List (Directive A) → Type 0
AllReadable calls [] = Unit {0}
AllReadable calls (d ∷ ds) =
    Readable calls d × (calls.trim (written d) ≡ written d) × AllReadable calls ds

-- What the directives ask for, one after the other.
pub applied_all : {E A : Type 0} → Calls E A → List (Directive A) → Loading E → Loading E
applied_all calls [] l = l
applied_all calls (d ∷ ds) l = applied_all calls ds (applied calls d (next_line l))

abbrev pub nothing_loaded : {E : Type 0} → Loading E
nothing_loaded = record {
  line_num = 0;
  ip_send_bandwith = pos 0;
  ip_recv_bandwidth = pos 0;
  proxies = [];
  udp_rules = [];
  errors = [];
}

module _ {E A : Type 0} (calls : Calls E A) where
  load_lines-content :
      (ds : List (Directive A)) (l : Loading E)
      → AllReadable calls ds
      → calls.trim [] ≡ []
      → load_lines calls (getlines (content ds)) l ≡ next_line (applied_all calls ds l)
  unfolding content applied_all load_lines getlines
  load_lines-content [] l r q = ap (λ s. load_trimmed calls s (next_line l)) q
  load_lines-content (d ∷ ds) l (h, t, r) q =
      ap (λ ls. load_lines calls ls l)
        (getlines-append (written d) (content ds) (written-OneLine calls d h))
      ∙ ap (load_lines calls (getlines (content ds))) (load_line-written calls d l h t)
      ∙ load_lines-content ds (applied calls d (next_line l)) r q

  -- For a file that is written from directives, with ports of 16 bits, numbers that an int holds and
  -- addresses that from_string knows: init reads back the limits of the last ip line, the udp rules
  -- in their order, and the tcp rules in their order, less those whose proxy does not start, whose
  -- lines it reports.
  pub load_config-content :
      (ds : List (Directive A))
      → AllReadable calls ds
      → calls.trim [] ≡ []
      → load_config calls (some (content ds))
        ≡ some (next_line (applied_all calls ds nothing_loaded))
  unfolding load_config
  load_config-content ds r q = ap some (load_lines-content ds nothing_loaded r q)
