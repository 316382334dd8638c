-- ===== src/Strings/Examples.antt =====
-- src/xtokens.h: a tokenizer, and lines that it takes apart.
use mathlib.Core.List.{append_assoc, append-nil}
use tcp_udp_proxy.Prelude.{
  ℕ, true, ◌≡◌, refl, sym, ap, ◌∙◌, some, List, [], ◌∷◌, ◌++◌, if◌then◌else◌, Bool-cases, inl, inr,
}
use tcp_udp_proxy.Strings.Tokens.{
  String, find, IsPlain, Tokenizer, separate_tokens, assemble_tokens, append_tokens, cut_comment,
  parse_configstring, assemble_configstring,
}
use tcp_udp_proxy.Strings.Tokens.RoundTrip.{
  separate_tokens-assemble_tokens, parse_configstring-assemble_configstring,
}
use tcp_udp_proxy.Strings.Paths.{
  last, auto_standardize_dirname, auto_concate_pathname, format_dirname, format_filename,
  separate_filename,
}

pub emit : String → List String
emit [] = []
emit (c ∷ s) = (c ∷ s) ∷ []

-- `cur` is the token so far.
pub tokens_from : String → String → String → List String
unfolding find emit
tokens_from seps cur [] = emit cur
tokens_from seps cur (c ∷ s) =
    let next = tokens_from seps [] s in
    let longer = tokens_from seps (cur ++ c ∷ []) s in
    if find seps c then emit cur ++ next else longer

pub tokens_from_plain :
    (seps cur s : String) → IsPlain seps s → tokens_from seps cur s ≡ emit (cur ++ s)
unfolding tokens_from
tokens_from_plain seps cur [] h = ap emit (sym (append-nil cur))
tokens_from_plain seps cur (c ∷ s) (f, h) =
    rw (f, find)
      (tokens_from_plain seps (cur ++ c ∷ []) s h ∙ ap emit (append_assoc cur (c ∷ []) s))

pub tokens_from_split :
    (seps cur s : String) (c : ℕ) (t : String)
    → find seps c ≡ true
    → tokens_from seps cur (s ++ c ∷ t) ≡ tokens_from seps cur s ++ tokens_from seps [] t
unfolding tokens_from
tokens_from_split seps cur [] c t f = rw (f, find) refl
tokens_from_split seps cur (x ∷ s) c t f = elim (Bool-cases (find seps x)) [
  | inl q ↦
      rw (q, find)
        (ap (λ l. emit cur ++ l) (tokens_from_split seps [] s c t f)
          ∙ sym (append_assoc (emit cur) (tokens_from seps [] s) (tokens_from seps [] t)))
  | inr q ↦ rw (q, find) (tokens_from_split seps (cur ++ x ∷ []) s c t f)
]

instance abbrev pub tokenizer : Tokenizer
unfolding tokens_from emit
tokenizer = record {
  tokenize = λ seps s. tokens_from seps [] s;
  tokenize_empty = λ seps. refl;
  tokenize_plain = λ seps c s h. tokens_from_plain seps [] (c ∷ s) h;
  tokenize_split = λ seps s c t f. tokens_from_split seps [] s c t f;
}

-- "port", "80" and "tcp"
abbrev port : String
port = b'p' ∷ b'o' ∷ b'r' ∷ b't' ∷ []

abbrev eighty : String
eighty = b'8' ∷ b'0' ∷ []

abbrev tcp : String
tcp = b't' ∷ b'c' ∷ b'p' ∷ []

methods : Unit {0}
unfolding find emit tokens_from separate_tokens append_tokens assemble_tokens cut_comment
    parse_configstring assemble_configstring
methods = tt

separate_tokens-assemble_tokens_example :
    separate_tokens (assemble_tokens (port ∷ tcp ∷ []) (b',' ∷ b' ' ∷ [])) (b',' ∷ b' ' ∷ [])
    ≡ port ∷ tcp ∷ []
unfolding methods
separate_tokens-assemble_tokens_example =
    separate_tokens-assemble_tokens (port ∷ tcp ∷ []) (b',' ∷ b' ' ∷ []) (λ q. cc)
      ((refl, (refl, (refl, (refl, tt)))), ((refl, (refl, (refl, tt))), tt))

parse_configstring-assemble_configstring_example :
    parse_configstring (assemble_configstring port (eighty ∷ tcp ∷ []))
    ≡ some (port, eighty ∷ tcp ∷ [])
unfolding methods
parse_configstring-assemble_configstring_example =
    parse_configstring-assemble_configstring port eighty (tcp ∷ [])
      (refl, (refl, (refl, (refl, tt)))) (refl, (refl, (refl, (refl, tt)))) (refl, (refl, tt))
      ((refl, (refl, tt)), ((refl, (refl, (refl, tt))), tt)) (refl, (refl, tt))

abbrev root : String
root = b'/' ∷ b'r' ∷ []

paths : Unit {0}
unfolding find emit tokens_from separate_tokens last auto_standardize_dirname auto_concate_pathname
    format_dirname format_filename separate_filename
paths = tt
