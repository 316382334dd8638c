-- ===== src/Strings/Tokens.antt =====
-- src/xtokens.h: strings taken apart at separators and put together again. `boost::tokenizer` is a
-- parameter.
pub mod RoundTrip
use tcp_udp_proxy.Prelude.{
  ℕ, Bool, true, false, ◌||◌, ◌==◌, ◌≡◌, ◌≢◌, Option, none, some, List, [], ◌∷◌, ◌++◌,
  if◌then◌else◌,
}

abbrev pub String : Type 0
String = List ℕ

unfoldable pub find : String → ℕ → Bool
find [] c = false
find (x ∷ s) c = x == c || find s c

-- No character of the string is a separator.
abbrev pub IsPlain : String → String → Type 0
IsPlain seps [] = Unit {0}
IsPlain seps (c ∷ s) = (find seps c ≡ false) × IsPlain seps s

-- `boost::tokenizer` with `char_separator(seps)`, which drops the separators and empty tokens.
pub record Tokenizer : Type 0 where
  pub tokenize : String → String → List String
  pub tokenize_empty : (seps : String) → tokenize seps [] ≡ []
  pub tokenize_plain :
      (seps : String) (c : ℕ) (s : String)
      → IsPlain seps (c ∷ s)
      → tokenize seps (c ∷ s) ≡ (c ∷ s) ∷ []
  pub tokenize_split :
      (seps s : String) (c : ℕ) (t : String)
      → find seps c ≡ true
      → tokenize seps (s ++ c ∷ t) ≡ tokenize seps s ++ tokenize seps t

unfoldable pub separate_tokens : ⦃t : Tokenizer⦄ → String → String → List String
separate_tokens ⦃t⦄ wholestr sepchars = t.tokenize sepchars wholestr

-- The loop over the tokens that follow the first.
unfoldable pub append_tokens : String → List String → String → String
append_tokens str [] sepchars = str
append_tokens str (token ∷ tokens) sepchars =
    append_tokens (str ++ (sepchars ++ token)) tokens sepchars

unfoldable pub assemble_tokens : List String → String → String
unfolding append_tokens
assemble_tokens [] sepchars = []
assemble_tokens (token ∷ tokens) sepchars = append_tokens token tokens sepchars

abbrev pub is_comment : String → Bool
is_comment [] = false
is_comment (c ∷ s) = c == b'#'

-- `tokens.resize(i)` at the first token that begins a comment.
unfoldable pub cut_comment : List String → List String
cut_comment [] = []
cut_comment (token ∷ tokens) = if is_comment token then [] else token ∷ cut_comment tokens

abbrev pub blanks : String
blanks = b' ' ∷ 9 ∷ []

abbrev pub equals : String
equals = b'=' ∷ []

-- `leader` and `tokens`; none where the result is false, and both are cleared.
unfoldable pub parse_configstring : ⦃t : Tokenizer⦄ → String → Option (String × List String)
unfolding separate_tokens cut_comment
parse_configstring wholestr = elim (separate_tokens wholestr blanks) [
  | [] ↦ none
  | first ∷ tokens ↦ elim (separate_tokens first equals) [
    | leader ∷ value ∷ [] ↦ some (leader, cut_comment (value ∷ tokens))
    | _ ↦ none
  ]
]

unfoldable pub assemble_configstring : String → List String → String
unfolding assemble_tokens
assemble_configstring leader tokens = leader ++ equals ++ assemble_tokens tokens (b' ' ∷ [])
