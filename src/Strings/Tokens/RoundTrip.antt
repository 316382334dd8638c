-- ===== src/Strings/Tokens/RoundTrip.antt =====
-- src/xtokens.h: strings that are put together from tokens and taken apart again.
use mathlib.Core.List.{append_assoc, append-nil}
use tcp_udp_proxy.Prelude.{
  ℕ, true, false, ◌≡◌, ◌≢◌, refl, sym, ap, ◌∙◌, some, List, [], ◌∷◌, ◌++◌, arith,
}
use tcp_udp_proxy.Strings.Tokens.{
  String, find, IsPlain, Tokenizer, separate_tokens, append_tokens, assemble_tokens, is_comment,
  cut_comment, blanks, equals, parse_configstring, assemble_configstring,
}

-- A string that is one token: it has a character and no separator.
abbrev pub IsToken : String → String → Type 0
IsToken seps [] = ⊥
IsToken seps (c ∷ s) = IsPlain seps (c ∷ s)

abbrev pub AllTokens : String → List String → Type 0
AllTokens seps [] = Unit {0}
AllTokens seps (token ∷ tokens) = IsToken seps token × AllTokens seps tokens

-- Each character is a separator.
AllFound : String → String → Type 0
AllFound seps [] = Unit {0}
AllFound seps (c ∷ s) = (find seps c ≡ true) × AllFound seps s

AllFound-extend : (c : ℕ) (seps s : String) → AllFound seps s → AllFound (c ∷ seps) s
unfolding find AllFound
AllFound-extend c seps [] h = tt
AllFound-extend c seps (x ∷ s) (f, h) = (ground (arith, f), AllFound-extend c seps s h)

AllFound-self : (seps : String) → AllFound seps seps
unfolding find AllFound
AllFound-self [] = tt
AllFound-self (c ∷ s) = (ground arith, AllFound-extend c s s (AllFound-self s))

IsPlain-append : (seps s t : String) → IsPlain seps s → IsPlain seps t → IsPlain seps (s ++ t)
IsPlain-append seps [] t h k = k
IsPlain-append seps (c ∷ s) t (f, h) k = (f, IsPlain-append seps s t h k)

append_tokens_prefix :
    (s str : String) (tokens : List String) (sep : String)
    → s ++ append_tokens str tokens sep ≡ append_tokens (s ++ str) tokens sep
unfolding append_tokens
append_tokens_prefix s str [] sep = refl
append_tokens_prefix s str (token ∷ tokens) sep =
    append_tokens_prefix s (str ++ (sep ++ token)) tokens sep
    ∙ ap (λ l. append_tokens l tokens sep) (sym (append_assoc s str (sep ++ token)))

module _ ⦃t : Tokenizer⦄ (seps : String) where
  tokenize_token : (s : String) → IsToken seps s → t.tokenize seps s ≡ s ∷ []
  tokenize_token [] h = absurd h
  tokenize_token (c ∷ s) h = t.tokenize_plain seps c s h

  skip_separators :
      (sep s : String) → AllFound seps sep → t.tokenize seps (sep ++ s) ≡ t.tokenize seps s
  unfolding AllFound
  skip_separators [] s h = refl
  skip_separators (c ∷ sep) s (f, h) =
      t.tokenize_split seps [] c (sep ++ s) f
      ∙ ap (λ l. l ++ t.tokenize seps (sep ++ s)) (t.tokenize_empty seps)
      ∙ skip_separators sep s h

  -- A separator and one more token.
  next_token :
      (str : String) (c : ℕ) (sep token : String)
      → AllFound seps (c ∷ sep)
      → IsToken seps token
      → t.tokenize seps (str ++ ((c ∷ sep) ++ token)) ≡ t.tokenize seps str ++ token ∷ []
  unfolding AllFound
  next_token str c sep token (f, h) k =
      t.tokenize_split seps str c (sep ++ token) f
      ∙ ap (λ l. t.tokenize seps str ++ l) (skip_separators sep token h ∙ tokenize_token token k)

  tokenize-append_tokens :
      (str : String) (c : ℕ) (sep : String) (tokens : List String)
      → AllFound seps (c ∷ sep)
      → AllTokens seps tokens
      → t.tokenize seps (append_tokens str tokens (c ∷ sep)) ≡ t.tokenize seps str ++ tokens
  unfolding append_tokens
  tokenize-append_tokens str c sep [] f h = sym (append-nil (t.tokenize seps str))
  tokenize-append_tokens str c sep (token ∷ tokens) f (k, h) =
      tokenize-append_tokens (str ++ ((c ∷ sep) ++ token)) c sep tokens f h
      ∙ ap (λ l. l ++ tokens) (next_token str c sep token f k)
      ∙ append_assoc (t.tokenize seps str) (token ∷ []) tokens

module _ ⦃t : Tokenizer⦄ where
  -- For tokens that are not empty and contain no separator, and at least one separator: taking the
  -- assembled string apart gives the tokens back.
  pub separate_tokens-assemble_tokens :
      (tokens : List String) (sepchars : String)
      → sepchars ≢ []
      → AllTokens sepchars tokens
      → separate_tokens (assemble_tokens tokens sepchars) sepchars ≡ tokens
  unfolding separate_tokens assemble_tokens
  separate_tokens-assemble_tokens tokens [] n h = absurd (n refl)
  separate_tokens-assemble_tokens [] (c ∷ s) n h = t.tokenize_empty (c ∷ s)
  separate_tokens-assemble_tokens (token ∷ tokens) (c ∷ s) n (k, h) =
      tokenize-append_tokens (c ∷ s) token c s tokens (AllFound-self (c ∷ s)) h
      ∙ ap (λ l. l ++ tokens) (tokenize_token (c ∷ s) token k)

-- No token begins a comment.
abbrev pub NoComment : List String → Type 0
NoComment [] = Unit {0}
NoComment (token ∷ tokens) = (is_comment token ≡ false) × NoComment tokens

cut_comment-NoComment : (tokens : List String) → NoComment tokens → cut_comment tokens ≡ tokens
unfolding cut_comment
cut_comment-NoComment [] h = refl
cut_comment-NoComment (token ∷ tokens) (q, h) = rw (q, cut_comment-NoComment tokens h) refl

IsToken-IsPlain : (seps s : String) → IsToken seps s → IsPlain seps s
IsToken-IsPlain seps [] h = absurd h
IsToken-IsPlain seps (c ∷ s) h = h

-- A leader and its first token, as one token for other separators.
leader-IsToken :
    (seps leader value : String)
    → find seps b'=' ≡ false
    → IsToken seps leader
    → IsPlain seps value
    → IsToken seps (leader ++ (equals ++ value))
leader-IsToken seps [] value q h k = absurd h
leader-IsToken seps (c ∷ s) value q h k = IsPlain-append seps (c ∷ s) (equals ++ value) h (q, k)

space_found : AllFound blanks (b' ' ∷ [])
unfolding AllFound find
space_found = (refl, tt)

signs : (find blanks b'=' ≡ false) × (find equals b'=' ≡ true)
unfolding find
signs = (refl, refl)

module _ ⦃t : Tokenizer⦄ where
  parsed :
      (line first leader value : String) (tokens : List String)
      → t.tokenize blanks line ≡ first ∷ tokens
      → t.tokenize equals first ≡ leader ∷ value ∷ []
      → parse_configstring line ≡ some (leader, cut_comment (value ∷ tokens))
  unfolding parse_configstring separate_tokens
  parsed line first leader value tokens p q = rw (p, q, parse_configstring) refl

  -- A leader without blanks and equals signs, followed by tokens without blanks that are not empty
  -- and do not begin with a number sign, the first of them without an equals sign: parsing the
  -- assembled line gives the leader and the tokens back.
  pub parse_configstring-assemble_configstring :
      (leader value : String) (tokens : List String)
      → IsToken blanks leader
      → IsToken equals leader
      → IsToken equals value
      → AllTokens blanks (value ∷ tokens)
      → NoComment (value ∷ tokens)
      → parse_configstring (assemble_configstring leader (value ∷ tokens))
        ≡ some (leader, value ∷ tokens)
  unfolding assemble_configstring assemble_tokens
  parse_configstring-assemble_configstring leader value tokens lb le ve (vb, tb) nc =
      parsed (assemble_configstring leader (value ∷ tokens)) (leader ++ (equals ++ value)) leader
        value tokens whole first
      ∙ ap (λ l. some (leader, l)) (cut_comment-NoComment (value ∷ tokens) nc)
    where
      whole :
          t.tokenize blanks ((leader ++ equals) ++ append_tokens value tokens (b' ' ∷ []))
          ≡ (leader ++ (equals ++ value)) ∷ tokens
      whole =
          ap (t.tokenize blanks) (
            append_tokens_prefix (leader ++ equals) value tokens (b' ' ∷ [])
            ∙ ap (λ l. append_tokens l tokens (b' ' ∷ [])) (append_assoc leader equals value))
          ∙ tokenize-append_tokens blanks (leader ++ (equals ++ value)) b' ' [] tokens space_found
              tb
          ∙ ap (λ l. l ++ tokens)
              (tokenize_token blanks (leader ++ (equals ++ value))
                (leader-IsToken blanks leader value signs.0 lb (IsToken-IsPlain blanks value vb)))

      first : t.tokenize equals (leader ++ (equals ++ value)) ≡ leader ∷ value ∷ []
      first =
          t.tokenize_split equals leader b'=' value signs.1
          ∙ ap (λ l. l ++ t.tokenize equals value) (tokenize_token equals leader le)
          ∙ ap (λ l. leader ∷ l) (tokenize_token equals value ve)
