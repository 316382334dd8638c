-- ===== src/Strings/Paths/Names.antt =====
-- src/xpath.h: what the names have in common that the helpers form.
use tcp_udp_proxy.Prelude.{
  ℕ, true, false, not, ◌==◌, ◌≡◌, ◌≢◌, refl, ap, subst, ◌∙◌, Option, none, some, List, [], ◌∷◌,
  ◌++◌, if◌then◌else◌, if_elim, Bool-cases, inl, inr, arith, ==_iff,
}
use mathlib.Core.List.{append_assoc}
use mathlib.Core.Option.{some-injective}
use tcp_udp_proxy.Strings.Tokens.{String, Tokenizer, separate_tokens, IsPlain, find}
use tcp_udp_proxy.Strings.Paths.{
  path_separator, last, auto_standardize_dirname, auto_concate_pathname, format_dirname,
  format_filename, separate_filename,
}

-- The name begins at the root.
abbrev pub IsAbsolute : String → Type 0
IsAbsolute [] = ⊥
IsAbsolute (c ∷ s) = c ≡ path_separator

last-append : {A : Type 0} (xs : List A) (x : A) → last (xs ++ x ∷ []) ≡ some x
unfolding last
last-append [] x = refl
last-append (y ∷ []) x = refl
last-append (y ∷ z ∷ xs) x = last-append (z ∷ xs) x

standardized :
    (dirname : String) (o : Option ℕ)
    → last dirname ≡ o
    → last (elim o [
      | none ↦ b'.' ∷ path_separator ∷ []
      | some c ↦ if not (c == path_separator) then dirname ++ path_separator ∷ [] else dirname
    ])
      ≡ some path_separator
unfolding last
standardized dirname none q = refl
standardized dirname (some c) q = elim (Bool-cases (c == path_separator)) [
  | inl t ↦ rw (t, ◌==◌) (q ∙ ap some ((==_iff c path_separator).0 t))
  | inr t ↦ rw (t, ◌==◌) (last-append dirname path_separator)
]

last-none : {A : Type 0} (s : List A) → last s ≡ none → s ≡ []
unfolding last
last-none [] q = refl
last-none (x ∷ []) q = cc
last-none (x ∷ y ∷ s) q = absurd (cc (last-none (y ∷ s) q))

separator_found : find (path_separator ∷ []) path_separator ≡ true
unfolding find
separator_found = refl

not_separator : (c : ℕ) → find (path_separator ∷ []) c ≡ false → (c == path_separator) ≡ false
unfolding find
not_separator c f = ground (arith, f)

IsAbsolute-append : (s t : String) → IsAbsolute s → IsAbsolute (s ++ t)
IsAbsolute-append [] t h = absurd h
IsAbsolute-append (c ∷ s) t h = h

-- What stands before the last character.
init_of : (s : String) (c : ℕ) → last s ≡ some c → (t : String) × (s ≡ t ++ c ∷ [])
unfolding last
init_of [] c q = cc
init_of (x ∷ []) c q = ([], ap (λ y. y ∷ []) (some-injective x c q))
init_of (x ∷ y ∷ s) c q = let (t, p) = init_of (y ∷ s) c q in (x ∷ t, ap (λ l. x ∷ l) p)

auto_standardize_dirname-ends :
    (dirname : String) → last (auto_standardize_dirname dirname) ≡ some path_separator
unfolding auto_standardize_dirname
auto_standardize_dirname-ends dirname = standardized dirname (last dirname) refl

standardized_eq :
    (dirname : String)
    → last dirname ≡ some path_separator
    → auto_standardize_dirname dirname ≡ dirname
unfolding auto_standardize_dirname
standardized_eq dirname q = rw (q, auto_standardize_dirname) refl

standardize-IsAbsolute :
    (dirname : String) → IsAbsolute dirname → IsAbsolute (auto_standardize_dirname dirname)
unfolding auto_standardize_dirname
standardize-IsAbsolute dirname h = choose (last dirname) refl
  where
    choose :
        (o : Option ℕ)
        → last dirname ≡ o
        → IsAbsolute (elim o [
          | none ↦ b'.' ∷ path_separator ∷ []
          | some c ↦ if not (c == path_separator) then dirname ++ path_separator ∷ [] else dirname
        ])
    choose none q = absurd (subst IsAbsolute (last-none dirname q) h)
    choose (some c) q =
        if_elim IsAbsolute (not (c == path_separator)) _ _
          (λ _. IsAbsolute-append dirname (path_separator ∷ []) h) (λ _. h)

concate-IsAbsolute :
    (pathname workdir : String)
    → pathname ≢ []
    → IsAbsolute workdir
    → IsAbsolute (auto_concate_pathname pathname workdir)
unfolding auto_concate_pathname
concate-IsAbsolute [] workdir n h = absurd (n refl)
concate-IsAbsolute (c ∷ s) workdir n h =
    if_elim IsAbsolute (c == path_separator) _ _ (λ t. (==_iff c path_separator).0 t)
      (λ _.
        IsAbsolute-append (auto_standardize_dirname workdir) (c ∷ s)
          (standardize-IsAbsolute workdir h))

absolute_eq :
    (pathname workdir : String)
    → IsAbsolute pathname
    → auto_concate_pathname pathname workdir ≡ pathname
unfolding auto_concate_pathname
absolute_eq [] workdir h = refl
absolute_eq (c ∷ s) workdir h = rw ((==_iff c path_separator).1 h, ◌==◌) refl

-- In a working directory whose name begins at the root, each name of a directory that is not empty
-- becomes one that begins at the root and ends in the separator.
pub format_dirname-IsAbsolute :
    (dirname workdir : String)
    → dirname ≢ []
    → IsAbsolute workdir
    → IsAbsolute (format_dirname dirname workdir)
      × (last (format_dirname dirname workdir) ≡ some path_separator)
unfolding format_dirname
format_dirname-IsAbsolute dirname workdir n h = (
  standardize-IsAbsolute (auto_concate_pathname dirname workdir)
      (concate-IsAbsolute dirname workdir n h),
  auto_standardize_dirname-ends (auto_concate_pathname dirname workdir),
)

-- To form that name again, in any working directory, leaves it as it is.
pub format_dirname-idempotent :
    (dirname workdir other : String)
    → dirname ≢ []
    → IsAbsolute workdir
    → format_dirname (format_dirname dirname workdir) other ≡ format_dirname dirname workdir
unfolding format_dirname
format_dirname-idempotent dirname workdir other n h =
    let (f, l) = format_dirname-IsAbsolute dirname workdir n h in
    ap auto_standardize_dirname (absolute_eq (format_dirname dirname workdir) other f)
    ∙ standardized_eq (format_dirname dirname workdir) l

module _ ⦃t : Tokenizer⦄ where
  after_directory :
      (dirname : String) (c : ℕ) (s : String)
      → last dirname ≡ some path_separator
      → IsPlain (path_separator ∷ []) (c ∷ s)
      → last (t.tokenize (path_separator ∷ []) (dirname ++ c ∷ s)) ≡ some (c ∷ s)
  after_directory dirname c s q h =
      let (d, p) = init_of dirname path_separator q in
      ap (λ l. last (t.tokenize (path_separator ∷ []) l))
        (ap (λ l. l ++ c ∷ s) p ∙ append_assoc d (path_separator ∷ []) (c ∷ s))
      ∙ ap last (
          t.tokenize_split (path_separator ∷ []) d path_separator (c ∷ s) separator_found
          ∙ ap (λ l. t.tokenize (path_separator ∷ []) d ++ l)
              (t.tokenize_plain (path_separator ∷ []) c s h))
      ∙ last-append (t.tokenize (path_separator ∷ []) d) (c ∷ s)

  -- For a file's name that is not empty and has no separator, in any working directory: the name of
  -- the file is what separate_filename finds in the path that format_filename forms.
  pub separate_filename-format_filename :
      (filename workdir : String)
      → filename ≢ []
      → IsPlain (path_separator ∷ []) filename
      → separate_filename (format_filename filename workdir) ≡ some filename
  unfolding separate_filename format_filename auto_concate_pathname separate_tokens
  separate_filename-format_filename [] workdir n h = absurd (n refl)
  separate_filename-format_filename (c ∷ s) workdir n (f, h) =
      rw (not_separator c f, ◌==◌)
        (after_directory (auto_standardize_dirname workdir) c s
          (auto_standardize_dirname-ends workdir) (f, h))
