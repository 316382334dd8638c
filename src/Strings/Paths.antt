-- ===== src/Strings/Paths.antt =====
-- src/xpath.h: names of files and directories, as the code forms them on Linux.
pub mod Names
use tcp_udp_proxy.Prelude.{
  ℕ, Bool, true, false, not, ◌==◌, ◌≡◌, Option, none, some, List, [], ◌∷◌, ◌++◌, if◌then◌else◌,
}
use tcp_udp_proxy.Strings.Tokens.{String, Tokenizer, separate_tokens}

abbrev pub path_separator : ℕ
path_separator = b'/'

-- `x[x.size() - 1]`
unfoldable pub last : {A : Type 0} → List A → Option A
last [] = none
last (x ∷ []) = some x
last (x ∷ y ∷ s) = last (y ∷ s)

unfoldable pub auto_standardize_dirname : String → String
unfolding last
auto_standardize_dirname dirname = elim (last dirname) [
  | none ↦ b'.' ∷ path_separator ∷ []
  | some c ↦ if not (c == path_separator) then dirname ++ path_separator ∷ [] else dirname
]

unfoldable pub auto_concate_pathname : String → String → String
unfolding auto_standardize_dirname
auto_concate_pathname [] workdir = []
auto_concate_pathname (c ∷ s) workdir =
    if c == path_separator then c ∷ s else auto_standardize_dirname workdir ++ c ∷ s

unfoldable pub format_dirname : String → String → String
unfolding auto_standardize_dirname auto_concate_pathname
format_dirname dirname workdir = auto_standardize_dirname (auto_concate_pathname dirname workdir)

unfoldable pub format_filename : String → String → String
unfolding auto_concate_pathname
format_filename filename workdir = auto_concate_pathname filename workdir

-- None where there is no token, and the code reads before the first one.
unfoldable pub separate_filename : ⦃t : Tokenizer⦄ → String → Option String
unfolding separate_tokens last
separate_filename filename = last (separate_tokens filename (path_separator ∷ []))
