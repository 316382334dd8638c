-- ===== src/SharedData/Numbers.antt =====
-- src/shared_data.cpp: words and numbers that are written and read back.
use tcp_udp_proxy.Prelude.{
  ℕ, zero, suc, ◌+◌, ◌-◌, ◌/◌, ◌%◌, ◌≤◌, ◌<◌, ltb, ◌==◌, ℤ, pos, Bool, true, false, Option, some,
  [], ◌∷◌, ◌++◌, if◌then◌else◌, if_elim, ◌≡◌, refl, sym, ap, ◌∙◌, arith,
}
use tcp_udp_proxy.Strings.Tokens.{String}
use tcp_udp_proxy.SharedData.Streams.{
  is_space, is_digit, skip_spaces, split_word, word_at, read_word, scan_digits, unsigned_at,
  number_at, int_at, int_from, read_int, uint16_at, read_uint16,
}

-- The digits of n, in front of rest. One division for each digit, of at most n + 1.
unfoldable pub digits : ℕ → ℕ → String → String
digits zero n rest = rest
digits (suc k) n rest =
    let more = digits k (n / 10) ((b'0' + n % 10) ∷ rest) in
    if ltb n 10 then (b'0' + n) ∷ rest else more

unfoldable pub decimal : ℕ → String → String
unfolding digits
decimal n rest = digits (suc n) n rest

scan_step :
    (n : ℕ) (rest : String) → scan_digits (n / 10) ((b'0' + n % 10) ∷ rest) ≡ scan_digits n rest
unfolding scan_digits
scan_step n rest =
    if_elim (λ p. p ≡ scan_digits n rest) (is_digit (b'0' + n % 10)) _ _
      (λ _. ap (λ m. scan_digits m rest) (omega arith)) (λ t. absurd (ground (arith, t)))

scan_digits-digits :
    (k n : ℕ) (rest : String) → n < k → scan_digits 0 (digits k n rest) ≡ scan_digits n rest
unfolding digits scan_digits
scan_digits-digits zero n rest h = absurd (omega (arith, h))
scan_digits-digits (suc k) n rest h =
    if_elim (λ s. scan_digits 0 s ≡ scan_digits n rest) (ltb n 10) _ _ (λ t. ground (arith, t))
      (λ t.
        scan_digits-digits k (n / 10) ((b'0' + n % 10) ∷ rest) (ground (arith, t, h))
        ∙ scan_step n rest)

-- What is written begins with a digit.
StartsDigit : String → Type 0
StartsDigit [] = ⊥
StartsDigit (c ∷ s) = is_digit c ≡ true

digits-StartsDigit : (k n : ℕ) (rest : String) → n < k → StartsDigit (digits k n rest)
unfolding digits StartsDigit
digits-StartsDigit zero n rest h = absurd (omega (arith, h))
digits-StartsDigit (suc k) n rest h =
    if_elim StartsDigit (ltb n 10) _ _ (λ t. ground (arith, t))
      (λ t. digits-StartsDigit k (n / 10) ((b'0' + n % 10) ∷ rest) (ground (arith, t, h)))

-- What follows a number or a word: nothing, or a space.
abbrev pub Ends : String → Type 0
Ends [] = Unit {0}
Ends (c ∷ s) = is_space c ≡ true

scan_digits-Ends : (n : ℕ) (rest : String) → Ends rest → scan_digits n rest ≡ (n, rest)
unfolding scan_digits
scan_digits-Ends n [] h = refl
scan_digits-Ends n (c ∷ s) h =
    if_elim (λ p. p ≡ (n, c ∷ s)) (is_digit c) _ _ (λ t. absurd (ground (arith, t, h))) (λ _. refl)

scan_first :
    (c : ℕ) (s : String) → is_digit c ≡ true → scan_digits 0 (c ∷ s) ≡ scan_digits (c - b'0') s
unfolding scan_digits
scan_first c s d =
    if_elim (λ p. p ≡ scan_digits (c - b'0') s) (is_digit c) _ _
      (λ _. ap (λ m. scan_digits m s) (omega arith)) (λ t. absurd (ground (arith, t, d)))

number_at_digit :
    (s : String) (n : ℕ) (rest : String)
    → StartsDigit s
    → scan_digits 0 s ≡ (n, rest)
    → number_at s ≡ some (false, n, rest)
unfolding StartsDigit number_at unsigned_at scan_digits
number_at_digit [] n rest d q = absurd d
number_at_digit (c ∷ s) n rest d q =
    if_elim P (c == b'-') _ _ (λ t. absurd (ground (arith, t, d)))
      (λ _.
        if_elim P (c == b'+') _ _ (λ t. absurd (ground (arith, t, d)))
          (λ _.
            if_elim P (is_digit c) _ _
              (λ _. ap (λ z. some (false, z.0, z.1)) (sym (scan_first c s d) ∙ q))
              (λ t. absurd (ground (arith, t, d)))))
  where
    P : Option (Bool × ℕ × String) → Type 0
    P o = o ≡ some (false, n, rest)

-- The number is read back, up to what follows it.
pub number_at-decimal :
    (n : ℕ) (rest : String) → Ends rest → number_at (decimal n rest) ≡ some (false, n, rest)
unfolding decimal
number_at-decimal n rest h =
    number_at_digit (digits (suc n) n rest) n rest (digits-StartsDigit (suc n) n rest (omega arith))
      (scan_digits-digits (suc n) n rest (omega arith) ∙ scan_digits-Ends n rest h)

skip_digit : (s : String) → StartsDigit s → skip_spaces s ≡ s
unfolding StartsDigit skip_spaces
skip_digit [] d = refl
skip_digit (c ∷ s) d =
    if_elim (λ p. p ≡ c ∷ s) (is_space c) _ _ (λ t. absurd (ground (arith, t, d))) (λ _. refl)

-- A space before the number is skipped.
pub skip_spaces-decimal :
    (n : ℕ) (rest : String) → skip_spaces (b' ' ∷ decimal n rest) ≡ decimal n rest
unfolding skip_spaces decimal
skip_spaces-decimal n rest =
    skip_digit (digits (suc n) n rest) (digits-StartsDigit (suc n) n rest (omega arith))

pub read_uint16-decimal :
    (n : ℕ) (rest : String)
    → n ≤ 65535
    → Ends rest
    → read_uint16 (record { rest = b' ' ∷ decimal n rest; fail = false })
      ≡ (some n, record { rest = rest; fail = false })
unfolding read_uint16 uint16_at
read_uint16-decimal n rest h k =
    ap (λ s. uint16_at (number_at s)) (skip_spaces-decimal n rest)
    ∙ ap uint16_at (number_at-decimal n rest k)
    ∙ fits
  where
    fits : uint16_at (some (false, n, rest)) ≡ (some n, record { rest = rest; fail = false })
    fits = ground (arith, h)

decimal-StartsDigit : (n : ℕ) (rest : String) → StartsDigit (decimal n rest)
unfolding decimal
decimal-StartsDigit n rest = digits-StartsDigit (suc n) n rest (omega arith)

int_at-small :
    (n : ℕ) (rest : String)
    → n ≤ 2147483647
    → int_at (some (false, n, rest)) ≡ (pos n, record { rest = rest; fail = false })
unfolding int_at
int_at-small n rest h = ground (arith, h)

int_from_eq : (old : ℤ) (s : String) → StartsDigit s → int_from old s ≡ int_at (number_at s)
unfolding int_from StartsDigit
int_from_eq old [] d = absurd d
int_from_eq old (c ∷ s) d = refl

pub read_int-decimal :
    (old : ℤ) (n : ℕ) (rest : String)
    → n ≤ 2147483647
    → Ends rest
    → read_int old (record { rest = b' ' ∷ decimal n rest; fail = false })
      ≡ (pos n, record { rest = rest; fail = false })
unfolding read_int
read_int-decimal old n rest h k =
    ap (int_from old) (skip_spaces-decimal n rest)
    ∙ starts
    ∙ ap int_at (number_at-decimal n rest k)
    ∙ int_at-small n rest h
  where
    starts : int_from old (decimal n rest) ≡ int_at (number_at (decimal n rest))
    starts = int_from_eq old (decimal n rest) (decimal-StartsDigit n rest)

-- At the end of the line an extraction fails, and changes nothing.
pub read_int_end :
    (old : ℤ)
    → read_int old (record { rest = []; fail = false }) ≡ (old, record { rest = []; fail = true })
unfolding read_int int_from skip_spaces
read_int_end old = refl

-- A word has a character, and no space.
abbrev pub AllSolid : String → Type 0
AllSolid [] = Unit {0}
AllSolid (c ∷ s) = (is_space c ≡ false) × AllSolid s

abbrev pub IsWord : String → Type 0
IsWord [] = ⊥
IsWord (c ∷ s) = AllSolid (c ∷ s)

split_word-append :
    (word rest : String) → AllSolid word → Ends rest → split_word (word ++ rest) ≡ (word, rest)
unfolding split_word
split_word-append [] [] a k = refl
split_word-append [] (c ∷ s) a k =
    if_elim (λ p. p ≡ ([], c ∷ s)) (is_space c) _ _ (λ _. refl) (λ t. absurd (cc))
split_word-append (c ∷ word) rest (t, a) k =
    if_elim (λ p. p ≡ (c ∷ word, rest)) (is_space c) _ _ (λ f. absurd (cc))
      (λ _. ap (λ z. (c ∷ z.0, z.1)) (split_word-append word rest a k))

word_at-append :
    (word rest : String)
    → IsWord word
    → Ends rest
    → word_at (word ++ rest) ≡ (some word, record { rest = rest; fail = false })
unfolding word_at
word_at-append [] rest w k = absurd w
word_at-append (c ∷ word) rest w k =
    ap (λ z. (some z.0, record { rest = z.1; fail = false }))
      (split_word-append (c ∷ word) rest w k)

skip_word : (word rest : String) → IsWord word → skip_spaces (word ++ rest) ≡ word ++ rest
unfolding skip_spaces
skip_word [] rest w = absurd w
skip_word (c ∷ word) rest (t, a) =
    if_elim (λ p. p ≡ c ∷ (word ++ rest)) (is_space c) _ _ (λ f. absurd (cc)) (λ _. refl)

skip_one : (s : String) → skip_spaces (b' ' ∷ s) ≡ skip_spaces s
unfolding skip_spaces
skip_one s = refl

-- A word, with or without spaces before it, is read back.
pub read_word-append :
    (word rest : String)
    → IsWord word
    → Ends rest
    → (read_word (record { rest = word ++ rest; fail = false })
        ≡ (some word, record { rest = rest; fail = false }))
      × (read_word (record { rest = b' ' ∷ word ++ rest; fail = false })
          ≡ (some word, record { rest = rest; fail = false }))
unfolding read_word
read_word-append word rest w k =
    let found : word_at (skip_spaces (word ++ rest))
        ≡ (some word, record { rest = rest; fail = false }) =
      ap word_at (skip_word word rest w) ∙ word_at-append word rest w k in
    (found, ap word_at (skip_one (word ++ rest)) ∙ found)
