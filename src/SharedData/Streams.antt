-- ===== src/SharedData/Streams.antt =====
-- src/shared_data.cpp: what `init` uses of `std::getline` and of `>>` on an `istringstream`.
use tcp_udp_proxy.Prelude.{
  ℕ, ◌+◌, ◌-◌, ◌*◌, ◌%◌, ltb, leb, ◌==◌, ℤ, pos, sub_ℕ, int_min, int_max, ltb_ℤ, Bool, true, false,
  ◌&&◌, ◌||◌, Option, none, some, List, [], ◌∷◌, if◌then◌else◌,
}
use tcp_udp_proxy.Strings.Tokens.{String}

pub record Stream : Type 0 where
  pub rest : String
  pub fail : Bool

-- `is.str(line); is.clear()`
unfoldable pub stream : String → Stream
stream line = record { rest = line; fail = false }

abbrev pub is_space : ℕ → Bool
is_space c = c == b' ' || (leb 9 c && leb c 13)

abbrev pub is_digit : ℕ → Bool
is_digit c = leb b'0' c && leb c b'9'

unfoldable pub skip_spaces : String → String
skip_spaces [] = []
skip_spaces (c ∷ s) = let skipped = skip_spaces s in if is_space c then skipped else c ∷ s

-- The characters up to the next space, and what follows them.
unfoldable pub split_word : String → String × String
split_word [] = ([], [])
split_word (c ∷ s) =
    let (word, rest) = split_word s in if is_space c then ([], c ∷ s) else (c ∷ word, rest)

abbrev pub failed : Stream
failed = record { rest = []; fail = true }

unfoldable pub word_at : String → Option String × Stream
unfolding split_word
word_at [] = (none, failed)
word_at (c ∷ s) =
    let (word, rest) = split_word (c ∷ s) in (some word, record { rest = rest; fail = false })

-- `is >> str`
unfoldable pub read_word : Stream → Option String × Stream
unfolding skip_spaces word_at
read_word is = if is.fail then (none, is) else word_at (skip_spaces is.rest)

-- The digits from here on, after those that made v.
unfoldable pub scan_digits : ℕ → String → ℕ × String
scan_digits v [] = (v, [])
scan_digits v (c ∷ s) =
    let more = scan_digits (v * 10 + (c - b'0')) s in if is_digit c then more else (v, c ∷ s)

unfoldable pub unsigned_at : Bool → String → Option (Bool × ℕ × String)
unfolding scan_digits
unsigned_at minus [] = none
unsigned_at minus (c ∷ s) =
    let (v, rest) = scan_digits (c - b'0') s in if is_digit c then some (minus, v, rest) else none

-- An optional sign and digits; none where there is no digit.
unfoldable pub number_at : String → Option (Bool × ℕ × String)
unfolding unsigned_at
number_at [] = none
number_at (c ∷ s) =
    if c == b'-'
    then unsigned_at true s
    else if c == b'+'
    then unsigned_at false s
    else unsigned_at false (c ∷ s)

abbrev pub signed : Bool → ℕ → ℤ
signed minus v = if minus then sub_ℕ 0 v else pos v

-- What `is >> n` leaves in an `int` and in the stream: 0 where there is no number, the nearest `int`
-- where the number is none.
unfoldable pub int_at : Option (Bool × ℕ × String) → ℤ × Stream
int_at none = (pos 0, failed)
int_at (some (minus, v, rest)) =
    let z : ℤ = signed minus v in
    if ltb_ℤ z int_min
    then (int_min, failed)
    else if ltb_ℤ int_max z
    then (int_max, failed)
    else (z, record { rest = rest; fail = false })

-- What stood there stays where nothing but spaces is left, or the stream has failed before.
unfoldable pub int_from : ℤ → String → ℤ × Stream
unfolding number_at int_at
int_from old [] = (old, failed)
int_from old (c ∷ s) = int_at (number_at (c ∷ s))

unfoldable pub read_int : ℤ → Stream → ℤ × Stream
unfolding skip_spaces int_from
read_int old is = if is.fail then (old, is) else int_from old (skip_spaces is.rest)

-- An `unsigned long long` is read, in which a minus sign wraps around, and must fit 16 bits.
unfoldable pub uint16_at : Option (Bool × ℕ × String) → Option ℕ × Stream
uint16_at none = (none, failed)
uint16_at (some (minus, v, rest)) =
    let u : ℕ = if minus then (18446744073709551616 - v) % 18446744073709551616 else v in
    if ltb 18446744073709551615 v
    then (none, failed)
    else if ltb 65535 u
    then (none, failed)
    else (some u, record { rest = rest; fail = false })

unfoldable pub read_uint16 : Stream → Option ℕ × Stream
unfolding skip_spaces number_at uint16_at
read_uint16 is = if is.fail then (none, is) else uint16_at (number_at (skip_spaces is.rest))

-- The lines that `getline` gives until `eof` is set.
unfoldable pub getlines : String → List String
getlines [] = [] ∷ []
getlines (c ∷ s) =
    if c == 10
    then [] ∷ getlines s
    else elim (getlines s) [ [] ↦ (c ∷ []) ∷ [] | line ∷ lines ↦ (c ∷ line) ∷ lines ]
