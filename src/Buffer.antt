-- ===== src/Buffer.antt =====
-- src/buffer.h: `global::Buffer`, a shared array of bytes with the number of bytes in use.
-- `buf` is none for the null pointer. Copies of a `Buffer` share the array; the sources never write
-- to an array that a second `Buffer` names, so a copy is the value.
use tcp_udp_proxy.Prelude.{
  ℕ, ℤ, pos, pos_part, ltb_ℤ, Bool, true, false, Option, none, some, List, [], take, if◌then◌else◌,
}

pub record Buffer : Type 0 where
  pub buf : Option (List ℕ)
  pub buf_size : ℤ

unfoldable pub default_buffer : Buffer
default_buffer = record { buf = none; buf_size = pos 0 }

-- `Buffer(int)`: what the fresh array holds is not determined, so it is an argument.
unfoldable pub sized_buffer : List ℕ → ℤ → Buffer
sized_buffer fresh n = record { buf = some fresh; buf_size = n }

-- `Buffer(boost::shared_array<BYTE>, int)`
unfoldable pub array_buffer : Option (List ℕ) → ℤ → Buffer
array_buffer arr n = record { buf = arr; buf_size = n }

-- `Buffer(const BYTE*, int)` copies the first n bytes.
unfoldable pub copied_buffer : List ℕ → ℤ → Buffer
copied_buffer src n = record { buf = some (take (pos_part n) src); buf_size = n }

unfoldable pub resize : ℤ → Buffer → Buffer
resize n b = record b { buf_size = n }

unfoldable pub reset : List ℕ → ℤ → Buffer → Buffer
reset fresh n b =
    if ltb_ℤ (pos 0) n
    then record { buf = some fresh; buf_size = n }
    else record { buf = none; buf_size = pos 0 }

abbrev pub get_size : Buffer → ℤ
get_size b = b.buf_size

unfoldable pub has_buf : Buffer → Bool
has_buf b = elim b.buf [ none ↦ false | some a ↦ true ]

-- What `boost::asio::buffer(b.get(), b.get_size())` names.
unfoldable pub contents : Buffer → List ℕ
contents b = elim b.buf [ none ↦ [] | some a ↦ take (pos_part b.buf_size) a ]
