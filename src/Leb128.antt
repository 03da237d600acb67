-- ===== src/Leb128.antt =====
-- src/leb128.rs on x86: integers by the crate `varint_simd`, whose two functions are a parameter.
use cola.Prelude.{
  ℕ, ◌%◌, ◌≤◌, ◌≡◌, List, ◌++◌, Result, ok, err, ◌>>=◌, map_err, ltb, if◌then◌else◌, take, drop,
  replicate, length, IsU64,
}

-- The errors of `varint_simd::decode`.
pub data VarIntDecodeError : Type 0 where
  overflow not_enough_bytes : VarIntDecodeError

-- The calls of `varint_simd` at `u64`: a long array with the number of bytes used, and the decoded
-- number with the number of bytes read.
pub record Varint : Type 0 where
  pub encode : ℕ → List ℕ × ℕ
  pub decode : List ℕ → Result VarIntDecodeError (ℕ × ℕ)

-- What the crate documents: an encoded `u64` takes at most ten bytes of its array, and is read back
-- from them whatever follows.
pub record IsVarint (v : Varint) : Type 0 where
  pub fits : (n : ℕ) → IsU64 n → ((v.encode n).1 ≤ 10) × ((v.encode n).1 ≤ length (v.encode n).0)
  pub reads_back :
      (n : ℕ) (rest : List ℕ)
      → IsU64 n
      → v.decode (take (v.encode n).1 (v.encode n).0 ++ rest) ≡ ok (n, (v.encode n).1)

pub data DecodeError : Type 0 where
  not_enough_bytes not_minimal overflow : DecodeError

-- `From<varint_simd::VarIntDecodeError>`
abbrev pub from_varint : VarIntDecodeError → DecodeError
from_varint VarIntDecodeError.overflow = DecodeError.overflow
from_varint VarIntDecodeError.not_enough_bytes = DecodeError.not_enough_bytes

module _ ⦃v : Varint⦄ where
  -- The used bytes are copied over the front of an array of ten zeroes.
  unfoldable pub encode_u64 : ℕ → List ℕ × ℕ
  encode_u64 value =
      let (long_array, len) = v.encode value in
      (take len long_array ++ drop len (replicate 10 0), len)

  -- `len as u8`
  unfoldable pub decode_u64 : List ℕ → Result DecodeError (ℕ × ℕ)
  decode_u64 buf = do
    (decoded, len) ← map_err from_varint (v.decode buf)
    if ltb (length buf) len then err DecodeError.not_enough_bytes else ok (decoded, len % 256)
