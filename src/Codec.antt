-- ===== src/Codec.antt =====
-- src/encode.rs and src/leb128.rs: the byte format of integers and booleans. The value of an
-- encoder is the list of bytes that its call appends to the buffer; a decoder returns the value
-- and the rest of the buffer. The integer format itself is that of the crate `varint_simd`.
pub mod RoundTrip
pub mod Items
use cola.Leb128
use cola.Leb128.{Varint, DecodeError}
use cola.Prelude.{
  ℕ, zero, suc, ◌+◌, ◌%◌, Bool, true, false, List, [], ◌∷◌, ◌++◌, Result, ok, err, ◌>>=◌, map_err,
  ltb, ◌==◌, if◌then◌else◌, take, drop, replicate, length, ◌≤◌, ◌≡◌, IsU64,
}

abbrev pub IntDecodeError : Type 0
IntDecodeError = DecodeError

module _ ⦃v : Varint⦄ where
  -- `impl_int_encode!` and `impl_int_decode!`; `usize` goes through `u64`.
  unfoldable pub encode_u64 : ℕ → List ℕ
  unfolding Leb128.encode_u64
  encode_u64 n = let (array, len) = Leb128.encode_u64 n in take len array

  unfoldable pub decode_u64 : List ℕ → Result IntDecodeError (ℕ × List ℕ)
  unfolding Leb128.decode_u64
  decode_u64 buf = do (decoded, len) ← Leb128.decode_u64 buf; ok (decoded, drop len buf)

pub data BoolDecodeError : Type 0 where
  empty_buffer : BoolDecodeError
  invalid_byte : ℕ → BoolDecodeError

unfoldable pub encode_bool : Bool → List ℕ
encode_bool true = 1 ∷ []
encode_bool false = 0 ∷ []

unfoldable pub decode_bool : List ℕ → Result BoolDecodeError (Bool × List ℕ)
decode_bool [] = err empty_buffer
decode_bool (byte ∷ buf) =
    if byte == 0
    then ok (false, buf)
    else if byte == 1
    then ok (true, buf)
    else err (invalid_byte byte)
