-- ===== src/Codec/RoundTrip.antt =====
-- Integers and booleans are read back, whatever follows them in the buffer.
use cola.Prelude.{
  ℕ, ◌%◌, ◌≡◌, refl, Bool, true, false, List, ◌++◌, ok, ltb, take, drop, replicate, length,
  length-append, length-take_le, take-append, drop-append, IsU64, arith,
}
use cola.Leb128.{Varint, IsVarint}
use cola.Codec.{encode_u64, decode_u64, encode_bool, decode_bool}

module _ ⦃v : Varint⦄ (laws : IsVarint v) where
  -- A `u64` is read back from its encoding and leaves what follows.
  pub decode_u64-encode_u64 :
      (n : ℕ) (rest : List ℕ) → IsU64 n → decode_u64 (encode_u64 n ++ rest) ≡ ok (n, rest)
  unfolding encode_u64 decode_u64
  decode_u64-encode_u64 n rest h =
      let len = (v.encode n).1 in
      let bytes = take len (v.encode n).0 in
      let (small, within) = laws.fits n h in
      let size : length bytes ≡ len = length-take_le len (v.encode n).0 within in
      let enough : ltb (length (bytes ++ rest)) len ≡ false =
        ground (arith, length-append bytes rest) in
      let as_u8 : len % 256 ≡ len = omega arith in
      rw (
        take-append len bytes (drop len (replicate 10 0)) size,
        laws.reads_back n rest h,
        enough,
        as_u8,
        drop-append len bytes rest size,
      )

pub decode_bool-encode_bool :
    (b : Bool) (rest : List ℕ) → decode_bool (encode_bool b ++ rest) ≡ ok (b, rest)
unfolding decode_bool encode_bool
decode_bool-encode_bool true rest = refl
decode_bool-encode_bool false rest = refl
