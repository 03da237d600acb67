-- ===== src/Anchor/Codec.antt =====
-- The encoding of anchors (src/anchor.rs, `mod encode`).
use cola.Prelude.{
  ℕ, ◌≡◌, Bool, true, false, List, ◌++◌, append_assoc, Result, ok, map_err, ◌>>=◌, if◌then◌else◌,
}
use cola.Leb128.{Varint, IsVarint}
use cola.Codec.{encode_u64, decode_u64, IntDecodeError, encode_bool, decode_bool, BoolDecodeError}
use cola.Codec.RoundTrip.{decode_u64-encode_u64, decode_bool-encode_bool}
use cola.Anchor.{InnerAnchor, Anchor, AnchorBias, left, right, IsValid}

pub data AnchorDecodeError : Type 0 where
  bool : BoolDecodeError → AnchorDecodeError
  int : IntDecodeError → AnchorDecodeError

-- `matches!(self, Self::Right)`
abbrev is_right : AnchorBias → Bool
is_right left = false
is_right right = true

unfoldable pub encode_bias : AnchorBias → List ℕ
encode_bias b = encode_bool (is_right b)

unfoldable pub decode_bias : List ℕ → Result BoolDecodeError (AnchorBias × List ℕ)
decode_bias buf = do (is_right, buf) ← decode_bool buf; ok (if is_right then right else left, buf)

module _ ⦃v : Varint⦄ where
  unfoldable pub encode_inner_anchor : InnerAnchor → List ℕ
  encode_inner_anchor a =
      encode_u64 a.replica_id ++ (encode_u64 a.contained_in ++ encode_u64 a.offset)

  unfoldable pub decode_inner_anchor : List ℕ → Result IntDecodeError (InnerAnchor × List ℕ)
  decode_inner_anchor buf = do
    (replica_id, buf) ← decode_u64 buf
    (run_ts, buf) ← decode_u64 buf
    (offset, buf) ← decode_u64 buf
    ok (record { replica_id = replica_id; contained_in = run_ts; offset = offset }, buf)

  unfoldable pub encode_anchor : Anchor → List ℕ
  encode_anchor a = encode_inner_anchor a.inner ++ encode_bias a.bias

  unfoldable pub decode_anchor : List ℕ → Result AnchorDecodeError (Anchor × List ℕ)
  decode_anchor buf = do
    (inner, buf) ← map_err int (decode_inner_anchor buf)
    (bias, buf) ← map_err bool (decode_bias buf)
    ok (record { inner = inner; bias = bias }, buf)

decode_bias-encode_bias :
    (b : AnchorBias) (rest : List ℕ) → decode_bias (encode_bias b ++ rest) ≡ ok (b, rest)
unfolding decode_bias encode_bias
decode_bias-encode_bias left rest = rw decode_bool-encode_bool
decode_bias-encode_bias right rest = rw decode_bool-encode_bool

module _ ⦃v : Varint⦄ (laws : IsVarint v) where
  -- An anchor whose fields fit their types is read back, and what follows it is left.
  pub decode_inner_anchor-encode_inner_anchor :
      (a : InnerAnchor) (rest : List ℕ)
      → IsValid a
      → decode_inner_anchor (encode_inner_anchor a ++ rest) ≡ ok (a, rest)
  unfolding encode_inner_anchor decode_inner_anchor
  decode_inner_anchor-encode_inner_anchor a rest h = rw (
    append_assoc,
    append_assoc,
    decode_u64-encode_u64 laws a.replica_id _ h.id_fits,
    decode_u64-encode_u64 laws a.contained_in _ h.run_ts_fits,
    decode_u64-encode_u64 laws a.offset _ h.offset_fits,
  )

  -- An anchor with its bias is read back if the fields of the anchor inside fit their types, and what
  -- follows it is left.
  pub decode_anchor-encode_anchor :
      (a : Anchor) (rest : List ℕ)
      → IsValid a.inner
      → decode_anchor (encode_anchor a ++ rest) ≡ ok (a, rest)
  unfolding encode_anchor decode_anchor
  decode_anchor-encode_anchor a rest h = rw (
    append_assoc,
    decode_inner_anchor-encode_inner_anchor a.inner _ h,
    decode_bias-encode_bias a.bias rest,
  )
