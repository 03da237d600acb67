-- ===== src/Text/Codec.antt =====
-- The encoding of a `Text` (src/text.rs, `mod encode`).
use cola.Prelude.{ℕ, ◌≡◌, List, ◌++◌, append_assoc, Result, ok, ◌>>=◌, add, sub, arith}
use cola.Leb128.{Varint, IsVarint}
use cola.Codec.{encode_u64, decode_u64, IntDecodeError}
use cola.Codec.RoundTrip.{decode_u64-encode_u64}
use cola.Text.{Text, IsValid}

module _ ⦃v : Varint⦄ where
  unfoldable pub encode_text : Text → List ℕ
  encode_text t =
      encode_u64 t.inserted_by
      ++ (encode_u64 t.range.start ++ encode_u64 (sub t.range.end t.range.start))

  unfoldable pub decode_text : List ℕ → Result IntDecodeError (Text × List ℕ)
  decode_text buf = do
    (inserted_by, buf) ← decode_u64 buf
    (start, buf) ← decode_u64 buf
    (len, buf) ← decode_u64 buf
    ok (
      record { inserted_by = inserted_by; range = record { start = start; end = add start len } },
      buf,
    )

module _ ⦃v : Varint⦄ (laws : IsVarint v) where
  -- A valid text is read back from its encoding, and what follows it is left.
  pub decode_text-encode_text :
      (t : Text) (rest : List ℕ) → IsValid t → decode_text (encode_text t ++ rest) ≡ ok (t, rest)
  unfolding encode_text decode_text
  decode_text-encode_text t rest h =
      let e : add t.range.start (sub t.range.end t.range.start) ≡ t.range.end = omega (arith, h) in
      rw (
        append_assoc,
        append_assoc,
        decode_u64-encode_u64 laws t.inserted_by _ h.id_fits,
        decode_u64-encode_u64 laws t.range.start _ (omega (arith, h)),
        decode_u64-encode_u64 laws (sub t.range.end t.range.start) _ (omega (arith, h)),
        e,
      )
