-- ===== src/Deletion/Anchors.antt =====
-- The encoding of the two anchors of a deletion (src/deletion.rs, `mod encode`): what the anchors
-- share is written once.
use cola.Prelude.{
  ℕ, ◌≤◌, ◌≡◌, inl, inr, refl, List, [], ◌∷◌, ◌++◌, append_assoc, Result, ok, err, map_err, ◌>>=◌,
  ◌==◌, if◌then◌else◌, Bool-cases, add, sub, arith,
}
use cola.Leb128.{Varint, IsVarint}
use cola.Codec.{encode_u64, decode_u64, IntDecodeError}
use cola.Codec.RoundTrip.{decode_u64-encode_u64}
use cola.Anchor.{InnerAnchor, IsValid}
use cola.Anchor.Codec.{
  encode_inner_anchor, decode_inner_anchor, decode_inner_anchor-encode_inner_anchor,
}

pub data AnchorsFlag : Type 0 where
  same_replica_id same_replica_id_and_run_ts different_replica_ids : AnchorsFlag

pub data AnchorsFlagDecodeError : Type 0 where
  empty_buffer : AnchorsFlagDecodeError
  invalid_byte : ℕ → AnchorsFlagDecodeError

pub data AnchorsDecodeError : Type 0 where
  int : IntDecodeError → AnchorsDecodeError
  flag : AnchorsFlagDecodeError → AnchorsDecodeError

unfoldable pub from_anchors : InnerAnchor → InnerAnchor → AnchorsFlag
from_anchors start end =
    if start.replica_id == end.replica_id
    then if start.contained_in == end.contained_in
      then same_replica_id_and_run_ts
      else same_replica_id
    else different_replica_ids

unfoldable pub encode_flag : AnchorsFlag → List ℕ
encode_flag different_replica_ids = 0 ∷ []
encode_flag same_replica_id = 1 ∷ []
encode_flag same_replica_id_and_run_ts = 2 ∷ []

unfoldable pub decode_flag : List ℕ → Result AnchorsFlagDecodeError (AnchorsFlag × List ℕ)
decode_flag [] = err empty_buffer
decode_flag (byte ∷ buf) =
    if byte == 0
    then ok (different_replica_ids, buf)
    else if byte == 1
    then ok (same_replica_id, buf)
    else if byte == 2
    then ok (same_replica_id_and_run_ts, buf)
    else err (invalid_byte byte)

module _ ⦃v : Varint⦄ where
  -- The `match flag` of the encoder and of the decoder.
  unfoldable pub encode_flagged : AnchorsFlag → InnerAnchor → InnerAnchor → List ℕ
  encode_flagged different_replica_ids start end =
      encode_inner_anchor start ++ encode_inner_anchor end
  encode_flagged same_replica_id start end =
      encode_u64 start.replica_id
      ++ (encode_u64 start.contained_in
          ++ (encode_u64 start.offset ++ (encode_u64 end.contained_in ++ encode_u64 end.offset)))
  encode_flagged same_replica_id_and_run_ts start end =
      encode_u64 start.replica_id
      ++ (encode_u64 start.contained_in
          ++ (encode_u64 start.offset ++ encode_u64 (sub end.offset start.offset)))

  unfoldable pub encode_anchors : InnerAnchor → InnerAnchor → List ℕ
  unfolding encode_flagged encode_flag from_anchors
  encode_anchors start end =
      encode_flag (from_anchors start end) ++ encode_flagged (from_anchors start end) start end

  unfoldable pub decode_flagged :
      AnchorsFlag → List ℕ → Result IntDecodeError ((InnerAnchor × InnerAnchor) × List ℕ)
  decode_flagged different_replica_ids buf = do
    (start, buf) ← decode_inner_anchor buf
    (end, buf) ← decode_inner_anchor buf
    ok ((start, end), buf)
  decode_flagged same_replica_id buf = do
    (replica_id, buf) ← decode_u64 buf
    (start_run_ts, buf) ← decode_u64 buf
    (start_offset, buf) ← decode_u64 buf
    (end_run_ts, buf) ← decode_u64 buf
    (end_offset, buf) ← decode_u64 buf
    ok (
      (
        record { replica_id = replica_id; contained_in = start_run_ts; offset = start_offset },
        record { replica_id = replica_id; contained_in = end_run_ts; offset = end_offset },
      ),
      buf,
    )
  decode_flagged same_replica_id_and_run_ts buf = do
    (replica_id, buf) ← decode_u64 buf
    (run_ts, buf) ← decode_u64 buf
    (offset, buf) ← decode_u64 buf
    (length, buf) ← decode_u64 buf
    ok (
      (
        record { replica_id = replica_id; contained_in = run_ts; offset = offset },
        record { replica_id = replica_id; contained_in = run_ts; offset = add offset length },
      ),
      buf,
    )

  unfoldable pub decode_anchors :
      List ℕ → Result AnchorsDecodeError ((InnerAnchor × InnerAnchor) × List ℕ)
  unfolding decode_flagged decode_flag
  decode_anchors buf = do
    (f, buf) ← map_err flag (decode_flag buf)
    map_err int (decode_flagged f buf)

decode_flag-encode_flag :
    (f : AnchorsFlag) (rest : List ℕ) → decode_flag (encode_flag f ++ rest) ≡ ok (f, rest)
unfolding decode_flag encode_flag
decode_flag-encode_flag different_replica_ids rest = refl
decode_flag-encode_flag same_replica_id rest = refl
decode_flag-encode_flag same_replica_id_and_run_ts rest = refl

-- What the flag says of the two anchors.
abbrev Flagged : AnchorsFlag → InnerAnchor → InnerAnchor → Type 0
Flagged different_replica_ids a b = Unit
Flagged same_replica_id a b = a.replica_id ≡ b.replica_id
Flagged same_replica_id_and_run_ts a b =
    (a.replica_id ≡ b.replica_id) × (a.contained_in ≡ b.contained_in)

from_anchors-Flagged : (a b : InnerAnchor) → Flagged (from_anchors a b) a b
unfolding from_anchors
from_anchors-Flagged a b = elim (Bool-cases (a.replica_id == b.replica_id)) [
  | inl e ↦ elim (Bool-cases (a.contained_in == b.contained_in)) [
    | inl f ↦ rw (e, f) (ground arith, ground arith)
    | inr f ↦ rw (e, f) (ground arith)
  ]
  | inr e ↦ rw e tt
]

module _ ⦃v : Varint⦄ (laws : IsVarint v) where
  decode_flagged-encode_flagged :
      (f : AnchorsFlag) (a b : InnerAnchor) (rest : List ℕ)
      → Flagged f a b
      → IsValid a
      → IsValid b
      → (f ≡ same_replica_id_and_run_ts → a.offset ≤ b.offset)
      → decode_flagged f (encode_flagged f a b ++ rest) ≡ ok ((a, b), rest)
  unfolding decode_flagged encode_flagged
  decode_flagged-encode_flagged different_replica_ids a b rest e h k o = rw (
    append_assoc,
    decode_inner_anchor-encode_inner_anchor laws a _ h,
    decode_inner_anchor-encode_inner_anchor laws b _ k,
  )
  decode_flagged-encode_flagged same_replica_id a b rest e h k o = simp append_assoc (
      rw (
        decode_u64-encode_u64 laws a.replica_id _ h.id_fits,
        decode_u64-encode_u64 laws a.contained_in _ h.run_ts_fits,
        decode_u64-encode_u64 laws a.offset _ h.offset_fits,
        decode_u64-encode_u64 laws b.contained_in _ k.run_ts_fits,
        decode_u64-encode_u64 laws b.offset _ k.offset_fits,
        e,
      ))
  decode_flagged-encode_flagged same_replica_id_and_run_ts a b rest (e, f) h k o =
      let le = o refl in
      let sum : add a.offset (sub b.offset a.offset) ≡ b.offset = omega (arith, k) in
      simp append_assoc (
        rw (
          decode_u64-encode_u64 laws a.replica_id _ h.id_fits,
          decode_u64-encode_u64 laws a.contained_in _ h.run_ts_fits,
          decode_u64-encode_u64 laws a.offset _ h.offset_fits,
          decode_u64-encode_u64 laws (sub b.offset a.offset) _ (omega arith),
          sum,
          e,
          f,
        ))

  -- The anchors of a deletion are read back, and what follows them is left, if on one run the end
  -- does not stand before the start.
  pub decode_anchors-encode_anchors :
      (a b : InnerAnchor) (rest : List ℕ)
      → IsValid a
      → IsValid b
      → (from_anchors a b ≡ same_replica_id_and_run_ts → a.offset ≤ b.offset)
      → decode_anchors (encode_anchors a b ++ rest) ≡ ok ((a, b), rest)
  unfolding decode_anchors encode_anchors
  decode_anchors-encode_anchors a b rest h k o = rw (
    append_assoc,
    decode_flag-encode_flag (from_anchors a b) _,
    decode_flagged-encode_flagged (from_anchors a b) a b rest (from_anchors-Flagged a b) h k o,
  )
