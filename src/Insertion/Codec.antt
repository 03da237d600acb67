-- ===== src/Insertion/Codec.antt =====
-- The encoding of insertions (src/insertion.rs, `mod encode`): the anchor is left out where the
-- insertion continues a run.
use cola.Prelude.{
  ℕ, ◌≡◌, ◌⊎◌, inl, inr, refl, Bool, true, false, List, [], ◌++◌, append_assoc, Result, ok, map_err,
  ◌>>=◌, ◌==◌, ◌&&◌, if◌then◌else◌, arith,
}
use cola.Leb128.{Varint, IsVarint}
use cola.Codec.{encode_u64, decode_u64, IntDecodeError, encode_bool, decode_bool, BoolDecodeError}
use cola.Codec.RoundTrip.{decode_u64-encode_u64, decode_bool-encode_bool}
use cola.Text.{Text}
use cola.Text.Codec.{encode_text, decode_text, decode_text-encode_text}
use cola.Anchor.{InnerAnchor}
use cola.Anchor.Codec.{
  encode_inner_anchor, decode_inner_anchor, decode_inner_anchor-encode_inner_anchor,
}
use cola.Insertion.{Insertion, IsValid, start}

pub data InsertionRun : Type 0 where
  begins_new continues_existing : InsertionRun

pub data InsertionDecodeError : Type 0 where
  int : IntDecodeError → InsertionDecodeError
  run : BoolDecodeError → InsertionDecodeError

-- `InsertionRun::new`
unfoldable pub run_of : Insertion → InsertionRun
run_of i =
    if i.anchor.replica_id == i.text.inserted_by && i.anchor.contained_in == i.run_ts
    then continues_existing
    else begins_new

-- `matches!(self, Self::ContinuesExisting)`
abbrev is_continuation : InsertionRun → Bool
is_continuation begins_new = false
is_continuation continues_existing = true

unfoldable pub encode_run : InsertionRun → List ℕ
encode_run r = encode_bool (is_continuation r)

unfoldable pub decode_run : List ℕ → Result BoolDecodeError (InsertionRun × List ℕ)
decode_run buf = do
  (is_continuation, rest) ← decode_bool buf
  ok (if is_continuation then continues_existing else begins_new, rest)

module _ ⦃v : Varint⦄ where
  -- `Insertion::encode_anchor` and `Insertion::decode_anchor`
  unfoldable pub encode_anchor : Insertion → InsertionRun → List ℕ
  encode_anchor i begins_new = encode_inner_anchor i.anchor
  encode_anchor i continues_existing = []

  unfoldable pub decode_anchor :
      InsertionRun → Text → ℕ → List ℕ → Result IntDecodeError (InnerAnchor × List ℕ)
  decode_anchor begins_new text run_ts buf = decode_inner_anchor buf
  decode_anchor continues_existing text run_ts buf = ok (
    record { replica_id = text.inserted_by; contained_in = run_ts; offset = text.range.start },
    buf,
  )

  unfoldable pub encode_insertion : Insertion → List ℕ
  unfolding encode_anchor encode_run run_of
  encode_insertion i =
      encode_text i.text
      ++ (encode_u64 i.run_ts
          ++ (encode_u64 i.lamport_ts ++ (encode_run (run_of i) ++ encode_anchor i (run_of i))))

  unfoldable pub decode_insertion : List ℕ → Result InsertionDecodeError (Insertion × List ℕ)
  unfolding decode_anchor decode_run
  decode_insertion buf = do
    (text, buf) ← map_err int (decode_text buf)
    (run_ts, buf) ← map_err int (decode_u64 buf)
    (lamport_ts, buf) ← map_err int (decode_u64 buf)
    (r, buf) ← map_err run (decode_run buf)
    (anchor, buf) ← map_err int (decode_anchor r text run_ts buf)
    ok (record { anchor = anchor; text = text; run_ts = run_ts; lamport_ts = lamport_ts }, buf)

decode_run-encode_run :
    (r : InsertionRun) (rest : List ℕ) → decode_run (encode_run r ++ rest) ≡ ok (r, rest)
unfolding decode_run encode_run
decode_run-encode_run begins_new rest = rw decode_bool-encode_bool
decode_run-encode_run continues_existing rest = rw decode_bool-encode_bool

-- An insertion that is anchored in a run of its own replica and number continues that run where its
-- text starts.
abbrev pub ContinuesAtStart : Insertion → Type 0
ContinuesAtStart i = run_of i ≡ continues_existing → i.anchor.offset ≡ start i

run-cases : (r : InsertionRun) → (r ≡ begins_new) ⊎ (r ≡ continues_existing)
run-cases begins_new = inl refl
run-cases continues_existing = inr refl

continues_existing-eq :
    (i : Insertion)
    → run_of i ≡ continues_existing
    → (i.anchor.replica_id ≡ i.text.inserted_by) × (i.anchor.contained_in ≡ i.run_ts)
unfolding run_of
continues_existing-eq i h = (ground arith, ground arith)

module _ ⦃v : Varint⦄ (laws : IsVarint v) where
  decode_anchor-encode_anchor :
      (i : Insertion) (rest : List ℕ)
      → IsValid i
      → ContinuesAtStart i
      → decode_anchor (run_of i) i.text i.run_ts (encode_anchor i (run_of i) ++ rest)
        ≡ ok (i.anchor, rest)
  unfolding decode_anchor encode_anchor
  decode_anchor-encode_anchor i rest h c = elim (run-cases (run_of i)) [
    | inl e ↦ rw e (decode_inner_anchor-encode_inner_anchor laws i.anchor rest h.anchor)
    | inr e ↦
        let (same_id, same_run) = continues_existing-eq i e in rw (e, ← same_id, ← same_run, ← c e)
  ]

  -- A valid insertion that, if it continues a run, is anchored where its text starts, is read back
  -- from its encoding, and what follows it is left.
  pub decode_insertion-encode_insertion :
      (i : Insertion) (rest : List ℕ)
      → IsValid i
      → ContinuesAtStart i
      → decode_insertion (encode_insertion i ++ rest) ≡ ok (i, rest)
  unfolding encode_insertion decode_insertion
  decode_insertion-encode_insertion i rest h c = simp append_assoc (
      rw (
        decode_text-encode_text laws i.text _ h.text,
        decode_u64-encode_u64 laws i.run_ts _ h.run_ts_fits,
        decode_u64-encode_u64 laws i.lamport_ts _ h.lamport_ts_fits,
        decode_run-encode_run (run_of i) _,
        decode_anchor-encode_anchor i rest h c,
      ))
