-- ===== src/Deletion/Codec.antt =====
-- The encoding of deletions (src/deletion.rs, `mod encode`).
use cola.Prelude.{ℕ, ◌≤◌, ◌≡◌, List, ◌++◌, append_assoc, Result, ok, map_err, ◌>>=◌, IsU64}
use cola.Leb128.{Varint, IsVarint}
use cola.Codec.{encode_u64, decode_u64, IntDecodeError}
use cola.Codec.RoundTrip.{decode_u64-encode_u64}
use cola.Anchor
use cola.VersionMap
use cola.VersionMap.Codec.{BaseMapDecodeError, encode_map, decode_map, Fits, decode_map-encode_map}
use cola.Deletion.{Deletion}
use cola.Deletion.Anchors.{
  AnchorsDecodeError, from_anchors, same_replica_id_and_run_ts, encode_anchors, decode_anchors,
  decode_anchors-encode_anchors,
}

pub data DeletionDecodeError : Type 0 where
  anchors : AnchorsDecodeError → DeletionDecodeError
  int : IntDecodeError → DeletionDecodeError
  version_map : BaseMapDecodeError → DeletionDecodeError

module _ ⦃v : Varint⦄ where
  unfoldable pub encode_deletion : Deletion → List ℕ
  encode_deletion d =
      encode_anchors d.start d.end ++ (encode_map d.version_map ++ encode_u64 d.deletion_ts)

  unfoldable pub decode_deletion : List ℕ → Result DeletionDecodeError (Deletion × List ℕ)
  decode_deletion buf = do
    ((start, end), buf) ← map_err anchors (decode_anchors buf)
    (vm, buf) ← map_err version_map (decode_map buf)
    (deletion_ts, buf) ← map_err int (decode_u64 buf)
    ok (record { start = start; end = end; version_map = vm; deletion_ts = deletion_ts }, buf)

-- What the field types and the way deletions are made give.
pub record IsValid (d : Deletion) : Type 0 where
  pub start : Anchor.IsValid d.start
  pub end : Anchor.IsValid d.end
  pub ordered :
      from_anchors d.start d.end ≡ same_replica_id_and_run_ts → d.start.offset ≤ d.end.offset
  pub map : VersionMap.IsValid d.version_map
  pub map_fits : Fits d.version_map
  pub ts_fits : IsU64 d.deletion_ts

module _ ⦃v : Varint⦄ (laws : IsVarint v) where
  -- A valid deletion is read back from its encoding, and what follows it is left.
  pub decode_deletion-encode_deletion :
      (d : Deletion) (rest : List ℕ)
      → IsValid d
      → decode_deletion (encode_deletion d ++ rest) ≡ ok (d, rest)
  unfolding decode_deletion encode_deletion
  decode_deletion-encode_deletion d rest h = rw (
    append_assoc,
    append_assoc,
    decode_anchors-encode_anchors laws d.start d.end _ h.start h.end h.ordered,
    decode_map-encode_map laws d.version_map _ h.map h.map_fits,
    decode_u64-encode_u64 laws d.deletion_ts rest h.ts_fits,
  )
