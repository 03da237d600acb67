-- ===== src/Backlog/Codec.antt =====
-- The encoding of the backlog (src/backlog.rs, `mod encode`).
pub mod RoundTrip
use cola.Prelude.{
  ℕ, ◌≡◌, sym, List, [], ◌++◌, append_assoc, Result, ok, map_err, ◌>>=◌, length, All, IsU64, add,
  sub, arith,
}
use cola.Text
use cola.Leb128.{Varint, IsVarint}
use cola.Codec.{encode_u64, decode_u64, IntDecodeError}
use cola.Codec.RoundTrip.{decode_u64-encode_u64}
use cola.Codec.Items.{
  encode_all, push_times, decode_times, push_times-encode_all, decode_times-encode_all,
}
use cola.Anchor
use cola.Anchor.Codec.{
  encode_inner_anchor, decode_inner_anchor, decode_inner_anchor-encode_inner_anchor,
}
use cola.ReplicaIdMap
use cola.ReplicaIdMap.{HasUniqueKeys}
use cola.VersionMap
use cola.VersionMap.Codec.{BaseMapDecodeError, encode_map, decode_map, Fits, decode_map-encode_map}
use cola.Insertion
use cola.Insertion.{Insertion}
use cola.Deletion
use cola.Deletion.{Deletion}
use cola.Backlog.{Backlog}

pub data BacklogDecodeError : Type 0 where
  int : IntDecodeError → BacklogDecodeError
  version_map : BaseMapDecodeError → BacklogDecodeError

module _ ⦃v : Varint⦄ where
  -- The loop bodies over a replica's queue.
  unfoldable pub encode_queued_insertion : Insertion → List ℕ
  encode_queued_insertion i =
      encode_inner_anchor i.anchor
      ++ (encode_u64 i.text.range.start
          ++ (encode_u64 (Text.range_len i.text.range)
              ++ (encode_u64 i.run_ts ++ encode_u64 i.lamport_ts)))

  unfoldable pub decode_queued_insertion :
      ℕ → List ℕ → Result BacklogDecodeError (Insertion × List ℕ)
  decode_queued_insertion replica_id buf = do
    (anchor, buf) ← map_err int (decode_inner_anchor buf)
    (start, buf) ← map_err int (decode_u64 buf)
    (len, buf) ← map_err int (decode_u64 buf)
    (run_ts, buf) ← map_err int (decode_u64 buf)
    (lamport_ts, buf) ← map_err int (decode_u64 buf)
    ok (
      record {
        anchor = anchor;
        text = record {
          inserted_by = replica_id;
          range = record { start = start; end = add start len };
        };
        lamport_ts = lamport_ts;
        run_ts = run_ts;
      },
      buf,
    )

  unfoldable pub encode_queued_deletion : Deletion → List ℕ
  encode_queued_deletion d =
      encode_inner_anchor d.start
      ++ (encode_inner_anchor d.end ++ (encode_map d.version_map ++ encode_u64 d.deletion_ts))

  unfoldable pub decode_queued_deletion : List ℕ → Result BacklogDecodeError (Deletion × List ℕ)
  decode_queued_deletion buf = do
    (start, buf) ← map_err int (decode_inner_anchor buf)
    (end, buf) ← map_err int (decode_inner_anchor buf)
    (vm, buf) ← map_err version_map (decode_map buf)
    (deletion_ts, buf) ← map_err int (decode_u64 buf)
    ok (record { start = start; end = end; version_map = vm; deletion_ts = deletion_ts }, buf)

  -- A replica's queue with its id. Decoding writes it to the map that is the context.
  unfoldable pub encode_insertions : ℕ × List Insertion → List ℕ
  unfolding encode_queued_insertion encode_all
  encode_insertions (replica_id, queue) =
      encode_u64 replica_id
      ++ (encode_u64 (length queue) ++ encode_all encode_queued_insertion queue)

  unfoldable pub decode_insertions :
      List ℕ
      → List (ℕ × List Insertion)
      → Result BacklogDecodeError (List (ℕ × List Insertion) × List ℕ)
  unfolding decode_queued_insertion push_times
  decode_insertions buf ctx = do
    (replica_id, buf) ← map_err int (decode_u64 buf)
    (num_insertions, buf) ← map_err int (decode_u64 buf)
    (queue, buf) ← push_times num_insertions (decode_queued_insertion replica_id) [] buf
    ok (ReplicaIdMap.insert replica_id queue ctx, buf)

  unfoldable pub encode_deletions : ℕ × List Deletion → List ℕ
  unfolding encode_queued_deletion encode_all
  encode_deletions (replica_id, queue) =
      encode_u64 replica_id
      ++ (encode_u64 (length queue) ++ encode_all encode_queued_deletion queue)

  unfoldable pub decode_deletions :
      List ℕ
      → List (ℕ × List Deletion)
      → Result BacklogDecodeError (List (ℕ × List Deletion) × List ℕ)
  unfolding decode_queued_deletion push_times
  decode_deletions buf ctx = do
    (replica_id, buf) ← map_err int (decode_u64 buf)
    (num_deletions, buf) ← map_err int (decode_u64 buf)
    (queue, buf) ← push_times num_deletions decode_queued_deletion [] buf
    ok (ReplicaIdMap.insert replica_id queue ctx, buf)

  unfoldable pub encode_backlog : Backlog → List ℕ
  unfolding encode_insertions encode_deletions
  encode_backlog b =
      encode_u64 (length b.insertions)
      ++ (encode_all encode_insertions b.insertions
          ++ (encode_u64 (length b.deletions) ++ encode_all encode_deletions b.deletions))

  unfoldable pub decode_backlog : List ℕ → Result BacklogDecodeError (Backlog × List ℕ)
  unfolding decode_insertions decode_deletions decode_times
  decode_backlog buf = do
    (num_replicas, buf) ← map_err int (decode_u64 buf)
    (insertions, buf) ← decode_times num_replicas decode_insertions [] buf
    (num_replicas, buf) ← map_err int (decode_u64 buf)
    (deletions, buf) ← decode_times num_replicas decode_deletions [] buf
    ok (record { insertions = insertions; deletions = deletions }, buf)
