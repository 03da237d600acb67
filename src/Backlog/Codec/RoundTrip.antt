-- ===== src/Backlog/Codec/RoundTrip.antt =====
-- A backlog is read back from its encoding.
use cola.Prelude.{
  ℕ, ◌≡◌, sym, List, [], ◌++◌, append_assoc, ok, length, All, IsU64, add, sub, arith,
}
use cola.Text
use cola.Leb128.{Varint, IsVarint}
use cola.Codec.RoundTrip.{decode_u64-encode_u64}
use cola.Codec.Items.{push_times-encode_all, decode_times-encode_all}
use cola.Anchor
use cola.Anchor.Codec.{decode_inner_anchor-encode_inner_anchor}
use cola.ReplicaIdMap
use cola.ReplicaIdMap.{HasUniqueKeys}
use cola.VersionMap
use cola.VersionMap.Codec.{Fits, decode_map-encode_map}
use cola.Insertion
use cola.Insertion.{Insertion}
use cola.Deletion.{Deletion}
use cola.Backlog.{Backlog}
use cola.Backlog.Codec.{
  encode_queued_insertion, decode_queued_insertion, encode_queued_deletion, decode_queued_deletion,
  encode_insertions, decode_insertions, encode_deletions, decode_deletions, encode_backlog,
  decode_backlog,
}

-- Valid edits under the id of the queue that they stand in.
pub record QueuedInsertion (id : ℕ) (i : Insertion) : Type 0 where
  pub by : Insertion.inserted_by i ≡ id
  pub insertion : Insertion.IsValid i

pub record QueuedDeletion (d : Deletion) : Type 0 where
  pub start : Anchor.IsValid d.start
  pub end : Anchor.IsValid d.end
  pub map : VersionMap.IsValid d.version_map
  pub map_fits : Fits d.version_map
  pub ts_fits : IsU64 d.deletion_ts

abbrev pub InsertionQueue : ℕ × List Insertion → Type 0
InsertionQueue (id, queue) = IsU64 id × IsU64 (length queue) × All (QueuedInsertion id) queue

abbrev pub DeletionQueue : ℕ × List Deletion → Type 0
DeletionQueue (id, queue) = IsU64 id × IsU64 (length queue) × All QueuedDeletion queue

pub record IsValid (b : Backlog) : Type 0 where
  pub insertion_ids : HasUniqueKeys b.insertions
  pub insertions_fit : IsU64 (length b.insertions)
  pub insertions : All InsertionQueue b.insertions
  pub deletion_ids : HasUniqueKeys b.deletions
  pub deletions_fit : IsU64 (length b.deletions)
  pub deletions : All DeletionQueue b.deletions

module _ ⦃v : Varint⦄ (laws : IsVarint v) where
  decode_queued_insertion-encode_queued_insertion :
      (id : ℕ) (i : Insertion) (rest : List ℕ)
      → QueuedInsertion id i
      → decode_queued_insertion id (encode_queued_insertion i ++ rest) ≡ ok (i, rest)
  unfolding decode_queued_insertion encode_queued_insertion
  decode_queued_insertion-encode_queued_insertion id i rest q =
      let h = q.insertion in
      let t : Text.IsValid i.text = h.text in
      let len = sub i.text.range.end i.text.range.start in
      let e : add i.text.range.start len ≡ i.text.range.end =
        omega (arith, t.ordered, t.end_fits) in
      simp append_assoc (
        rw (
          decode_inner_anchor-encode_inner_anchor laws i.anchor _ h.anchor,
          decode_u64-encode_u64 laws i.text.range.start _ (omega (arith, t.ordered, t.end_fits)),
          decode_u64-encode_u64 laws len _ (omega (arith, t.ordered, t.end_fits)),
          decode_u64-encode_u64 laws i.run_ts _ h.run_ts_fits,
          decode_u64-encode_u64 laws i.lamport_ts _ h.lamport_ts_fits,
          e,
          sym q.by,
        ))

  decode_queued_deletion-encode_queued_deletion :
      (d : Deletion) (rest : List ℕ)
      → QueuedDeletion d
      → decode_queued_deletion (encode_queued_deletion d ++ rest) ≡ ok (d, rest)
  unfolding decode_queued_deletion encode_queued_deletion
  decode_queued_deletion-encode_queued_deletion d rest h = simp append_assoc (
      rw (
        decode_inner_anchor-encode_inner_anchor laws d.start _ h.start,
        decode_inner_anchor-encode_inner_anchor laws d.end _ h.end,
        decode_map-encode_map laws d.version_map _ h.map h.map_fits,
        decode_u64-encode_u64 laws d.deletion_ts _ h.ts_fits,
      ))

  decode_insertions-encode_insertions :
      (id : ℕ) (queue : List Insertion) (ctx : List (ℕ × List Insertion)) (rest : List ℕ)
      → InsertionQueue (id, queue)
      → decode_insertions (encode_insertions (id, queue) ++ rest) ctx
        ≡ ok (ReplicaIdMap.insert id queue ctx, rest)
  unfolding decode_insertions encode_insertions
  decode_insertions-encode_insertions id queue ctx rest (a, b, c) = simp append_assoc (
      rw (
        decode_u64-encode_u64 laws id _ a,
        decode_u64-encode_u64 laws (length queue) _ b,
        push_times-encode_all encode_queued_insertion (decode_queued_insertion id)
            (QueuedInsertion id) (decode_queued_insertion-encode_queued_insertion id) queue [] rest
            c,
      ))

  decode_deletions-encode_deletions :
      (id : ℕ) (queue : List Deletion) (ctx : List (ℕ × List Deletion)) (rest : List ℕ)
      → DeletionQueue (id, queue)
      → decode_deletions (encode_deletions (id, queue) ++ rest) ctx
        ≡ ok (ReplicaIdMap.insert id queue ctx, rest)
  unfolding decode_deletions encode_deletions
  decode_deletions-encode_deletions id queue ctx rest (a, b, c) = simp append_assoc (
      rw (
        decode_u64-encode_u64 laws id _ a,
        decode_u64-encode_u64 laws (length queue) _ b,
        push_times-encode_all encode_queued_deletion decode_queued_deletion QueuedDeletion
            decode_queued_deletion-encode_queued_deletion queue [] rest c,
      ))

  -- A backlog with one queue for each replica id, whose queues hold valid edits of their replica and
  -- whose sizes fit in 64 bits, is read back from its encoding with its queues and their items in
  -- the same order, and what follows it is left.
  pub decode_backlog-encode_backlog :
      (b : Backlog) (rest : List ℕ)
      → IsValid b
      → decode_backlog (encode_backlog b ++ rest) ≡ ok (b, rest)
  unfolding decode_backlog encode_backlog
  decode_backlog-encode_backlog b rest h = simp append_assoc (
      rw (
        decode_u64-encode_u64 laws (length b.insertions) _ h.insertions_fit,
        decode_times-encode_all encode_insertions decode_insertions InsertionQueue
            decode_insertions-encode_insertions b.insertions [] _ h.insertions h.insertion_ids,
        decode_u64-encode_u64 laws (length b.deletions) _ h.deletions_fit,
        decode_times-encode_all encode_deletions decode_deletions DeletionQueue
            decode_deletions-encode_deletions b.deletions [] rest h.deletions h.deletion_ids,
      ))
