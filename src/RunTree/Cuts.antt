-- ===== src/RunTree/Cuts.antt =====
-- The deletion of a range of characters in the run tree: `delete` (src/run_tree.rs).
use cola.Prelude.{ℕ, Bool, true, false, Option, none, some, ok, ltb, ◌==◌, if◌then◌else◌, add}
use cola.Panics.{unreachable}
use cola.Text
use cola.Text.{Range}
use cola.Anchor.{InnerAnchor, zero_anchor}
use cola.VersionMap
use cola.VersionMap.{BaseMap}
use cola.Slices.{Cmd, pure, panic, ◌>>=◌, ◌>>◌}
use cola.EditRun
use cola.EditRun.{EditRun}
use cola.Gtree.Insert.{Edited}
use cola.Gtree.Delete.{DeleteWith}
use cola.Gtree.Delete.Span
use cola.RunIndices
use cola.RunTree.Runs.{Runs, leaf_runs, on_gtree, on_indices, anchor_in}

-- The variables that the closures of a deletion assign to. The anchors at the two ends have the author,
-- the run and the offset of the splits.
pub record Deleting : Type 0 where
  pub version_map : BaseMap
  pub split_across_runs : Bool
  pub start : InnerAnchor
  pub end : InnerAnchor
  pub id_range : ℕ
  pub run_ts_range : ℕ
  pub deleted_range_offset : ℕ
  pub deleted_range_run_len : ℕ
  pub deleted_range : Range

abbrev nothing_deleted : BaseMap → Deleting
nothing_deleted version_map = record {
  version_map = version_map;
  split_across_runs = false;
  start = zero_anchor;
  end = zero_anchor;
  id_range = 0;
  run_ts_range = 0;
  deleted_range_offset = 0;
  deleted_range_run_len = 0;
  deleted_range = record { start = 0; end = 0 };
}

-- `|run| if !run.is_deleted { version_map.insert(run.replica_id(), 0) }`
unfoldable pub before_delete : EditRun → Deleting → Deleting
unfolding VersionMap.insert
before_delete run s =
    if run.is_deleted
    then s
    else record s { version_map = VersionMap.insert s.version_map (EditRun.replica_id run) 0 }

unfoldable pub delete_range_with : Deleting → EditRun → Range → Edited Deleting EditRun
unfolding EditRun.delete_range
delete_range_with s run range =
    let (value, first, second) = EditRun.delete_range run range in
    record {
      captured = record s {
        id_range = EditRun.replica_id run;
        run_ts_range = run.run_ts;
        deleted_range_offset = EditRun.start run;
        deleted_range_run_len = EditRun.len run;
        deleted_range = range;
      };
      value = value;
      first = first;
      second = second;
    }

unfoldable pub delete_with : DeleteWith Deleting EditRun
unfolding before_delete EditRun.delete_range EditRun.delete_from EditRun.delete_up_to
    delete_range_with
delete_with = record {
  before_delete = before_delete;
  delete_leaf = EditRun.delete;
  delete_range = λ s run range. ok (delete_range_with s run range);
  delete_from = λ s run offset.
      (let (value, rest) = EditRun.delete_from run offset in
        ok (record s { split_across_runs = true; start = anchor_in run offset }, value, rest));
  delete_up_to = λ s run offset.
      (let (value, rest) = EditRun.delete_up_to run offset in
        ok (record s { end = anchor_in run offset }, value, rest));
}

-- A split of the run that an anchor is in, where there is one.
abbrev pub index_split : InnerAnchor → Option ℕ → Cmd Runs (Unit {0})
index_split at none = pure tt
index_split at (some idx) =
    on_indices at.replica_id (λ r. RunIndices.split r at.contained_in at.offset idx)

-- The end of a deleted prefix, or the start of another deleted range.
abbrev pub split_offset : Range → ℕ
split_offset range = if range.start == 0 then range.end else range.start

-- The indices after the deletion in one run of a range that is joined with a neighbour.
abbrev pub index_moved : ℕ → ℕ → ℕ → ℕ → Range → Cmd Runs (Unit {0})
unfolding RunIndices.update RunIndices.move_len_to_prev_split RunIndices.move_len_to_next_split
index_moved id run_ts offset run_len range =
    if range.start == 0
    then on_indices id (λ r.
      RunIndices.move_len_to_prev_split r run_ts (add offset range.end) (Text.range_len range))
    else if range.end == run_len
    then on_indices id (λ r.
      RunIndices.move_len_to_next_split r run_ts (add offset range.start) (Text.range_len range))
    else panic unreachable

-- The `match` on the indices of the new leaves, after a deletion in one run.
unfoldable pub index_deleted : Option ℕ → Option ℕ → ℕ → ℕ → ℕ → ℕ → Range → Cmd Runs (Unit {0})
unfolding RunIndices.update RunIndices.split RunIndices.move_len_to_prev_split
    RunIndices.move_len_to_next_split
index_deleted (some first) (some second) id run_ts offset run_len range =
    on_indices id (λ r. RunIndices.split r run_ts (add range.start offset) first)
    >> on_indices id (λ r. RunIndices.split r run_ts (add range.end offset) second)
index_deleted (some first) none id run_ts offset run_len range =
    on_indices id (λ r. RunIndices.split r run_ts (add offset (split_offset range)) first)
index_deleted none (some second) id run_ts offset run_len range = pure tt
index_deleted none none id run_ts offset run_len range =
    if ltb (Text.range_len range) run_len
    then index_moved id run_ts offset run_len range
    else pure tt

unfoldable pub delete : Range → BaseMap → Cmd Runs (InnerAnchor × InnerAnchor × BaseMap)
unfolding Span.delete delete_with index_deleted RunIndices.update RunIndices.split
delete range version_map = do
  (s, first_idx, second_idx) ←
      on_gtree (Span.delete ⦃P = leaf_runs⦄ delete_with range (nothing_deleted version_map))
  let across : Cmd Runs (InnerAnchor × InnerAnchor × BaseMap) = (do
    index_split s.start first_idx
    index_split s.end second_idx
    pure (s.start, s.end, s.version_map))
  let at : ℕ → InnerAnchor = λ offset. record {
    replica_id = s.id_range;
    contained_in = s.run_ts_range;
    offset = add s.deleted_range_offset offset;
  }
  let inside : Cmd Runs (InnerAnchor × InnerAnchor × BaseMap) = (do
    index_deleted first_idx second_idx s.id_range s.run_ts_range s.deleted_range_offset
        s.deleted_range_run_len s.deleted_range
    pure (at s.deleted_range.start, at s.deleted_range.end, s.version_map))
  if s.split_across_runs then across else inside
