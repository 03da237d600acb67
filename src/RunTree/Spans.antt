-- ===== src/RunTree/Spans.antt =====
-- The merging of remote deletions into the run tree: `merge_deletion` and `delete_leaf_range`
-- (src/run_tree.rs).
use cola.Prelude.{
  ℕ, zero, suc, true, List, [], ◌∷◌, ◌++◌, ok, ◌==◌, length, ltb, leb, if◌then◌else◌, add, sub,
  none, ◌+◌,
}
use cola.Panics.{out_of_rounds}
use cola.Text.{Range}
use cola.Anchor.{AnchorBias, is_zero}
use cola.VersionMap
use cola.Deletion.{Deletion}
use cola.Slices.{Cmd, pure, panic, read, ◌>>=◌, ◌>>◌}
use cola.EditRun
use cola.EditRun.{EditRun}
use cola.Fragments.Tree.{unwrap}
use cola.Gtree.{leaf, set_cursor}
use cola.Gtree.Edit.{with_leaf_mut}
use cola.Gtree.Find.{offset_of_leaf}
use cola.Gtree.Iter.{LeavesFrom, leaves_from, next}
use cola.Gtree.Delete
use cola.Gtree.Delete.{DeleteWith}
use cola.RunIndices.{idx_at_anchor}
use cola.RunTree.Runs.{Runs, leaf_runs, on_gtree, see}
use cola.RunTree.Cuts.{index_deleted}
use cola.RunTree.Targets.{contains_anchor, start_idx, next_after, next_existing}

abbrev range_from : ℕ → ℕ → Range
range_from start end = record { start = start; end = end }

-- The closures capture no variable. Only the one for a range in a leaf is called.
unfoldable pub delete_in_run : DeleteWith (Unit {0}) EditRun
unfolding EditRun.delete_range EditRun.delete_from EditRun.delete_up_to
delete_in_run = record {
  before_delete = λ run s. s;
  delete_leaf = EditRun.delete;
  delete_range = λ s run range.
      (let (value, first, second) = EditRun.delete_range run range in
        ok (record { captured = s; value = value; first = first; second = second }));
  delete_from =
      λ s run offset. (let (value, rest) = EditRun.delete_from run offset in ok (s, value, rest));
  delete_up_to =
      λ s run offset. (let (value, rest) = EditRun.delete_up_to run offset in ok (s, value, rest));
}

unfoldable pub delete_leaf_range : ℕ → ℕ → Range → Cmd Runs ℕ
unfolding leaf Delete.delete_leaf_range delete_in_run index_deleted next_after
delete_leaf_range leaf_idx leaf_offset range = do
  run ← see (leaf leaf_idx)
  (s, first_idx, second_idx) ←
      on_gtree
        (Delete.delete_leaf_range ⦃P = leaf_runs⦄ delete_in_run leaf_idx leaf_offset range tt)
  index_deleted first_idx second_idx (EditRun.replica_id run) run.run_ts (EditRun.start run)
      (EditRun.len run) range
  see (next_after first_idx second_idx leaf_idx (EditRun.len run) range)

pub data DeletionState : Type 0 where
  deleting : ℕ → DeletionState
  skipping starting : DeletionState

-- The variables of the loop.
pub record Merging : Type 0 where
  pub leaf_offset : ℕ
  pub visible_offset : ℕ
  pub state : DeletionState
  pub ranges : List Range

-- What a pass of the loop ends in.
pub data Pass : Type 0 where
  done : List Range → Pass
  again : LeavesFrom → Merging → Pass

-- Where the range that is being deleted starts, else here.
abbrev deletion_start : DeletionState → ℕ → ℕ
deletion_start (deleting start) visible_offset = start
deletion_start skipping visible_offset = visible_offset
deletion_start starting visible_offset = visible_offset

-- `if let DeletionState::Deleting(start_offset) = state { ranges.push(start_offset..visible_offset) }`
abbrev closed : DeletionState → ℕ → List Range → List Range
closed (deleting start) visible_offset ranges = ranges ++ (range_from start visible_offset ∷ [])
closed skipping visible_offset ranges = ranges
closed starting visible_offset ranges = ranges

abbrev with_deleted : Merging → ℕ → List Range
with_deleted m up_to =
    m.ranges
    ++ (range_from (deletion_start m.state m.visible_offset) (add m.visible_offset up_to) ∷ [])

-- At the run with the end of the deletion.
unfoldable pub end_pass : Deletion → ℕ → EditRun → Merging → Cmd Runs Pass
unfolding delete_leaf_range
end_pass d end_idx run m =
    let nothing : Cmd Runs Pass = (do
      on_gtree (set_cursor none)
      pure (done (closed m.state m.visible_offset m.ranges))) in
    let up_to = sub d.end.offset (EditRun.start run) in
    let prefix : Cmd Runs Pass = (do
      next_idx ← delete_leaf_range end_idx m.leaf_offset (range_from 0 up_to)
      pure (done (with_deleted m up_to))) in
    if run.is_deleted then nothing else prefix

-- At a run that the deletion has seen a prefix of.
unfoldable pub partial_pass : ℕ → EditRun → ℕ → Merging → Cmd Runs Pass
unfolding delete_leaf_range leaves_from
partial_pass run_idx run up_to m = do
  next_idx ← delete_leaf_range run_idx m.leaf_offset (range_from 0 up_to)
  it ← see (leaves_from true next_idx)
  pure (
      again it (record m {
        ranges = with_deleted m up_to;
        state = skipping;
        visible_offset = add m.visible_offset up_to;
      }))

-- Past a run that the deletion has not seen.
abbrev skipped : EditRun → Merging → Merging
skipped run m = record {
  leaf_offset = add m.leaf_offset (EditRun.len run);
  visible_offset = add m.visible_offset (EditRun.len run);
  state = skipping;
  ranges = closed m.state m.visible_offset m.ranges;
}

-- At a run that the deletion has seen all of.
unfoldable pub whole_pass : ℕ → EditRun → LeavesFrom → Merging → Cmd Runs Pass
unfolding with_leaf_mut
whole_pass run_idx run it m = do
  on_gtree (with_leaf_mut ⦃P = leaf_runs⦄ run_idx (λ r. ok (EditRun.delete r)))
  on_gtree (set_cursor none)
  pure (
      again it (record m {
        state = deleting (deletion_start m.state m.visible_offset);
        visible_offset = add m.visible_offset (EditRun.len run);
      }))

-- One pass of the loop.
unfoldable pub pass : Deletion → ℕ → LeavesFrom → Merging → Cmd Runs Pass
unfolding next end_pass VersionMap.get partial_pass whole_pass
pass d end_idx it m = do
  found ← see (λ g. next g it)
  ((run_idx, run), it') ← read (λ t. unwrap found)
  let deleted_up_to = VersionMap.get d.version_map (EditRun.replica_id run)
  let at_end = end_pass d end_idx run m
  let partial = partial_pass run_idx run (sub deleted_up_to (EditRun.start run)) m
  let whole = whole_pass run_idx run it' m
  if run_idx == end_idx
      then at_end
      else if run.is_deleted
      then pure (again it' m)
      else if ltb deleted_up_to (EditRun.end run)
      then if leb deleted_up_to (EditRun.start run)
        then pure (again it' (skipped run m))
        else partial
      else whole

-- The loop.
unfoldable pub merge_from : Deletion → ℕ → ℕ → LeavesFrom → Merging → Cmd Runs (List Range)
unfolding pass
merge_from d end_idx zero it m = panic out_of_rounds
merge_from d end_idx (suc k) it m = do
  passed ← pass d end_idx it m
  elim passed [ done ranges ↦ pure ranges | again it' m' ↦ merge_from d end_idx k it' m' ]

-- How far into its run a deletion starts.
abbrev delete_from : Deletion → EditRun → ℕ
delete_from d run = if is_zero d.start then 0 else sub d.start.offset (EditRun.start run)

-- The first run, and the leaf and the state that the loop starts with.
unfoldable pub merge_start : Deletion → ℕ → EditRun → ℕ → Cmd Runs (ℕ × Merging)
unfolding next_after VersionMap.get delete_leaf_range
merge_start d idx start leaf_offset =
    let from = delete_from d start in
    let deleted_up_to = VersionMap.get d.version_map (EditRun.replica_id start) in
    let up_to = sub deleted_up_to (EditRun.start start) in
    let to_start : Cmd Runs (ℕ × Merging) = (do
      next_idx ← see (next_existing idx)
      pure (
        next_idx,
        record {
          leaf_offset = leaf_offset;
          visible_offset = leaf_offset;
          state = starting;
          ranges = [];
        },
      )) in
    let a_part : Cmd Runs (ℕ × Merging) = (do
      next_idx ← delete_leaf_range idx leaf_offset (range_from from up_to)
      pure (
        next_idx,
        record {
          leaf_offset = add leaf_offset from;
          visible_offset = add leaf_offset up_to;
          state = skipping;
          ranges = range_from (add leaf_offset from) (add leaf_offset up_to) ∷ [];
        },
      )) in
    let to_end : Cmd Runs (ℕ × Merging) = (do
      next_idx ← delete_leaf_range idx leaf_offset (range_from from (EditRun.len start))
      pure (
        next_idx,
        record {
          leaf_offset = add leaf_offset from;
          visible_offset = add leaf_offset (EditRun.len start);
          state = deleting (add leaf_offset from);
          ranges = [];
        },
      )) in
    if start.is_deleted
    then to_start
    else if ltb deleted_up_to (EditRun.end start)
    then a_part
    else to_end

-- A deletion that starts and ends in one run.
unfoldable pub merge_inside : Deletion → ℕ → EditRun → ℕ → Cmd Runs (List Range)
unfolding delete_leaf_range
merge_inside d idx run leaf_offset =
    let from = delete_from d run in
    let up_to = sub d.end.offset (EditRun.start run) in
    let visible : Cmd Runs (List Range) = (do
      next_idx ← delete_leaf_range idx leaf_offset (range_from from up_to)
      pure (range_from (add from leaf_offset) (add up_to leaf_offset) ∷ [])) in
    if run.is_deleted then pure [] else visible

-- The loop passes a leaf at most twice: with a part of it deleted, the rest comes again.
unfoldable pub merge_deletion : Deletion → Cmd Runs (List Range)
unfolding start_idx offset_of_leaf leaf merge_inside idx_at_anchor merge_start leaves_from
    merge_from
merge_deletion d = do
  idx ← read (start_idx d)
  leaf_offset ← see (offset_of_leaf ⦃P = leaf_runs⦄ idx)
  start ← see (leaf idx)
  let across : Cmd Runs (List Range) = (do
    end_idx ← read (λ t. idx_at_anchor t.run_indices d.end AnchorBias.left)
    (first_idx, m) ← merge_start d idx start leaf_offset
    it ← see (leaves_from true first_idx)
    n ← read (λ t. ok (length t.gtree.lnodes))
    merge_from d end_idx (suc (n + n)) it m)
  let inside = merge_inside d idx start leaf_offset
  if contains_anchor start d.end then inside else across
