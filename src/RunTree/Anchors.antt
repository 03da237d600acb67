-- ===== src/RunTree/Anchors.antt =====
-- The anchors of the run tree: `create_anchor` and `resolve_anchor` (src/run_tree.rs).
use cola.Prelude.{
  ℕ, zero, suc, false, none, some, Result, ok, err, ◌>>=◌, ◌==◌, ◌&&◌, length, if◌then◌else◌, add,
  sub,
}
use cola.Panics.{Panic, none_unwrapped, out_of_rounds}
use cola.Anchor.{
  InnerAnchor, Anchor, AnchorBias, same_bias, start_of_document, end_of_document,
  is_start_of_document, is_end_of_document,
}
use cola.EditRun
use cola.EditRun.{EditRun}
use cola.Gtree.{Gtree, leaf, gtree_len}
use cola.Gtree.Find.{leaf_at_offset, offset_of_leaf}
use cola.Gtree.Iter.{LeavesFrom, leaves_from, leaves_from_first, next}
use cola.RunIndices.{idx_at_anchor}
use cola.RunTree.Runs.{Runs, leaf_runs}

unfoldable pub len : Runs → Result Panic ℕ
unfolding gtree_len
len t = gtree_len t.gtree

-- `find_map(|(_, run)| (!run.is_deleted).then_some(run))` and `expect`
unfoldable pub first_visible : Gtree EditRun → ℕ → LeavesFrom → Result Panic EditRun
unfolding next
first_visible g zero it = err out_of_rounds
first_visible g (suc k) it = do
  found ← next g it
  elim found [
    | none ↦ err none_unwrapped
    | some ((idx, run), it') ↦
        let rest = first_visible g k it' in if run.is_deleted then rest else ok run
  ]

abbrev at_start_of : EditRun → InnerAnchor
at_start_of run = record {
  replica_id = EditRun.replica_id run;
  contained_in = run.run_ts;
  offset = EditRun.start run;
}

-- The run that an anchor at an offset is attached to, with the offset that this run starts at.
abbrev attached_to : Runs → ℕ → AnchorBias → Result Panic (EditRun × ℕ)
unfolding leaf_at_offset leaf leaves_from first_visible
attached_to t at_offset with_bias = do
  (leaf_idx, leaf_offset) ← leaf_at_offset ⦃P = leaf_runs⦄ at_offset t.gtree
  edit_run ← leaf leaf_idx t.gtree
  let leaf_end = add leaf_offset (EditRun.len edit_run)
  let after : Result Panic (EditRun × ℕ) = (do
    it ← leaves_from false leaf_idx t.gtree
    next_run ← first_visible t.gtree (suc (length t.gtree.lnodes)) it
    ok (next_run, leaf_end))
  if same_bias with_bias AnchorBias.right && leaf_end == at_offset
      then after
      else ok (edit_run, leaf_offset)

unfoldable pub create_anchor : Runs → ℕ → AnchorBias → Result Panic Anchor
unfolding len leaves_from_first first_visible leaf_at_offset leaf leaves_from
create_anchor t at_offset with_bias = do
  tot_len ← len t
  let at_first : Result Panic Anchor = (do
    it ← leaves_from_first t.gtree
    run ← first_visible t.gtree (suc (length t.gtree.lnodes)) it
    ok (record { inner = at_start_of run; bias = AnchorBias.right }))
  let inside : Result Panic Anchor = (do
    (run, leaf_offset) ← attached_to t at_offset with_bias
    ok (record {
      inner = record (at_start_of run) {
        offset = sub (add (EditRun.start run) at_offset) leaf_offset;
      };
      bias = with_bias;
    }))
  if at_offset == tot_len && same_bias with_bias AnchorBias.right
      then ok end_of_document
      else if at_offset == 0
      then if same_bias with_bias AnchorBias.left then ok start_of_document else at_first
      else inside

-- The position of a run, and how far into it the anchor points.
abbrev resolve_inside : Runs → Anchor → Result Panic ℕ
unfolding idx_at_anchor offset_of_leaf leaf
resolve_inside t anchor = do
  anchor_idx ← idx_at_anchor t.run_indices anchor.inner anchor.bias
  anchor_offset ← offset_of_leaf ⦃P = leaf_runs⦄ anchor_idx t.gtree
  run ← leaf anchor_idx t.gtree
  let offset_in_anchor = if run.is_deleted then 0 else sub anchor.inner.offset (EditRun.start run)
  ok (add anchor_offset offset_in_anchor)

unfoldable pub resolve_anchor : Runs → Anchor → Result Panic ℕ
unfolding len idx_at_anchor offset_of_leaf leaf
resolve_anchor t anchor =
    let inside = resolve_inside t anchor in
    if is_start_of_document anchor
    then ok 0
    else if is_end_of_document anchor
    then len t
    else inside
