-- ===== src/RunTree/Merge.antt =====
-- The merging of remote insertions into the run tree: `merge_insertion` (src/run_tree.rs) and the steps
-- that it takes.
use cola.Prelude.{ℕ, suc, false, [], ◌∷◌, length, if◌then◌else◌, add, sub, ltb}
use cola.Anchor.{is_zero, AnchorBias}
use cola.Insertion.{Insertion}
use cola.Slices.{Cmd, read, pure, ◌>>=◌, ◌>>◌}
use cola.EditRun
use cola.EditRun.{EditRun}
use cola.Gtree.{leaf}
use cola.Gtree.Edit.{prepend, split_leaf_with_another}
use cola.Gtree.Iter.{leaves_from_first, next}
use cola.Gtree.Walk.{siblings}
use cola.RunIndices
use cola.RunIndices.{idx_at_anchor}
use cola.RunTree.Runs.{
  Runs, leaf_runs, on_gtree, see, on_indices, append_run_to_another, insert_run_after_another,
}
use cola.RunTree.Places.{
  from_insertion, is_gt, is_lt, last_smaller, last_smaller_after, last_smaller_sibling,
  first_and_rest, split_around,
}

unfoldable pub split_run_with_another : EditRun → ℕ → ℕ → Cmd Runs ℕ
unfolding leaf EditRun.split split_leaf_with_another RunIndices.update RunIndices.append
    RunIndices.split
split_run_with_another run insert_into at_offset = do
  splitting ← see (leaf insert_into)
  (offset, inserted_idx, split_idx) ←
      on_gtree (split_leaf_with_another ⦃P = leaf_runs⦄ insert_into (split_around run at_offset))
  on_indices (EditRun.replica_id run) (λ r. RunIndices.append r (EditRun.len run) inserted_idx)
  on_indices (EditRun.replica_id splitting)
      (λ r. RunIndices.split r splitting.run_ts (add (EditRun.start splitting) at_offset) split_idx)
  pure offset

-- The new first run.
abbrev prepend_run : EditRun → Cmd Runs ℕ
unfolding prepend RunIndices.update RunIndices.append
prepend_run run = do
  idx ← on_gtree (prepend ⦃P = leaf_runs⦄ run)
  on_indices (EditRun.replica_id run) (λ r. RunIndices.append r (EditRun.len run) idx)
  pure 0

unfoldable pub insert_run_at_zero : EditRun → Cmd Runs ℕ
unfolding prepend RunIndices.update RunIndices.append leaves_from_first next EditRun.cmp
    last_smaller insert_run_after_another
insert_run_at_zero run = do
  ((prev_idx, first_leaf), it) ← see first_and_rest
  let later : Cmd Runs ℕ = (do
    prev_idx ← see (λ g. last_smaller g run prev_idx (suc (length g.lnodes)) it)
    insert_run_after_another run prev_idx)
  if is_lt (EditRun.cmp run first_leaf) then prepend_run run else later

-- Behind the end of the run that the anchor is in.
unfoldable pub insert_run_behind : EditRun → ℕ → EditRun → Cmd Runs ℕ
unfolding siblings leaf EditRun.cmp EditRun.can_append append_run_to_another
    insert_run_after_another last_smaller_sibling last_smaller_after
insert_run_behind run anchor_idx anchor = do
  idxs ← see (siblings false anchor_idx)
  elim idxs [
    | [] ↦ do
      prev_idx ← see (λ g. last_smaller_after g run anchor_idx)
      insert_run_after_another run prev_idx
    | idx ∷ rest ↦ do
      next_sibling ← see (leaf idx)
      let later : Cmd Runs ℕ = (do
        prev_idx ← see (λ g. last_smaller_sibling g run idx rest)
        insert_run_after_another run prev_idx)
      let joined = append_run_to_another run anchor_idx
      let apart = insert_run_after_another run anchor_idx
      if is_gt (EditRun.cmp run next_sibling)
          then later
          else if EditRun.can_append anchor run
          then joined
          else apart
  ]

unfoldable pub merge_insertion : Insertion → Cmd Runs ℕ
unfolding idx_at_anchor leaf insert_run_at_zero split_run_with_another insert_run_behind
merge_insertion insertion =
    let run = from_insertion insertion in
    let inside : Cmd Runs ℕ = (do
      anchor_idx ← read (λ t. idx_at_anchor t.run_indices insertion.anchor AnchorBias.left)
      anchor ← see (leaf anchor_idx)
      let insert_at = sub insertion.anchor.offset (EditRun.start anchor)
      let within = split_run_with_another run anchor_idx insert_at
      let behind = insert_run_behind run anchor_idx anchor
      if ltb insertion.anchor.offset (EditRun.end anchor) then within else behind) in
    if is_zero insertion.anchor then insert_run_at_zero run else inside
