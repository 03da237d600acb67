-- ===== src/RunTree/Targets.antt =====
-- Which leaves a remote deletion starts at and goes on with, in `merge_deletion` and
-- `delete_leaf_range` (src/run_tree.rs).
use cola.Prelude.{
  ℕ, zero, suc, Bool, Option, none, some, Result, ok, err, ◌>>=◌, ◌==◌, ◌&&◌, length, if◌then◌else◌,
  ltb, leb,
}
use cola.Panics.{Panic, none_unwrapped, out_of_rounds}
use cola.Text
use cola.Text.{Range}
use cola.Anchor.{InnerAnchor, AnchorBias, is_zero}
use cola.VersionMap
use cola.Deletion.{Deletion}
use cola.EditRun
use cola.EditRun.{EditRun}
use cola.Fragments.Tree.{unwrap}
use cola.Gtree.{Gtree}
use cola.Gtree.Walk.{next_leaf}
use cola.Gtree.Iter.{LeavesFrom, leaves_from_first, next}
use cola.RunIndices.{idx_at_anchor}
use cola.RunTree.Runs.{Runs}

abbrev pub contains_anchor : EditRun → InnerAnchor → Bool
contains_anchor run anchor =
    EditRun.replica_id run == anchor.replica_id
    && (ltb (EditRun.start run) anchor.offset && leb anchor.offset (EditRun.end run))

-- The first run of which the deletion has seen a part.
unfoldable pub first_seen : Deletion → Gtree EditRun → ℕ → LeavesFrom → Result Panic ℕ
unfolding next VersionMap.get
first_seen d g zero it = err out_of_rounds
first_seen d g (suc k) it = do
  found ← next g it
  elim found [
    | none ↦ err none_unwrapped
    | some ((idx, run), it') ↦
        let rest = first_seen d g k it' in
        if ltb (EditRun.start run) (VersionMap.get d.version_map (EditRun.replica_id run))
        then ok idx
        else rest
  ]

unfoldable pub start_idx : Deletion → Runs → Result Panic ℕ
unfolding leaves_from_first first_seen idx_at_anchor
start_idx d t =
    let seen : Result Panic ℕ = (do
      it ← leaves_from_first t.gtree
      first_seen d t.gtree (suc (length t.gtree.lnodes)) it) in
    let at_anchor = idx_at_anchor t.run_indices d.start AnchorBias.right in
    if is_zero d.start then seen else at_anchor

abbrev next_or_same : ℕ → Gtree EditRun → Result Panic ℕ
unfolding next_leaf
next_or_same idx g = do
  next ← next_leaf idx g
  elim next [ none ↦ ok idx | some next_idx ↦ ok next_idx ]

abbrev pub next_existing : ℕ → Gtree EditRun → Result Panic ℕ
unfolding next_leaf
next_existing idx g = do next ← next_leaf idx g; unwrap next

-- The leaf behind a range that was deleted in a leaf, from the indices of the leaves that this made.
unfoldable pub next_after : Option ℕ → Option ℕ → ℕ → ℕ → Range → Gtree EditRun → Result Panic ℕ
unfolding next_leaf
next_after (some first) (some second) leaf_idx run_len range g = ok second
next_after (some first) none leaf_idx run_len range g =
    let next = next_or_same first g in if range.start == 0 then ok first else next
next_after none (some second) leaf_idx run_len range g = next_or_same leaf_idx g
next_after none none leaf_idx run_len range g =
    let next = next_or_same leaf_idx g in
    let existing = next_existing leaf_idx g in
    if ltb (Text.range_len range) run_len
    then if range.start == 0 then ok leaf_idx else existing
    else next
