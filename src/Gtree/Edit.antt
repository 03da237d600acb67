-- ===== src/Gtree/Edit.antt =====
-- Creating trees, editing leaves in place and adding leaves next to others (src/gtree.rs).
use cola.Prelude.{
  ℕ, suc, true, none, some, List, [], ◌∷◌, Result, ok, err, map_ok, ◌==◌, if◌then◌else◌, add, ltb,
  length,
}
use cola.Panics.{Panic, in_run_tree, index_out_of_bounds}
use cola.Slices.{Cmd, pure, read, ◌>>=◌, ◌>>◌}
use cola.Gtree.{
  Leaves, Gtree, Lnode, cursor_at, diff, dangling, inode, lnode, leaf, update_lnode, set_cursor,
}
use cola.Gtree.Node.{from_leaf, idx_of_leaf_child}
use cola.Gtree.Find.{offset_of_leaf, idx_of_leaf_in_parent}
use cola.Gtree.Walk.{first_leaf_idx, last_leaf}
use cola.Gtree.Grow.{
  push_leaf, push_inode, patch, insert_leaf_after_leaf, insert_leaf_before_leaf,
  insert_two_leaves_after_leaf,
}

-- The positions in the vectors, from `i` on, and the nodes of the leaves.
abbrev pub indices : {L : Type 0} → List L → ℕ → List ℕ
indices [] i = []
indices (l ∷ ls) i = i ∷ indices ls (suc i)

abbrev pub lnodes_of : {L : Type 0} → List L → ℕ → List (Lnode L)
lnodes_of [] parent = []
lnodes_of (l ∷ ls) parent = record { value = l; parent = parent } ∷ lnodes_of ls parent

-- The tree with the leaves below one inode.
abbrev pub one_inode : {L : Type 0} → List L → ℕ → Gtree L
one_inode leaves tot_len = record {
  inodes =
      record {
        tot_len = tot_len;
        parent = dangling;
        children = indices leaves 0;
        has_leaves = true;
      }
      ∷ [];
  lnodes = lnodes_of leaves 0;
  root_idx = 0;
  cursor = none;
}

abbrev pub uninit : {L : Type 0} → Gtree L
uninit = record { inodes = []; lnodes = []; root_idx = dangling; cursor = none }

abbrev pub set_value : {L : Type 0} → L → Lnode L → Lnode L
set_value value l = record l { value = value }

module _ {L : Type 0} ⦃P : Leaves L⦄ where
  -- The children of the inode are written into an array of as many as the arity.
  unfoldable pub from_leaves : List L → ℕ → Result Panic (Gtree L)
  from_leaves leaves tot_len =
      if ltb P.arity (length leaves) then err index_out_of_bounds else ok (one_inode leaves tot_len)

  abbrev set_root : ℕ → Cmd (Gtree L) (Unit {0})
  set_root idx g = ok (tt, record g { root_idx = idx })

  unfoldable pub initialize : L → Cmd (Gtree L) ℕ
  unfolding push_leaf push_inode
  initialize first_leaf = do
    leaf_idx ← push_leaf first_leaf 0
    root_idx ← push_inode (from_leaf leaf_idx (P.leaf_len first_leaf) dangling) dangling
    set_root root_idx
    pure leaf_idx

  unfoldable pub from_first_leaf : L → Result Panic (ℕ × Gtree L)
  unfolding initialize
  from_first_leaf first_leaf = initialize first_leaf uninit

  unfoldable pub with_leaf_mut : ℕ → (L → Result Panic L) → Cmd (Gtree L) (Unit {0})
  unfolding lnode update_lnode patch
  with_leaf_mut leaf_idx f = do
    l ← read (lnode leaf_idx)
    value ← read (λ g. f l.value)
    update_lnode leaf_idx (set_value value)
    let old_len = P.leaf_len l.value
    let new_len = P.leaf_len value
    if old_len == new_len then pure tt else patch l.parent (diff old_len new_len)

  unfoldable pub with_last_leaf_mut : (L → Result Panic L) → Cmd (Gtree L) (Unit {0})
  unfolding last_leaf with_leaf_mut
  with_last_leaf_mut f = do (last_idx, idx_in_parent) ← read last_leaf; with_leaf_mut last_idx f

  unfoldable pub with_two_mut : ℕ → ℕ → (L → L → L × L) → Cmd (Gtree L) (Unit {0})
  unfolding lnode update_lnode patch
  with_two_mut first_idx second_idx f = do
    first ← read (lnode first_idx)
    second ← read (lnode second_idx)
    let (value, value') = f first.value second.value
    update_lnode first_idx (set_value value)
    update_lnode second_idx (set_value value')
    patch first.parent (diff (P.leaf_len first.value) (P.leaf_len value))
    patch second.parent (diff (P.leaf_len second.value) (P.leaf_len value'))

  -- The offset of a leaf and its index in its parent, which the cursor may hold.
  abbrev position_of : ℕ → Gtree L → Result Panic (ℕ × ℕ)
  position_of leaf_idx g =
      let computed : Result Panic (ℕ × ℕ) = elim (offset_of_leaf leaf_idx g) [
        | err p ↦ err p
        | ok offset ↦ map_ok (λ i. (offset, i)) (idx_of_leaf_in_parent leaf_idx g)
      ] in
      elim g.cursor [
        | none ↦ computed
        | some c ↦ if leaf_idx == c.leaf_idx then ok (c.offset, c.child_idx) else computed
      ]

  unfoldable pub append : L → Cmd (Gtree L) ℕ
  unfolding last_leaf
  append value = do
    (last_leaf_idx, idx_in_parent) ← read last_leaf
    insert_leaf_after_leaf last_leaf_idx idx_in_parent value

  unfoldable pub prepend : L → Cmd (Gtree L) ℕ
  unfolding first_leaf_idx
  prepend value = do
    first_idx ← read first_leaf_idx
    leaf_idx ← insert_leaf_before_leaf first_idx 0 value
    set_cursor (cursor_at leaf_idx 0 0)
    pure leaf_idx

  -- `append(leaf).unwrap()`
  abbrev join : L → L → Result Panic L
  join other l = elim (P.append l other) [ err _ ↦ err in_run_tree | ok joined ↦ ok joined ]

  unfoldable pub append_leaf_to_another : ℕ → L → Cmd (Gtree L) ℕ
  unfolding offset_of_leaf idx_of_leaf_in_parent with_leaf_mut
  append_leaf_to_another append_to value = do
    (leaf_offset, idx_in_parent) ← read (position_of append_to)
    with_leaf_mut append_to (join value)
    set_cursor (cursor_at append_to leaf_offset idx_in_parent)
    pure leaf_offset

  unfoldable pub insert_leaf_after_another : L → ℕ → Cmd (Gtree L) (ℕ × ℕ)
  unfolding offset_of_leaf idx_of_leaf_in_parent leaf
  insert_leaf_after_another value after_leaf = do
    (leaf_offset, idx_in_parent) ← read (position_of after_leaf)
    l ← read (leaf after_leaf)
    let new_cursor_offset = add leaf_offset (P.leaf_len l)
    leaf_idx ← insert_leaf_after_leaf after_leaf idx_in_parent value
    idx_in_parent ← read (idx_of_leaf_in_parent leaf_idx)
    set_cursor (cursor_at leaf_idx new_cursor_offset idx_in_parent)
    pure (new_cursor_offset, leaf_idx)

  -- What is left of the leaf, and the new one.
  unfoldable pub split_leaf : ℕ → (L → Result Panic (L × L)) → Cmd (Gtree L) ℕ
  unfolding lnode update_lnode patch inode idx_of_leaf_child
  split_leaf leaf_idx split_with = do
    l ← read (lnode leaf_idx)
    (value, split) ← read (λ g. split_with l.value)
    update_lnode leaf_idx (set_value value)
    let old_len = P.leaf_len l.value
    let new_len = P.leaf_len value
    (if old_len == new_len then pure tt else patch l.parent (diff old_len new_len))
    parent ← read (inode l.parent)
    idx_in_parent ← read (λ g. idx_of_leaf_child leaf_idx parent)
    insert_leaf_after_leaf leaf_idx idx_in_parent split

  -- What is left of the leaf, the inserted one and the split off one.
  unfoldable pub split_leaf_with_another :
      ℕ → (L → Result Panic (L × L × L)) → Cmd (Gtree L) (ℕ × ℕ × ℕ)
  unfolding offset_of_leaf idx_of_leaf_in_parent lnode update_lnode patch
      insert_two_leaves_after_leaf
  split_leaf_with_another leaf_idx split_with = do
    (leaf_offset, idx_in_parent) ← read (position_of leaf_idx)
    l ← read (lnode leaf_idx)
    (value, inserted, split) ← read (λ g. split_with l.value)
    update_lnode leaf_idx (set_value value)
    let new_cursor_offset = add leaf_offset (P.leaf_len value)
    patch l.parent (diff (P.leaf_len l.value) (P.leaf_len value))
    (inserted_idx, split_idx) ← insert_two_leaves_after_leaf leaf_idx idx_in_parent inserted split
    idx_in_parent ← read (idx_of_leaf_in_parent inserted_idx)
    set_cursor (cursor_at inserted_idx new_cursor_offset idx_in_parent)
    pure (new_cursor_offset, inserted_idx, split_idx)
