-- ===== src/Gtree/Find.antt =====
-- Finding leaves by offset, and offsets of leaves (src/gtree.rs).
use cola.Prelude.{
  ℕ, zero, suc, Bool, true, false, Option, none, some, List, [], ◌∷◌, Result, ok, err, ◌>>=◌, ltb,
  leb, ◌==◌, ◌&&◌, if◌then◌else◌, add, sub, take,
}
use cola.Text.{Range}
use cola.Panics.{Panic, unreachable, out_of_rounds}
use cola.Slices.{nth}
use cola.Gtree.{Leaves, Gtree, Cursor, inode, leaf, lnode, rounds}
use cola.Gtree.Node.{leaf_children, internal_children, idx_of_leaf_child, idx_of_internal_child}

-- The offset is inside the leaf at the cursor, or at its end.
abbrev pub at_cursor : Cursor → ℕ → ℕ → Bool
at_cursor c end offset = ltb c.offset offset && leb offset end

module _ {L : Type 0} where
  abbrev pub is_root : ℕ → Gtree L → Bool
  is_root idx g = idx == g.root_idx

  unfoldable pub idx_of_leaf_in_parent : ℕ → Gtree L → Result Panic ℕ
  unfolding lnode inode idx_of_leaf_child
  idx_of_leaf_in_parent leaf_idx g = do
    l ← lnode leaf_idx g
    parent ← inode l.parent g
    idx_of_leaf_child leaf_idx parent

  unfoldable pub idx_of_inode_in_parent : ℕ → Gtree L → Result Panic ℕ
  unfolding inode idx_of_internal_child
  idx_of_inode_in_parent inode_idx g = do
    n ← inode inode_idx g
    parent ← inode n.parent g
    idx_of_internal_child inode_idx parent

module _ {L : Type 0} ⦃P : Leaves L⦄ where
  -- The length of a child: a leaf if `leaves` holds, else an inode.
  unfoldable pub child_len : Gtree L → Bool → ℕ → Result Panic ℕ
  unfolding inode leaf
  child_len g true idx = do l ← leaf idx g; ok (P.leaf_len l)
  child_len g false idx = do n ← inode idx g; ok n.tot_len

  unfoldable pub child_measure : ℕ → ℕ → Gtree L → Result Panic ℕ
  unfolding inode child_len
  child_measure of_inode child_idx g = do
    n ← inode of_inode g
    idx ← nth n.children child_idx
    child_len g n.has_leaves idx

  -- The loops of `child_at_offset`, from an index and an offset on.
  unfoldable pub scan_children : Gtree L → Bool → List ℕ → ℕ → ℕ → ℕ → Result Panic (ℕ × ℕ)
  unfolding child_len
  scan_children g leaves [] idx offset at_offset = err unreachable
  scan_children g leaves (c ∷ cs) idx offset at_offset = do
    len ← child_len g leaves c
    let rest = scan_children g leaves cs (suc idx) (add offset len) at_offset
    if leb at_offset (add offset len) then ok (idx, sub (add offset len) len) else rest

  unfoldable pub child_at_offset : ℕ → ℕ → Gtree L → Result Panic (ℕ × ℕ)
  unfolding inode scan_children
  child_at_offset of_inode at_offset g = do
    n ← inode of_inode g
    scan_children g n.has_leaves n.children 0 0 at_offset

  -- `measure`, from an index and an offset on.
  unfoldable pub measure : Gtree L → Bool → List ℕ → ℕ → ℕ → Range → Result Panic (Option (ℕ × ℕ))
  unfolding child_len
  measure g leaves [] idx offset range = err unreachable
  measure g leaves (c ∷ cs) idx offset range = do
    len ← child_len g leaves c
    let rest = measure g leaves cs (suc idx) (add offset len) range
    let here = if leb range.end (add offset len) then some (idx, sub (add offset len) len) else none
    if ltb range.start (add offset len) then ok here else rest

  unfoldable pub child_containing_range : ℕ → Range → Gtree L → Result Panic (Option (ℕ × ℕ))
  unfolding inode measure
  child_containing_range of_inode range g = do
    n ← inode of_inode g
    measure g n.has_leaves n.children 0 0 range

  -- The loop of `leaf_at_offset`: the descent from an inode whose offset is `leaf_offset`.
  unfoldable pub descend : Gtree L → ℕ → ℕ → ℕ → ℕ → Result Panic (ℕ × ℕ)
  unfolding child_at_offset inode
  descend g zero idx leaf_offset offset = err out_of_rounds
  descend g (suc k) idx leaf_offset offset = do
    (child_idx, child_offset) ← child_at_offset idx (sub offset leaf_offset) g
    n ← inode idx g
    child ← nth n.children child_idx
    let further = descend g k child (add leaf_offset child_offset) offset
    if n.has_leaves then ok (child, add leaf_offset child_offset) else further

  -- The end of the leaf at the cursor.
  unfoldable pub cursor_end : Cursor → Gtree L → Result Panic ℕ
  unfolding leaf
  cursor_end c g = do l ← leaf c.leaf_idx g; ok (add c.offset (P.leaf_len l))

  unfoldable pub leaf_at_offset : ℕ → Gtree L → Result Panic (ℕ × ℕ)
  unfolding descend cursor_end
  leaf_at_offset offset g =
      let from_root = descend g (rounds g) g.root_idx 0 offset in
      elim g.cursor [
        | none ↦ from_root
        | some c ↦ do
          end ← cursor_end c g
          if at_cursor c end offset then ok (c.leaf_idx, c.offset) else from_root
      ]

  -- The length of the first children, and of those before a child.
  unfoldable pub sum_lens : Gtree L → Bool → List ℕ → ℕ → Result Panic ℕ
  unfolding child_len
  sum_lens g leaves [] len = ok len
  sum_lens g leaves (c ∷ cs) len = do n ← child_len g leaves c; sum_lens g leaves cs (add len n)

  unfoldable pub len_offset_of_child : ℕ → ℕ → Gtree L → Result Panic ℕ
  unfolding inode sum_lens
  len_offset_of_child in_inode child_offset g = do
    n ← inode in_inode g
    sum_lens g n.has_leaves (take child_offset n.children) 0

  unfoldable pub offset_before : Gtree L → Bool → List ℕ → ℕ → ℕ → Result Panic ℕ
  unfolding child_len
  offset_before g leaves [] idx offset = err unreachable
  offset_before g leaves (c ∷ cs) idx offset =
      let rest : Result Panic ℕ = (do
        len ← child_len g leaves c
        offset_before g leaves cs idx (add offset len)) in
      if c == idx then ok offset else rest

  -- `offset_of_leaf_child` and `offset_of_internal_child`
  unfoldable pub offset_of_leaf_child : ℕ → Gtree L → Result Panic ℕ
  unfolding lnode inode offset_before
  offset_of_leaf_child leaf_idx g = do
    l ← lnode leaf_idx g
    parent ← inode l.parent g
    siblings ← leaf_children parent
    offset_before g true siblings leaf_idx 0

  unfoldable pub offset_of_internal_child : ℕ → Gtree L → Result Panic ℕ
  unfolding inode offset_before
  offset_of_internal_child inode_idx g = do
    n ← inode inode_idx g
    parent ← inode n.parent g
    siblings ← internal_children parent
    offset_before g false siblings inode_idx 0

  -- The climb of `offset_of_leaf` from an inode to the root.
  unfoldable pub climb_offset : Gtree L → ℕ → ℕ → ℕ → Result Panic ℕ
  unfolding offset_of_internal_child inode
  climb_offset g zero inode_idx offset = err out_of_rounds
  climb_offset g (suc k) inode_idx offset =
      let further : Result Panic ℕ = (do
        n ← offset_of_internal_child inode_idx g
        i ← inode inode_idx g
        climb_offset g k i.parent (add offset n)) in
      if is_root inode_idx g then ok offset else further

  unfoldable pub offset_from_root : ℕ → Gtree L → Result Panic ℕ
  unfolding offset_of_leaf_child lnode climb_offset
  offset_from_root leaf_idx g = do
    offset ← offset_of_leaf_child leaf_idx g
    l ← lnode leaf_idx g
    climb_offset g (rounds g) l.parent offset

  unfoldable pub offset_of_leaf : ℕ → Gtree L → Result Panic ℕ
  unfolding offset_from_root
  offset_of_leaf leaf_idx g =
      let climbed = offset_from_root leaf_idx g in
      elim g.cursor [
        | none ↦ climbed
        | some c ↦ if leaf_idx == c.leaf_idx then ok c.offset else climbed
      ]
