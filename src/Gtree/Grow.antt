-- ===== src/Gtree/Grow.antt =====
-- Pushing nodes, adding children to inodes, splitting full ones, and taking the changes up to the root
-- (src/gtree.rs).
use cola.Prelude.{
  ℕ, zero, suc, ◌-◌, Bool, true, false, Option, none, some, List, [], ◌∷◌, ◌++◌, ok, leb, ltb, ◌==◌,
  if◌then◌else◌, length, add,
}
use cola.Panics.{out_of_rounds, in_run_tree}
use cola.Slices.{Cmd, pure, panic, read, ◌>>=◌, ◌>>◌}
use cola.Gtree.{
  Leaves, Gtree, Inode, Diff, diff, patched, dangling, inode, lnode, update_inode, update_lnode,
  rounds, gtree_len, num_children,
}
use cola.Gtree.Node
use cola.Gtree.Node.{from_leaf, from_two_internals, is_full, min_children, idx_of_internal_child}
use cola.Gtree.Find.{len_offset_of_child}

abbrev pub is_dangling : ℕ → Bool
is_dangling idx = idx == dangling

abbrev pub patch_len : Diff → Inode → Inode
patch_len d n = record n { tot_len = patched n.tot_len d }

abbrev pub set_parent : ℕ → Inode → Inode
set_parent parent n = record n { parent = parent }

module _ {L : Type 0} where
  unfoldable pub push_leaf : L → ℕ → Cmd (Gtree L) ℕ
  push_leaf value parent g = ok (
    length g.lnodes,
    record g { lnodes = g.lnodes ++ record { value = value; parent = parent } ∷ [] },
  )

  -- The loop of `pushed` over the children.
  unfoldable pub set_parents : Bool → List ℕ → ℕ → Cmd (Gtree L) (Unit {0})
  unfolding update_inode update_lnode
  set_parents leaves [] to = pure tt
  set_parents true (c ∷ cs) to = do
    update_lnode c (λ l. record l { parent = to })
    set_parents true cs to
  set_parents false (c ∷ cs) to = do update_inode c (set_parent to); set_parents false cs to

  abbrev add_inode : Inode → Cmd (Gtree L) (Unit {0})
  add_inode n g = ok (tt, record g { inodes = g.inodes ++ n ∷ [] })

  unfoldable pub push_inode : Inode → ℕ → Cmd (Gtree L) ℕ
  unfolding set_parents
  push_inode n parent = do
    idx ← read (λ g. ok (length g.inodes))
    let push : Cmd (Gtree L) ℕ = (do
      set_parents n.has_leaves n.children idx
      add_inode (record n { parent = parent })
      pure idx)
    if is_dangling idx then panic in_run_tree else push

  abbrev set_root : ℕ → Cmd (Gtree L) (Unit {0})
  set_root idx g = ok (tt, record g { root_idx = idx })

  unfoldable pub root_has_split : Inode → Cmd (Gtree L) (Unit {0})
  unfolding push_inode gtree_len update_inode
  root_has_split root_split = do
    split_idx ← push_inode root_split dangling
    root_idx ← read (λ g. ok g.root_idx)
    len ← read gtree_len
    new_root_idx ←
        push_inode (from_two_internals root_idx split_idx len root_split.tot_len dangling) dangling
    update_inode root_idx (set_parent new_root_idx)
    update_inode split_idx (set_parent new_root_idx)
    set_root new_root_idx

  -- The climb of `patch`.
  unfoldable pub patch_up : ℕ → ℕ → Diff → Cmd (Gtree L) (Unit {0})
  unfolding update_inode inode
  patch_up zero idx d = panic out_of_rounds
  patch_up (suc k) idx d =
      let further : Cmd (Gtree L) (Unit {0}) = (do
        update_inode idx (patch_len d)
        n ← read (inode idx)
        patch_up k n.parent d) in
      if is_dangling idx then pure tt else further

  unfoldable pub patch : ℕ → Diff → Cmd (Gtree L) (Unit {0})
  unfolding patch_up
  patch idx d g = patch_up (rounds g) idx d g

module _ {L : Type 0} ⦃P : Leaves L⦄ where
  unfoldable pub split_inode : ℕ → ℕ → Cmd (Gtree L) Inode
  unfolding len_offset_of_child inode update_inode Node.split
  split_inode inode_idx at_offset = do
    len ← read (len_offset_of_child inode_idx at_offset)
    n ← read (inode inode_idx)
    update_inode inode_idx (λ n. (Node.split at_offset len n).0)
    pure (Node.split at_offset len n).1

  unfoldable pub insert_in_inode : ℕ → ℕ → ℕ → ℕ → Cmd (Gtree L) (Option Inode)
  unfolding split_inode inode update_inode Node.insert
  insert_in_inode idx at_offset child child_len = do
    n ← read (inode idx)
    let least = min_children P.arity
    let split_offset = num_children n - least
    let before : Cmd (Gtree L) (Option Inode) = (do
      rest ← split_inode idx split_offset
      update_inode idx (Node.insert at_offset child child_len)
      pure (some rest))
    let after : Cmd (Gtree L) (Option Inode) = (do
      rest ← split_inode idx (suc split_offset)
      n' ← read (inode idx)
      pure (some (Node.insert (at_offset - num_children n') child child_len rest)))
    let within : Cmd (Gtree L) (Option Inode) = (do
      update_inode idx (Node.insert at_offset child child_len)
      pure none)
    if is_full P.arity n then (if leb at_offset least then before else after) else within

  -- `insert_two_in_inode` once the offsets are in order. A node that is split has room afterwards, so
  -- that the call inside is the last one.
  unfoldable pub insert_two_sorted : ℕ → ℕ → ℕ → ℕ → ℕ → ℕ → ℕ → ℕ → Cmd (Gtree L) (Option Inode)
  unfolding split_inode inode update_inode Node.insert Node.insert_two
  insert_two_sorted zero idx first_offset first first_len second_offset second second_len =
      panic out_of_rounds
  insert_two_sorted (suc k) idx first_offset first first_len second_offset second second_len = do
    n ← read (inode idx)
    let least = min_children P.arity
    let split_offset = num_children n - least
    let after_second = num_children n - second_offset
    let before : Cmd (Gtree L) (Option Inode) = (do
      rest ← split_inode idx split_offset
      dropped ← insert_two_sorted k idx first_offset first first_len second_offset second second_len
      pure (some rest))
    let after : Cmd (Gtree L) (Option Inode) = (do
      rest ← split_inode idx (suc (suc split_offset))
      n' ← read (inode idx)
      let len = num_children n'
      pure (
          some (
            Node.insert_two (first_offset - len) first first_len (second_offset - len) second
              second_len rest)))
    let around : Cmd (Gtree L) (Option Inode) = (do
      rest ← split_inode idx (suc split_offset)
      n' ← read (inode idx)
      update_inode idx (Node.insert first_offset first first_len)
      pure (some (Node.insert (second_offset - num_children n') second second_len rest)))
    let within : Cmd (Gtree L) (Option Inode) = (do
      update_inode idx
          (Node.insert_two first_offset first first_len second_offset second second_len)
      pure none)
    let late = if leb (suc (suc split_offset)) first_offset then after else around
    let not_before = if ltb after_second (least - 1) then late else around
    let full = if ltb (least - 1) after_second then before else not_before
    if ltb (P.arity - num_children n) 2 then full else within

  unfoldable pub insert_two_in_inode : ℕ → ℕ → ℕ → ℕ → ℕ → ℕ → ℕ → Cmd (Gtree L) (Option Inode)
  unfolding insert_two_sorted
  insert_two_in_inode idx first_offset first first_len second_offset second second_len =
      if ltb second_offset first_offset
      then insert_two_sorted 2 idx second_offset second second_len first_offset first first_len
      else insert_two_sorted 2 idx first_offset first first_len second_offset second second_len

  -- The loop of `bubble`.
  unfoldable pub bubble_up : ℕ → ℕ → ℕ → Option Inode → Diff → Diff → Cmd (Gtree L) (Unit {0})
  unfolding root_has_split push_inode inode update_inode insert_in_inode patch idx_of_internal_child
  bubble_up zero inode_idx parent_idx maybe_split d leaf_diff = panic out_of_rounds
  bubble_up (suc k) inode_idx parent_idx none d leaf_diff =
      if is_dangling parent_idx then pure tt else patch parent_idx leaf_diff
  bubble_up (suc k) inode_idx parent_idx (some split) d leaf_diff =
      let further : Cmd (Gtree L) (Unit {0}) = (do
        split_idx ← push_inode split parent_idx
        parent ← read (inode parent_idx)
        update_inode parent_idx (patch_len d)
        idx_in_parent ← read (λ g. idx_of_internal_child inode_idx parent)
        maybe_split ← insert_in_inode parent_idx (suc idx_in_parent) split_idx split.tot_len
        parent' ← read (inode parent_idx)
        bubble_up k parent_idx parent'.parent maybe_split (diff parent.tot_len parent'.tot_len)
            leaf_diff) in
      if is_dangling parent_idx then root_has_split split else further

  unfoldable pub bubble : ℕ → Option Inode → Diff → Diff → Cmd (Gtree L) (Unit {0})
  unfolding inode bubble_up
  bubble inode_idx maybe_split d leaf_diff = do
    n ← read (inode inode_idx)
    k ← read (λ g. ok (rounds g))
    bubble_up k inode_idx n.parent maybe_split d leaf_diff

module _ {L : Type 0} ⦃P : Leaves L⦄ where
  -- What `insert_leaf_after_leaf` and `insert_leaf_before_leaf` share: a new child of the parent.
  unfoldable pub insert_leaf_beside : ℕ → ℕ → L → Cmd (Gtree L) ℕ
  unfolding lnode push_leaf inode insert_in_inode bubble
  insert_leaf_beside leaf_idx at_offset value = do
    l ← read (lnode leaf_idx)
    inserted_idx ← push_leaf value l.parent
    parent ← read (inode l.parent)
    maybe_split ← insert_in_inode l.parent at_offset inserted_idx (P.leaf_len value)
    parent' ← read (inode l.parent)
    bubble l.parent maybe_split (diff parent.tot_len parent'.tot_len) (diff 0 (P.leaf_len value))
    pure inserted_idx

  abbrev pub insert_leaf_after_leaf : ℕ → ℕ → L → Cmd (Gtree L) ℕ
  insert_leaf_after_leaf leaf_idx idx_in_parent value =
      insert_leaf_beside leaf_idx (suc idx_in_parent) value

  abbrev pub insert_leaf_before_leaf : ℕ → ℕ → L → Cmd (Gtree L) ℕ
  insert_leaf_before_leaf leaf_idx idx_in_parent value =
      insert_leaf_beside leaf_idx idx_in_parent value

  unfoldable pub insert_two_leaves_after_leaf : ℕ → ℕ → L → L → Cmd (Gtree L) (ℕ × ℕ)
  unfolding lnode push_leaf inode insert_two_in_inode bubble
  insert_two_leaves_after_leaf leaf_idx idx_in_parent first second = do
    l ← read (lnode leaf_idx)
    first_idx ← push_leaf first l.parent
    second_idx ← push_leaf second l.parent
    parent ← read (inode l.parent)
    maybe_split ←
        insert_two_in_inode l.parent (suc idx_in_parent) first_idx (P.leaf_len first)
          (suc idx_in_parent) second_idx (P.leaf_len second)
    parent' ← read (inode l.parent)
    bubble l.parent maybe_split (diff parent.tot_len parent'.tot_len)
        (diff 0 (add (P.leaf_len first) (P.leaf_len second)))
    pure (first_idx, second_idx)
