-- ===== src/Gtree/Delete.antt =====
-- Deleting children, and ranges inside one leaf (src/gtree.rs).
pub mod Half
pub mod Span
use cola.Prelude.{
  ℕ, zero, suc, ◌-◌, Bool, true, false, Option, none, some, List, [], ◌∷◌, Result, ok, err, map_ok,
  ltb, leb, ◌==◌, ◌&&◌, not, if◌then◌else◌, length, add, sub,
}
use cola.Text.{Range}
use cola.Panics.{Panic, out_of_rounds, unreachable}
use cola.Slices.{Cmd, pure, panic, read, ◌>>=◌, ◌>>◌, nth}
use cola.Gtree.{
  Leaves, Gtree, Inode, Lnode, Cursor, cursor_at, diff, inode, lnode, leaf, update_inode,
  update_lnode, set_cursor, rounds,
}
use cola.Gtree.Find.{child_len, idx_of_leaf_in_parent, child_containing_range, cursor_end}
use cola.Gtree.Walk.{next_sibling, prev_sibling, prev_non_empty_sibling, next_non_empty_sibling}
use cola.Gtree.Grow.{patch, insert_leaf_after_leaf, insert_two_leaves_after_leaf}
use cola.Gtree.Edit.{set_value}
use cola.Gtree.Insert.{Edited, Idxs, update_child_idx_after_inserting_after}

-- The closures of a deletion, with the variables that they capture: `before_delete`, the `Delete` of a
-- leaf, and the changes of a leaf that holds the range, its start or its end.
pub record DeleteWith (S L : Type 0) : Type 0 where
  pub before_delete : L → S → S
  pub delete_leaf : L → L
  pub delete_range : S → L → Range → Result Panic (Edited S L)
  pub delete_from : S → L → ℕ → Result Panic (S × L × Option L)
  pub delete_up_to : S → L → ℕ → Result Panic (S × L × Option L)

abbrev empty_inode : Inode → Inode
empty_inode n = record n { tot_len = 0 }

module _ {L : Type 0} ⦃P : Leaves L⦄ where
  -- The last leaf before this one that is not empty.
  abbrev cursor_before : ℕ → ℕ → ℕ → Gtree L → Result Panic (Option Cursor)
  cursor_before leaf_idx leaf_offset idx_in_parent g =
      elim (prev_non_empty_sibling leaf_idx idx_in_parent g) [
        | err p ↦ err p
        | ok none ↦ ok none
        | ok (some (previous_idx, child_idx)) ↦
            map_ok (λ l. cursor_at previous_idx (sub leaf_offset (P.leaf_len l)) child_idx)
              (leaf previous_idx g)
      ]

  -- An empty deleted leaf is joined with the next sibling, or inserted.
  abbrev join_next : ℕ → ℕ → L → Cmd (Gtree L) (Option ℕ)
  join_next leaf_idx idx_in_parent deleted =
      let inserted : Cmd (Gtree L) (Option ℕ) = (do
        i ← insert_leaf_after_leaf leaf_idx idx_in_parent deleted
        pure (some i)) in
      read (next_sibling leaf_idx idx_in_parent) >>= λ next. elim next [
        | none ↦ inserted
        | some next_idx ↦ read (leaf next_idx) >>= λ l. elim (P.prepend l deleted) [
          | err _ ↦ inserted
          | ok joined ↦ update_lnode next_idx (set_value joined) >> pure none
        ]
      ]

  -- The deleted leaf is joined with the previous sibling and replaced by the rest, or the rest is
  -- inserted after it.
  abbrev join_prev : ℕ → ℕ → ℕ → L → Cmd (Gtree L) (Option ℕ)
  join_prev leaf_idx parent_idx idx_in_parent rest =
      let inserted : Cmd (Gtree L) (Option ℕ) = (do
        i ← insert_leaf_after_leaf leaf_idx idx_in_parent rest
        pure (some i)) in
      read (prev_sibling leaf_idx idx_in_parent) >>= λ prev. elim prev [
        | none ↦ inserted
        | some prev_idx ↦ read (leaf leaf_idx) >>= λ deleted.
            update_lnode leaf_idx (set_value rest) >> read (leaf prev_idx) >>= λ previous.
            elim (P.append previous deleted) [
              | err _ ↦ update_lnode leaf_idx (set_value deleted) >> inserted
              | ok joined ↦
                  update_lnode prev_idx (set_value joined)
                  >> patch parent_idx (diff 0 (P.leaf_len rest))
                  >> pure none
            ]
      ]

  -- What follows the change of a leaf: the new leaves, and the cursor.
  unfoldable pub insert_after_deletion :
      ℕ → ℕ → ℕ → ℕ → Option L → Option L → Cmd (Gtree L) (Option ℕ × Option ℕ)
  unfolding insert_two_leaves_after_leaf update_child_idx_after_inserting_after next_sibling
      prev_sibling prev_non_empty_sibling leaf update_lnode patch
  insert_after_deletion leaf_idx leaf_offset idx_in_parent parent_idx none (some second) =
      panic unreachable
  insert_after_deletion leaf_idx leaf_offset idx_in_parent parent_idx none none = do
    cursor ← read (cursor_before leaf_idx leaf_offset idx_in_parent)
    set_cursor cursor
    pure (none, none)
  insert_after_deletion leaf_idx leaf_offset idx_in_parent parent_idx (some first) (some second) =
      do
        (first_idx, second_idx) ← insert_two_leaves_after_leaf leaf_idx idx_in_parent first second
        i ← read (update_child_idx_after_inserting_after parent_idx idx_in_parent)
        set_cursor (cursor_at leaf_idx leaf_offset i)
        pure (some first_idx, some second_idx)
  insert_after_deletion leaf_idx leaf_offset idx_in_parent parent_idx (some first) none =
      let deleted : Cmd (Gtree L) (Option ℕ × Option ℕ) = (do
        inserted_idx ← join_next leaf_idx idx_in_parent first
        i ← read (update_child_idx_after_inserting_after parent_idx idx_in_parent)
        set_cursor (cursor_at leaf_idx leaf_offset i)
        pure (inserted_idx, none)) in
      let rest : Cmd (Gtree L) (Option ℕ × Option ℕ) = (do
        inserted_idx ← join_prev leaf_idx parent_idx idx_in_parent first
        i ← read (update_child_idx_after_inserting_after parent_idx idx_in_parent)
        cursor ← read (cursor_before leaf_idx leaf_offset i)
        set_cursor cursor
        pure (inserted_idx, none)) in
      if P.leaf_len first == 0 then deleted else rest

module _ {S L : Type 0} ⦃P : Leaves L⦄ where
  abbrev delete_one_leaf : DeleteWith S L → ℕ → S → Cmd (Gtree L) S
  delete_one_leaf D idx s = do
    l ← read (leaf idx)
    update_lnode idx (set_value (D.delete_leaf l))
    pure (D.before_delete l s)

  -- The loops of `delete_inode`, with the calls of it for the inodes among the children, which have at
  -- most this many levels below.
  unfoldable pub delete_children : DeleteWith S L → ℕ → Bool → List ℕ → S → Cmd (Gtree L) S
  unfolding leaf update_lnode update_inode inode
  delete_children D k leaves [] s = pure s
  delete_children D k true (c ∷ cs) s = do
    s' ← delete_one_leaf D c s
    delete_children D k true cs s'
  delete_children D zero false (c ∷ cs) s = panic out_of_rounds
  delete_children D (suc k) false (c ∷ cs) s = do
    update_inode c empty_inode
    n ← read (inode c)
    s' ← delete_children D k n.has_leaves n.children s
    delete_children D (suc k) false cs s'

  unfoldable pub delete_inode : DeleteWith S L → ℕ → S → Cmd (Gtree L) S
  unfolding update_inode inode delete_children
  delete_inode D idx s = do
    update_inode idx empty_inode
    n ← read (inode idx)
    k ← read (λ g. ok (rounds g))
    delete_children D k n.has_leaves n.children s

  unfoldable pub delete_child : DeleteWith S L → ℕ → ℕ → S → Cmd (Gtree L) S
  unfolding inode nth child_len leaf update_lnode update_inode delete_inode
  delete_child D of_inode child_idx s = do
    n ← read (inode of_inode)
    child ← read (λ g. nth n.children child_idx)
    len ← read (λ g. child_len g n.has_leaves child)
    s' ← (if n.has_leaves then delete_one_leaf D child s else delete_inode D child s)
    update_inode of_inode (λ n. record n { tot_len = sub n.tot_len len })
    pure s'

  unfoldable pub delete_range_in_leaf :
      DeleteWith S L → ℕ → ℕ → ℕ → Range → S → Cmd (Gtree L) (Idxs S)
  unfolding lnode update_lnode patch insert_after_deletion
  delete_range_in_leaf D leaf_idx leaf_offset idx_in_parent range s = do
    l ← read (lnode leaf_idx)
    e ← read (λ g. D.delete_range (D.before_delete l.value s) l.value range)
    update_lnode leaf_idx (set_value e.value)
    patch l.parent (diff (P.leaf_len l.value) (P.leaf_len e.value))
    idxs ← insert_after_deletion leaf_idx leaf_offset idx_in_parent l.parent e.first e.second
    pure (e.captured, idxs.0, idxs.1)

  unfoldable pub delete_leaf_range : DeleteWith S L → ℕ → ℕ → Range → S → Cmd (Gtree L) (Idxs S)
  unfolding idx_of_leaf_in_parent delete_range_in_leaf
  delete_leaf_range D leaf_idx leaf_offset range s = do
    idx_in_parent ← read (idx_of_leaf_in_parent leaf_idx)
    delete_range_in_leaf D leaf_idx leaf_offset idx_in_parent range s
