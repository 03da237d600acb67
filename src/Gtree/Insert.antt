-- ===== src/Gtree/Insert.antt =====
-- Inserting at an offset (src/gtree.rs). A closure that changes a leaf returns what it assigns to its
-- captured variables, of type `S`, with the changed leaf and the new ones.
use cola.Prelude.{
  ℕ, zero, suc, ◌-◌, Option, none, some, Result, ok, err, map_ok, ltb, if◌then◌else◌, add, sub,
}
use cola.Panics.{Panic, out_of_rounds, unreachable}
use cola.Slices.{Cmd, pure, panic, read, ◌>>=◌, ◌>>◌, nth}
use cola.Gtree.{
  Leaves, Gtree, Inode, Cursor, cursor_at, diff, inode, lnode, leaf, update_inode, update_lnode,
  set_cursor, rounds, num_children,
}
use cola.Gtree.Find.{child_at_offset, cursor_end, at_cursor}
use cola.Gtree.Grow.{
  push_leaf, push_inode, patch, root_has_split, insert_in_inode, insert_two_in_inode,
  insert_leaf_after_leaf, insert_two_leaves_after_leaf,
}
use cola.Gtree.Edit.{set_value}

pub record Edited (S L : Type 0) : Type 0 where
  pub captured : S
  pub value : L
  pub first : Option L
  pub second : Option L

-- The indices of the new leaves, with the captured variables.
abbrev pub Idxs : Type 0 → Type 0
Idxs S = S × Option ℕ × Option ℕ

module _ {L : Type 0} ⦃P : Leaves L⦄ where
  unfoldable pub update_child_idx_after_inserting_after : ℕ → ℕ → Gtree L → Result Panic ℕ
  unfolding inode
  update_child_idx_after_inserting_after old_parent old_idx g = elim (inode old_parent g) [
    | err p ↦ err p
    | ok n ↦ ok (if ltb old_idx (num_children n) then old_idx else old_idx - num_children n)
  ]

  -- The insertion of the new leaves next to an edited one.
  abbrev insert_first_and_second : ℕ → ℕ → Option L → Option L → Cmd (Gtree L) (Option ℕ × Option ℕ)
  insert_first_and_second leaf_idx idx_in_parent none none = pure (none, none)
  insert_first_and_second leaf_idx idx_in_parent none (some second) = panic unreachable
  insert_first_and_second leaf_idx idx_in_parent (some first) none = do
    first_idx ← insert_leaf_after_leaf leaf_idx idx_in_parent first
    pure (some first_idx, none)
  insert_first_and_second leaf_idx idx_in_parent (some first) (some second) = do
    (first_idx, second_idx) ← insert_two_leaves_after_leaf leaf_idx idx_in_parent first second
    pure (some first_idx, some second_idx)

  -- The cursor after an insertion: at the inserted leaf, or at the edited one.
  abbrev cursor_after_insertion : Option ℕ → ℕ → ℕ → ℕ → ℕ → ℕ → Cmd (Gtree L) (Unit {0})
  cursor_after_insertion (some first_idx) leaf_idx parent_idx idx_in_parent leaf_offset new_len = do
    i ← read (update_child_idx_after_inserting_after parent_idx (suc idx_in_parent))
    set_cursor (cursor_at first_idx (add leaf_offset new_len) i)
  cursor_after_insertion none leaf_idx parent_idx idx_in_parent leaf_offset new_len = do
    i ← read (update_child_idx_after_inserting_after parent_idx idx_in_parent)
    set_cursor (cursor_at leaf_idx leaf_offset i)

  unfoldable pub insert_at_leaf :
      {S : Type 0} → ℕ → ℕ → ℕ → ℕ → (L → ℕ → Result Panic (Edited S L)) → Cmd (Gtree L) (Idxs S)
  unfolding lnode update_lnode patch insert_two_leaves_after_leaf
      update_child_idx_after_inserting_after
  insert_at_leaf leaf_idx leaf_offset idx_in_parent insert_at_offset insert_with = do
    l ← read (lnode leaf_idx)
    e ← read (λ g. insert_with l.value insert_at_offset)
    update_lnode leaf_idx (set_value e.value)
    patch l.parent (diff (P.leaf_len l.value) (P.leaf_len e.value))
    (first_idx, second_idx) ← insert_first_and_second leaf_idx idx_in_parent e.first e.second
    cursor_after_insertion first_idx leaf_idx l.parent idx_in_parent leaf_offset
        (P.leaf_len e.value)
    pure (e.captured, first_idx, second_idx)

  -- The call of `fun`, and the change of the length of the parent.
  unfoldable pub with_internal_mut_handle_parent :
      {R : Type 0} → ℕ → Cmd (Gtree L) R → Cmd (Gtree L) R
  unfolding inode update_inode
  with_internal_mut_handle_parent inode_idx fun = do
    old ← read (inode inode_idx)
    ret ← fun
    new ← read (inode inode_idx)
    update_inode new.parent
        (λ n. record n { tot_len = add (sub n.tot_len old.tot_len) new.tot_len })
    pure ret

  -- The insertion of the inode that `fun` split off.
  abbrev handle_split : {R : Type 0} → ℕ → ℕ → R × Option Inode → Cmd (Gtree L) (R × Option Inode)
  handle_split inode_idx idx_in_parent (ret, none) = pure (ret, none)
  handle_split inode_idx idx_in_parent (ret, some split) = do
    n ← read (inode inode_idx)
    split_idx ← push_inode split n.parent
    rest ← insert_in_inode n.parent (suc idx_in_parent) split_idx split.tot_len
    pure (ret, rest)

  unfoldable pub with_internal_mut_handle_split :
      {R : Type 0} → ℕ → ℕ → Cmd (Gtree L) (R × Option Inode) → Cmd (Gtree L) (R × Option Inode)
  unfolding with_internal_mut_handle_parent inode push_inode insert_in_inode
  with_internal_mut_handle_split inode_idx idx_in_parent fun = do
    r ← with_internal_mut_handle_parent inode_idx fun
    handle_split inode_idx idx_in_parent r

  unfoldable pub with_leaf_mut_handle_parent :
      {R : Type 0} → ℕ → (L → Result Panic (R × L)) → Cmd (Gtree L) R
  unfolding lnode update_lnode update_inode
  with_leaf_mut_handle_parent leaf_idx fun = do
    l ← read (lnode leaf_idx)
    (ret, value) ← read (λ g. fun l.value)
    update_lnode leaf_idx (set_value value)
    let old_len = P.leaf_len l.value
    let new_len = P.leaf_len value
    update_inode l.parent (λ n. record n { tot_len = add (sub n.tot_len old_len) new_len })
    pure ret

  -- The new leaves become children of the parent, after the edited one.
  abbrev insert_beside :
      ℕ → ℕ → Option L → Option L → Cmd (Gtree L) ((Option ℕ × Option ℕ) × Option Inode)
  insert_beside parent_idx insert_at none none = pure ((none, none), none)
  insert_beside parent_idx insert_at none (some right) = pure ((none, none), none)
  insert_beside parent_idx insert_at (some left) none = do
    left_idx ← push_leaf left parent_idx
    split ← insert_in_inode parent_idx insert_at left_idx (P.leaf_len left)
    pure ((some left_idx, none), split)
  insert_beside parent_idx insert_at (some left) (some right) = do
    left_idx ← push_leaf left parent_idx
    right_idx ← push_leaf right parent_idx
    split ←
        insert_two_in_inode parent_idx insert_at left_idx (P.leaf_len left) insert_at right_idx
          (P.leaf_len right)
    pure ((some left_idx, some right_idx), split)

  -- What an edit returns besides the leaf.
  abbrev edited : {S : Type 0} → Edited S L → (S × Option L × Option L) × L
  edited e = ((e.captured, e.first, e.second), e.value)

  unfoldable pub with_leaf_mut_handle_split :
      {S : Type 0} → ℕ → ℕ → (L → Result Panic (Edited S L)) → Cmd (Gtree L) (Idxs S × Option Inode)
  unfolding lnode with_leaf_mut_handle_parent push_leaf insert_in_inode insert_two_in_inode
  with_leaf_mut_handle_split leaf_idx idx_in_parent fun = do
    l ← read (lnode leaf_idx)
    (s, left, right) ← with_leaf_mut_handle_parent leaf_idx (λ l. map_ok edited (fun l))
    (idxs, split) ← insert_beside l.parent (suc idx_in_parent) left right
    pure ((s, idxs.0, idxs.1), split)

  -- The recursive function of `mod insert`, for a tree of at most this many levels.
  unfoldable pub insert_from :
      {S : Type 0}
      → ℕ
      → ℕ
      → ℕ
      → ℕ
      → (L → ℕ → Result Panic (Edited S L))
      → Cmd (Gtree L) (Idxs S × Option Inode)
  unfolding child_at_offset inode nth with_internal_mut_handle_split with_leaf_mut_handle_split leaf
      update_child_idx_after_inserting_after
  insert_from zero in_inode leaf_offset at_offset insert_with = panic out_of_rounds
  insert_from (suc k) in_inode leaf_offset at_offset insert_with = do
    (child_idx, offset) ← read (child_at_offset in_inode (sub at_offset leaf_offset))
    n ← read (inode in_inode)
    child ← read (λ g. nth n.children child_idx)
    let leaf_offset' = add leaf_offset offset
    let internal =
        with_internal_mut_handle_split child child_idx
          (insert_from k child leaf_offset' at_offset insert_with)
    let external = (do
      ((s, inserted_idx, split_idx), split) ←
          with_leaf_mut_handle_split child child_idx
            (λ l. insert_with l (sub at_offset leaf_offset'))
      l ← read (leaf child)
      cursor_after_insertion inserted_idx child in_inode child_idx leaf_offset' (P.leaf_len l)
      pure ((s, inserted_idx, split_idx), split))
    if n.has_leaves then external else internal

  unfoldable pub insert_at_offset :
      {S : Type 0} → ℕ → (L → ℕ → Result Panic (Edited S L)) → Cmd (Gtree L) (Idxs S)
  unfolding insert_from root_has_split
  insert_at_offset offset insert_with = do
    root_idx ← read (λ g. ok g.root_idx)
    k ← read (λ g. ok (rounds g))
    (idxs, maybe_split) ← insert_from k root_idx 0 offset insert_with
    elim maybe_split [ none ↦ pure tt | some root_split ↦ root_has_split root_split ]
    pure idxs

  -- The leaf at the cursor, if the offset is in it.
  abbrev cursor_for : ℕ → Gtree L → Result Panic (Option Cursor)
  cursor_for offset g = elim g.cursor [
    | none ↦ ok none
    | some c ↦ map_ok (λ end. if at_cursor c end offset then some c else none) (cursor_end c g)
  ]

  unfoldable pub insert :
      {S : Type 0} → ℕ → (L → ℕ → Result Panic (Edited S L)) → Cmd (Gtree L) (Idxs S)
  unfolding cursor_end insert_at_leaf insert_at_offset
  insert offset insert_with = do
    cursor ← read (cursor_for offset)
    elim cursor [
      | none ↦ insert_at_offset offset insert_with
      | some c ↦ insert_at_leaf c.leaf_idx c.offset c.child_idx (sub offset c.offset) insert_with
    ]
