-- ===== src/Gtree/Delete/Half.antt =====
-- Deleting below an inode from an offset on or up to one: `delete_from` and `delete_up_to` of `mod delete`
-- (src/gtree.rs).
use cola.Prelude.{
  ℕ, zero, suc, Option, none, some, Result, ok, err, map_ok, leb, if◌then◌else◌, add, sub,
}
use cola.Panics.{Panic, out_of_rounds, unreachable}
use cola.Slices.{Cmd, pure, panic, read, ◌>>=◌, nth}
use cola.Gtree.{Leaves, Gtree, Inode, inode, num_children}
use cola.Gtree.Find.{child_measure}
use cola.Gtree.Grow.{push_leaf, push_inode}
use cola.Gtree.Insert.{
  Edited, with_internal_mut_handle_parent, with_internal_mut_handle_split,
  with_leaf_mut_handle_parent, with_leaf_mut_handle_split,
}
use cola.Gtree.Locate.{first_after}
use cola.Gtree.Delete.{DeleteWith, delete_child}

abbrev some_or : {A : Type 0} → Panic → Option A → Result Panic A
some_or p none = err p
some_or p (some a) = ok a

-- The rest of the leaf, which is inserted after it.
abbrev one_more : {S L : Type 0} → S × L × Option L → Edited S L
one_more (s, value, rest) = record { captured = s; value = value; first = rest; second = none }

-- What a call of `delete_from` or `delete_up_to` returns, with the captured variables.
abbrev pub Half : Type 0 → Type 0
Half S = (S × Option ℕ) × Option Inode

-- What is left at one end of a range: the captured variables, the new leaf, and the node to insert
-- with its length.
abbrev pub End : Type 0 → Type 0
End S = S × Option ℕ × Option (ℕ × ℕ)

module _ {S L : Type 0} ⦃P : Leaves L⦄ where
  -- The deletion inside a leaf, with its split off rest inserted after it.
  abbrev half_leaf : (L → Result Panic (S × L × Option L)) → ℕ → ℕ → Cmd (Gtree L) (Half S)
  half_leaf del leaf_idx child_idx = do
    ((s, idx, _), split) ←
        with_leaf_mut_handle_split leaf_idx child_idx (λ l. map_ok one_more (del l))
    pure ((s, idx), split)

  -- The loop that deletes as many children as this, from an index on.
  unfoldable pub delete_later : DeleteWith S L → ℕ → ℕ → ℕ → S → Cmd (Gtree L) S
  unfolding delete_child
  delete_later D inode_idx child_idx zero s = pure s
  delete_later D inode_idx child_idx (suc n) s = do
    s' ← delete_child D inode_idx child_idx s
    delete_later D inode_idx (suc child_idx) n s'

  -- `delete_from`, for an inode with at most this many levels.
  unfoldable pub delete_from : DeleteWith S L → ℕ → ℕ → ℕ → S → Cmd (Gtree L) (Half S)
  unfolding inode nth first_after delete_later with_internal_mut_handle_split
      with_leaf_mut_handle_split
  delete_from D zero inode_idx from s = panic out_of_rounds
  delete_from D (suc k) inode_idx from s = do
    n ← read (inode inode_idx)
    found ← read (λ g. first_after g n.has_leaves n.children 0 0 from)
    (child_idx, offset, later) ← read (λ g. some_or unreachable found)
    s' ← delete_later D inode_idx (suc child_idx) later s
    child ← read (λ g. nth n.children child_idx)
    let internal =
        with_internal_mut_handle_split child child_idx (delete_from D k child (sub from offset) s')
    let external =
        half_leaf (λ l. D.delete_from (D.before_delete l s') l (sub from offset)) child child_idx
    if n.has_leaves then external else internal

  -- The loop that deletes the children that end before `up_to`, from an index and an offset on. It
  -- returns the first one that does not, with its offset.
  unfoldable pub delete_earlier :
      DeleteWith S L → ℕ → ℕ → ℕ → ℕ → ℕ → S → Cmd (Gtree L) (S × Option (ℕ × ℕ))
  unfolding child_measure delete_child
  delete_earlier D idx child_idx zero offset up_to s = pure (s, none)
  delete_earlier D idx child_idx (suc n) offset up_to s = do
    len ← read (child_measure idx child_idx)
    let deleted : Cmd (Gtree L) (S × Option (ℕ × ℕ)) = (do
      s' ← delete_child D idx child_idx s
      delete_earlier D idx (suc child_idx) n (add offset len) up_to s')
    let here = some (child_idx, sub (add offset len) len)
    if leb up_to (add offset len) then pure (s, here) else deleted

  unfoldable pub delete_up_to : DeleteWith S L → ℕ → ℕ → ℕ → S → Cmd (Gtree L) (Half S)
  unfolding inode nth delete_earlier with_internal_mut_handle_split with_leaf_mut_handle_split
  delete_up_to D zero idx up_to s = panic out_of_rounds
  delete_up_to D (suc k) idx up_to s = do
    n ← read (inode idx)
    (s', found) ← delete_earlier D idx 0 (num_children n) 0 up_to s
    (child_idx, offset) ← read (λ g. some_or unreachable found)
    child ← read (λ g. nth n.children child_idx)
    let internal =
        with_internal_mut_handle_split child child_idx
          (delete_up_to D k child (sub up_to offset) s')
    let external =
        half_leaf (λ l. D.delete_up_to (D.before_delete l s') l (sub up_to offset)) child child_idx
    if n.has_leaves then external else internal

  abbrev pub end_in_internal : ℕ → ℕ → Cmd (Gtree L) (Half S) → Cmd (Gtree L) (End S)
  end_in_internal idx child fun = do
    ((s, leaf_idx), split) ← with_internal_mut_handle_parent child fun
    elim split [
      | none ↦ pure (s, leaf_idx, none)
      | some extra ↦ do
        inode_idx ← push_inode extra idx
        pure (s, leaf_idx, some (inode_idx, extra.tot_len))
    ]

  abbrev pub end_in_leaf : ℕ → ℕ → (L → Result Panic (S × L × Option L)) → Cmd (Gtree L) (End S)
  end_in_leaf idx child del = do
    (s, rest) ← with_leaf_mut_handle_parent child (λ l. map_ok (λ r. ((r.0, r.2), r.1)) (del l))
    elim rest [
      | none ↦ pure (s, none, none)
      | some split ↦ do
        leaf_idx ← push_leaf split idx
        pure (s, some leaf_idx, some (leaf_idx, P.leaf_len split))
    ]
