-- ===== src/Gtree/Delete/Span.antt =====
-- Deleting a range that spans several leaves: `delete_range_in_inode` of `mod delete` and what calls it
-- (src/gtree.rs).
use cola.Prelude.{ℕ, zero, suc, Option, none, some, ok, if◌then◌else◌, add, sub}
use cola.Text.{Range}
use cola.Panics.{out_of_rounds}
use cola.Slices.{Cmd, pure, panic, read, ◌>>=◌, ◌>>◌, nth}
use cola.Gtree.{Leaves, Gtree, Inode, diff, inode, set_cursor, rounds}
use cola.Gtree.Find.{child_measure, child_containing_range}
use cola.Gtree.Grow.{push_leaf, push_inode, bubble, insert_in_inode, insert_two_in_inode}
use cola.Gtree.Insert.{Idxs, with_internal_mut_handle_parent, with_leaf_mut_handle_parent}
use cola.Gtree.Delete.{DeleteWith, delete_range_in_leaf}
use cola.Gtree.Delete.Half.{
  End, delete_from, delete_up_to, delete_earlier, end_in_internal, end_in_leaf,
}
use cola.Gtree.Locate.{sub_range, first_after, leaf_with_range}

abbrev split_len : Option Inode → ℕ
split_len none = 0
split_len (some n) = n.tot_len

module _ {L : Type 0} ⦃P : Leaves L⦄ where
  -- The new children of the inode.
  unfoldable pub insert_extras :
      ℕ → ℕ → ℕ → Option (ℕ × ℕ) → Option (ℕ × ℕ) → Cmd (Gtree L) (Option Inode)
  unfolding insert_two_in_inode insert_in_inode
  insert_extras idx start_offset end_offset none none = pure none
  insert_extras idx start_offset end_offset (some (start, len)) none =
      insert_in_inode idx start_offset start len
  insert_extras idx start_offset end_offset none (some (end, len)) =
      insert_in_inode idx end_offset end len
  insert_extras idx start_offset end_offset (some (start, start_len)) (some (end, end_len)) =
      insert_two_in_inode idx start_offset start start_len end_offset end end_len

module _ {S L : Type 0} ⦃P : Leaves L⦄ where
  -- The child where the range starts.
  unfoldable pub delete_start : DeleteWith S L → ℕ → ℕ → ℕ → ℕ → S → Cmd (Gtree L) (End S)
  unfolding inode nth delete_from with_internal_mut_handle_parent with_leaf_mut_handle_parent
      push_inode push_leaf
  delete_start D k idx child_idx from s = do
    n ← read (inode idx)
    child ← read (λ g. nth n.children child_idx)
    let external = end_in_leaf idx child (λ l. D.delete_from (D.before_delete l s) l from)
    let internal = end_in_internal idx child (delete_from D k child from s)
    if n.has_leaves then external else internal

  -- The child where the range ends.
  unfoldable pub delete_end : DeleteWith S L → ℕ → ℕ → ℕ → ℕ → S → Cmd (Gtree L) (End S)
  unfolding inode nth delete_up_to with_internal_mut_handle_parent with_leaf_mut_handle_parent
      push_inode push_leaf
  delete_end D k idx child_idx up_to s = do
    n ← read (inode idx)
    child ← read (λ g. nth n.children child_idx)
    let external = end_in_leaf idx child (λ l. D.delete_up_to (D.before_delete l s) l up_to)
    let internal = end_in_internal idx child (delete_up_to D k child up_to s)
    if n.has_leaves then external else internal

  -- The first loop of `delete_range_in_inode`, with the index of the child where the range starts, the
  -- offset after it, and the number of children that follow it.
  abbrev start_loop : DeleteWith S L → ℕ → ℕ → ℕ → S → Cmd (Gtree L) (End S × ℕ × ℕ × ℕ)
  start_loop D k idx start s = do
    n ← read (inode idx)
    found ← read (λ g. first_after g n.has_leaves n.children 0 0 start)
    elim found [
      | none ↦ pure ((s, none, none), 0, 0, 0)
      | some (child_idx, offset, later) ↦ do
        len ← read (child_measure idx child_idx)
        r ← delete_start D k idx child_idx (sub start offset) s
        pure (r, child_idx, add offset len, later)
    ]

  -- What follows the second loop of `delete_range_in_inode`.
  abbrev end_loop : DeleteWith S L → ℕ → ℕ → ℕ → Option (ℕ × ℕ) → S → Cmd (Gtree L) (End S × ℕ)
  end_loop D k idx end none s = pure ((s, none, none), 0)
  end_loop D k idx end (some (child_idx, offset)) s = do
    r ← delete_end D k idx child_idx (sub end offset) s
    pure (r, child_idx)

  -- `mod delete`'s `delete_range_in_inode`, for an inode with at most this many levels below.
  unfoldable pub delete_in_inode :
      DeleteWith S L → ℕ → ℕ → Range → S → Cmd (Gtree L) (Idxs S × Option Inode)
  unfolding inode first_after child_measure delete_start delete_earlier delete_end insert_extras
  delete_in_inode D k idx range s = do
    ((s1, leaf_idx_start, extra_from_start), idx_start, offset, later) ←
        start_loop D k idx range.start s
    (s2, found) ← delete_earlier D idx (suc idx_start) later offset range.end s1
    ((s3, leaf_idx_end, extra_from_end), idx_end) ← end_loop D k idx range.end found s2
    split ← insert_extras idx (suc idx_start) (suc idx_end) extra_from_start extra_from_end
    pure ((s3, leaf_idx_start, leaf_idx_end), split)

  unfoldable pub delete_range_in_inode : DeleteWith S L → ℕ → Range → S → Cmd (Gtree L) (Idxs S)
  unfolding inode delete_in_inode bubble
  delete_range_in_inode D idx range s = do
    set_cursor none
    old ← read (inode idx)
    k ← read (λ g. ok (rounds g))
    (idxs, maybe_split) ← delete_in_inode D k idx range s
    new ← read (inode idx)
    bubble idx maybe_split (diff old.tot_len new.tot_len)
        (diff old.tot_len (add new.tot_len (split_len maybe_split)))
    pure idxs

  -- The loop of `delete_range`.
  unfoldable pub delete_at_deepest : DeleteWith S L → ℕ → ℕ → ℕ → Range → S → Cmd (Gtree L) (Idxs S)
  unfolding child_containing_range inode nth delete_range_in_leaf delete_range_in_inode
  delete_at_deepest D zero idx leaf_offset range s = panic out_of_rounds
  delete_at_deepest D (suc k) idx leaf_offset range s =
      let spanning = delete_range_in_inode D idx range s in
      let below : ℕ → ℕ → Cmd (Gtree L) (Idxs S) = λ child_idx offset. (do
        n ← read (inode idx)
        child ← read (λ g. nth n.children child_idx)
        let leaf_offset' = add leaf_offset offset
        let further = delete_at_deepest D k child leaf_offset' (sub_range range offset) s
        let inside = delete_range_in_leaf D child leaf_offset' child_idx (sub_range range offset) s
        if n.has_leaves then inside else further) in
      read (child_containing_range idx range) >>= λ found. elim found [
        | none ↦ spanning
        | some (child_idx, offset) ↦ below child_idx offset
      ]

  unfoldable pub delete_range : DeleteWith S L → Range → S → Cmd (Gtree L) (Idxs S)
  unfolding delete_at_deepest
  delete_range D range s = do
    root_idx ← read (λ g. ok g.root_idx)
    k ← read (λ g. ok (rounds g))
    delete_at_deepest D k root_idx 0 range s

  unfoldable pub delete : DeleteWith S L → Range → S → Cmd (Gtree L) (Idxs S)
  unfolding leaf_with_range delete_range_in_leaf delete_range
  delete D range s = do
    at ← read (leaf_with_range range)
    elim at [
      | none ↦ delete_range D range s
      | some c ↦ delete_range_in_leaf D c.leaf_idx c.offset c.child_idx (sub_range range c.offset) s
    ]
