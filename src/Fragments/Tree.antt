-- ===== src/Fragments/Tree.antt =====
-- `Fragments` of src/run_indices.rs: an array of fragments as long as they fit, and then a tree.
use cola.Prelude.{
  ℕ, Bool, ◌&&◌, Option, none, some, Result, ok, err, ◌>>=◌, map_ok, length, ◌==◌, if◌then◌else◌,
  add, sub, List, map,
}
use cola.Anchor.{AnchorBias, right, same_bias}
use cola.Panics.{Panic, none_unwrapped}
use cola.Gtree.{Leaves, Gtree, leaf, gtree_len}
use cola.Gtree.Find.{leaf_at_offset}
use cola.Gtree.Walk.{next_leaf, prev_leaf}
use cola.Gtree.Edit
use cola.Gtree.Iter
use cola.Gtree.Edit.{from_leaves, with_last_leaf_mut, with_two_mut, split_leaf}
use cola.Fragments as Inline
use cola.Fragments.{Fragment, Array, fragments, split_fragment}

abbrev pub fragments_inline : ℕ
fragments_inline = 8

-- `Leaf` for fragments, which are never joined.
abbrev pub leaf_fragments : Leaves Fragment
leaf_fragments = record {
  arity = fragments_inline;
  leaf_len = λ f. f.len;
  append = λ f other. err other;
  prepend = λ f other. err other;
}

pub data Fragments : Type 0 where
  array : Array → Fragments
  gtree : Gtree Fragment → Fragments

abbrev pub default : Fragments
default = array (Inline.default fragments_inline)

-- What a call on `&mut self` of a tree leaves of it.
abbrev changed : {A : Type 0} → Result Panic (A × Gtree Fragment) → Result Panic Fragments
changed r = map_ok (λ p. gtree p.1) r

abbrev pub unwrap : {A : Type 0} → Option A → Result Panic A
unwrap none = err none_unwrapped
unwrap (some a) = ok a

abbrev is_full : Array → Bool
is_full a = a.len == fragments_inline

-- The tree that replaces an array that is full.
abbrev pub to_gtree : Array → Result Panic (Gtree Fragment)
to_gtree a = from_leaves ⦃P = leaf_fragments⦄ (fragments a) a.total_len

unfoldable pub append : Fragments → Fragment → Result Panic Fragments
unfolding Edit.append Inline.append from_leaves
append (array a) f =
    if is_full a
    then changed (do g ← to_gtree a; Edit.append ⦃P = leaf_fragments⦄ f g)
    else map_ok array (Inline.append a f)
append (gtree g) f = changed (Edit.append ⦃P = leaf_fragments⦄ f g)

unfoldable pub from_first_fragment : Fragment → Result Panic Fragments
unfolding append
from_first_fragment f = append default f

unfoldable pub extend : Fragments → ℕ → Result Panic Fragments
unfolding Inline.extend_last with_last_leaf_mut
extend (array a) extend_by = map_ok array (Inline.extend_last a extend_by)
extend (gtree g) extend_by =
    changed
      (with_last_leaf_mut ⦃P = leaf_fragments⦄ (λ f. ok (record f { len = add f.len extend_by })) g)

-- The fragment at the offset, or the one after it when it ends there and the bias is to the right.
unfoldable pub fragment_at_offset : Fragments → ℕ → AnchorBias → Result Panic Fragment
unfolding Inline.fragment_at_offset leaf_at_offset next_leaf leaf
fragment_at_offset (array a) at_offset bias = Inline.fragment_at_offset a at_offset bias
fragment_at_offset (gtree g) at_offset bias = do
  (leaf_idx, fragment_offset) ← leaf_at_offset ⦃P = leaf_fragments⦄ at_offset g
  f ← leaf leaf_idx g
  let following : Result Panic Fragment = (do
    next ← next_leaf leaf_idx g
    next_idx ← unwrap next
    leaf next_idx g)
  if (add fragment_offset f.len == at_offset) && same_bias bias right then following else ok f

unfoldable pub len : Fragments → Result Panic ℕ
unfolding gtree_len
len (array a) = ok a.total_len
len (gtree g) = gtree_len g

abbrev take_from : ℕ → Fragment → Fragment → Fragment × Fragment
take_from len_move this other =
    (record this { len = sub this.len len_move }, record other { len = add other.len len_move })

abbrev give_to : ℕ → Fragment → Fragment → Fragment × Fragment
give_to len_move other this =
    (record other { len = add other.len len_move }, record this { len = sub this.len len_move })

unfoldable pub move_len_to_next_fragment : Fragments → ℕ → ℕ → Result Panic Fragments
unfolding Inline.move_len_to_next_fragment leaf_at_offset next_leaf with_two_mut
move_len_to_next_fragment (array a) at_offset len_move =
    map_ok array (Inline.move_len_to_next_fragment a at_offset len_move)
move_len_to_next_fragment (gtree g) at_offset len_move = do
  (leaf_idx, offset) ← leaf_at_offset ⦃P = leaf_fragments⦄ at_offset g
  next ← next_leaf leaf_idx g
  next_idx ← unwrap next
  changed (with_two_mut ⦃P = leaf_fragments⦄ leaf_idx next_idx (take_from len_move) g)

unfoldable pub move_len_to_prev_split : Fragments → ℕ → ℕ → Result Panic Fragments
unfolding Inline.move_len_to_prev_fragment leaf_at_offset prev_leaf with_two_mut
move_len_to_prev_split (array a) at_offset len_move =
    map_ok array (Inline.move_len_to_prev_fragment a at_offset len_move)
move_len_to_prev_split (gtree g) at_offset len_move = do
  (leaf_idx, offset) ← leaf_at_offset ⦃P = leaf_fragments⦄ at_offset g
  prev ← prev_leaf leaf_idx g
  prev_idx ← unwrap prev
  changed (with_two_mut ⦃P = leaf_fragments⦄ prev_idx leaf_idx (give_to len_move) g)

unfoldable pub num_fragments : Fragments → ℕ
num_fragments (array a) = a.len
num_fragments (gtree g) = length g.lnodes

abbrev split_gtree : Gtree Fragment → ℕ → ℕ → Result Panic Fragments
split_gtree g at_offset new_idx = do
  (leaf_idx, offset) ← leaf_at_offset ⦃P = leaf_fragments⦄ at_offset g
  changed (
      split_leaf ⦃P = leaf_fragments⦄ leaf_idx
        (λ f. ok (split_fragment f (sub at_offset offset) new_idx)) g)

unfoldable pub split : Fragments → ℕ → ℕ → Result Panic Fragments
unfolding Inline.split from_leaves leaf_at_offset split_leaf
split (array a) at_offset new_idx =
    if is_full a
    then (do g ← to_gtree a; split_gtree g at_offset new_idx)
    else map_ok array (Inline.split a at_offset new_idx)
split (gtree g) at_offset new_idx = split_gtree g at_offset new_idx

-- `iter`: the fragments in order.
unfoldable pub iter : Fragments → Result Panic (List Fragment)
unfolding Iter.leaves
iter (array a) = ok (fragments a)
iter (gtree g) = map_ok (map (λ p. p.1)) (Iter.leaves g)
