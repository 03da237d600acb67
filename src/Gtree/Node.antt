-- ===== src/Gtree/Node.antt =====
-- Internal nodes: the methods of `Inode` (src/gtree.rs).
use cola.Prelude.{
  ℕ, suc, ◌/◌, Bool, true, false, List, [], ◌∷◌, ◌++◌, Result, ok, err, ◌>>=◌, take, drop, ◌==◌,
  if◌then◌else◌, add, sub,
}
use cola.Panics.{Panic, none_unwrapped, unreachable}
use cola.Gtree.{Inode, dangling, num_children}

-- `insert_in_slice` at an offset that is at most the number of children, in a node that has room.
unfoldable pub insert_at {ℓ} : {A : Type ℓ} → List A → ℕ → A → List A
insert_at xs i x = take i xs ++ x ∷ drop i xs

unfoldable pub insert : ℕ → ℕ → ℕ → Inode → Inode
unfolding insert_at
insert at_offset child child_len n = record n {
  children = insert_at n.children at_offset child;
  tot_len = add n.tot_len child_len;
}

unfoldable pub insert_two : ℕ → ℕ → ℕ → ℕ → ℕ → ℕ → Inode → Inode
unfolding insert
insert_two first_offset first_child first_len second_offset second_child second_len n =
    insert (suc second_offset) second_child second_len (insert first_offset first_child first_len n)

-- What `split` leaves in the node, and the new one.
unfoldable pub split : ℕ → ℕ → Inode → Inode × Inode
split at_offset new_len n = (
  record n { tot_len = new_len; children = take at_offset n.children },
  record {
    tot_len = sub n.tot_len new_len;
    parent = dangling;
    children = drop at_offset n.children;
    has_leaves = n.has_leaves;
  },
)

abbrev pub min_children : ℕ → ℕ
min_children arity = arity / 2

abbrev pub is_full : ℕ → Inode → Bool
is_full arity n = num_children n == arity

abbrev pub from_leaf : ℕ → ℕ → ℕ → Inode
from_leaf leaf len parent = record {
  children = leaf ∷ [];
  parent = parent;
  tot_len = len;
  has_leaves = true;
}

abbrev pub from_two_internals : ℕ → ℕ → ℕ → ℕ → ℕ → Inode
from_two_internals first second first_len second_len parent = record {
  children = first ∷ second ∷ [];
  parent = parent;
  tot_len = add first_len second_len;
  has_leaves = false;
}

-- `idx_of_internal_child` and `idx_of_leaf_child`: the first child with this index, from `i` on.
unfoldable pub position : List ℕ → ℕ → ℕ → Result Panic ℕ
position [] idx i = err none_unwrapped
position (c ∷ cs) idx i = let rest = position cs idx (suc i) in if c == idx then ok i else rest

-- `children().unwrap_leaf()` and `children().unwrap_internal()`
abbrev pub leaf_children : Inode → Result Panic (List ℕ)
leaf_children n = if n.has_leaves then ok n.children else err unreachable

abbrev pub internal_children : Inode → Result Panic (List ℕ)
internal_children n = if n.has_leaves then err unreachable else ok n.children

unfoldable pub idx_of_leaf_child : ℕ → Inode → Result Panic ℕ
unfolding position
idx_of_leaf_child idx n = do cs ← leaf_children n; position cs idx 0

unfoldable pub idx_of_internal_child : ℕ → Inode → Result Panic ℕ
unfolding position
idx_of_internal_child idx n = do cs ← internal_children n; position cs idx 0
