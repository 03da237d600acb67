-- ===== src/Gtree/Walk.antt =====
-- Moving from leaf to leaf (src/gtree.rs).
use cola.Prelude.{
  ℕ, zero, suc, ◌-◌, Bool, Option, none, some, List, [], ◌∷◌, Result, ok, err, ◌>>=◌, ltb, ◌==◌,
  if◌then◌else◌, length, drop,
}
use cola.Panics.{Panic, out_of_rounds}
use cola.Slices.{nth}
use cola.Gtree.{Leaves, Gtree, inode, leaf, lnode, rounds, num_children}
use cola.Gtree.Node.{leaf_children, idx_of_leaf_child}
use cola.Gtree.Find.{is_root, idx_of_leaf_in_parent, idx_of_inode_in_parent}

-- The last element, by index.
abbrev last_of : List ℕ → Result Panic ℕ
last_of l = nth l (length l - 1)

module _ {L : Type 0} where
  -- The descents to the first and to the last leaf below an inode. The second returns the child index
  -- too.
  unfoldable pub leftmost : Gtree L → ℕ → ℕ → Result Panic ℕ
  unfolding inode
  leftmost g zero idx = err out_of_rounds
  leftmost g (suc k) idx = do
    n ← inode idx g
    child ← nth n.children 0
    let further = leftmost g k child
    if n.has_leaves then ok child else further

  unfoldable pub rightmost : Gtree L → ℕ → ℕ → Result Panic (ℕ × ℕ)
  unfolding inode
  rightmost g zero idx = err out_of_rounds
  rightmost g (suc k) idx = do
    n ← inode idx g
    child ← last_of n.children
    let further = rightmost g k child
    if n.has_leaves then ok (child, num_children n - 1) else further

  unfoldable pub first_leaf_idx : Gtree L → Result Panic ℕ
  unfolding leftmost
  first_leaf_idx g = leftmost g (rounds g) g.root_idx

  unfoldable pub last_leaf : Gtree L → Result Panic (ℕ × ℕ)
  unfolding rightmost
  last_leaf g = rightmost g (rounds g) g.root_idx

  -- The climb of `next_leaf` to an inode with a next sibling, which is returned.
  unfoldable pub next_inode : Gtree L → ℕ → ℕ → Result Panic (Option ℕ)
  unfolding inode idx_of_inode_in_parent
  next_inode g zero inode_idx = err out_of_rounds
  next_inode g (suc k) inode_idx =
      let further : Result Panic (Option ℕ) = (do
        idx_in_parent ← idx_of_inode_in_parent inode_idx g
        n ← inode inode_idx g
        parent ← inode n.parent g
        let higher = next_inode g k n.parent
        let here : Result Panic (Option ℕ) = (do
          sibling ← nth parent.children (suc idx_in_parent)
          ok (some sibling))
        if ltb (suc idx_in_parent) (num_children parent) then here else higher) in
      if is_root inode_idx g then ok none else further

  abbrev descend_from :
      (Gtree L → ℕ → Result Panic ℕ) → Gtree L → Option ℕ → Result Panic (Option ℕ)
  descend_from f g none = ok none
  descend_from f g (some idx) = do l ← f g idx; ok (some l)

  unfoldable pub next_leaf : ℕ → Gtree L → Result Panic (Option ℕ)
  unfolding idx_of_leaf_in_parent lnode inode next_inode leftmost
  next_leaf leaf_idx g = do
    idx_in_parent ← idx_of_leaf_in_parent leaf_idx g
    l ← lnode leaf_idx g
    parent ← inode l.parent g
    let sibling : Result Panic (Option ℕ) = (do
      next ← nth parent.children (suc idx_in_parent)
      ok (some next))
    let beyond : Result Panic (Option ℕ) = (do
      next ← next_inode g (rounds g) l.parent
      descend_from (λ g idx. leftmost g (rounds g) idx) g next)
    if ltb (suc idx_in_parent) (num_children parent) then sibling else beyond

  -- The same to the other side.
  unfoldable pub prev_inode : Gtree L → ℕ → ℕ → Result Panic (Option ℕ)
  unfolding inode idx_of_inode_in_parent
  prev_inode g zero inode_idx = err out_of_rounds
  prev_inode g (suc k) inode_idx =
      let further : Result Panic (Option ℕ) = (do
        idx_in_parent ← idx_of_inode_in_parent inode_idx g
        n ← inode inode_idx g
        parent ← inode n.parent g
        let higher = prev_inode g k n.parent
        let here : Result Panic (Option ℕ) = (do
          sibling ← nth parent.children (idx_in_parent - 1)
          ok (some sibling))
        if ltb 0 idx_in_parent then here else higher) in
      if is_root inode_idx g then ok none else further

  unfoldable pub prev_leaf : ℕ → Gtree L → Result Panic (Option ℕ)
  unfolding idx_of_leaf_in_parent lnode inode prev_inode rightmost
  prev_leaf leaf_idx g = do
    idx_in_parent ← idx_of_leaf_in_parent leaf_idx g
    l ← lnode leaf_idx g
    parent ← inode l.parent g
    let sibling : Result Panic (Option ℕ) = (do
      prev ← nth parent.children (idx_in_parent - 1)
      ok (some prev))
    let beyond : Result Panic (Option ℕ) = (do
      prev ← prev_inode g (rounds g) l.parent
      descend_from (λ g idx. (do (l, i) ← rightmost g (rounds g) idx; ok l)) g prev)
    if ltb 0 idx_in_parent then sibling else beyond

  unfoldable pub next_sibling : ℕ → ℕ → Gtree L → Result Panic (Option ℕ)
  unfolding lnode inode
  next_sibling leaf_idx idx_in_parent g = do
    l ← lnode leaf_idx g
    parent ← inode l.parent g
    let next : Result Panic (Option ℕ) = (do
      idx ← nth parent.children (suc idx_in_parent)
      ok (some idx))
    if suc idx_in_parent == num_children parent then ok none else next

  unfoldable pub prev_sibling : ℕ → ℕ → Gtree L → Result Panic (Option ℕ)
  unfolding lnode inode
  prev_sibling leaf_idx idx_in_parent g = do
    l ← lnode leaf_idx g
    parent ← inode l.parent g
    let prev : Result Panic (Option ℕ) = (do
      idx ← nth parent.children (idx_in_parent - 1)
      ok (some idx))
    if idx_in_parent == 0 then ok none else prev

  -- The siblings of a leaf after it, with `include` the leaf itself too (`Siblings::new`).
  unfoldable pub siblings : Bool → ℕ → Gtree L → Result Panic (List ℕ)
  unfolding lnode inode idx_of_leaf_child
  siblings include leaf_idx g = do
    l ← lnode leaf_idx g
    parent ← inode l.parent g
    child_idx ← idx_of_leaf_child leaf_idx parent
    children ← leaf_children parent
    ok (drop (if include then child_idx else suc child_idx) children)

module _ {L : Type 0} ⦃P : Leaves L⦄ where
  -- The first leaf of a list that is not empty, with its child index, which goes up from `i`.
  unfoldable pub non_empty_up : Gtree L → List ℕ → ℕ → Result Panic (Option (ℕ × ℕ))
  unfolding leaf
  non_empty_up g [] i = ok none
  non_empty_up g (c ∷ cs) i = do
    l ← leaf c g
    let rest = non_empty_up g cs (suc i)
    if P.leaf_len l == 0 then rest else ok (some (c, i))

  -- The last one, of those before a child index.
  unfoldable pub non_empty_down : Gtree L → List ℕ → ℕ → Result Panic (Option (ℕ × ℕ))
  unfolding leaf
  non_empty_down g children zero = ok none
  non_empty_down g children (suc i) = do
    c ← nth children i
    l ← leaf c g
    let rest = non_empty_down g children i
    if P.leaf_len l == 0 then rest else ok (some (c, i))

  unfoldable pub next_non_empty_sibling : ℕ → ℕ → Gtree L → Result Panic (Option (ℕ × ℕ))
  unfolding lnode inode non_empty_up
  next_non_empty_sibling leaf_idx idx_in_parent g = do
    l ← lnode leaf_idx g
    parent ← inode l.parent g
    children ← leaf_children parent
    non_empty_up g (drop (suc idx_in_parent) children) (suc idx_in_parent)

  unfoldable pub prev_non_empty_sibling : ℕ → ℕ → Gtree L → Result Panic (Option (ℕ × ℕ))
  unfolding lnode inode non_empty_down
  prev_non_empty_sibling leaf_idx idx_in_parent g = do
    l ← lnode leaf_idx g
    parent ← inode l.parent g
    children ← leaf_children parent
    non_empty_down g children idx_in_parent
