-- ===== src/Gtree/Iter.antt =====
-- The iterator over the leaves from one on: `Leaves` of `mod iter` (src/gtree.rs).
pub mod Descent
pub mod Parts
pub mod Rest
pub mod Visits
pub mod Start
pub mod Order
use cola.Prelude.{
  ℕ, zero, suc, Bool, true, Option, none, some, List, [], ◌∷◌, Result, ok, err, ◌>>=◌, ltb,
  if◌then◌else◌, length,
}
use cola.Panics.{Panic, out_of_rounds, unreachable}
use cola.Slices.{nth}
use cola.Gtree.{Gtree, inode, lnode, leaf, rounds, num_children}
use cola.Gtree.Find.{is_root, idx_of_inode_in_parent}
use cola.Gtree.Walk.{siblings, first_leaf_idx}

-- The path from the root to the parent of the current leaves, with the last step first.
pub record LeavesFrom : Type 0 where
  pub path : List (ℕ × ℕ)
  pub current_leaves : List ℕ

module _ {L : Type 0} where
  unfoldable pub path_from_root : Gtree L → ℕ → ℕ → Result Panic (List (ℕ × ℕ))
  unfolding inode idx_of_inode_in_parent
  path_from_root g zero inode_idx = err out_of_rounds
  path_from_root g (suc k) inode_idx =
      let further : Result Panic (List (ℕ × ℕ)) = (do
        n ← inode inode_idx g
        child_idx ← idx_of_inode_in_parent inode_idx g
        path ← path_from_root g k n.parent
        ok ((n.parent, child_idx) ∷ path)) in
      if is_root inode_idx g then ok [] else further

  -- With `include` the leaf itself comes first, else the one after it.
  unfoldable pub leaves_from : Bool → ℕ → Gtree L → Result Panic LeavesFrom
  unfolding siblings lnode path_from_root
  leaves_from include start_idx g = do
    current_leaves ← siblings include start_idx g
    l ← lnode start_idx g
    path ← path_from_root g (rounds g) l.parent
    ok (record { path = path; current_leaves = current_leaves })

  unfoldable pub leaves_from_first : Gtree L → Result Panic LeavesFrom
  unfolding first_leaf_idx leaves_from
  leaves_from_first g = do idx ← first_leaf_idx g; leaves_from true idx g

  -- The path to the next inode: steps at a last child are dropped, the one before them moves on.
  unfoldable pub next_path : Gtree L → List (ℕ × ℕ) → Result Panic (List (ℕ × ℕ))
  unfolding inode
  next_path g [] = ok []
  next_path g ((idx, child_idx) ∷ path) = do
    n ← inode idx g
    let rest = next_path g path
    if ltb (suc child_idx) (num_children n) then ok ((idx, suc child_idx) ∷ path) else rest

  -- The descent along first children to an inode with leaves.
  unfoldable pub descend_first : Gtree L → ℕ → ℕ → List (ℕ × ℕ) → Result Panic LeavesFrom
  unfolding inode nth
  descend_first g zero idx path = err out_of_rounds
  descend_first g (suc k) idx path = do
    n ← inode idx g
    let further : Result Panic LeavesFrom = (do
      child ← nth n.children 0
      descend_first g k child ((idx, 0) ∷ path))
    let here : LeavesFrom = record { path = path; current_leaves = n.children }
    if n.has_leaves then ok here else further

  -- The leaves of the next inode, if there is one.
  unfoldable pub next_leaves : Gtree L → List (ℕ × ℕ) → Result Panic (Option LeavesFrom)
  unfolding next_path inode nth descend_first
  next_leaves g path = do
    path ← next_path g path
    elim path [
      | [] ↦ ok none
      | (last_idx, child_idx) ∷ above ↦ do
        n ← inode last_idx g
        idx ← nth n.children child_idx
        let below : Result Panic (Option LeavesFrom) = (do
          it ← descend_first g (rounds g) idx ((last_idx, child_idx) ∷ above)
          ok (some it))
        if n.has_leaves then err unreachable else below
    ]

  -- `next`, which calls itself again on the leaves of the next inode.
  unfoldable pub next_in : Gtree L → ℕ → LeavesFrom → Result Panic (Option (ℕ × LeavesFrom))
  unfolding next_leaves
  next_in g zero it = err out_of_rounds
  next_in g (suc k) it = elim it.current_leaves [
    | first ∷ rest ↦ ok (some (first, record it { current_leaves = rest }))
    | [] ↦ do
      after ← next_leaves g it.path
      elim after [ none ↦ ok none | some it' ↦ next_in g k it' ]
  ]

  unfoldable pub next : Gtree L → LeavesFrom → Result Panic (Option ((ℕ × L) × LeavesFrom))
  unfolding next_in leaf
  next g it = do
    found ← next_in g (rounds g) it
    elim found [ none ↦ ok none | some (idx, it') ↦ do l ← leaf idx g; ok (some ((idx, l), it')) ]

  -- What the iterator yields in as many calls, at most.
  unfoldable pub collect : Gtree L → ℕ → LeavesFrom → Result Panic (List (ℕ × L))
  unfolding next
  collect g zero it = err out_of_rounds
  collect g (suc k) it = do
    found ← next g it
    elim found [ none ↦ ok [] | some (item, it') ↦ do items ← collect g k it'; ok (item ∷ items) ]

  -- All the leaves.
  unfoldable pub leaves : Gtree L → Result Panic (List (ℕ × L))
  unfolding leaves_from_first collect
  leaves g = do it ← leaves_from_first g; collect g (suc (length g.lnodes)) it
