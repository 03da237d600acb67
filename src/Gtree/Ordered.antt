-- ===== src/Gtree/Ordered.antt =====
-- Two new children of an inode in either order (src/gtree.rs).
use cola.Prelude.{
  ℕ, ◌+◌, ◌*◌, ◌^◌, ◌<◌, ◌≤◌, ◌≡◌, inl, inr, Bool-cases, Option, List, ok, length, ltb,
  if◌then◌else◌, arith,
}
use cola.Gtree.{Leaves, Gtree, Inode, inode}
use cola.Gtree.Arena.{set_inode, total, HasLens}
use cola.Gtree.Splices.{insert_two_at}
use cola.Gtree.Halves.{IsMeasured, Halved}
use cola.Gtree.Grow.{insert_two_in_inode}
use cola.Gtree.Pairs.{insert_two_sorted-Halved}

-- The list with two elements inserted, each at its offset in the list as it was; of two at the same
-- offset the first one comes first.
abbrev pub with_two : {A : Type 0} → List A → ℕ → A → ℕ → A → List A
with_two xs i x j y = if ltb j i then insert_two_at xs j y i x else insert_two_at xs i x j y

module _ {L : Type 0} ⦃P : Leaves L⦄ where
  -- Let an inode have at most the arity of children, whose lengths sum up to its own length; let the
  -- arity be even and at least four, the offsets be inside, and the lengths fit. Then
  -- `insert_two_in_inode` succeeds and changes no other inode; the children of the inode, followed by
  -- those of the inode that it splits off if there was no room, are the old ones with the two new ones
  -- inserted at their offsets, with their lengths summed up to the length of either inode; the one that
  -- was split off has exactly the least number of children, and the other one that number or more, up
  -- to the arity.
  pub insert_two_in_inode-Halved :
      (g : Gtree L) (idx i c len j d len' : ℕ) (n : Inode) (ns : List ℕ) (half : ℕ)
      → inode idx g ≡ ok n
      → HasLens g n.has_leaves n.children ns
      → IsMeasured n ns
      → P.arity ≡ 2 * half
      → 2 ≤ half
      → total ns + len + len' < 2 ^ 64
      → i ≤ length n.children
      → j ≤ length n.children
      → length n.children ≤ P.arity
      → (n' : Inode) × (rest : Option Inode) × (insert_two_in_inode idx i c len j d len' g
          ≡ ok (rest, set_inode idx n' g))
        × (n'.parent ≡ n.parent)
        × (n'.has_leaves ≡ n.has_leaves)
        × Halved P.arity n' rest (with_two n.children i c j d) (with_two ns i len j len')
  unfolding insert_two_in_inode
  insert_two_in_inode-Halved g idx i c len j d len' n ns half e h m even enough fits in_i in_j
        small =
      elim (Bool-cases (ltb j i)) [
        | inl q ↦ rw q (
            insert_two_sorted-Halved g idx j d len' i c len n ns half e h m even enough
              (omega arith) (ground arith) in_i small)
        | inr q ↦ rw q (
            insert_two_sorted-Halved g idx i c len j d len' n ns half e h m even enough
              (omega arith) (ground arith) in_j small)
      ]
