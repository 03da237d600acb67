-- ===== src/Gtree/Room.antt =====
-- New children of an inode, which is split when it is full (src/gtree.rs).
use cola.Prelude.{
  refl, length-take_le, drop, length-drop, suc, inl, inr, ◌<◌, Bool-cases, length-drop, Option, ℕ,
  ◌+◌, ◌-◌, ◌*◌, ◌/◌, ◌^◌, ◌<◌, ◌≤◌, ◌≡◌, ap, true, false, none, some, List, ok, length, take,
  arith, leb, ◌==◌,
}
use cola.Gtree.{Leaves, Gtree, Inode, inode}
use cola.Gtree.Node
use cola.Gtree.Node.{insert_at, insert_at, min_children}
use cola.Gtree.Find.{len_offset_of_child}
use cola.Gtree.Arena.{
  set_inode, update_inode-set_inode, inode-set_inode, set_inode-set_inode, total, HasLens,
  sum_lens-total,
}
use cola.Gtree.Splices.{insert_at-take, insert_at-drop, length-insert_at}
use cola.Gtree.Halves.{
  IsMeasured-insert, IsMeasured-kept, IsMeasured-rest, Halved, total-take-drop, IsMeasured,
}
use cola.Gtree.Grow.{split_inode, insert_in_inode}

module _ {L : Type 0} ⦃P : Leaves L⦄ where
  len_offset_of_child-total :
      (g : Gtree L) (idx k : ℕ) (n : Inode) (ns : List ℕ)
      → inode idx g ≡ ok n
      → HasLens g n.has_leaves n.children ns
      → total ns < 2 ^ 64
      → len_offset_of_child idx k g ≡ ok (total (take k ns))
  unfolding len_offset_of_child
  len_offset_of_child-total g idx k n ns e h fits =
      rw (e, sum_lens-total g n.has_leaves n.children ns k 0 h (omega arith)) (ap ok (omega arith))

  pub split_inode-split :
      (g : Gtree L) (idx k : ℕ) (n : Inode) (ns : List ℕ)
      → inode idx g ≡ ok n
      → HasLens g n.has_leaves n.children ns
      → total ns < 2 ^ 64
      → let halves = Node.split k (total (take k ns)) n in
        split_inode idx k g ≡ ok (halves.1, set_inode idx halves.0 g)
  unfolding split_inode
  split_inode-split g idx k n ns e h fits = rw (
    len_offset_of_child-total g idx k n ns e h fits,
    e,
    update_inode-set_inode idx (λ n. (Node.split k (total (take k ns)) n).0) g n e,
  )

  module _ (g : Gtree L) (idx at c len : ℕ) (n : Inode) (ns : List ℕ) (half : ℕ)
      (e : inode idx g ≡ ok n) (h : HasLens g n.has_leaves n.children ns) (m : IsMeasured n ns)
      (even : P.arity ≡ 2 * half) (positive : 0 < half) (fits : total ns + len < 2 ^ 64)
      (inside : at ≤ length n.children) where
    within :
        (length n.children == P.arity) ≡ false
        → insert_in_inode idx at c len g ≡ ok (none, set_inode idx (Node.insert at c len n) g)
    unfolding insert_in_inode
    within p = rw (e, p, update_inode-set_inode idx (Node.insert at c len) g n e)

    before :
        (length n.children == P.arity) ≡ true
        → leb at (P.arity / 2) ≡ true
        → let halves = Node.split half (total (take half ns)) n in
          insert_in_inode idx at c len g
          ≡ ok (some halves.1, set_inode idx (Node.insert at c len halves.0) g)
    unfolding insert_in_inode
    before p q =
        let halves = Node.split half (total (take half ns)) n in
        let full : length n.children ≡ P.arity = ground arith in
        let at_half : length n.children - P.arity / 2 ≡ half = omega arith in
        let split = split_inode-split g idx half n ns e h (omega arith) in
        rw (
          e,
          p,
          q,
          at_half,
          split,
          update_inode-set_inode idx (Node.insert at c len) (set_inode idx halves.0 g) halves.0
              (inode-set_inode idx halves.0 g n e),
          set_inode-set_inode idx halves.0 (Node.insert at c len halves.0) g,
        )

    after :
        (length n.children == P.arity) ≡ true
        → leb at (P.arity / 2) ≡ false
        → let halves = Node.split (suc half) (total (take (suc half) ns)) n in
          insert_in_inode idx at c len g
          ≡ ok (some (Node.insert (at - suc half) c len halves.1), set_inode idx halves.0 g)
    unfolding insert_in_inode Node.split
    after p q =
        let halves = Node.split (suc half) (total (take (suc half) ns)) n in
        let full : length n.children ≡ P.arity = ground arith in
        let late : half < at = ground arith in
        let at_half : length n.children - P.arity / 2 ≡ half = omega arith in
        let kept : length (take (suc half) n.children) ≡ suc half =
          length-take_le (suc half) n.children (omega arith) in
        rw (
          e,
          p,
          q,
          at_half,
          split_inode-split g idx (suc half) n ns e h (omega arith),
          inode-set_inode idx halves.0 g n e,
          kept,
        )

    -- The inode after the insertion, and what was split off.
    abbrev Inserts : Type 0
    Inserts =
        (n' : Inode) × (rest : Option Inode) × (insert_in_inode idx at c len g
          ≡ ok (rest, set_inode idx n' g))
        × (n'.parent ≡ n.parent)
        × (n'.has_leaves ≡ n.has_leaves)
        × Halved P.arity n' rest (insert_at n.children at c) (insert_at ns at len)

    inserts_before : (length n.children == P.arity) ≡ true → leb at (P.arity / 2) ≡ true → Inserts
    unfolding Node.insert Node.split
    inserts_before p q =
        let halves = Node.split half (total (take half ns)) n in
        let full : length n.children ≡ P.arity = ground arith in
        let early : at ≤ half = ground arith in
        let in_half : half ≤ length n.children = omega arith in
        let sum = total-take-drop half ns in
        let size = length-insert_at (take half n.children) at c in
        let kept = length-take_le half n.children in_half in
        let left = length-drop half n.children in
        let rest_size : length (drop half n.children) ≡ P.arity / 2 = omega arith in
        let least : P.arity / 2 ≤ length (insert_at (take half n.children) at c) = omega arith in
        let most : length (insert_at (take half n.children) at c) ≤ P.arity = omega arith in
        (
          Node.insert at c len halves.0,
          some halves.1,
          before p q,
          refl,
          refl,
          (
            (insert_at (take half ns) at len, drop half ns),
            insert_at-take half at n.children c early,
            insert_at-take half at ns len early,
            IsMeasured-insert halves.0 (take half ns) at c len (IsMeasured-kept n ns half m in_half)
                (omega arith),
            IsMeasured-rest n ns half m in_half (omega arith),
            rest_size,
            least,
            most,
            refl,
          ),
        )

    inserts_after : (length n.children == P.arity) ≡ true → leb at (P.arity / 2) ≡ false → Inserts
    unfolding Node.insert Node.split
    inserts_after p q =
        let halves = Node.split (suc half) (total (take (suc half) ns)) n in
        let full : length n.children ≡ P.arity = ground arith in
        let late : suc half ≤ at = ground arith in
        let in_half : suc half ≤ length n.children = omega arith in
        let sum = total-take-drop (suc half) ns in
        let size = length-insert_at (drop (suc half) n.children) (at - suc half) c in
        let kept = length-take_le (suc half) n.children in_half in
        let left = length-drop (suc half) n.children in
        let rest_size : length (insert_at (drop (suc half) n.children) (at - suc half) c)
            ≡ P.arity / 2 =
          omega arith in
        let least : P.arity / 2 ≤ length (take (suc half) n.children) = omega arith in
        let most : length (take (suc half) n.children) ≤ P.arity = omega arith in
        (
          halves.0,
          some (Node.insert (at - suc half) c len halves.1),
          after p q,
          refl,
          refl,
          (
            (take (suc half) ns, insert_at (drop (suc half) ns) (at - suc half) len),
            insert_at-drop (suc half) at n.children c late in_half,
            insert_at-drop (suc half) at ns len late (omega (arith, m.lengths)),
            IsMeasured-kept n ns (suc half) m in_half,
            IsMeasured-insert halves.1 (drop (suc half) ns) (at - suc half) c len
                (IsMeasured-rest n ns (suc half) m in_half (omega arith)) (omega arith),
            rest_size,
            least,
            most,
            refl,
          ),
        )

    -- Let an inode have at most the arity of children, whose lengths sum up to its own length; let the
    -- arity be even and positive, the offset be inside, and the lengths fit. Then `insert_in_inode`
    -- succeeds and changes no other inode; the children of the inode, followed by those of the inode that
    -- it splits off if it was full, are the old ones with the new one inserted at its offset, with their
    -- lengths summed up to the length of either inode; the one that was split off has exactly the least
    -- number of children, and the other one that number or more, up to the arity.
    pub insert_in_inode-Halved : length n.children ≤ P.arity → Inserts
    unfolding Node.insert
    insert_in_inode-Halved small = elim (Bool-cases (length n.children == P.arity)) [
      | inl p ↦ elim (Bool-cases (leb at (P.arity / 2))) [
        | inl q ↦ inserts_before p q
        | inr q ↦ inserts_after p q
      ]
      | inr p ↦
          let room : length n.children < P.arity = ground arith in
          (
            Node.insert at c len n,
            none,
            within p,
            refl,
            refl,
            (
              refl,
              IsMeasured-insert n ns at c len m fits,
              omega (arith, length-insert_at n.children at c),
            ),
          )
    ]
