-- ===== src/Gtree/Pairs.antt =====
-- Two new children of an inode at once (src/gtree.rs).
use cola.Prelude.{
  ℕ, suc, ◌-◌, ◌+◌, ◌*◌, ◌/◌, ◌^◌, ◌<◌, ◌≤◌, ◌≡◌, refl, true, false, inl, inr, Bool-cases, Option,
  none, some, List, ok, length, length-take_le, length-drop, take, drop, arith, ltb, leb,
}
use cola.Gtree.{Leaves, Gtree, Inode, inode}
use cola.Gtree.Node
use cola.Gtree.Node.{insert_at, min_children}
use cola.Gtree.Arena.{
  set_inode, update_inode-set_inode, inode-set_inode, set_inode-set_inode, total, HasLens,
}
use cola.Gtree.Splices.{
  length-insert_at, insert_two_at, length-insert_two_at, insert_two_at-before, insert_two_at-after,
  insert_two_at-around,
}
use cola.Gtree.Halves.{
  IsMeasured, IsMeasured-insert, IsMeasured-insert_two, IsMeasured-kept, IsMeasured-rest, Halved,
  total-take-drop,
}
use cola.Gtree.Grow.{insert_two_sorted}
use cola.Gtree.Room.{split_inode-split}

module _ {L : Type 0} ⦃P : Leaves L⦄ where
  two_within :
      (g : Gtree L) (k idx i c len j d len' : ℕ) (n : Inode)
      → inode idx g ≡ ok n
      → ltb (P.arity - length n.children) 2 ≡ false
      → insert_two_sorted (suc k) idx i c len j d len' g
        ≡ ok (none, set_inode idx (Node.insert_two i c len j d len' n) g)
  unfolding insert_two_sorted
  two_within g k idx i c len j d len' n e p =
      rw (e, p, update_inode-set_inode idx (Node.insert_two i c len j d len') g n e)

  module _ (g : Gtree L) (idx i c len j d len' : ℕ) (n : Inode) (ns : List ℕ) (half : ℕ)
      (e : inode idx g ≡ ok n) (h : HasLens g n.has_leaves n.children ns) (m : IsMeasured n ns)
      (even : P.arity ≡ 2 * half) (enough : 2 ≤ half) (fits : total ns + len + len' < 2 ^ 64)
      (sorted : i ≤ j) (inside : j ≤ length n.children) (small : length n.children ≤ P.arity) where
    -- The inode after the insertions, and what was split off.
    abbrev InsertsTwo : Type 0
    InsertsTwo =
        (n' : Inode) × (rest : Option Inode) × (insert_two_sorted 2 idx i c len j d len' g
          ≡ ok (rest, set_inode idx n' g))
        × (n'.parent ≡ n.parent)
        × (n'.has_leaves ≡ n.has_leaves)
        × Halved P.arity n' rest (insert_two_at n.children i c j d) (insert_two_at ns i len j len')

    module _ (at : ℕ) (place : length n.children - P.arity / 2 ≡ at)
        (full : ltb (P.arity - length n.children) 2 ≡ true) where
      tight : P.arity - length n.children < 2
      tight = ground arith

      in_half : at ≤ length n.children
      in_half = omega arith

      in_lens : at ≤ length ns
      in_lens = omega (arith, m.lengths, in_half)

      kept : length (take at n.children) ≡ at
      kept = length-take_le at n.children in_half

      left : length (drop at n.children) ≡ P.arity / 2
      left = omega (arith, length-drop at n.children, tight)

      -- Both children before the place of the split.
      two_before_runs :
          j ≤ at
          → let halves = Node.split at (total (take at ns)) n in
            insert_two_sorted 2 idx i c len j d len' g
            ≡ ok (some halves.1, set_inode idx (Node.insert_two i c len j d len' halves.0) g)
      unfolding insert_two_sorted Node.split
      two_before_runs q =
          let halves = Node.split at (total (take at ns)) n in
          let tight' = tight in
          let early : ltb (P.arity / 2 - 1) (length n.children - j) ≡ true = ground arith in
          let room : ltb (P.arity - length (take at n.children)) 2 ≡ false = ground (arith, kept) in
          let e' = inode-set_inode idx halves.0 g n e in
          rw (
            e,
            full,
            early,
            place,
            split_inode-split g idx at n ns e h (omega arith),
            two_within (set_inode idx halves.0 g) 0 idx i c len j d len' halves.0 e' room,
            set_inode-set_inode idx halves.0 (Node.insert_two i c len j d len' halves.0) g,
          )

      two_before : j ≤ at → InsertsTwo
      unfolding Node.split Node.insert_two Node.insert insert_two_at
      two_before q =
          let halves = Node.split at (total (take at ns)) n in
          let tight' = tight in
          let kept' = kept in
          let sum = total-take-drop at ns in
          let size = length-insert_two_at (take at n.children) i c j d in
          let least : P.arity / 2 ≤ length (insert_two_at (take at n.children) i c j d) =
            omega arith in
          let most : length (insert_two_at (take at n.children) i c j d) ≤ P.arity = omega arith in
          (
            Node.insert_two i c len j d len' halves.0,
            some halves.1,
            two_before_runs q,
            refl,
            refl,
            (
              (insert_two_at (take at ns) i len j len', drop at ns),
              insert_two_at-before at n.children in_half i c j d sorted q,
              insert_two_at-before at ns in_lens i len j len' sorted q,
              IsMeasured-insert_two halves.0 (take at ns) i c len j d len'
                  (IsMeasured-kept n ns at m in_half) (omega arith),
              IsMeasured-rest n ns at m in_half (omega arith),
              left,
              least,
              most,
              refl,
            ),
          )

    module _ (at : ℕ) (place : suc (suc (length n.children - P.arity / 2)) ≡ at)
        (full : ltb (P.arity - length n.children) 2 ≡ true) (late : at ≤ i) where
      -- Both children after the place of the split.
      two_after_runs :
          let halves = Node.split at (total (take at ns)) n in
          insert_two_sorted 2 idx i c len j d len' g
          ≡ ok (
            some (Node.insert_two (i - at) c len (j - at) d len' halves.1),
            set_inode idx halves.0 g,
          )
      unfolding insert_two_sorted Node.split
      two_after_runs =
          let halves = Node.split at (total (take at ns)) n in
          let tight : P.arity - length n.children < 2 = ground arith in
          let in_half : at ≤ length n.children = omega arith in
          let kept = length-take_le at n.children in_half in
          let not_early : ltb (P.arity / 2 - 1) (length n.children - j) ≡ false = ground arith in
          let not_equal : ltb (length n.children - j) (P.arity / 2 - 1) ≡ true = ground arith in
          let after : leb at i ≡ true = ground arith in
          rw (
            e,
            full,
            not_early,
            not_equal,
            place,
            after,
            split_inode-split g idx at n ns e h (omega arith),
            inode-set_inode idx halves.0 g n e,
            kept,
          )

      two_after : InsertsTwo
      unfolding Node.split Node.insert_two Node.insert insert_two_at
      two_after =
          let halves = Node.split at (total (take at ns)) n in
          let tight : P.arity - length n.children < 2 = ground arith in
          let in_half : at ≤ length n.children = omega arith in
          let in_lens : at ≤ length ns = omega (arith, m.lengths) in
          let kept = length-take_le at n.children in_half in
          let left = length-drop at n.children in
          let sum = total-take-drop at ns in
          let size = length-insert_two_at (drop at n.children) (i - at) c (j - at) d in
          let rest_size : length (insert_two_at (drop at n.children) (i - at) c (j - at) d)
              ≡ P.arity / 2 =
            omega arith in
          let least : P.arity / 2 ≤ length (take at n.children) = omega arith in
          let most : length (take at n.children) ≤ P.arity = omega arith in
          (
            halves.0,
            some (Node.insert_two (i - at) c len (j - at) d len' halves.1),
            two_after_runs,
            refl,
            refl,
            (
              (take at ns, insert_two_at (drop at ns) (i - at) len (j - at) len'),
              insert_two_at-after at n.children in_half i c j d late sorted,
              insert_two_at-after at ns in_lens i len j len' late sorted,
              IsMeasured-kept n ns at m in_half,
              IsMeasured-insert_two halves.1 (drop at ns) (i - at) c len (j - at) d len'
                  (IsMeasured-rest n ns at m in_half (omega arith)) (omega arith),
              rest_size,
              least,
              most,
              refl,
            ),
          )

    module _ (at : ℕ) (place : suc (length n.children - P.arity / 2) ≡ at)
        (full : ltb (P.arity - length n.children) 2 ≡ true) (early : i ≤ at) (late : at ≤ j) where
      -- The place of the split is between the two children.
      two_around_runs :
          let halves = Node.split at (total (take at ns)) n in
          insert_two_sorted 2 idx i c len j d len' g
          ≡ ok (
            some (Node.insert (j - at) d len' halves.1),
            set_inode idx (Node.insert i c len halves.0) g,
          )
      unfolding insert_two_sorted Node.split
      two_around_runs =
          let halves = Node.split at (total (take at ns)) n in
          let tight : P.arity - length n.children < 2 = ground arith in
          let in_half : at ≤ length n.children = omega arith in
          let kept = length-take_le at n.children in_half in
          let not_early : ltb (P.arity / 2 - 1) (length n.children - j) ≡ false = ground arith in
          let not_after : leb (suc at) i ≡ false = ground arith in
          let e' = inode-set_inode idx halves.0 g n e in
          let split = split_inode-split g idx at n ns e h (omega arith) in
          let update =
            update_inode-set_inode idx (Node.insert i c len) (set_inode idx halves.0 g) halves.0
              e' in
          let twice = set_inode-set_inode idx halves.0 (Node.insert i c len halves.0) g in
          elim (Bool-cases (ltb (length n.children - j) (P.arity / 2 - 1))) [
            | inl q ↦ rw (e, full, not_early, q, place, not_after, split, e', kept, update, twice)
            | inr q ↦ rw (e, full, not_early, q, place, split, e', kept, update, twice)
          ]

      two_around : InsertsTwo
      unfolding Node.split Node.insert_two Node.insert
      two_around =
          let halves = Node.split at (total (take at ns)) n in
          let tight : P.arity - length n.children < 2 = ground arith in
          let in_half : at ≤ length n.children = omega arith in
          let in_lens : at ≤ length ns = omega (arith, m.lengths) in
          let kept = length-take_le at n.children in_half in
          let left = length-drop at n.children in
          let sum = total-take-drop at ns in
          let size = length-insert_at (take at n.children) i c in
          let size' = length-insert_at (drop at n.children) (j - at) d in
          let rest_size : length (insert_at (drop at n.children) (j - at) d) ≡ P.arity / 2 =
            omega arith in
          let least : P.arity / 2 ≤ length (insert_at (take at n.children) i c) = omega arith in
          let most : length (insert_at (take at n.children) i c) ≤ P.arity = omega arith in
          (
            Node.insert i c len halves.0,
            some (Node.insert (j - at) d len' halves.1),
            two_around_runs,
            refl,
            refl,
            (
              (insert_at (take at ns) i len, insert_at (drop at ns) (j - at) len'),
              insert_two_at-around at n.children in_half i c j d early late,
              insert_two_at-around at ns in_lens i len j len' early late,
              IsMeasured-insert halves.0 (take at ns) i c len (IsMeasured-kept n ns at m in_half)
                  (omega arith),
              IsMeasured-insert halves.1 (drop at ns) (j - at) d len'
                  (IsMeasured-rest n ns at m in_half (omega arith)) (omega arith),
              rest_size,
              least,
              most,
              refl,
            ),
          )

    two_split : ltb (P.arity - length n.children) 2 ≡ true → InsertsTwo
    two_split full =
        let at = length n.children - P.arity / 2 in
        elim (Bool-cases (leb j at)) [
          | inl q ↦ two_before at refl full (ground arith)
          | inr q ↦
              let late : suc at ≤ j = ground arith in
              elim (Bool-cases (leb (suc (suc at)) i)) [
                | inl r ↦ two_after (suc (suc at)) refl full (ground arith)
                | inr r ↦ two_around (suc at) refl full (ground arith) late
              ]
        ]

    pub insert_two_sorted-Halved : InsertsTwo
    unfolding Node.insert_two Node.insert insert_two_at
    insert_two_sorted-Halved = elim (Bool-cases (ltb (P.arity - length n.children) 2)) [
      | inl q ↦ two_split q
      | inr q ↦
          let room : suc (suc (length n.children)) ≤ P.arity = ground arith in
          (
            Node.insert_two i c len j d len' n,
            none,
            two_within g 1 idx i c len j d len' n e q,
            refl,
            refl,
            (
              refl,
              IsMeasured-insert_two n ns i c len j d len' m fits,
              omega (arith, length-insert_two_at n.children i c j d),
            ),
          )
    ]
