-- ===== src/Gtree/Iter/Order.antt =====
-- The iterators over the leaves go through them in the order of the tree (`mod iter`, src/gtree.rs).
use cola.Prelude.{
  ℕ, zero, suc, ◌<◌, ◌≤◌, ◌≡◌, refl, sym, ap, ◌∙◌, Bool, true, false, List, [], ◌∷◌, ◌++◌, ok,
  length, length-append, arith,
}
use mathlib.Core.Path.{subst}
use cola.Slices.{nth}
use cola.Gtree.{Leaves, Gtree, Inode, inode, rounds}
use cola.Gtree.Walk.{leftmost, first_leaf_idx}
use cola.Gtree.Shape.{Parts, Child, Spot, Shows}
use cola.Gtree.Iter.{LeavesFrom, leaves_from, leaves_from_first, collect, leaves}
use cola.Gtree.Iter.Rest.{Populated, Rest}
use cola.Gtree.Iter.Start.{Shows-Starts}
use cola.Gtree.Iter.Visits.{collect-Rest}

module _ {L : Type 0} ⦃P : Leaves L⦄ (g : Gtree L) (full : Populated g) where
  -- The leaf that the descent along first children ends at, which is the first of the leaves.
  record First (fuel idx : ℕ) (ls : List (ℕ × L)) : Type 0 where
    pub here : ℕ × L
    pub back : List (ℕ × L)
    pub found : leftmost g fuel idx ≡ ok here.0
    pub parts : ls ≡ here ∷ back

  leftmost-First :
      (k fuel idx : ℕ) (n : Inode) (ls : List (ℕ × L)) (leaves : Bool) (cs : List ℕ)
      → inode idx g ≡ ok n
      → n.has_leaves ≡ leaves
      → n.children ≡ cs
      → Parts (Child g k idx leaves) cs ls
      → k < fuel
      → First fuel idx ls
  unfolding leftmost nth
  leftmost-First k zero idx n ls leaves cs e kind q parts enough = absurd (omega arith)
  leftmost-First k (suc fuel) idx n ls leaves [] e kind q parts enough =
      absurd (omega (arith, full idx n e, ap length q))
  leftmost-First k (suc fuel) idx n ls true (c ∷ cs) e kind q
        (part, later, (l, value, parent, only), split, others) enough =
      record {
        here = (c, l.value);
        back = later;
        found = rw (e, q, kind) refl;
        parts = split ∙ ap (λ t. t ++ later) only;
      }
  leftmost-First zero (suc fuel) idx n ls false (c ∷ cs) e kind q
        (part, later, holds, split, others) enough =
      absurd holds
  leftmost-First (suc k) (suc fuel) idx n ls false (c ∷ cs) e kind q
        (part, later, (m, e', _, _, _, _, inner), split, others) enough =
      let f =
        leftmost-First k fuel c m part m.has_leaves m.children e' refl refl inner (omega arith) in
      record {
        here = f.here;
        back = f.back ++ later;
        found = rw (e, q, kind) f.found;
        parts = split ∙ ap (λ t. t ++ later) f.parts;
      }

  module _ (ls : List (ℕ × L)) (shows : Shows g ls) (few : length ls ≤ length g.lnodes) where
    -- Let the vectors of a tree stand for a list of leaves, no more of them than the tree has room for, and
    -- let every inode have a child. Then the iterator that starts after any leaf of the list succeeds
    -- within the rounds given to it, and yields exactly the leaves after it in their order.
    pub leaves_from-collect :
        (s : Spot ls)
        → (it : LeavesFrom) × (leaves_from false s.here.0 g ≡ ok it)
          × (collect g (suc (length g.lnodes)) it ≡ ok s.back)
    leaves_from-collect s =
        let start = Shows-Starts g ls shows s in
        let split : length ls ≡ length (s.front ++ s.here ∷ s.back) = ap length s.parts in
        let sum = length-append s.front (s.here ∷ s.back) in
        (
          start.after_it,
          start.excluded,
          collect-Rest g full shows.root shows.at_root start.after_it s.back (suc (length g.lnodes))
              start.behind_it (omega arith),
        )

    pub leaves_from_first-Rest : (it : LeavesFrom) × (leaves_from_first g ≡ ok it) × Rest g it ls
    unfolding leaves_from_first first_leaf_idx
    leaves_from_first-Rest =
        let f =
          leftmost-First shows.height (rounds g) g.root_idx shows.root ls shows.root.has_leaves
            shows.root.children shows.at_root refl refl shows.below shows.low in
        let start =
          Shows-Starts g ls shows
            (record { front = []; here = f.here; back = f.back; parts = f.parts }) in
        (
          start.with_it,
          rw (f.found, start.included) refl,
          subst (Rest g start.with_it) (sym f.parts) start.from_it,
        )

    -- Let the vectors of a tree stand for a list of leaves, no more of them than the tree has room for,
    -- and let every inode have a child. Then the iterator over all leaves succeeds within the rounds given
    -- to it and yields the leaves of the list in order.
    pub leaves-Shows : leaves g ≡ ok ls
    unfolding leaves
    leaves-Shows =
        let (it, found, rest) = leaves_from_first-Rest in
        let all =
          collect-Rest g full shows.root shows.at_root it ls (suc (length g.lnodes)) rest
            (omega arith) in
        rw (found, all) refl
