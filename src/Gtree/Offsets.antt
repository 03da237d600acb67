-- ===== src/Gtree/Offsets.antt =====
-- The leaf at an offset, and the offset of that leaf (src/gtree.rs).
use cola.Prelude.{
  ℕ, zero, suc, ◌+◌, ◌-◌, ◌^◌, ◌<◌, ◌≤◌, ◌≡◌, refl, sym, ap, ◌∙◌, Bool, true, false, inl, inr,
  Bool-cases, List, ◌∷◌, ◌++◌, ok, ◌==◌, ==_refl, add, arith, Option, none, some,
}
use cola.Gtree.{Lnode, Leaves, Gtree, Inode, Cursor, inode, lnode, leaf, rounds}
use cola.Gtree.Find.{
  offset_before, offset_of_leaf_child, offset_of_leaf, climb_offset, offset_from_root, descend,
  leaf_at_offset, cursor_end, at_cursor,
}
use cola.Gtree.Shape.{
  NoRepeat, Parts, span, span-append, Child, child_len-Child, Spot, Found, scan_children-Found,
  Shows, CursorShows,
}
use cola.Gtree.Lookup.{
  Descends, Climbs, child_found, offset_found, sum, shifted, below, Climbs-below,
}

inside :
    (c : Cursor) (end offset : ℕ)
    → at_cursor c end offset ≡ true
    → (c.offset < offset) × (offset ≤ end)
inside c end offset q = (ground arith, ground arith)

module _ {L : Type 0} ⦃P : Leaves L⦄ (g : Gtree L) where
  climb_from_leaf :
      (i o : ℕ) (l : Lnode L)
      → offset_of_leaf_child i g ≡ ok o
      → lnode i g ≡ ok l
      → offset_from_root i g ≡ climb_offset g (rounds g) l.parent o
  unfolding offset_from_root
  climb_from_leaf i o l h e = rw (h, e) refl

  offset_in_parent :
      (i o : ℕ) (l : Lnode L) (n : Inode)
      → lnode i g ≡ ok l
      → inode l.parent g ≡ ok n
      → n.has_leaves ≡ true
      → offset_before g true n.children i 0 ≡ ok o
      → offset_of_leaf_child i g ≡ ok o
  unfolding offset_of_leaf_child
  offset_in_parent i o l n e p kind h = rw (e, p, kind) h

  at_leaf :
      (k fuel idx from offset depth : ℕ) (n : Inode) (ls : List (ℕ × L))
      → inode idx g ≡ ok n
      → n.has_leaves ≡ true
      → NoRepeat n.children
      → from < offset
      → from + span ls < 2 ^ 64
      → offset ≤ from + span ls
      → Climbs g idx from depth
      → depth < rounds g
      → Found g true
          (Child g k idx true)
          (child_len-Child g k idx true)
          n.children
          ls
          0
          0
          (offset - from)
      → Descends g (suc fuel) idx from offset ls
  unfolding descend leaf
  at_leaf k fuel idx from offset depth n ls e kind apart b fits within climbs deep f =
      let (l, value, parent, only) = f.holds in
      let len : span f.part ≡ P.leaf_len l.value = ap span only ∙ omega arith in
      let whole = sum g k idx from offset n true ls e kind apart b fits within f in
      let climb = climbs (rounds g) (span f.front) deep (omega (arith, f.after)) in
      let same : span f.front + from ≡ from + span f.front = omega arith in
      record {
        holds = record {
          spot = record {
            front = f.front;
            here = (f.child, l.value);
            back = f.back;
            parts = f.parts ∙ ap (λ t. f.front ++ (t ++ f.back)) only;
          };
          value = rw value refl;
          after = omega (arith, f.after);
          before = omega (arith, f.before);
          climbs =
              climb_from_leaf f.child (span f.front) l
                (offset_in_parent f.child (span f.front) l n value (ap (λ t. inode t g) parent ∙ e)
                  kind (offset_found g k idx from offset n true ls e kind apart b fits within f))
                value
              ∙ ap (λ t. climb_offset g (rounds g) t (span f.front)) parent
              ∙ climb
              ∙ ap ok same;
        };
        found = rw (
          child_found g k idx from offset n true ls e kind apart b fits within f,
          e,
          f.at_place,
          shifted g k idx from offset n true ls e kind apart b fits within f,
          kind,
        );
      }

  descend-Descends :
      (k fuel idx from offset depth : ℕ) (n : Inode) (leaves : Bool) (ls : List (ℕ × L))
      → inode idx g ≡ ok n
      → n.has_leaves ≡ leaves
      → NoRepeat n.children
      → Parts (Child g k idx leaves) n.children ls
      → k < fuel
      → k + depth < rounds g
      → Climbs g idx from depth
      → from < offset
      → offset ≤ from + span ls
      → from + span ls < 2 ^ 64
      → Descends g fuel idx from offset ls
  descend-Descends k zero idx from offset depth n leaves ls e kind apart h enough deep climbs b a
        fits =
      absurd (omega arith)
  descend-Descends k (suc fuel) idx from offset depth n true ls e kind apart h enough deep climbs b
        a fits =
      at_leaf k fuel idx from offset depth n ls e kind apart b fits a climbs (omega arith) (
        scan_children-Found g true (Child g k idx true) (child_len-Child g k idx true) n.children ls
          0 0 (offset - from) h (omega arith) (omega arith) (omega arith))
  descend-Descends zero (suc fuel) idx from offset depth n false ls e kind apart h enough deep
        climbs b a fits =
      absurd
        (scan_children-Found g false (Child g zero idx false) (child_len-Child g zero idx false)
          n.children ls 0 0 (offset - from) h (omega arith) (omega arith) (omega arith)).holds
  descend-Descends (suc k) (suc fuel) idx from offset depth n false ls e kind apart h enough deep
        climbs b a fits =
      let f =
        scan_children-Found g false (Child g (suc k) idx false)
          (child_len-Child g (suc k) idx false) n.children ls 0 0 (offset - from) h (omega arith)
          (omega arith) (omega arith) in
      let (m, e', parent, inner, apart', len, h') = f.holds in
      let whole = sum g (suc k) idx from offset n false ls e kind apart b fits a f in
      below g (suc k) idx from offset n false ls e kind apart b fits a f fuel refl (
        descend-Descends k fuel f.child (from + span f.front) offset (suc depth) m m.has_leaves
          f.part e' refl apart' h' (omega arith) (omega arith)
          (Climbs-below g (suc k) idx from offset n false ls e kind apart b fits a f depth m refl e'
            parent inner climbs)
          (omega (arith, f.after)) (omega (arith, f.before)) (omega arith))

  module _ (ls : List (ℕ × L)) (shows : Shows g ls) (offset : ℕ) (b : 0 < offset)
      (a : offset ≤ span ls) where
    Climbs-root : Climbs g g.root_idx 0 0
    unfolding climb_offset
    Climbs-root zero acc deep small = absurd (omega arith)
    Climbs-root (suc fuel) acc deep small =
        let same : acc ≡ acc + 0 = omega arith in rw (==_refl g.root_idx) (ap ok same)

    from_root : Descends g (rounds g) g.root_idx 0 offset ls
    from_root =
        descend-Descends shows.height (rounds g) g.root_idx 0 offset 0 shows.root
          shows.root.has_leaves ls shows.at_root refl shows.apart shows.below shows.low
          (omega (arith, shows.low)) Climbs-root b (omega arith) (omega (arith, shows.fits))

    -- The leaf with its offset, which `leaf_at_offset` and `offset_of_leaf` agree on.
    abbrev pub AtOffset : Type 0
    AtOffset =
        (spot : Spot ls) × (leaf_at_offset offset g ≡ ok (spot.here.0, span spot.front))
        × (leaf spot.here.0 g ≡ ok spot.here.1)
        × (span spot.front < offset)
        × (offset ≤ span spot.front + P.leaf_len spot.here.1)
        × (offset_of_leaf spot.here.0 g ≡ ok (span spot.front))

    not_at_cursor :
        (d : Descends g (rounds g) g.root_idx 0 offset ls)
        → leaf_at_offset offset g ≡ descend g (rounds g) g.root_idx 0 offset
        → offset_of_leaf d.holds.spot.here.0 g ≡ offset_from_root d.holds.spot.here.0 g
        → AtOffset
    not_at_cursor d p q =
        let same : 0 + span d.holds.spot.front ≡ span d.holds.spot.front = omega arith in
        (
          d.holds.spot,
          p ∙ d.found ∙ ap (λ t. ok (d.holds.spot.here.0, t)) same,
          d.holds.value,
          omega (arith, d.holds.after),
          omega (arith, d.holds.before),
          q ∙ d.holds.climbs ∙ ap ok same,
        )

    climbs_to_cursor :
        (c : Cursor) (i : ℕ)
        → g.cursor ≡ some c
        → offset_from_root c.leaf_idx g ≡ ok c.offset
        → offset_of_leaf i g ≡ offset_from_root i g
    unfolding offset_of_leaf
    climbs_to_cursor c i e start = elim (Bool-cases (i == c.leaf_idx)) [
      | inl q ↦
          let same : i ≡ c.leaf_idx = ground arith in
          rw (e, q) (sym start ∙ ap (λ t. offset_from_root t g) (sym same))
      | inr q ↦ rw (e, q) refl
    ]

    with_cursor : (cursor : Option Cursor) → g.cursor ≡ cursor → CursorShows g cursor ls → AtOffset
    unfolding leaf_at_offset cursor_end offset_of_leaf
    with_cursor none e h = not_at_cursor from_root (rw e refl) (rw e refl)
    with_cursor (some c) e (spot, at, value, start, climbs) =
        let here = spot.here.1 in
        let sum : span ls ≡ span spot.front + (P.leaf_len here + span spot.back) =
          ap span spot.parts ∙ span-append spot.front (spot.here ∷ spot.back) in
        let end : add c.offset (P.leaf_len here) ≡ c.offset + P.leaf_len here =
          omega (arith, shows.fits) in
        elim (Bool-cases (at_cursor c (c.offset + P.leaf_len here) offset)) [
          | inl q ↦
              let (after, before) = inside c (c.offset + P.leaf_len here) offset q in
              (
                spot,
                rw (e, value, end, q) (ap ok (rw (at, start) refl)),
                rw at value,
                omega arith,
                omega arith,
                rw (e, at, ==_refl c.leaf_idx) (ap ok start),
              )
          | inr q ↦
              not_at_cursor from_root (rw (e, value, end, q) refl)
                (climbs_to_cursor c from_root.holds.spot.here.0 e climbs)
        ]

    -- Let the two vectors of a tree stand for a list of leaves, and let the cursor, if it is set, be at
    -- one of them. For every offset from 1 to the length of the tree, `leaf_at_offset` succeeds within
    -- the rounds given to it and returns a leaf of the list with its offset, which is the length of the
    -- leaves before it; the offset that was looked for is after the start of the leaf and at most at its
    -- end; and `offset_of_leaf`, which climbs from the leaf to the root, returns the same offset.
    pub leaf_at_offset-Shows : AtOffset
    leaf_at_offset-Shows = with_cursor g.cursor refl shows.cursor
