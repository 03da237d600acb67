-- ===== src/Gtree/Lookup.antt =====
-- Finding the leaf at an offset (src/gtree.rs).
use cola.Prelude.{
  zero, ℕ, zero, suc, ◌+◌, ◌-◌, ◌^◌, ◌<◌, ◌≤◌, ◌≡◌, sym, ap, ◌∙◌, Bool, true, false, List, ◌∷◌,
  ◌++◌, append_assoc, ok, add, sub, arith,
}
use cola.Gtree.{Leaves, Gtree, Inode, Cursor, inode, leaf}
use cola.Gtree.Find.{
  is_root, offset_of_internal_child, offset_before, climb_offset, offset_from_root, child_at_offset,
  descend, at_cursor, child_at_offset, descend, at_cursor,
}
use cola.Gtree.Shape.{NoRepeat, span, span-append, Child, child_len-Child, Spot, Found}

inside :
    (c : Cursor) (end offset : ℕ)
    → at_cursor c end offset ≡ true
    → (c.offset < offset) × (offset ≤ end)
inside c end offset q = (ground arith, ground arith)

module _ {L : Type 0} ⦃P : Leaves L⦄ (g : Gtree L) where
  -- The leaf that holds the character before an offset; the leaves before it are as long as the offset
  -- of the leaf, which is also what the climb from the leaf to the root computes.
  pub record Holds (ls : List (ℕ × L)) (from offset : ℕ) : Type 0 where
    pub spot : Spot ls
    pub value : leaf spot.here.0 g ≡ ok spot.here.1
    pub after : from + span spot.front < offset
    pub before : offset ≤ from + span spot.front + P.leaf_len spot.here.1
    pub climbs : offset_from_root spot.here.0 g ≡ ok (from + span spot.front)

  pub record Descends (fuel idx from offset : ℕ) (ls : List (ℕ × L)) : Type 0 where
    pub holds : Holds ls from offset
    pub found :
        descend g fuel idx from offset ≡ ok (holds.spot.here.0, from + span holds.spot.front)

  -- The climb from an inode that is so many levels below the root adds the offset of the inode.
  abbrev pub Climbs : ℕ → ℕ → ℕ → Type 0
  Climbs idx from depth =
      (fuel offset : ℕ)
      → depth < fuel
      → offset + from < 2 ^ 64
      → climb_offset g fuel idx offset ≡ ok (offset + from)

  -- An inode whose children are of one kind, with at most so many levels below it.
  module _ (k idx from offset : ℕ) (n : Inode) (leaves : Bool) (ls : List (ℕ × L))
      (e : inode idx g ≡ ok n) (kind : n.has_leaves ≡ leaves) (apart : NoRepeat n.children)
      (b : from < offset) (fits : from + span ls < 2 ^ 64) (within : offset ≤ from + span ls)
      (f : Found g leaves
        (Child g k idx leaves)
        (child_len-Child g k idx leaves)
        n.children
        ls
        0
        0
        (offset - from)) where
    pub child_found : child_at_offset idx (sub offset from) g ≡ ok (f.place, span f.front)
    unfolding child_at_offset
    child_found =
        let exact : sub offset from ≡ offset - from = omega arith in
        let place : 0 + f.place ≡ f.place = omega arith in
        let front : 0 + span f.front ≡ span f.front = omega arith in
        rw (e, kind, exact, f.found, place, front)

    pub offset_found : offset_before g leaves n.children f.child 0 ≡ ok (span f.front)
    offset_found =
        let front : 0 + span f.front ≡ span f.front = omega arith in
        f.offset_of_child apart ∙ ap ok front

    pub sum : span ls ≡ span f.front + (span f.part + span f.back)
    sum =
        ap span f.parts
        ∙ span-append f.front (f.part ++ f.back)
        ∙ ap (λ t. span f.front + t) (span-append f.part f.back)

    -- The leaves before this part of them.
    pub shifted : add from (span f.front) ≡ from + span f.front
    shifted = omega (arith, sum)

    -- A leaf of the part is one of all leaves.
    widened : Holds f.part (from + span f.front) offset → Holds ls from offset
    widened h =
        let spot = h.spot in
        let sum = span-append f.front spot.front in
        let same : from + span f.front + span spot.front ≡ from + span (f.front ++ spot.front) =
          omega arith in
        record {
          spot = record {
            front = f.front ++ spot.front;
            here = spot.here;
            back = spot.back ++ f.back;
            parts =
                f.parts
                ∙ ap (λ t. f.front ++ (t ++ f.back)) spot.parts
                ∙ ap (λ t. f.front ++ t) (append_assoc spot.front (spot.here ∷ spot.back) f.back)
                ∙ sym (append_assoc f.front spot.front (spot.here ∷ (spot.back ++ f.back)));
          };
          value = h.value;
          after = omega (arith, h.after);
          before = omega (arith, h.before);
          climbs = h.climbs ∙ ap ok same;
        }

    pub below :
        (fuel : ℕ)
        → leaves ≡ false
        → Descends fuel f.child (from + span f.front) offset f.part
        → Descends (suc fuel) idx from offset ls
    unfolding descend widened
    below fuel internal d =
        let sum = span-append f.front d.holds.spot.front in
        let same : from + span f.front + span d.holds.spot.front
            ≡ from + span (f.front ++ d.holds.spot.front) =
          omega arith in
        let kind' = kind ∙ internal in
        record {
          holds = widened d.holds;
          found =
              rw (child_found, e, f.at_place, shifted, kind', d.found)
                (ap (λ t. ok (d.holds.spot.here.0, t)) same);
        }

    pub Climbs-below :
        (depth : ℕ) (m : Inode)
        → leaves ≡ false
        → inode f.child g ≡ ok m
        → m.parent ≡ idx
        → is_root f.child g ≡ false
        → Climbs idx from depth
        → Climbs f.child (from + span f.front) (suc depth)
    unfolding climb_offset offset_of_internal_child
    Climbs-below depth m internal e' parent inner climbs zero acc deep small = absurd (omega arith)
    Climbs-below depth m internal e' parent inner climbs (suc fuel) acc deep small =
        let kind' = kind ∙ internal in
        let found = rw internal at offset_found in
        let exact : add acc (span f.front) ≡ acc + span f.front = omega arith in
        let same : acc + span f.front + from ≡ acc + (from + span f.front) = omega arith in
        rw
          (
            inner,
            e',
            parent,
            e,
            kind',
            found,
            exact,
            climbs fuel (acc + span f.front) (omega arith) (omega arith),
          )
          (ap ok same)
