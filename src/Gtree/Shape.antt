-- ===== src/Gtree/Shape.antt =====
-- The leaves of a tree in order, as a list: what the two vectors of a `Gtree` stand for (src/gtree.rs).
use cola.Prelude.{
  All, ◌==◌, ==_refl, false, ok-injective, Option, none, some, ◌^◌, ℕ, zero, suc, ◌+◌, ◌^◌, ◌<◌,
  ◌≤◌, ◌≡◌, refl, sym, ap, ◌∙◌, Bool, true, false, inl, inr, Bool-cases, List, [], ◌∷◌, ◌++◌,
  append_assoc, ok, leb, add, sub, arith, Option, none, some,
}
use mathlib.Core.Path.{subst}
use cola.Slices.{nth}
use cola.Gtree.{Lnode, lnode, rounds, Cursor, Leaves, Gtree, Inode, Cursor, inode, leaf}
use cola.Gtree.Find.{is_root, offset_before, offset_from_root, child_len, scan_children}

-- No child stands twice.
abbrev pub NoRepeat : List ℕ → Type 0
NoRepeat [] = Unit {0}
NoRepeat (c ∷ cs) = All (λ d. (c == d) ≡ false) cs × NoRepeat cs

pub All-nth : (Q : ℕ → Type 0) (cs : List ℕ) (i c : ℕ) → All Q cs → nth cs i ≡ ok c → Q c
unfolding nth
All-nth Q [] i c h e = cc
All-nth Q (d ∷ ds) zero c (q, h) e = subst Q (ok-injective e) q
All-nth Q (d ∷ ds) (suc i) c (q, h) e = All-nth Q ds i c h e

module _ {L : Type 0} where
  -- The children hold these leaves, one part after the other.
  abbrev pub Parts : (ℕ → List (ℕ × L) → Type 0) → List ℕ → List (ℕ × L) → Type 0
  Parts C [] ls = ls ≡ []
  Parts C (c ∷ cs) ls =
      (part : List (ℕ × L)) × (later : List (ℕ × L)) × C c part
      × (ls ≡ part ++ later)
      × Parts C cs later

module _ {L : Type 0} ⦃P : Leaves L⦄ where
  -- The length of leaves together.
  abbrev pub span : List (ℕ × L) → ℕ
  span [] = 0
  span (l ∷ ls) = P.leaf_len l.1 + span ls

  pub span-append : (ls ms : List (ℕ × L)) → span (ls ++ ms) ≡ span ls + span ms
  span-append [] ms = omega arith
  span-append (l ∷ ls) ms = omega (arith, span-append ls ms)

  -- A child of the inode `p` is a leaf, or an inode with at most so many levels below it, whose length is
  -- that of the leaves below it. The parent of a child is `p`, and no child is the root.
  abbrev pub Child : Gtree L → ℕ → ℕ → Bool → ℕ → List (ℕ × L) → Type 0
  Child g k p true c ls =
      (l : Lnode L) × (lnode c g ≡ ok l) × (l.parent ≡ p) × (ls ≡ (c, l.value) ∷ [])
  Child g zero p false c ls = ⊥
  Child g (suc k) p false c ls =
      (n : Inode) × (inode c g ≡ ok n)
      × (n.parent ≡ p)
      × (is_root c g ≡ false)
      × NoRepeat n.children
      × (n.tot_len ≡ span ls)
      × Parts (Child g k c n.has_leaves) n.children ls

  pub child_len-Child :
      (g : Gtree L) (k p : ℕ) (leaves : Bool) (c : ℕ) (ls : List (ℕ × L))
      → Child g k p leaves c ls
      → child_len g leaves c ≡ ok (span ls)
  unfolding child_len leaf
  child_len-Child g k p true c ls (l, e, _, q) =
      let length : P.leaf_len l.value ≡ span ls = omega (arith, ap span q) in rw e (ap ok length)
  child_len-Child g zero p false c ls h = absurd h
  child_len-Child g (suc k) p false c ls (n, e, _, _, _, q, h) = rw e (ap ok q)

  -- A leaf, with those before and after it.
  pub record Spot (ls : List (ℕ × L)) : Type 0 where
    pub front : List (ℕ × L)
    pub here : ℕ × L
    pub back : List (ℕ × L)
    pub parts : ls ≡ front ++ here ∷ back

  module _ (g : Gtree L) (leaves : Bool) (C : ℕ → List (ℕ × L) → Type 0)
      (lens : (c : ℕ) (ls : List (ℕ × L)) → C c ls → child_len g leaves c ≡ ok (span ls)) where
    -- The child that holds the character before an offset, with the leaves before, in and after it.
    pub record Found (cs : List ℕ) (ls : List (ℕ × L)) (idx offset at : ℕ) : Type 0 where
      pub place : ℕ
      pub child : ℕ
      pub front : List (ℕ × L)
      pub part : List (ℕ × L)
      pub back : List (ℕ × L)
      pub found : scan_children g leaves cs idx offset at ≡ ok (idx + place, offset + span front)
      pub at_place : nth cs place ≡ ok child
      pub offset_of_child :
          NoRepeat cs → offset_before g leaves cs child offset ≡ ok (offset + span front)
      pub holds : C child part
      pub parts : ls ≡ front ++ (part ++ back)
      pub after : offset + span front < at
      pub before : at ≤ offset + span front + span part

    module _ (c : ℕ) (cs : List ℕ) (part later : List (ℕ × L)) (idx offset at : ℕ) (p : C c part)
        (fits : offset + span part < 2 ^ 64) where
      Found-here :
          offset < at → at ≤ offset + span part → Found (c ∷ cs) (part ++ later) idx offset at
      unfolding scan_children nth offset_before
      Found-here b a =
          let exact : add offset (span part) ≡ offset + span part = omega arith in
          let back : sub (offset + span part) (span part) ≡ offset + span [] = omega arith in
          let same : idx + 0 ≡ idx = omega arith in
          let here : leb at (offset + span part) ≡ true = ground arith in
          record {
            place = 0;
            child = c;
            front = [];
            part = part;
            back = later;
            found = rw (lens c part p, exact, here, back, same);
            at_place = refl;
            offset_of_child = λ _.
                let same' : offset ≡ offset + span [] = omega arith in rw (==_refl c) (ap ok same');
            holds = p;
            parts = refl;
            after = omega arith;
            before = omega arith;
          }

      Found-later :
          offset + span part < at
          → Found cs later (suc idx) (offset + span part) at
          → Found (c ∷ cs) (part ++ later) idx offset at
      unfolding scan_children nth offset_before
      Found-later b f =
          let exact : add offset (span part) ≡ offset + span part = omega arith in
          let not_here : leb at (offset + span part) ≡ false = ground arith in
          let sum = span-append part f.front in
          let same : offset + span part + span f.front ≡ offset + span (part ++ f.front) =
            omega arith in
          let same' : suc idx + f.place ≡ idx + suc f.place = omega arith in
          record {
            place = suc f.place;
            child = f.child;
            front = part ++ f.front;
            part = f.part;
            back = f.back;
            found =
                rw (lens c part p, exact, not_here, f.found, same)
                  (ap (λ t. ok (t, offset + span (part ++ f.front))) same');
            at_place = f.at_place;
            offset_of_child = λ (apart, alone).
                let other = All-nth (λ d. (c == d) ≡ false) cs f.place f.child apart f.at_place in
                rw (other, lens c part p, exact, f.offset_of_child alone, same);
            holds = f.holds;
            parts =
                ap (λ t. part ++ t) f.parts ∙ sym (append_assoc part f.front (f.part ++ f.back));
            after = omega (arith, f.after);
            before = omega (arith, f.before);
          }

    pub scan_children-Found :
        (cs : List ℕ) (ls : List (ℕ × L)) (idx offset at : ℕ)
        → Parts C cs ls
        → offset < at
        → at ≤ offset + span ls
        → offset + span ls < 2 ^ 64
        → Found cs ls idx offset at
    scan_children-Found [] ls idx offset at h b a fits = absurd (omega (arith, ap span h))
    scan_children-Found (c ∷ cs) ls idx offset at (part, later, p, e, h) b a fits =
        let sum : span ls ≡ span part + span later = ap span e ∙ span-append part later in
        rw e (elim (Bool-cases (leb at (offset + span part))) [
          | inl q ↦ Found-here c cs part later idx offset at p (omega arith) b (ground arith)
          | inr q ↦
              let beyond : offset + span part < at = ground arith in
              Found-later c cs part later idx offset at p (omega arith) beyond (
                scan_children-Found cs later (suc idx) (offset + span part) at h beyond
                  (omega arith) (omega arith))
        ])

module _ {L : Type 0} ⦃P : Leaves L⦄ where
  -- The cursor is at one of the leaves, with its offset.
  abbrev pub CursorShows : Gtree L → Option Cursor → List (ℕ × L) → Type 0
  CursorShows g none ls = Unit {0}
  CursorShows g (some c) ls =
      (spot : Spot ls) × (spot.here.0 ≡ c.leaf_idx)
      × (leaf c.leaf_idx g ≡ ok spot.here.1)
      × (c.offset ≡ span spot.front)
      × (offset_from_root c.leaf_idx g ≡ ok c.offset)

  -- The tree shows these leaves, which have no more levels of inodes above them than there are inodes.
  pub record Shows (g : Gtree L) (ls : List (ℕ × L)) : Type 0 where
    pub height : ℕ
    pub root : Inode
    pub at_root : inode g.root_idx g ≡ ok root
    pub tot_len : root.tot_len ≡ span ls
    pub apart : NoRepeat root.children
    pub below : Parts (Child g height g.root_idx root.has_leaves) root.children ls
    pub low : height < rounds g
    pub fits : span ls < 2 ^ 64
    pub cursor : CursorShows g g.cursor ls
