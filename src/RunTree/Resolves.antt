-- ===== src/RunTree/Resolves.antt =====
-- Anchors are resolved to the offset that they were created at (`create_anchor` and `resolve_anchor`,
-- src/run_tree.rs).
use cola.Prelude.{
  ℕ, zero, suc, ◌+◌, ◌-◌, ◌<◌, ◌≤◌, ◌≡◌, ◌≢◌, refl, sym, ap, ◌∙◌, true, false, inl, inr, Bool-cases,
  List, [], ◌∷◌, ◌++◌, append_assoc, ok, ◌>>=◌, length, length-append, ◌==◌, ==_refl, ◌&&◌, add,
  sub, arith,
}
use mathlib.Core.Path.{subst}
use cola.Anchor.{AnchorBias, left, right}
use cola.EditRun
use cola.EditRun.{EditRun}
use cola.Gtree.{leaf}
use cola.Gtree.Find.{leaf_at_offset}
use cola.Gtree.Shape.{span-append}
use cola.Gtree.Offsets.{leaf_at_offset-Shows}
use cola.Gtree.Iter.Order.{leaves_from_first-Rest}
use cola.Gtree.Iter.Start.{Shows-Starts}
use cola.RunTree.Runs.{Runs, leaf_runs}
use cola.RunTree.Anchors.{create_anchor, resolve_anchor}
use cola.RunTree.Attached.{
  kept-of-visible, sub-add, run_at, whole, len-Coherent, Attached, position, Attached-resolves,
  resolved-left,
}
use cola.RunTree.Coherent.{
  Leaf, RunSpot, position_in, Coherent, visible-len, length_of, first_visible-Rest,
}

-- The run that has an offset in it is one place in a list.
same_spot :
    (f g : List Leaf) (x y : Leaf) (b d : List Leaf) (o : ℕ)
    → f ++ x ∷ b ≡ g ++ y ∷ d
    → length_of f ≤ o
    → o < length_of f + EditRun.visible_len x.1
    → length_of g ≤ o
    → o < length_of g + EditRun.visible_len y.1
    → (x ≡ y) × (length_of f ≡ length_of g)
same_spot [] [] x y b d o e p q r s = (cc, refl)
same_spot [] (z ∷ g) x y b d o e p q r s =
    let same : x ≡ z = cc in absurd (omega (arith, ap (λ l. EditRun.visible_len l.1) same))
same_spot (z ∷ f) [] x y b d o e p q r s =
    let same : z ≡ y = cc in absurd (omega (arith, ap (λ l. EditRun.visible_len l.1) same))
same_spot (z ∷ f) (w ∷ g) x y b d o e p q r s =
    let same : z ≡ w = cc in
    let len = ap (λ l. EditRun.visible_len l.1) same in
    let rest : f ++ x ∷ b ≡ g ++ y ∷ d = cc in
    let n = EditRun.visible_len z.1 in
    let (here, front) =
      same_spot f g x y b d (o - n) rest (omega arith) (omega arith) (omega arith) (omega arith) in
    (here, omega arith)

module _ (t : Runs) (ls : List Leaf) (c : Coherent t ls) (o : ℕ) (a : o < length_of ls) where
  -- With a bias to the right an anchor is attached to the run of the character after the offset.
  abbrev Attached-right : Attached t ls c o right
  Attached-right =
      let (s, found, value, after, before, at) =
        leaf_at_offset-Shows ⦃P = leaf_runs⦄ t.gtree ls c.shows (suc o) (omega arith)
          (omega arith) in
      let kept = kept-of-visible s.here.1 (omega arith) in
      let len = visible-len s.here.1 (run_at t ls c s) kept in
      record {
        spot = s;
        value = value;
        at = at;
        kept = kept;
        from = omega arith;
        up_to = omega arith;
        indexed =
            c.before s (EditRun.start s.here.1 + (o - length_of s.front)) (omega arith)
              (omega arith);
      }

  within : o < length_of Attached-right.spot.front + EditRun.visible_len Attached-right.spot.here.1
  within =
      let (s, found, value, after, before, at) =
        leaf_at_offset-Shows ⦃P = leaf_runs⦄ t.gtree ls c.shows (suc o) (omega arith)
          (omega arith) in
      omega arith

  abbrev Created : Type 0
  Created =
      create_anchor t o right
      ≡ ok (record {
        inner =
            position_in Attached-right.spot.here.1 (
              EditRun.start Attached-right.spot.here.1 + (o - length_of Attached-right.spot.front));
        bias = right;
      })

  -- The anchor is created in a run that the offset is in.
  Created-in :
      (s : RunSpot ls)
      → length_of s.front ≤ o
      → o < length_of s.front + EditRun.visible_len s.here.1
      → create_anchor t o right
        ≡ ok (record {
          inner = position_in s.here.1 (EditRun.start s.here.1 + (o - length_of s.front));
          bias = right;
        })
      → Created
  Created-in s from up_to e =
      let r = Attached-right.spot in
      let (here, front) =
        same_spot s.front r.front s.here r.here s.back r.back o (sym s.parts ∙ r.parts) from up_to
          Attached-right.from within in
      e
      ∙ ap
          (λ h. ok (record {
            inner = position_in h.1 (EditRun.start h.1 + (o - length_of s.front));
            bias = right;
          }))
          here
      ∙ ap
          (λ n. ok (record {
            inner = position_in r.here.1 (EditRun.start r.here.1 + (o - n));
            bias = right;
          }))
          front

  not_end : ((o == length_of ls) && true) ≡ false
  not_end = ground arith

  created-first : o ≡ 0 → Created
  unfolding create_anchor
  created-first q =
      let (it, found, rest) =
        leaves_from_first-Rest ⦃P = leaf_runs⦄ t.gtree c.full ls c.shows c.few in
      let f =
        first_visible-Rest t.gtree c.full c.shows.root c.shows.at_root it ls
          (suc (length t.gtree.lnodes)) rest (omega (arith, c.few)) (omega arith) in
      let v = run_at t ls c f.spot in
      let len = visible-len f.spot.here.1 v f.kept in
      let first : (o == 0) ≡ true = ground arith in
      let start : EditRun.start f.spot.here.1
          ≡ EditRun.start f.spot.here.1 + (o - length_of f.spot.front) =
        omega arith in
      Created-in f.spot (omega (arith, f.none_before))
        (omega (arith, f.none_before, len, v.some_text))
        (rw (len-Coherent t ls c, not_end, first, found, f.found)
          (ap (λ n. ok (record { inner = position_in f.spot.here.1 n; bias = right })) start))

  module _ (b : 0 < o) where
    not_first : (o == 0) ≡ false
    not_first = ground arith

    -- The offset is inside the run of the character before it.
    created-inside :
        (s : RunSpot ls)
        → leaf_at_offset ⦃P = leaf_runs⦄ o t.gtree ≡ ok (s.here.0, length_of s.front)
        → leaf s.here.0 t.gtree ≡ ok s.here.1
        → length_of s.front < o
        → o < length_of s.front + EditRun.visible_len s.here.1
        → (add (length_of s.front) (EditRun.len s.here.1) == o) ≡ false
        → Created
    unfolding create_anchor
    created-inside s found value after before q =
        let kept = kept-of-visible s.here.1 (omega arith) in
        let offset = position t ls c s o kept (omega arith) (omega arith) in
        Created-in s (omega arith) before
          (rw (len-Coherent t ls c, not_end, not_first, found, value, q, offset) refl)

    -- The offset is at the end of the run of the character before it.
    created-behind :
        (s : RunSpot ls)
        → leaf_at_offset ⦃P = leaf_runs⦄ o t.gtree ≡ ok (s.here.0, length_of s.front)
        → leaf s.here.0 t.gtree ≡ ok s.here.1
        → o ≡ length_of s.front + EditRun.visible_len s.here.1
        → (add (length_of s.front) (EditRun.len s.here.1) == o) ≡ true
        → Created
    unfolding create_anchor
    created-behind s found value end q =
        let start = Shows-Starts ⦃P = leaf_runs⦄ t.gtree ls c.shows s in
        let size : length ls ≡ length (s.front ++ s.here ∷ s.back) = ap length s.parts in
        let sum = length-append s.front (s.here ∷ s.back) in
        let f =
          first_visible-Rest t.gtree c.full c.shows.root c.shows.at_root start.after_it s.back
            (suc (length t.gtree.lnodes)) start.behind_it (omega (arith, c.few))
            (omega (arith, whole t ls c s)) in
        let spot : RunSpot ls = record {
          front = s.front ++ s.here ∷ f.spot.front;
          here = f.spot.here;
          back = f.spot.back;
          parts =
              s.parts
              ∙ ap (λ l. s.front ++ s.here ∷ l) f.spot.parts
              ∙ sym (append_assoc s.front (s.here ∷ f.spot.front) (f.spot.here ∷ f.spot.back));
        } in
        let front = span-append ⦃P = leaf_runs⦄ s.front (s.here ∷ f.spot.front) in
        let v = run_at t ls c spot in
        let len = visible-len f.spot.here.1 v f.kept in
        let leaf_end : add (length_of s.front) (EditRun.len s.here.1) ≡ o = ground arith in
        let ends = v.text.end_fits in
        let offset : sub (add (EditRun.start f.spot.here.1) o) o
            ≡ EditRun.start f.spot.here.1 + (o - length_of spot.front) =
          sub-add (EditRun.start f.spot.here.1) o (omega (arith, v.some_text))
            (omega (arith, c.shows.fits))
          ∙ omega (arith, f.none_before) in
        Created-in spot (omega (arith, f.none_before)) (omega (arith, f.none_before, v.some_text)) (
          rw
            (
              len-Coherent t ls c,
              not_end,
              not_first,
              found,
              value,
              q,
              start.excluded,
              f.found,
              leaf_end,
              offset,
            )
            refl)

    created-later : Created
    created-later =
        let (s, found, value, after, before, at) =
          leaf_at_offset-Shows ⦃P = leaf_runs⦄ t.gtree ls c.shows o b (omega arith) in
        let v = run_at t ls c s in
        let ends = v.text.end_fits in
        let kept = kept-of-visible s.here.1 (omega arith) in
        let len = visible-len s.here.1 v kept in
        let exact : add (length_of s.front) (EditRun.len s.here.1)
            ≡ length_of s.front + EditRun.visible_len s.here.1 =
          omega (arith, whole t ls c s, c.shows.fits, v.some_text) in
        elim (Bool-cases (add (length_of s.front) (EditRun.len s.here.1) == o)) [
          | inl q ↦ created-behind s found value (ground arith) q
          | inr q ↦
              let other : length_of s.front + EditRun.visible_len s.here.1 ≢ o = ground arith in
              created-inside s found value after (omega arith) q
        ]

  created-right : Created
  created-right = elim (Bool-cases (o == 0)) [
    | inl q ↦ created-first (ground arith)
    | inr q ↦ created-later (ground arith)
  ]

  resolved-right : (do anchor ← create_anchor t o right; resolve_anchor t anchor) ≡ ok o
  resolved-right =
      ap (λ r. r >>= resolve_anchor t) created-right
      ∙ Attached-resolves t ls c o right Attached-right

module _ (t : Runs) (ls : List Leaf) (c : Coherent t ls) where
  resolved-start : (do anchor ← create_anchor t 0 left; resolve_anchor t anchor) ≡ ok 0
  unfolding create_anchor resolve_anchor
  resolved-start = elim (Bool-cases (0 == length_of ls)) [
    | inl q ↦ rw (len-Coherent t ls c, q) refl
    | inr q ↦ rw (len-Coherent t ls c, q) refl
  ]

  resolved-end :
      (do anchor ← create_anchor t (length_of ls) right; resolve_anchor t anchor)
      ≡ ok (length_of ls)
  unfolding create_anchor resolve_anchor
  resolved-end = rw (len-Coherent t ls c, ==_refl (length_of ls)) refl

  -- Let a run tree stand for a list of runs that are not empty, let its iterators have room, and let the
  -- run indices name the leaf of every character. Then for every offset from 0 to the length of the tree
  -- and for both biases, creating an anchor there and resolving it in the same tree does not panic and
  -- returns the offset.
  pub resolve_anchor-create_anchor :
      (o : ℕ) (bias : AnchorBias)
      → o ≤ length_of ls
      → (do anchor ← create_anchor t o bias; resolve_anchor t anchor) ≡ ok o
  resolve_anchor-create_anchor zero left a = resolved-start
  resolve_anchor-create_anchor (suc o) left a = resolved-left t ls c (suc o) (omega arith) a
  resolve_anchor-create_anchor o right a = elim (Bool-cases (o == length_of ls)) [
    | inl q ↦
        let same : length_of ls ≡ o = ground arith in
        subst (λ n. (do anchor ← create_anchor t n right; resolve_anchor t anchor) ≡ ok n) same
          resolved-end
    | inr q ↦ let other : o ≢ length_of ls = ground arith in resolved-right t ls c o (omega arith)
  ]
