-- ===== src/RunTree/Attached.antt =====
-- The run that an anchor is attached to, and where the anchor is resolved to (`create_anchor` and
-- `resolve_anchor`, src/run_tree.rs).
use cola.Prelude.{
  ℕ, ◌+◌, ◌-◌, ◌^◌, ◌<◌, ◌≤◌, ◌≡◌, refl, ap, ◌∙◌, false, inl, inr, Bool-cases, List, ◌∷◌, ok, ◌>>=◌,
  ◌==◌, ◌&&◌, add, sub, arith,
}
use cola.Anchor.{AnchorBias, left}
use cola.EditRun
use cola.EditRun.{EditRun}
use cola.Gtree.{leaf, gtree_len}
use cola.Gtree.Find.{offset_of_leaf}
use cola.Gtree.Shape.{span-append}
use cola.Gtree.Offsets.{leaf_at_offset-Shows}
use cola.RunIndices.{idx_at_anchor}
use cola.RunTree.Runs.{Runs, leaf_runs}
use cola.RunTree.Anchors.{len, create_anchor, resolve_anchor}
use cola.RunTree.Coherent.{
  Leaf, RunSpot, IsRun, position_in, Coherent, All-spot, visible-len, deleted-len, length_of,
}

-- A run that is not deleted has as many characters in the tree as in its text.
pub kept-of-visible : (r : EditRun) → 0 < EditRun.visible_len r → r.is_deleted ≡ false
kept-of-visible r some_text = elim (Bool-cases r.is_deleted) [
  | inl gone ↦ absurd (omega (arith, deleted-len r gone))
  | inr kept ↦ kept
]

pub sub-add : (n m : ℕ) → n < 2 ^ 64 → m < 2 ^ 64 → sub (add n m) m ≡ n
sub-add n m a b = omega arith

module _ (t : Runs) (ls : List Leaf) (c : Coherent t ls) where
  abbrev pub run_at : (s : RunSpot ls) → IsRun s.here.1
  run_at s = All-spot (λ l. IsRun l.1) ls s.front s.here s.back c.runs s.parts

  pub whole :
      (s : RunSpot ls)
      → length_of ls ≡ length_of s.front + (EditRun.visible_len s.here.1 + length_of s.back)
  whole s = ap length_of s.parts ∙ span-append ⦃P = leaf_runs⦄ s.front (s.here ∷ s.back)

  -- The tree has the length of the visible runs.
  pub len-Coherent : len t ≡ ok (length_of ls)
  unfolding len gtree_len
  len-Coherent = let sh = c.shows in rw (sh.at_root, sh.tot_len) refl

  -- An anchor in a visible run is resolved to the offset of the run and the distance in it.
  resolve_in :
      (s : RunSpot ls) (offset : ℕ) (bias : AnchorBias)
      → leaf s.here.0 t.gtree ≡ ok s.here.1
      → offset_of_leaf ⦃P = leaf_runs⦄ s.here.0 t.gtree ≡ ok (length_of s.front)
      → s.here.1.is_deleted ≡ false
      → idx_at_anchor t.run_indices (position_in s.here.1 offset) bias ≡ ok s.here.0
      → EditRun.start s.here.1 ≤ offset
      → offset ≤ EditRun.end s.here.1
      → resolve_anchor t (record { inner = position_in s.here.1 offset; bias = bias })
        ≡ ok (length_of s.front + (offset - EditRun.start s.here.1))
  unfolding resolve_anchor
  resolve_in s offset bias value at kept found from up_to =
      let v = run_at s in
      let used : (EditRun.replica_id s.here.1 == 0) ≡ false = ground (arith, v.replica) in
      let exact : add (length_of s.front) (sub offset (EditRun.start s.here.1))
          ≡ length_of s.front + (offset - EditRun.start s.here.1) =
        omega (arith, whole s, visible-len s.here.1 v kept, c.shows.fits) in
      rw (used, found, at, value, kept, exact) refl

  -- What an anchor at an offset is attached to: a visible run, and the position in it.
  pub record Attached (o : ℕ) (bias : AnchorBias) : Type 0 where
    pub spot : RunSpot ls
    pub value : leaf spot.here.0 t.gtree ≡ ok spot.here.1
    pub at : offset_of_leaf ⦃P = leaf_runs⦄ spot.here.0 t.gtree ≡ ok (length_of spot.front)
    pub kept : spot.here.1.is_deleted ≡ false
    pub from : length_of spot.front ≤ o
    pub up_to : o ≤ length_of spot.front + EditRun.visible_len spot.here.1
    pub indexed :
        idx_at_anchor t.run_indices
          (position_in spot.here.1 (EditRun.start spot.here.1 + (o - length_of spot.front)))
          bias
        ≡ ok spot.here.0

  pub Attached-resolves :
      (o : ℕ) (bias : AnchorBias) (a : Attached o bias)
      → let run = a.spot.here.1 in
        resolve_anchor t (record {
          inner = position_in run (EditRun.start run + (o - length_of a.spot.front));
          bias = bias;
        })
        ≡ ok o
  Attached-resolves o bias a =
      let run = a.spot.here.1 in
      let v = run_at a.spot in
      let len = visible-len run v a.kept in
      let there : length_of a.spot.front
            + (EditRun.start run + (o - length_of a.spot.front) - EditRun.start run)
          ≡ o =
        omega (arith, a.from) in
      resolve_in a.spot (EditRun.start run + (o - length_of a.spot.front)) bias a.value a.at a.kept
        a.indexed (omega arith) (omega (arith, a.from, a.up_to))
      ∙ ap ok there

  -- The position that `create_anchor` computes.
  pub position :
      (s : RunSpot ls) (o : ℕ)
      → s.here.1.is_deleted ≡ false
      → length_of s.front ≤ o
      → o ≤ length_of s.front + EditRun.visible_len s.here.1
      → sub (add (EditRun.start s.here.1) o) (length_of s.front)
        ≡ EditRun.start s.here.1 + (o - length_of s.front)
  position s o kept from up_to =
      let v = run_at s in
      let ends = v.text.end_fits in
      let len = visible-len s.here.1 v kept in omega (arith, whole s, c.shows.fits)

  -- With a bias to the left an anchor is attached to the run of the character before the offset.
  module _ (o : ℕ) (b : 0 < o) (a : o ≤ length_of ls) where
    abbrev Attached-left : Attached o left
    Attached-left =
        let (s, found, value, after, before, at) =
          leaf_at_offset-Shows ⦃P = leaf_runs⦄ t.gtree ls c.shows o b a in
        let kept = kept-of-visible s.here.1 (omega arith) in
        let len = visible-len s.here.1 (run_at s) kept in
        record {
          spot = s;
          value = value;
          at = at;
          kept = kept;
          from = omega arith;
          up_to = before;
          indexed =
              c.after s (EditRun.start s.here.1 + (o - length_of s.front)) (omega arith)
                (omega arith);
        }

    created-left :
        create_anchor t o left
        ≡ ok (record {
          inner =
              position_in Attached-left.spot.here.1 (
                EditRun.start Attached-left.spot.here.1 + (o - length_of Attached-left.spot.front));
          bias = left;
        })
    unfolding create_anchor
    created-left =
        let (s, found, value, after, before, at) =
          leaf_at_offset-Shows ⦃P = leaf_runs⦄ t.gtree ls c.shows o b a in
        let not_first : (o == 0) ≡ false = ground arith in
        let not_end : (o == length_of ls && false) ≡ false = elim (Bool-cases (o == length_of ls)) [
          | inl q ↦ rw q refl
          | inr q ↦ rw q refl
        ] in
        let offset = position s o Attached-left.kept Attached-left.from Attached-left.up_to in
        rw (len-Coherent, not_end, not_first, found, value, offset) refl

    pub resolved-left : (do anchor ← create_anchor t o left; resolve_anchor t anchor) ≡ ok o
    resolved-left =
        ap (λ r. r >>= resolve_anchor t) created-left ∙ Attached-resolves o left Attached-left
