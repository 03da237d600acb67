-- ===== src/Examples/Anchors.antt =====
-- Anchors in a run tree with a deleted run, and the leaves that its iterator goes through.
use cola.Prelude.{
  if◌then◌else◌, ℕ, true, ◌^◌, ◌-◌, ◌≡◌, refl, List, [], ◌∷◌, Result, ok, err, ◌>>=◌, arith, ◌≤◌,
  ◌<◌, sub, leb, replicate, false, suc, length, ◌==◌, ◌&&◌, Bool, inl, inr, Bool-cases,
}
use cola.Panics.{Panic}
use cola.Anchor.{InnerAnchor, left, right}
use cola.VersionMap
use cola.VersionMap.{BaseMap}
use cola.EditRun
use cola.EditRun.{EditRun}
use cola.Gtree.{inode, leaf}
use cola.Gtree.Find.{offset_from_root}
use cola.Gtree.Walk.{siblings}
use cola.Gtree.Shape.{Shows}
use cola.Gtree.Iter.{LeavesFrom, leaves, leaves_from, collect}
use cola.Gtree.Iter.Rest.{All-Populated}
use cola.Gtree.Iter.Order.{leaves-Shows, leaves_from-collect}
use cola.Fragments.{null}
use cola.Fragments.Tree.{Fragments}
use cola.RunIndices.{RunIndices, idx_at_anchor}
use cola.RunTree.Runs.{
  Runs, leaf_runs, insert, new_tree, append_run_to_another, insert_run_after_another,
}
use cola.RunTree.Cuts.{delete}
use cola.RunTree.Order.{place}
use cola.RunTree.Merge.{insert_run_behind}
use cola.RunTree.Behind.{joins, insert_run_behind-place}
use cola.RunTree.Fresh.{first_run, new_tree-Coherent}
use cola.RunTree.Anchors.{create_anchor, resolve_anchor}
use cola.RunTree.Coherent.{Leaf, position_in, Coherent, All-spot}
use cola.RunTree.Resolves.{resolve_anchor-create_anchor}
use cola.Examples.Encoded.{edited_tree, text_from}

abbrev tree_of : Result Panic ((InnerAnchor × InnerAnchor × BaseMap) × Runs) → Runs
tree_of (ok (a, t)) = t
tree_of (err p) = edited_tree

-- The run that was inserted after the fourth character is deleted again.
abbrev cut_tree : Runs
cut_tree = tree_of (delete (record { start = 4; end = 6 }) (VersionMap.new 1 12) edited_tree)

abbrev a_run : ℕ → ℕ → ℕ → EditRun
a_run start end ts = EditRun.new_visible (text_from start end) ts ts

abbrev cut_leaves : List Leaf
cut_leaves = (0, a_run 0 4 0) ∷ (1, EditRun.delete (a_run 10 12 1)) ∷ (2, a_run 4 10 0) ∷ []

cut_leaves-Shows : Shows ⦃P = leaf_runs⦄ cut_tree.gtree cut_leaves
unfolding delete insert inode leaf offset_from_root EditRun.visible_len
cut_leaves-Shows = record {
  height = 0;
  root = record { tot_len = 10; parent = 2 ^ 64 - 1; children = 0 ∷ 1 ∷ 2 ∷ []; has_leaves = true };
  at_root = refl;
  tot_len = refl;
  apart = ((refl, (refl, tt)), ((refl, tt), (tt, tt)));
  below = (
    (0, a_run 0 4 0) ∷ [],
    (1, EditRun.delete (a_run 10 12 1)) ∷ (2, a_run 4 10 0) ∷ [],
    (record { value = a_run 0 4 0; parent = 0 }, refl, refl, refl),
    refl,
    (
      (1, EditRun.delete (a_run 10 12 1)) ∷ [],
      (2, a_run 4 10 0) ∷ [],
      (record { value = EditRun.delete (a_run 10 12 1); parent = 0 }, refl, refl, refl),
      refl,
      (
        (2, a_run 4 10 0) ∷ [],
        [],
        (record { value = a_run 4 10 0; parent = 0 }, refl, refl, refl),
        refl,
        refl,
      ),
    ),
  );
  low = omega arith;
  fits = omega arith;
  cursor = (
    record {
      front = [];
      here = (0, a_run 0 4 0);
      back = (1, EditRun.delete (a_run 10 12 1)) ∷ (2, a_run 4 10 0) ∷ [];
      parts = refl;
    },
    refl,
    refl,
    refl,
    refl,
  );
}

abbrev old_fragments : Fragments
old_fragments = Fragments.array (record {
  slots = record { len = 4; idx = 0 } ∷ record { len = 6; idx = 2 } ∷ replicate 6 null;
  len = 2;
  total_len = 10;
})

abbrev new_fragments : Fragments
new_fragments =
    Fragments.array
      (record { slots = record { len = 2; idx = 1 } ∷ replicate 7 null; len = 1; total_len = 2 })

abbrev indices : RunIndices
indices = record { map = (1, record { vec = (old_fragments, 0) ∷ (new_fragments, 10) ∷ [] }) ∷ [] }

-- The anchors in a run, with a bias to the left and to the right, are found at its leaf.
abbrev After : Leaf → Type 0
After (i, r) =
    (offset : ℕ)
    → EditRun.start r < offset
    → offset ≤ EditRun.end r
    → idx_at_anchor indices (position_in r offset) left ≡ ok i

abbrev Before : Leaf → Type 0
Before (i, r) =
    (offset : ℕ)
    → EditRun.start r ≤ offset
    → offset < EditRun.end r
    → idx_at_anchor indices (position_in r offset) right ≡ ok i

and_false : (b : Bool) → (b && false) ≡ false
and_false true = refl
and_false false = refl

After-first : After (0, a_run 0 4 0)
unfolding idx_at_anchor
After-first offset a b =
    let same : sub offset 0 ≡ offset = omega arith in
    let here : leb offset 4 ≡ true = ground arith in rw (same, here, and_false (4 == offset)) refl

Before-first : Before (0, a_run 0 4 0)
unfolding idx_at_anchor
Before-first offset a b =
    let same : sub offset 0 ≡ offset = omega arith in
    let here : leb offset 4 ≡ true = ground arith in
    let inside : (4 == offset) ≡ false = ground arith in rw (same, here, inside) refl

After-second : After (1, EditRun.delete (a_run 10 12 1))
unfolding idx_at_anchor
After-second offset a b =
    let same : sub offset 10 ≡ offset - 10 = omega arith in
    let here : leb (offset - 10) 2 ≡ true = ground arith in
    rw (same, here, and_false (2 == offset - 10)) refl

Before-second : Before (1, EditRun.delete (a_run 10 12 1))
unfolding idx_at_anchor
Before-second offset a b =
    let same : sub offset 10 ≡ offset - 10 = omega arith in
    let here : leb (offset - 10) 2 ≡ true = ground arith in
    let inside : (2 == offset - 10) ≡ false = ground arith in rw (same, here, inside) refl

After-third : After (2, a_run 4 10 0)
unfolding idx_at_anchor
After-third offset a b =
    let same : sub offset 0 ≡ offset = omega arith in
    let later : leb offset 4 ≡ false = ground arith in
    let here : leb offset 10 ≡ true = ground arith in
    rw (same, later, here, and_false (10 == offset)) refl

Before-third : Before (2, a_run 4 10 0)
unfolding idx_at_anchor
Before-third offset a b =
    let same : sub offset 0 ≡ offset = omega arith in
    elim (Bool-cases (leb offset 4)) [
      | inl q ↦ let at_end : (4 == offset) ≡ true = ground arith in rw (same, q, at_end) refl
      | inr q ↦
          let here : leb offset 10 ≡ true = ground arith in
          let inside : (10 == offset) ≡ false = ground arith in rw (same, q, here, inside) refl
    ]

cut_tree-Coherent : Coherent cut_tree cut_leaves
unfolding insert delete inode EditRun.visible_len
cut_tree-Coherent = record {
  shows = cut_leaves-Shows;
  full = All-Populated cut_tree.gtree (omega arith, tt);
  few = omega arith;
  runs = (
    record {
      text = record { id_fits = omega arith; ordered = omega arith; end_fits = omega arith };
      some_text = omega arith;
      replica = omega arith;
    },
    (
      record {
        text = record { id_fits = omega arith; ordered = omega arith; end_fits = omega arith };
        some_text = omega arith;
        replica = omega arith;
      },
      (
        record {
          text = record { id_fits = omega arith; ordered = omega arith; end_fits = omega arith };
          some_text = omega arith;
          replica = omega arith;
        },
        tt,
      ),
    ),
  );
  after = λ s.
      All-spot After cut_leaves s.front s.here s.back
        (After-first, (After-second, (After-third, tt))) s.parts;
  before = λ s.
      All-spot Before cut_leaves s.front s.here s.back
        (Before-first, (Before-second, (Before-third, tt))) s.parts;
}

-- After the fourth character the deleted run is skipped.
resolve_anchor-create_anchor_example :
    (do anchor ← create_anchor cut_tree 4 right; resolve_anchor cut_tree anchor) ≡ ok 4
unfolding EditRun.visible_len
resolve_anchor-create_anchor_example =
    resolve_anchor-create_anchor cut_tree cut_leaves cut_tree-Coherent 4 right (omega arith)

leaves-Shows_example : leaves cut_tree.gtree ≡ ok cut_leaves
leaves-Shows_example =
    leaves-Shows ⦃P = leaf_runs⦄ cut_tree.gtree cut_tree-Coherent.full cut_leaves
      cut_tree-Coherent.shows cut_tree-Coherent.few

leaves_from-collect_example :
    (it : LeavesFrom) × (leaves_from false 0 cut_tree.gtree ≡ ok it)
    × (collect cut_tree.gtree (suc (length cut_tree.gtree.lnodes)) it
        ≡ ok ((1, EditRun.delete (a_run 10 12 1)) ∷ (2, a_run 4 10 0) ∷ []))
leaves_from-collect_example =
    leaves_from-collect ⦃P = leaf_runs⦄ cut_tree.gtree cut_tree-Coherent.full cut_leaves
      cut_tree-Coherent.shows cut_tree-Coherent.few
      (record {
        front = [];
        here = (0, a_run 0 4 0);
        back = (1, EditRun.delete (a_run 10 12 1)) ∷ (2, a_run 4 10 0) ∷ [];
        parts = refl;
      })

-- Three characters that replica 2 inserted after the fourth one, concurrently.
abbrev remote_run : EditRun
remote_run =
    EditRun.new_visible (record { inserted_by = 2; range = record { start = 0; end = 3 } }) 0 1

insert_run_behind-place_example :
    (idxs : List ℕ) × (siblings false 0 cut_tree.gtree ≡ ok idxs)
    × (insert_run_behind remote_run 0 (a_run 0 4 0) cut_tree ≡ (
        if joins remote_run
          (a_run 0 4 0)
          idxs
          ((1, EditRun.delete (a_run 10 12 1)) ∷ (2, a_run 4 10 0) ∷ [])
        then append_run_to_another remote_run 0 cut_tree
        else insert_run_after_another remote_run
            (place remote_run 0 ((1, EditRun.delete (a_run 10 12 1)) ∷ (2, a_run 4 10 0) ∷ []))
            cut_tree))
insert_run_behind-place_example =
    insert_run_behind-place cut_tree cut_tree-Coherent.full remote_run cut_leaves
      cut_tree-Coherent.shows cut_tree-Coherent.few (a_run 0 4 0)
      (record {
        front = [];
        here = (0, a_run 0 4 0);
        back = (1, EditRun.delete (a_run 10 12 1)) ∷ (2, a_run 4 10 0) ∷ [];
        parts = refl;
      })

new_tree-Coherent_example :
    (t : Runs) × (new_tree (first_run 1 10 0) ≡ ok t) × Coherent t ((0, first_run 1 10 0) ∷ [])
new_tree-Coherent_example =
    new_tree-Coherent 1 10 0 (omega arith) (omega arith) (omega arith) (omega arith)

-- The deleted run is as old and of a smaller replica id, so that the remote run comes after it.
remote_place : place remote_run 0 ((1, EditRun.delete (a_run 10 12 1)) ∷ (2, a_run 4 10 0) ∷ []) ≡ 1
unfolding place EditRun.cmp
remote_place = refl
