-- ===== src/RunTree/Behind.antt =====
-- A remote run is merged next to the run that the list of runs says (`merge_insertion`,
-- src/run_tree.rs).
use cola.Prelude.{
  ℕ, ◌≤◌, ◌≡◌, refl, ap, ◌∙◌, Bool, true, false, not, ◌&&◌, inl, inr, Bool-cases, List, [], ◌∷◌,
  ◌++◌, ok, length, if◌then◌else◌,
}
use cola.EditRun
use cola.EditRun.{EditRun}
use cola.Gtree.{Lnode, lnode, leaf}
use cola.Gtree.Walk.{siblings}
use cola.Gtree.Shape.{Parts, Child, Shows}
use cola.Gtree.Iter.Rest.{Populated}
use cola.Gtree.Iter.Start.{Shows-Starts}
use cola.RunTree.Runs.{Runs, leaf_runs, append_run_to_another, insert_run_after_another}
use cola.RunTree.Places.{is_gt, last_smaller_sibling}
use cola.RunTree.Order.{place, spot_behind, last_smaller_after-place, sibling_search}
use cola.RunTree.Merge.{insert_run_behind}
use cola.RunTree.Coherent.{Leaf, RunSpot}

-- The run continues the anchor, which has a sibling behind it that the run does not go past.
unfoldable pub joins : EditRun → EditRun → List ℕ → List Leaf → Bool
unfolding EditRun.cmp EditRun.can_append
joins run anchor [] back = false
joins run anchor (idx ∷ idxs) [] = false
joins run anchor (idx ∷ idxs) ((i, r) ∷ back) =
    not (is_gt (EditRun.cmp run r)) && EditRun.can_append anchor run

module _ (t : Runs) (full : Populated t.gtree) (run : EditRun) (ls : List Leaf)
    (shows : Shows ⦃P = leaf_runs⦄ t.gtree ls) (few : length ls ≤ length t.gtree.lnodes)
    (anchor : EditRun) (s : RunSpot ls) where
  abbrev Merged : List ℕ → Type 0
  Merged idxs = insert_run_behind run s.here.0 anchor t ≡ (
      if joins run anchor idxs s.back
      then append_run_to_another run s.here.0 t
      else insert_run_after_another run (place run s.here.0 s.back) t)

  no_sibling : siblings false s.here.0 t.gtree ≡ ok [] → Merged []
  unfolding insert_run_behind joins
  no_sibling e = rw (e, last_smaller_after-place t.gtree full run ls shows few s) refl

  with_sibling :
      (c : ℕ) (cs : List ℕ) (l : Lnode EditRun) (behind : List Leaf)
      → siblings false s.here.0 t.gtree ≡ ok (c ∷ cs)
      → lnode c t.gtree ≡ ok l
      → s.back ≡ (c, l.value) ∷ behind
      → last_smaller_sibling t.gtree run c cs ≡ ok (place run c behind)
      → Merged (c ∷ cs)
  unfolding insert_run_behind joins leaf place
  with_sibling c cs l behind e value back further =
      elim (Bool-cases (is_gt (EditRun.cmp run l.value))) [
        | inl q ↦ rw (e, value, back, q, further) refl
        | inr q ↦ elim (Bool-cases (EditRun.can_append anchor run)) [
          | inl q' ↦ rw (e, value, back, q, q') refl
          | inr q' ↦ rw (e, value, back, q, q') refl
        ]
      ]

  with_siblings :
      (k p : ℕ) (idxs : List ℕ) (here above : List Leaf)
      → siblings false s.here.0 t.gtree ≡ ok idxs
      → Parts (Child ⦃P = leaf_runs⦄ t.gtree k p true) idxs here
      → s.back ≡ here ++ above
      → Merged idxs
  with_siblings k p [] here above e empty split = no_sibling e
  with_siblings k p (c ∷ cs) here above e (part, later, (l, value, parent, only), parted, others)
        split =
      let back : s.back ≡ (c, l.value) ∷ (later ++ above) =
        split ∙ ap (λ t. t ++ above) (parted ∙ ap (λ t. t ++ later) only) in
      let s' = spot_behind ls s (c, l.value) (later ++ above) back in
      with_sibling c cs l (later ++ above) e value back
        (sibling_search t.gtree full run ls shows few k p cs s' later above others refl)

  -- Let the tree of runs stand for a list of runs, with a child in every inode. Then merging a run behind
  -- the end of the run that its anchor is in has the outcome of one step: the run is joined with the
  -- anchor, if it continues the anchor and does not go past the sibling behind it, and else it is inserted
  -- after the last of the runs directly behind the anchor in the list that it is greater than, or after the
  -- anchor itself.
  pub insert_run_behind-place :
      (idxs : List ℕ) × (siblings false s.here.0 t.gtree ≡ ok idxs) × Merged idxs
  insert_run_behind-place =
      let start = Shows-Starts ⦃P = leaf_runs⦄ t.gtree ls shows s in
      let r = start.behind_it in
      (
        start.after_it.current_leaves,
        start.beside,
        with_siblings r.level r.parent start.after_it.current_leaves r.here r.above start.beside
            r.current r.parts,
      )
