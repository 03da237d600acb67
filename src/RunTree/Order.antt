-- ===== src/RunTree/Order.antt =====
-- Where a remote run is placed among the runs behind its anchor (the loops of `merge_insertion`,
-- src/run_tree.rs).
use cola.Prelude.{
  ℕ, zero, suc, ◌<◌, ◌≤◌, ◌≡◌, refl, sym, ap, ◌∙◌, true, inl, inr, Bool-cases, List, [], ◌∷◌, ◌++◌,
  append_assoc, ok, length, length-append, if◌then◌else◌, arith,
}
use mathlib.Core.Path.{subst}
use cola.EditRun
use cola.EditRun.{EditRun}
use cola.Gtree.{Gtree, Lnode, lnode, leaf}
use cola.Gtree.Shape.{Parts, Child, Shows}
use cola.Gtree.Iter.{LeavesFrom}
use cola.Gtree.Iter.Rest.{Populated, Rest}
use cola.Gtree.Iter.Start.{Shows-Starts}
use cola.Gtree.Iter.Visits.{Next, ends, takes, Rest-Next}
use cola.RunTree.Runs.{leaf_runs}
use cola.RunTree.Places.{is_gt, last_smaller, last_smaller_after, last_smaller_sibling}
use cola.RunTree.Coherent.{Leaf, RunSpot}

-- The last of the leading runs that the run is greater than, or the leaf before them.
unfoldable pub place : EditRun → ℕ → List Leaf → ℕ
unfolding EditRun.cmp
place run prev_idx [] = prev_idx
place run prev_idx ((idx, r) ∷ ls) =
    let rest = place run idx ls in if is_gt (EditRun.cmp run r) then rest else prev_idx

-- The leaf behind a leaf.
abbrev pub spot_behind :
    (ls : List Leaf) (s : RunSpot ls) (x : Leaf) (behind : List Leaf)
    → s.back ≡ x ∷ behind
    → RunSpot ls
spot_behind ls s x behind back = record {
  front = s.front ++ s.here ∷ [];
  here = x;
  back = behind;
  parts =
      s.parts
      ∙ ap (λ t. s.front ++ s.here ∷ t) back
      ∙ sym (append_assoc s.front (s.here ∷ []) (x ∷ behind));
}

module _ (g : Gtree EditRun) (full : Populated g) (run : EditRun) where
  last_smaller-Next :
      (it : LeavesFrom) (ls : List Leaf) (prev_idx k : ℕ)
      → Next ⦃P = leaf_runs⦄ g full it ls
      → length ls < suc k
      → ((it' : LeavesFrom) (ms : List Leaf) (prev : ℕ)
          → Rest ⦃P = leaf_runs⦄ g it' ms
          → length ms < k
          → last_smaller g run prev k it' ≡ ok (place run prev ms))
      → last_smaller g run prev_idx (suc k) it ≡ ok (place run prev_idx ls)
  unfolding last_smaller place
  last_smaller-Next it ls prev_idx k (ends e) enough again = rw e refl
  last_smaller-Next it ls prev_idx k (takes item it' rest e value r) enough again =
      elim (Bool-cases (is_gt (EditRun.cmp run item.1))) [
        | inl q ↦ rw (e, q) (again it' rest item.0 r (omega arith))
        | inr q ↦ rw (e, q) refl
      ]

  module _ (ls : List Leaf) (shows : Shows ⦃P = leaf_runs⦄ g ls)
      (few : length ls ≤ length g.lnodes) where
    last_smaller-Rest :
        (it : LeavesFrom) (ms : List Leaf) (prev_idx k : ℕ)
        → Rest ⦃P = leaf_runs⦄ g it ms
        → length ms < k
        → last_smaller g run prev_idx k it ≡ ok (place run prev_idx ms)
    last_smaller-Rest it ms prev_idx zero r enough = absurd (omega arith)
    last_smaller-Rest it ms prev_idx (suc k) r enough =
        last_smaller-Next it ms prev_idx k
          (Rest-Next ⦃P = leaf_runs⦄ g full shows.root shows.at_root it ms r) enough
          (λ it' ms' prev r' enough'. last_smaller-Rest it' ms' prev k r' enough')

    -- The search through all leaves behind a leaf.
    pub last_smaller_after-place :
        (s : RunSpot ls) → last_smaller_after g run s.here.0 ≡ ok (place run s.here.0 s.back)
    unfolding last_smaller_after
    last_smaller_after-place s =
        let start = Shows-Starts ⦃P = leaf_runs⦄ g ls shows s in
        let size : length ls ≡ length (s.front ++ s.here ∷ s.back) = ap length s.parts in
        let sum = length-append s.front (s.here ∷ s.back) in
        let all =
          last_smaller-Rest start.after_it s.back s.here.0 (suc (length g.lnodes)) start.behind_it
            (omega arith) in
        rw start.excluded all

    compared :
        (prev_idx c : ℕ) (l : Lnode EditRun) (behind : List Leaf) (cs : List ℕ)
        → lnode c g ≡ ok l
        → last_smaller_sibling g run c cs ≡ ok (place run c behind)
        → last_smaller_sibling g run prev_idx (c ∷ cs)
          ≡ ok (place run prev_idx ((c, l.value) ∷ behind))
    unfolding last_smaller_sibling leaf place
    compared prev_idx c l behind cs value further =
        elim (Bool-cases (is_gt (EditRun.cmp run l.value))) [
          | inl q ↦ rw (value, q) further
          | inr q ↦ rw (value, q) refl
        ]

    -- The search among the siblings, which goes on behind the last of them.
    pub sibling_search :
        (k p : ℕ) (cs : List ℕ) (s : RunSpot ls) (here above : List Leaf)
        → Parts (Child ⦃P = leaf_runs⦄ g k p true) cs here
        → s.back ≡ here ++ above
        → last_smaller_sibling g run s.here.0 cs ≡ ok (place run s.here.0 s.back)
    unfolding last_smaller_sibling
    sibling_search k p [] s here above empty e = last_smaller_after-place s
    sibling_search k p (c ∷ cs) s here above (part, later, (l, value, parent, only), split, others)
          e =
        let back : s.back ≡ (c, l.value) ∷ (later ++ above) =
          e ∙ ap (λ t. t ++ above) (split ∙ ap (λ t. t ++ later) only) in
        let s' = spot_behind ls s (c, l.value) (later ++ above) back in
        let further = sibling_search k p cs s' later above others refl in
        subst (λ t. last_smaller_sibling g run s.here.0 (c ∷ cs) ≡ ok (place run s.here.0 t))
          (sym back) (compared s.here.0 c l (later ++ above) cs value further)
