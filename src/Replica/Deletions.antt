-- ===== src/Replica/Deletions.antt =====
-- Integrating remote deletions: once, in the order of their replica, and not before the text that their
-- version map counts.
use mathlib.Core.Path.{subst}
use cola.Prelude.{
  ℕ, ◌≤◌, ◌≡◌, refl, true, List, [], ◌∷◌, ok, >>=-eq-ok, ok-injective, arith, ◌==◌, ◌||◌,
  if◌then◌else◌, add, Ensures, Ensures-ok, Ensures-if, Ensures-bind,
}
use cola.Text.{Range}
use cola.VersionMap
use cola.VersionMap.Laws.{get-update}
use cola.VersionMap.Order.{ge_iff}
use cola.Deletion
use cola.Deletion.{Deletion}
use cola.Backlog
use cola.Backlog.{Backlog}
use cola.RunTree.{RunTree}
use cola.Replica.{
  seen, seen_deletions, Replica, has_merged_deletion, can_merge_deletion, merge_unchecked_deletion,
  integrate_deletion,
}

-- What merging a deletion changes besides the tree.
pub record MergedDeletion {Tree : Type 0} (r : Replica Tree) (d : Deletion) (r' : Replica Tree)
    : Type 0 where
  pub in_order : add (seen_deletions r (Deletion.deleted_by d)) 1 ≡ d.deletion_ts
  pub known : VersionMap.ge r.version_map d.version_map ≡ true
  pub deletions :
      (id : ℕ)
      → seen_deletions r' id
        ≡ (if Deletion.deleted_by d == id then d.deletion_ts else seen_deletions r id)
  pub same_id : r'.id ≡ r.id
  pub same_versions : r'.version_map ≡ r.version_map
  pub same_backlog : r'.backlog ≡ r.backlog

abbrev MergedIfRanges :
    {Tree : Type 0} → Replica Tree → Deletion → List Range × Replica Tree → Type 0
MergedIfRanges r d ([], r') = Unit
MergedIfRanges r d (range ∷ ranges, r') = MergedDeletion r d r'

module _ {Tree : Type 0} (r : Replica Tree) (d : Deletion) where
  deletion_ready :
      can_merge_deletion r d ≡ true
      → (add (seen_deletions r (Deletion.deleted_by d)) 1 ≡ d.deletion_ts)
        × (VersionMap.ge r.version_map d.version_map ≡ true)
  unfolding can_merge_deletion
  deletion_ready h = (ground arith, ground arith)

module _ ⦃T : RunTree⦄ where
  merge_unchecked_deletion-Merged :
      (r : Replica T.Tree) (d : Deletion) {ranges : List Range} {r' : Replica T.Tree}
      → can_merge_deletion r d ≡ true
      → merge_unchecked_deletion r d ≡ ok (ranges, r')
      → MergedDeletion r d r'
  unfolding merge_unchecked_deletion
  merge_unchecked_deletion-Merged r d c h =
      let (in_order, known) = deletion_ready r d c in
      let (t, m, e) = >>=-eq-ok (T.merge_deletion r.run_tree d) _ h in
      subst (λ (p : List Range × Replica T.Tree). MergedDeletion r d p.1) (ok-injective e)
        (record {
          in_order = in_order;
          known = known;
          deletions =
              λ id. get-update r.deletion_map (Deletion.deleted_by d) id (λ _. d.deletion_ts);
          same_id = refl;
          same_versions = refl;
          same_backlog = refl;
        })

  ranges_of_merge :
      (r : Replica T.Tree) (d : Deletion) (t : List Range × Replica T.Tree)
      → can_merge_deletion r d ≡ true
      → merge_unchecked_deletion r d ≡ ok t
      → MergedIfRanges r d t
  ranges_of_merge r d ([], r') c h = tt
  ranges_of_merge r d (range ∷ ranges, r') c h = merge_unchecked_deletion-Merged r d c h

  integrate_deletion-MergedIfRanges :
      (r : Replica T.Tree) (d : Deletion) → Ensures (MergedIfRanges r d) (integrate_deletion r d)
  unfolding integrate_deletion
  integrate_deletion-MergedIfRanges r d =
      Ensures-if (Deletion.is_no_op d || has_merged_deletion r d) _ _ (λ _. Ensures-ok _ tt)
        λ _.
          Ensures-if (can_merge_deletion r d) _ _
            (λ c. record { at = λ t h. ranges_of_merge r d t c h })
            λ _. Ensures-bind (Backlog.insert_deletion r.backlog d) _ λ b e. Ensures-ok _ tt

  integrated :
      (r : Replica T.Tree) (d : Deletion) (k : ℕ)
      → seen_deletions r (Deletion.deleted_by d)
        ≡ (if Deletion.deleted_by d == Deletion.deleted_by d then d.deletion_ts else k)
      → integrate_deletion r d ≡ ok ([], r)
  unfolding integrate_deletion
  integrated r d k e =
      let done : (Deletion.is_no_op d || has_merged_deletion r d) ≡ true = ground arith in rw done

  -- Let the version maps of the replica and of the deletion be valid. A deletion that yields ranges was the
  -- next one of its replica, and no value in the version map that it carries is above what this replica has
  -- seen of that id; then it is counted as merged, and integrating it again yields no ranges and changes
  -- nothing.
  pub integrate_deletion_in_order :
      (r : Replica T.Tree) (d : Deletion) (range : Range) {ranges : List Range}
      {r' : Replica T.Tree}
      → VersionMap.IsValid r.version_map
      → VersionMap.IsValid d.version_map
      → integrate_deletion r d ≡ ok (range ∷ ranges, r')
      → (add (seen_deletions r (Deletion.deleted_by d)) 1 ≡ d.deletion_ts)
        × ((id : ℕ) → VersionMap.get d.version_map id ≤ seen r id)
        × ((id : ℕ)
            → seen_deletions r' id
              ≡ (if Deletion.deleted_by d == id then d.deletion_ts else seen_deletions r id))
        × (integrate_deletion r' d ≡ ok ([], r'))
  integrate_deletion_in_order r d range {ranges} {r'} v w h =
      let m : MergedDeletion r d r' =
        (integrate_deletion-MergedIfRanges r d).at (range ∷ ranges, r') h in
      (
        m.in_order,
        (ge_iff r.version_map d.version_map v w).0 m.known,
        m.deletions,
        integrated r' d (seen_deletions r (Deletion.deleted_by d))
            (m.deletions (Deletion.deleted_by d)),
      )
