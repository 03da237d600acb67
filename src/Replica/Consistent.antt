-- ===== src/Replica/Consistent.antt =====
-- The invariant of a replica, kept by every operation on it: both maps are those of the replica and
-- valid, and the backlog's queues are sorted.
use mathlib.Core.Path.{subst}
use cola.Prelude.{
  ℕ, ◌≡◌, ◌≢◌, refl, sym, ◌∙◌, arith, ◌==◌, ◌||◌, ltb, add, Ensures, Ensures-ok, Ensures-err,
  Ensures-if, Ensures-bind,
}
use cola.Text.{Text}
use cola.ReplicaIdMap.{Absent, AllValues}
use cola.VersionMap
use cola.VersionMap.Laws.{update-IsValid, fork_in_place-IsValid}
use cola.Insertion
use cola.Insertion.{Insertion}
use cola.Deletion
use cola.Deletion.{Deletion}
use cola.Backlog
use cola.Backlog.{Backlog, insertion_key, deletion_key}
use cola.Backlog.Queues.{Sorted}
use cola.Backlog.Kept.{insert_insertion-Sorted, insert_deletion-Sorted}
use cola.Panics.{Bound, range_bounds_to_start_end}
use cola.RunTree.{RunTree}
use cola.Replica.{
  Replica, new, fork, inserted, deleted, merge_unchecked_insertion, merge_unchecked_deletion,
  integrate_insertion, integrate_deletion, has_merged_insertion, has_merged_deletion,
  can_merge_insertion, can_merge_deletion,
}

pub record IsConsistent {Tree : Type 0} (r : Replica Tree) : Type 0 where
  pub version_id : r.version_map.this_id ≡ r.id
  pub deletion_id : r.deletion_map.this_id ≡ r.id
  pub versions : VersionMap.IsValid r.version_map
  pub deletions : VersionMap.IsValid r.deletion_map
  pub insertion_queues : AllValues (Sorted insertion_key) r.backlog.insertions
  pub deletion_queues : AllValues (Sorted deletion_key) r.backlog.deletions

update-this_id :
    (m : VersionMap.BaseMap) (k : ℕ) (f : ℕ → ℕ) → (VersionMap.update m k f).this_id ≡ m.this_id
unfolding VersionMap.update
update-this_id m k f = ground arith

-- The replica that a method leaves is consistent.
abbrev Leaves : {A Tree : Type 0} → A × Replica Tree → Type 0
Leaves (a, r) = IsConsistent r

module _ ⦃T : RunTree⦄ where
  pub new-IsConsistent : (id len : ℕ) → Ensures IsConsistent (new id len)
  unfolding new VersionMap.new
  new-IsConsistent id len =
      Ensures-if (id == 0) _ _ (λ _. Ensures-err _)
        λ _. Ensures-ok _ (record {
          version_id = refl;
          deletion_id = refl;
          versions = (tt, tt);
          deletions = (tt, tt);
          insertion_queues = tt;
          deletion_queues = tt;
        })

  pub merge_unchecked_insertion-IsConsistent :
      (r : Replica T.Tree) (i : Insertion)
      → IsConsistent r
      → Ensures Leaves (merge_unchecked_insertion r i)
  unfolding merge_unchecked_insertion
  merge_unchecked_insertion-IsConsistent r i c =
      Ensures-bind (T.merge_insertion r.run_tree i) _ λ t e. Ensures-ok _ (record {
        version_id = update-this_id _ _ _ ∙ c.version_id;
        deletion_id = c.deletion_id;
        versions = update-IsValid r.version_map _ _ c.versions;
        deletions = c.deletions;
        insertion_queues = c.insertion_queues;
        deletion_queues = c.deletion_queues;
      })

  pub merge_unchecked_deletion-IsConsistent :
      (r : Replica T.Tree) (d : Deletion)
      → IsConsistent r
      → Ensures Leaves (merge_unchecked_deletion r d)
  unfolding merge_unchecked_deletion
  merge_unchecked_deletion-IsConsistent r d c =
      Ensures-bind (T.merge_deletion r.run_tree d) _ λ t e. Ensures-ok _ (record {
        version_id = c.version_id;
        deletion_id = update-this_id _ _ _ ∙ c.deletion_id;
        versions = c.versions;
        deletions = update-IsValid r.deletion_map _ _ c.deletions;
        insertion_queues = c.insertion_queues;
        deletion_queues = c.deletion_queues;
      })

  pub integrate_insertion-IsConsistent :
      (r : Replica T.Tree) (i : Insertion)
      → IsConsistent r
      → Ensures Leaves (integrate_insertion r i)
  unfolding integrate_insertion
  integrate_insertion-IsConsistent r i c =
      Ensures-if (Insertion.is_no_op i || has_merged_insertion r i) _ _ (λ _. Ensures-ok _ c)
        λ _.
          Ensures-if (can_merge_insertion r i) _ _
            (λ _.
              Ensures-bind (merge_unchecked_insertion r i) _
                λ t e. Ensures-ok _ ((merge_unchecked_insertion-IsConsistent r i c).at t e))
            λ _. Ensures-bind (Backlog.insert_insertion r.backlog i) _ λ b e.
              let (sorted, same) =
                (insert_insertion-Sorted r.backlog i c.insertion_queues).at b e in
              Ensures-ok _ (record {
                version_id = c.version_id;
                deletion_id = c.deletion_id;
                versions = c.versions;
                deletions = c.deletions;
                insertion_queues = sorted;
                deletion_queues =
                    subst (AllValues (Sorted deletion_key)) (sym same) c.deletion_queues;
              })

  pub integrate_deletion-IsConsistent :
      (r : Replica T.Tree) (d : Deletion) → IsConsistent r → Ensures Leaves (integrate_deletion r d)
  unfolding integrate_deletion
  integrate_deletion-IsConsistent r d c =
      Ensures-if (Deletion.is_no_op d || has_merged_deletion r d) _ _ (λ _. Ensures-ok _ c)
        λ _.
          Ensures-if (can_merge_deletion r d) _ _ (λ _. merge_unchecked_deletion-IsConsistent r d c)
            λ _. Ensures-bind (Backlog.insert_deletion r.backlog d) _ λ b e.
              let (sorted, same) = (insert_deletion-Sorted r.backlog d c.deletion_queues).at b e in
              Ensures-ok _ (record {
                version_id = c.version_id;
                deletion_id = c.deletion_id;
                versions = c.versions;
                deletions = c.deletions;
                insertion_queues =
                    subst (AllValues (Sorted insertion_key)) (sym same) c.insertion_queues;
                deletion_queues = sorted;
              })

  -- The text of a local insertion, and the bounds of a local deletion.
  abbrev pub new_text : Replica T.Tree → ℕ → Text
  new_text r len = record {
    inserted_by = r.id;
    range = record { start = r.version_map.this_value; end = add r.version_map.this_value len };
  }

  abbrev pub ends : Replica T.Tree → Bound × Bound → ℕ × ℕ
  ends r range = range_bounds_to_start_end range 0 (T.len r.run_tree)

  pub inserted-IsConsistent :
      (r : Replica T.Tree) (at_offset len : ℕ)
      → IsConsistent r
      → Ensures Leaves (inserted r at_offset len)
  unfolding inserted VersionMap.update_this
  inserted-IsConsistent r at_offset len c =
      Ensures-if (ltb (T.len r.run_tree) at_offset) _ _ (λ _. Ensures-err _)
        λ _.
          Ensures-if (len == 0) _ _ (λ _. Ensures-ok _ c)
            λ _.
              Ensures-bind
                (T.insert r.run_tree at_offset (new_text r len) r.run_clock r.lamport_clock) _
                λ t e. Ensures-ok _ (record {
                  version_id = c.version_id;
                  deletion_id = c.deletion_id;
                  versions = c.versions;
                  deletions = c.deletions;
                  insertion_queues = c.insertion_queues;
                  deletion_queues = c.deletion_queues;
                })

  pub deleted-IsConsistent :
      (r : Replica T.Tree) (range : Bound × Bound)
      → IsConsistent r
      → Ensures Leaves (deleted r range)
  unfolding deleted VersionMap.update_this
  deleted-IsConsistent r range c =
      Ensures-if (ltb (T.len r.run_tree) (ends r range).1) _ _ (λ _. Ensures-err _)
        λ _.
          Ensures-if (ltb (ends r range).1 (ends r range).0) _ _ (λ _. Ensures-err _)
            λ _.
              Ensures-if ((ends r range).0 == (ends r range).1) _ _ (λ _. Ensures-ok _ c)
                λ _.
                  Ensures-bind
                    (T.delete r.run_tree
                      (record { start = (ends r range).0; end = (ends r range).1 })
                      (VersionMap.new r.id 0))
                    _
                    λ t e. Ensures-ok _ (record {
                      version_id = c.version_id;
                      deletion_id = c.deletion_id;
                      versions = c.versions;
                      deletions = c.deletions;
                      insertion_queues = c.insertion_queues;
                      deletion_queues = c.deletion_queues;
                    })

  pub fork-IsConsistent :
      (r : Replica T.Tree) (new_id : ℕ)
      → Absent new_id r.version_map.rest
      → Absent new_id r.deletion_map.rest
      → IsConsistent r
      → Ensures IsConsistent (fork r new_id)
  unfolding fork
  fork-IsConsistent r new_id a b c =
      Ensures-if (new_id == 0) _ _ (λ _. Ensures-err _)
        λ _.
          Ensures-if (new_id == r.id) _ _ (λ _. Ensures-err _)
            λ n.
              let ne : new_id ≢ r.id = ground arith in
              Ensures-ok _ (record {
                version_id = unfold VersionMap.fork_in_place in refl;
                deletion_id = unfold VersionMap.fork_in_place in refl;
                versions =
                    fork_in_place-IsValid r.version_map new_id 0 (λ p. ne (p ∙ c.version_id)) a
                      c.versions;
                deletions =
                    fork_in_place-IsValid r.deletion_map new_id 0 (λ p. ne (p ∙ c.deletion_id)) b
                      c.deletions;
                insertion_queues = c.insertion_queues;
                deletion_queues = c.deletion_queues;
              })
