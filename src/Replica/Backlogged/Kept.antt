-- ===== src/Replica/Backlogged/Kept.antt =====
-- The iterators over the backlogged edits keep the replica consistent.
use cola.Prelude.{ℕ, List, [], ◌∷◌, ◌++◌, Ensures, Ensures-ok, Ensures-if, Ensures-bind}
use cola.Text.{Range}
use cola.Insertion.{Insertion}
use cola.Deletion.{Deletion}
use cola.ReplicaIdMap.{AllValues, AllValues-append}
use cola.Backlog.{insertion_key, deletion_key}
use cola.Backlog.Queues.{Sorted}
use cola.RunTree.{RunTree}
use cola.Replica.{
  Replica, can_merge_insertion, can_merge_deletion, merge_unchecked_insertion,
  merge_unchecked_deletion,
}
use cola.Replica.Consistent.{
  IsConsistent, merge_unchecked_insertion-IsConsistent, merge_unchecked_deletion-IsConsistent,
}
use cola.Replica.Backlogged.{
  BackloggedInsertions, BackloggedDeletions, backlogged_insertions, backlogged_deletions,
  close_insertions, close_deletions, scan_insertions, next_insertion, scan_deletions, next_deletion,
  DeletionsResult, yield_ranges, next_deletion_in,
}

-- The replica of an iterator is consistent but for the queues that the iterator holds, and these are
-- sorted.
pub record InsertionsKept {Tree : Type 0} (s : BackloggedInsertions Tree) : Type 0 where
  pub replica : IsConsistent s.replica
  pub past : AllValues (Sorted insertion_key) s.past
  pub coming : AllValues (Sorted insertion_key) s.coming

pub record DeletionsKept {Tree : Type 0} (s : BackloggedDeletions Tree) : Type 0 where
  pub replica : IsConsistent s.replica
  pub past : AllValues (Sorted deletion_key) s.past
  pub coming : AllValues (Sorted deletion_key) s.coming

module _ {A Tree : Type 0} where
  abbrev pub LeavesInsertions : A × BackloggedInsertions Tree → Type 0
  LeavesInsertions (a, s) = InsertionsKept s

  abbrev pub LeavesDeletions : A × BackloggedDeletions Tree → Type 0
  LeavesDeletions (a, s) = DeletionsKept s

module _ {Tree : Type 0} where
  pub backlogged_insertions-Kept :
      (r : Replica Tree) → IsConsistent r → InsertionsKept (backlogged_insertions r)
  unfolding backlogged_insertions
  backlogged_insertions-Kept r c = record { replica = c; past = tt; coming = c.insertion_queues }

  pub backlogged_deletions-Kept :
      (r : Replica Tree) → IsConsistent r → DeletionsKept (backlogged_deletions r)
  unfolding backlogged_deletions
  backlogged_deletions-Kept r c = record { replica = c; past = tt; coming = c.deletion_queues }

  pub close_insertions-IsConsistent :
      (s : BackloggedInsertions Tree) → InsertionsKept s → IsConsistent (close_insertions s)
  unfolding close_insertions
  close_insertions-IsConsistent s k =
      let c = k.replica in
      record {
        version_id = c.version_id;
        deletion_id = c.deletion_id;
        versions = c.versions;
        deletions = c.deletions;
        insertion_queues = AllValues-append (Sorted insertion_key) s.past s.coming k.past k.coming;
        deletion_queues = c.deletion_queues;
      }

  pub close_deletions-IsConsistent :
      (s : BackloggedDeletions Tree) → DeletionsKept s → IsConsistent (close_deletions s)
  unfolding close_deletions
  close_deletions-IsConsistent s k =
      let c = k.replica in
      record {
        version_id = c.version_id;
        deletion_id = c.deletion_id;
        versions = c.versions;
        deletions = c.deletions;
        insertion_queues = c.insertion_queues;
        deletion_queues = AllValues-append (Sorted deletion_key) s.past s.coming k.past k.coming;
      }

module _ ⦃T : RunTree⦄ where
  scan_insertions-Kept :
      (r : Replica T.Tree) (past coming : List (ℕ × List Insertion))
      → IsConsistent r
      → AllValues (Sorted insertion_key) past
      → AllValues (Sorted insertion_key) coming
      → Ensures LeavesInsertions (scan_insertions r past coming)
  unfolding scan_insertions
  scan_insertions-Kept r past [] c a b =
      Ensures-ok _ (record { replica = c; past = a; coming = tt })
  scan_insertions-Kept r past ((id, []) ∷ coming) c a (p, b) =
      scan_insertions-Kept r (past ++ (id, []) ∷ []) coming c
        (AllValues-append (Sorted insertion_key) past ((id, []) ∷ []) a (p, tt)) b
  scan_insertions-Kept r past ((id, first ∷ queue) ∷ coming) c a (p, b) =
      Ensures-if (can_merge_insertion r first) _ _
        (λ _. Ensures-bind (merge_unchecked_insertion r first) _ λ t e. Ensures-ok _ (record {
          replica = (merge_unchecked_insertion-IsConsistent r first c).at t e;
          past = a;
          coming = (p.1, b);
        }))
        λ _.
          scan_insertions-Kept r (past ++ (id, first ∷ queue) ∷ []) coming c
            (AllValues-append (Sorted insertion_key) past ((id, first ∷ queue) ∷ []) a (p, tt)) b

  pub next_insertion-Kept :
      (s : BackloggedInsertions T.Tree)
      → InsertionsKept s
      → Ensures LeavesInsertions (next_insertion s)
  unfolding next_insertion
  next_insertion-Kept s k = scan_insertions-Kept s.replica s.past s.coming k.replica k.past k.coming

  yield_ranges-Kept :
      (ranges : List Range) (go found : DeletionsResult)
      → Ensures LeavesDeletions go
      → Ensures LeavesDeletions found
      → Ensures LeavesDeletions (yield_ranges ranges go found)
  yield_ranges-Kept [] go found h k = h
  yield_ranges-Kept (x ∷ ranges) go found h k = k

  -- The queues to come after the current one are `coming`.
  scan_deletions-Kept :
      (r : Replica T.Tree) (past : List (ℕ × List Deletion)) (id : ℕ) (queue : List Deletion)
      (coming : List (ℕ × List Deletion))
      → IsConsistent r
      → AllValues (Sorted deletion_key) past
      → Sorted deletion_key queue
      → AllValues (Sorted deletion_key) coming
      → Ensures LeavesDeletions (scan_deletions r past id queue coming)
  unfolding scan_deletions
  scan_deletions-Kept r past id [] [] c a p b = Ensures-ok _ (record {
    replica = c;
    past = AllValues-append (Sorted deletion_key) past ((id, []) ∷ []) a (p, tt);
    coming = tt;
  })
  scan_deletions-Kept r past id [] ((id', queue') ∷ coming) c a p (q, b) =
      scan_deletions-Kept r (past ++ (id, []) ∷ []) id' queue' coming c
        (AllValues-append (Sorted deletion_key) past ((id, []) ∷ []) a (p, tt)) q b
  scan_deletions-Kept r past id (first ∷ queue) [] c a p b =
      Ensures-if (can_merge_deletion r first) _ _
        (λ _. Ensures-bind (merge_unchecked_deletion r first) _ λ t e.
          let c' = (merge_unchecked_deletion-IsConsistent r first c).at t e in
          yield_ranges-Kept t.0 _ _ (scan_deletions-Kept t.1 past id queue [] c' a p.1 tt)
            (Ensures-ok _ (record { replica = c'; past = a; coming = (p.1, tt) })))
        λ _. Ensures-ok _ (record {
          replica = c;
          past = AllValues-append (Sorted deletion_key) past ((id, first ∷ queue) ∷ []) a (p, tt);
          coming = tt;
        })
  scan_deletions-Kept r past id (first ∷ queue) ((id', queue') ∷ coming) c a p (q, b) =
      Ensures-if (can_merge_deletion r first) _ _
        (λ _. Ensures-bind (merge_unchecked_deletion r first) _ λ t e.
          let c' = (merge_unchecked_deletion-IsConsistent r first c).at t e in
          yield_ranges-Kept t.0 _ _
            (scan_deletions-Kept t.1 past id queue ((id', queue') ∷ coming) c' a p.1 (q, b))
            (Ensures-ok _ (record { replica = c'; past = a; coming = (p.1, (q, b)) })))
        λ _.
          scan_deletions-Kept r (past ++ (id, first ∷ queue) ∷ []) id' queue' coming c
            (AllValues-append (Sorted deletion_key) past ((id, first ∷ queue) ∷ []) a (p, tt)) q b

  next_deletion_in-Kept :
      (r : Replica T.Tree) (past coming : List (ℕ × List Deletion))
      → IsConsistent r
      → AllValues (Sorted deletion_key) past
      → AllValues (Sorted deletion_key) coming
      → Ensures LeavesDeletions (next_deletion_in r past coming)
  next_deletion_in-Kept r past [] c a b =
      Ensures-ok _ (record { replica = c; past = a; coming = tt })
  next_deletion_in-Kept r past ((id, queue) ∷ coming) c a (p, b) =
      scan_deletions-Kept r past id queue coming c a p b

  pub next_deletion-Kept :
      (s : BackloggedDeletions T.Tree) → DeletionsKept s → Ensures LeavesDeletions (next_deletion s)
  unfolding next_deletion
  next_deletion-Kept s k = next_deletion_in-Kept s.replica s.past s.coming k.replica k.past k.coming
