-- ===== src/Backlog/Kept.antt =====
-- Queueing an edit in the backlog keeps its queues sorted.
use cola.Prelude.{◌≡◌, refl, [], Ensures, Ensures-ok, Ensures-bind}
use cola.ReplicaIdMap
use cola.ReplicaIdMap.{AllValues, AllValues-insert, AllValues-get_or_default}
use cola.Insertion
use cola.Insertion.{Insertion}
use cola.Deletion
use cola.Deletion.{Deletion}
use cola.Backlog
use cola.Backlog.{Backlog, insertion_key, deletion_key}
use cola.Backlog.Queues.{Sorted, insert_by-keeps_Sorted}

-- Queueing an edit keeps the queues of its kind sorted and does not touch the others.
abbrev pub SortedInsertions : Backlog → Backlog → Type 0
SortedInsertions b b' =
    AllValues (Sorted insertion_key) b'.insertions × (b'.deletions ≡ b.deletions)

abbrev pub SortedDeletions : Backlog → Backlog → Type 0
SortedDeletions b b' = AllValues (Sorted deletion_key) b'.deletions × (b'.insertions ≡ b.insertions)

pub insert_insertion-Sorted :
    (b : Backlog) (i : Insertion)
    → AllValues (Sorted insertion_key) b.insertions
    → Ensures (SortedInsertions b) (Backlog.insert_insertion b i)
unfolding Backlog.insert_insertion
insert_insertion-Sorted b i a =
    let id = Insertion.inserted_by i in
    let old = ReplicaIdMap.get_or_default [] id b.insertions in
    Ensures-bind (Backlog.insert_by insertion_key i old) _ λ queue e. Ensures-ok _ (
      AllValues-insert _ id queue b.insertions
          (insert_by-keeps_Sorted insertion_key i old queue
            (AllValues-get_or_default (Sorted insertion_key) [] id b.insertions tt a) e)
          a,
      refl,
    )

pub insert_deletion-Sorted :
    (b : Backlog) (d : Deletion)
    → AllValues (Sorted deletion_key) b.deletions
    → Ensures (SortedDeletions b) (Backlog.insert_deletion b d)
unfolding Backlog.insert_deletion
insert_deletion-Sorted b d a =
    let id = Deletion.deleted_by d in
    let old = ReplicaIdMap.get_or_default [] id b.deletions in
    Ensures-bind (Backlog.insert_by deletion_key d old) _ λ queue e. Ensures-ok _ (
      AllValues-insert _ id queue b.deletions
          (insert_by-keeps_Sorted deletion_key d old queue
            (AllValues-get_or_default (Sorted deletion_key) [] id b.deletions tt a) e)
          a,
      refl,
    )
