-- ===== src/Replica/Backlogged.antt =====
-- The iterators over the backlogged edits (`BackloggedInsertions` and `BackloggedDeletions` of
-- src/backlog.rs). While an iterator lives it holds the queues: those that it has gone past, the
-- current one and those to come; `close_insertions` and `close_deletions` put them back.

pub mod Drain
pub mod Kept
use cola.Prelude.{
  ℕ, Bool, true, false, Option, none, some, List, [], ◌∷◌, ◌++◌, Result, ok, err, ◌>>=◌,
  if◌then◌else◌,
}
use cola.Text.{Text, Range}
use cola.Insertion.{Insertion}
use cola.Deletion.{Deletion}
use cola.Backlog.{Backlog}
use cola.Panics.{Panic}
use cola.RunTree.{RunTree}
use cola.Replica.{
  Replica, can_merge_insertion, can_merge_deletion, merge_unchecked_insertion,
  merge_unchecked_deletion,
}

-- `current` is the head of `coming`; there is none when `coming` is empty.
pub record BackloggedInsertions (Tree : Type 0) : Type 0 where
  pub replica : Replica Tree
  pub past : List (ℕ × List Insertion)
  pub coming : List (ℕ × List Insertion)

pub record BackloggedDeletions (Tree : Type 0) : Type 0 where
  pub replica : Replica Tree
  pub past : List (ℕ × List Deletion)
  pub coming : List (ℕ × List Deletion)

module _ {Tree : Type 0} where
  -- `from_replica`
  unfoldable pub backlogged_insertions : Replica Tree → BackloggedInsertions Tree
  backlogged_insertions r = record { replica = r; past = []; coming = r.backlog.insertions }

  unfoldable pub backlogged_deletions : Replica Tree → BackloggedDeletions Tree
  backlogged_deletions r = record { replica = r; past = []; coming = r.backlog.deletions }

  unfoldable pub close_insertions : BackloggedInsertions Tree → Replica Tree
  close_insertions s =
      let r = s.replica in
      let b = r.backlog in record r { backlog = record b { insertions = s.past ++ s.coming } }

  unfoldable pub close_deletions : BackloggedDeletions Tree → Replica Tree
  close_deletions s =
      let r = s.replica in
      let b = r.backlog in record r { backlog = record b { deletions = s.past ++ s.coming } }

module _ ⦃T : RunTree⦄ where
  unfoldable pub scan_insertions :
      Replica T.Tree
      → List (ℕ × List Insertion)
      → List (ℕ × List Insertion)
      → Result Panic (Option (Text × ℕ) × BackloggedInsertions T.Tree)
  scan_insertions r past [] = ok (none, record { replica = r; past = past; coming = [] })
  scan_insertions r past ((id, []) ∷ coming) = scan_insertions r (past ++ (id, []) ∷ []) coming
  scan_insertions r past ((id, first ∷ queue) ∷ coming) =
      let skip = scan_insertions r (past ++ (id, first ∷ queue) ∷ []) coming in
      let yield : Result Panic (Option (Text × ℕ) × BackloggedInsertions T.Tree) = (do
        (edit, r') ← merge_unchecked_insertion r first
        ok (
          some (first.text, edit),
          record { replica = r'; past = past; coming = (id, queue) ∷ coming },
        )) in
      if can_merge_insertion r first then yield else skip

  -- `BackloggedInsertions::next`
  unfoldable pub next_insertion :
      BackloggedInsertions T.Tree → Result Panic (Option (Text × ℕ) × BackloggedInsertions T.Tree)
  unfolding scan_insertions
  next_insertion s = scan_insertions s.replica s.past s.coming

  -- `ranges.is_empty()`
  abbrev pub is_empty : List Range → Bool
  is_empty [] = true
  is_empty (x ∷ l) = false

  abbrev pub DeletionsResult : Type 0
  DeletionsResult = Result Panic (Option (List Range) × BackloggedDeletions T.Tree)

  -- Empty ranges are not yielded: the search goes on.
  abbrev pub yield_ranges : List Range → DeletionsResult → DeletionsResult → DeletionsResult
  yield_ranges ranges go found = elim (is_empty ranges) [ true ↦ go | false ↦ found ]

  unfoldable pub scan_deletions :
      Replica T.Tree
      → List (ℕ × List Deletion)
      → ℕ
      → List Deletion
      → List (ℕ × List Deletion)
      → DeletionsResult
  scan_deletions r past id [] [] =
      ok (none, record { replica = r; past = past ++ (id, []) ∷ []; coming = [] })
  scan_deletions r past id [] ((id', queue') ∷ coming) =
      scan_deletions r (past ++ (id, []) ∷ []) id' queue' coming
  scan_deletions r past id (first ∷ queue) [] =
      let merge : DeletionsResult = (do
        (ranges, r') ← merge_unchecked_deletion r first
        let found =
            ok (some ranges, record { replica = r'; past = past; coming = (id, queue) ∷ [] })
        yield_ranges ranges (scan_deletions r' past id queue []) found) in
      if can_merge_deletion r first
      then merge
      else ok (none, record { replica = r; past = past ++ (id, first ∷ queue) ∷ []; coming = [] })
  scan_deletions r past id (first ∷ queue) ((id', queue') ∷ coming) =
      let merge : DeletionsResult = (do
        (ranges, r') ← merge_unchecked_deletion r first
        let found = ok (
          some ranges,
          record { replica = r'; past = past; coming = (id, queue) ∷ (id', queue') ∷ coming },
        )
        yield_ranges ranges (scan_deletions r' past id queue ((id', queue') ∷ coming)) found) in
      let skip = scan_deletions r (past ++ (id, first ∷ queue) ∷ []) id' queue' coming in
      if can_merge_deletion r first then merge else skip

  abbrev pub next_deletion_in :
      Replica T.Tree → List (ℕ × List Deletion) → List (ℕ × List Deletion) → DeletionsResult
  next_deletion_in r past [] = ok (none, record { replica = r; past = past; coming = [] })
  next_deletion_in r past ((id, queue) ∷ coming) = scan_deletions r past id queue coming

  -- `BackloggedDeletions::next`
  unfoldable pub next_deletion : BackloggedDeletions T.Tree → DeletionsResult
  unfolding scan_deletions
  next_deletion s = next_deletion_in s.replica s.past s.coming
