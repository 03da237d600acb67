-- ===== src/Replica/Steps.antt =====
-- The life of replicas as sequences of calls.
use cola.Prelude.{ℕ, ◌≡◌, List, Option, ok}
use cola.Text.{Text, Range}
use cola.Insertion.{Insertion}
use cola.Deletion.{Deletion}
use cola.ReplicaIdMap.{Absent}
use cola.Panics.{Bound}
use cola.RunTree.{RunTree}
use cola.Replica.{Replica, new, fork, inserted, deleted, integrate_insertion, integrate_deletion}
use cola.Replica.Backlogged.{
  BackloggedInsertions, BackloggedDeletions, backlogged_insertions, backlogged_deletions,
  close_insertions, close_deletions, next_insertion, next_deletion,
}
use cola.Replica.Consistent.{
  IsConsistent, new-IsConsistent, fork-IsConsistent, inserted-IsConsistent, deleted-IsConsistent,
  integrate_insertion-IsConsistent, integrate_deletion-IsConsistent,
}
use cola.Replica.Backlogged.Kept.{
  InsertionsKept, DeletionsKept, backlogged_insertions-Kept, backlogged_deletions-Kept,
  close_insertions-IsConsistent, close_deletions-IsConsistent, next_insertion-Kept,
  next_deletion-Kept,
}

module _ ⦃T : RunTree⦄ where
  -- Calls of `next` on an iterator, as many as its user makes.
  pub data Drained : BackloggedInsertions T.Tree → BackloggedInsertions T.Tree → Type 0 where
    stop : {s : BackloggedInsertions T.Tree} → Drained s s
    next :
        {s t u : BackloggedInsertions T.Tree} {item : Option (Text × ℕ)}
        → next_insertion s ≡ ok (item, t)
        → Drained t u
        → Drained s u

  pub data DrainedDeletions : BackloggedDeletions T.Tree → BackloggedDeletions T.Tree → Type 0 where
    stop : {s : BackloggedDeletions T.Tree} → DrainedDeletions s s
    next :
        {s t u : BackloggedDeletions T.Tree} {item : Option (List Range)}
        → next_deletion s ≡ ok (item, t)
        → DrainedDeletions t u
        → DrainedDeletions s u

  -- The calls that change a replica.
  pub data Step : Replica T.Tree → Replica T.Tree → Type 0 where
    insert :
        {r r' : Replica T.Tree} {i : Insertion} (at_offset len : ℕ)
        → inserted r at_offset len ≡ ok (i, r')
        → Step r r'
    delete :
        {r r' : Replica T.Tree} {d : Deletion} (range : Bound × Bound)
        → deleted r range ≡ ok (d, r')
        → Step r r'
    integrate_remote_insertion :
        {r r' : Replica T.Tree} {offset : Option ℕ} (i : Insertion)
        → integrate_insertion r i ≡ ok (offset, r')
        → Step r r'
    integrate_remote_deletion :
        {r r' : Replica T.Tree} {ranges : List Range} (d : Deletion)
        → integrate_deletion r d ≡ ok (ranges, r')
        → Step r r'
    drain_insertions :
        {r : Replica T.Tree} {s : BackloggedInsertions T.Tree}
        → Drained (backlogged_insertions r) s
        → Step r (close_insertions s)
    drain_deletions :
        {r : Replica T.Tree} {s : BackloggedDeletions T.Tree}
        → DrainedDeletions (backlogged_deletions r) s
        → Step r (close_deletions s)

  -- The replicas that come of `new` by these calls and by forks to ids that the forked replica has
  -- not heard of.
  pub data Reachable : Replica T.Tree → Type 0 where
    create : {r : Replica T.Tree} (id len : ℕ) → new id len ≡ ok r → Reachable r
    fork_off :
        {r r' : Replica T.Tree} (new_id : ℕ)
        → Reachable r
        → Absent new_id r.version_map.rest
        → Absent new_id r.deletion_map.rest
        → fork r new_id ≡ ok r'
        → Reachable r'
    step : {r r' : Replica T.Tree} → Reachable r → Step r r' → Reachable r'

  Drained-Kept :
      {s t : BackloggedInsertions T.Tree} → Drained s t → InsertionsKept s → InsertionsKept t
  Drained-Kept stop k = k
  Drained-Kept (next e d) k = Drained-Kept d ((next_insertion-Kept _ k).at _ e)

  DrainedDeletions-Kept :
      {s t : BackloggedDeletions T.Tree} → DrainedDeletions s t → DeletionsKept s → DeletionsKept t
  DrainedDeletions-Kept stop k = k
  DrainedDeletions-Kept (next e d) k = DrainedDeletions-Kept d ((next_deletion-Kept _ k).at _ e)

  Step-IsConsistent : {r r' : Replica T.Tree} → Step r r' → IsConsistent r → IsConsistent r'
  Step-IsConsistent (insert at_offset len e) c = (inserted-IsConsistent _ at_offset len c).at _ e
  Step-IsConsistent (delete range e) c = (deleted-IsConsistent _ range c).at _ e
  Step-IsConsistent (integrate_remote_insertion i e) c =
      (integrate_insertion-IsConsistent _ i c).at _ e
  Step-IsConsistent (integrate_remote_deletion d e) c =
      (integrate_deletion-IsConsistent _ d c).at _ e
  Step-IsConsistent (drain_insertions d) c =
      close_insertions-IsConsistent _ (Drained-Kept d (backlogged_insertions-Kept _ c))
  Step-IsConsistent (drain_deletions d) c =
      close_deletions-IsConsistent _ (DrainedDeletions-Kept d (backlogged_deletions-Kept _ c))

  -- Every replica that comes of `new` by local edits, integrated remote edits, iterations over the
  -- backlog (complete or not) and forks to ids that are new to the forked replica is consistent: its
  -- maps are its own and name no id twice, and the queues of its backlog are sorted.
  pub Reachable-IsConsistent : {r : Replica T.Tree} → Reachable r → IsConsistent r
  Reachable-IsConsistent (create id len e) = (new-IsConsistent id len).at _ e
  Reachable-IsConsistent (fork_off new_id h a b e) =
      (fork-IsConsistent _ new_id a b (Reachable-IsConsistent h)).at _ e
  Reachable-IsConsistent (step h s) = Step-IsConsistent s (Reachable-IsConsistent h)
