-- ===== src/Examples/Queues.antt =====
-- The backlog's queues and iterators on the counting tree.
use mathlib.Core.List.{Perm}
use cola.Prelude.{ℕ, ◌≡◌, refl, true, false, some, none, List, [], ◌∷◌, ok, err, arith}
use cola.ReplicaIdMap
use cola.VersionMap
use cola.LamportClock
use cola.Insertion.{Insertion}
use cola.Backlog.{insert_by, insertion_key}
use cola.Backlog.Queues.{Sorted, Missing, insert_by-Sorted, insert_by_present}
use cola.Panics.{already_backlogged}
use cola.Replica.{can_merge_insertion, merge_unchecked_insertion}
use cola.Replica.Backlogged.{BackloggedInsertions, next_insertion}
use cola.Replica.Backlogged.Drain.{next_insertion-none, next_insertion-some, unblocked_late}
use cola.Examples.Counter.{counter, first_replica, having, by_second}

two : List Insertion
two = by_second 5 7 ∷ by_second 9 12 ∷ []

two-Sorted : Sorted insertion_key two
unfolding two
two-Sorted = ((omega arith, tt), (tt, tt))

seven-Missing : Missing insertion_key 7 two
unfolding two
seven-Missing = (omega arith, (omega arith, tt))

insert_by-Sorted_example :
    (ys : List Insertion) × (insert_by insertion_key (by_second 7 9) two ≡ ok ys)
    × Sorted insertion_key ys
    × Perm ys (by_second 7 9 ∷ two)
insert_by-Sorted_example =
    insert_by-Sorted insertion_key (by_second 7 9) two two-Sorted seven-Missing

insert_by_present_example :
    insert_by insertion_key (by_second 9 12) (by_second 5 7 ∷ by_second 9 12 ∷ [])
    ≡ err already_backlogged
insert_by_present_example =
    insert_by_present insertion_key (by_second 9 12) (by_second 9 12) (by_second 5 7 ∷ []) []
      ((omega arith, tt), (tt, tt)) refl

-- An insertion of replica 3 at the end of what replica 2 has inserted next.
by_third : Insertion
by_third = record {
  anchor = record { replica_id = 2; contained_in = 0; offset = 5 };
  text = record { inserted_by = 3; range = record { start = 0; end = 1 } };
  run_ts = 0;
  lamport_ts = 4;
}

is_blocked : can_merge_insertion first_replica by_third ≡ false
unfolding can_merge_insertion by_third VersionMap.get ReplicaIdMap.get_or_default
    ReplicaIdMap.lookup
is_blocked = refl

is_ready : can_merge_insertion first_replica (by_second 3 5) ≡ true
unfolding can_merge_insertion VersionMap.get ReplicaIdMap.get_or_default ReplicaIdMap.lookup
is_ready = refl

merges :
    merge_unchecked_insertion ⦃T = counter⦄ first_replica (by_second 3 5) ≡ ok (2, having 5 10 5)
unfolding merge_unchecked_insertion VersionMap.update ReplicaIdMap.insert
    ReplicaIdMap.get_or_default ReplicaIdMap.lookup LamportClock.merge
merges = refl

next_insertion-none_example :
    next_insertion ⦃T = counter⦄
      (record { replica = first_replica; past = []; coming = (3, by_third ∷ []) ∷ [] })
    ≡ ok (none, record { replica = first_replica; past = (3, by_third ∷ []) ∷ []; coming = [] })
next_insertion-none_example =
    next_insertion-none ⦃T = counter⦄
      (record { replica = first_replica; past = []; coming = (3, by_third ∷ []) ∷ [] })
      (is_blocked, tt)

next_insertion-some_example :
    next_insertion ⦃T = counter⦄ (record {
      replica = first_replica;
      past = [];
      coming = (3, by_third ∷ []) ∷ (2, by_second 3 5 ∷ by_second 5 7 ∷ []) ∷ [];
    })
    ≡ ok (
      some ((by_second 3 5).text, 2),
      record {
        replica = having 5 10 5;
        past = (3, by_third ∷ []) ∷ [];
        coming = (2, by_second 5 7 ∷ []) ∷ [];
      },
    )
next_insertion-some_example =
    next_insertion-some ⦃T = counter⦄ first_replica [] ((3, by_third ∷ []) ∷ []) [] 2
      (by_second 3 5) (by_second 5 7 ∷ []) (is_blocked, tt) is_ready merges

unblocked_late_example :
    (s s' : BackloggedInsertions ℕ) × (next_insertion ⦃T = counter⦄ (record {
      replica = first_replica;
      past = [];
      coming = (3, by_third ∷ []) ∷ (2, by_second 3 5 ∷ []) ∷ [];
    })
      ≡ ok (some ((by_second 3 5).text, 2), s))
    × (next_insertion ⦃T = counter⦄ s ≡ ok (none, s'))
    × (s'.replica ≡ having 5 10 5)
    × (s'.past ≡ (3, by_third ∷ []) ∷ (2, []) ∷ [])
unblocked_late_example =
    unblocked_late ⦃T = counter⦄ first_replica 3 2 by_third (by_second 3 5) [] is_blocked is_ready
      merges
