-- ===== src/Examples/Edits.antt =====
-- Edits on the counting tree.
use cola.Prelude.{
  ℕ, ◌+◌, ◌≤◌, ◌≡◌, refl, true, some, none, [], ◌∷◌, ok, add, arith, ◌==◌, ◌-◌, if◌then◌else◌,
}
use cola.Text
use cola.ReplicaIdMap
use cola.VersionMap
use cola.LamportClock
use cola.LamportClock.{LamportClock}
use cola.Insertion
use cola.Insertion.{Insertion}
use cola.Deletion.{Deletion}
use cola.RunClock
use cola.Replica.Steps.{Step, Reachable, Reachable-IsConsistent}
use cola.Replica.{
  Replica, seen, seen_deletions, integrate_insertion, integrate_deletion, inserted, new, fork,
  can_merge_insertion,
}
use cola.Replica.Insertions.{
  integrate_insertion_outcomes, integrate_insertion_twice, seen-integrate_insertion, Integrated,
}
use cola.Replica.Deletions.{integrate_deletion_in_order}
use cola.Replica.Consistent.{IsConsistent}
use cola.Replica.Edits.{
  inserted_consecutive, integrate_insertion-inserted, can_merge_insertion-fork,
}
use cola.Examples.Counter.{counter, first_replica, having, by_second, second_deletion}

merged :
    integrate_insertion ⦃T = counter⦄ first_replica (by_second 3 5) ≡ ok (some 2, having 5 10 5)
unfolding integrate_insertion VersionMap.get VersionMap.update ReplicaIdMap.lookup
    ReplicaIdMap.insert ReplicaIdMap.get_or_default LamportClock.merge
merged = refl

by_second-IsValid : Text.IsValid (Insertion.text (by_second 3 5))
by_second-IsValid = record { id_fits = omega arith; ordered = omega arith; end_fits = omega arith }

integrate_insertion_outcomes_example :
    Integrated first_replica (by_second 3 5) (some 2, having 5 10 5)
integrate_insertion_outcomes_example =
    integrate_insertion_outcomes ⦃T = counter⦄ first_replica (by_second 3 5) (some 2, having 5 10 5)
      merged

integrate_insertion_twice_example :
    integrate_insertion ⦃T = counter⦄ (having 5 10 5) (by_second 3 5) ≡ ok (none, having 5 10 5)
integrate_insertion_twice_example =
    integrate_insertion_twice ⦃T = counter⦄ first_replica (by_second 3 5) by_second-IsValid merged

seen-integrate_insertion_example : seen first_replica 2 ≤ seen (having 5 10 5) 2
seen-integrate_insertion_example =
    seen-integrate_insertion ⦃T = counter⦄ first_replica (by_second 3 5) (some 2, having 5 10 5)
      by_second-IsValid merged 2

-- A deletion that follows the first one of replica 2.
after_deletion : Replica ℕ
after_deletion = record first_replica {
  run_tree = 7;
  deletion_map = record { this_id = 1; this_value = 0; rest = (2, 2) ∷ [] };
}

deletion_merged :
    integrate_deletion ⦃T = counter⦄ first_replica second_deletion
    ≡ ok (record { start = 0; end = 1 } ∷ [], after_deletion)
unfolding integrate_deletion VersionMap.get VersionMap.update ReplicaIdMap.lookup
    ReplicaIdMap.insert ReplicaIdMap.get_or_default VersionMap.ge after_deletion
deletion_merged = refl

two-IsValid : VersionMap.IsValid first_replica.version_map
two-IsValid = ((omega arith, tt), (tt, tt))

deletion-IsValid : VersionMap.IsValid (Deletion.version_map second_deletion)
deletion-IsValid = ((omega arith, tt), (tt, tt))

integrate_deletion_in_order_example :
    (add (seen_deletions first_replica 2) 1 ≡ 2)
    × ((id : ℕ) → VersionMap.get (Deletion.version_map second_deletion) id ≤ seen first_replica id)
    × ((id : ℕ)
        → seen_deletions after_deletion id
          ≡ (if 2 == id then 2 else seen_deletions first_replica id))
    × (integrate_deletion ⦃T = counter⦄ after_deletion second_deletion ≡ ok ([], after_deletion))
integrate_deletion_in_order_example =
    integrate_deletion_in_order ⦃T = counter⦄ first_replica second_deletion
      (record { start = 0; end = 1 }) two-IsValid deletion-IsValid deletion_merged

-- Consistency.
first_replica-IsConsistent : IsConsistent first_replica
first_replica-IsConsistent = record {
  version_id = refl;
  deletion_id = refl;
  versions = two-IsValid;
  deletions = ((omega arith, tt), (tt, tt));
  insertion_queues = tt;
  deletion_queues = tt;
}

-- A new replica of five characters, where replica 2 has inserted three, and its fork.
young : ℕ → ℕ → ℕ → Replica ℕ
young own second tree = record first_replica {
  run_tree = tree;
  lamport_clock = record { value = if second == 0 then 1 else 5 };
  version_map = record {
    this_id = 1;
    this_value = own;
    rest = if second == 0 then [] else (2, second) ∷ [];
  };
  deletion_map = record { this_id = 1; this_value = 0; rest = [] };
}

created : new ⦃T = counter⦄ 1 5 ≡ ok (young 5 0 5)
unfolding new young VersionMap.new RunClock.next LamportClock.next
created = refl

integrated :
    integrate_insertion ⦃T = counter⦄ (young 5 0 5) (by_second 0 3) ≡ ok (some 2, young 5 3 8)
unfolding integrate_insertion young VersionMap.get VersionMap.update ReplicaIdMap.lookup
    ReplicaIdMap.insert ReplicaIdMap.get_or_default LamportClock.merge
integrated = refl

Reachable-IsConsistent_example : IsConsistent (young 5 3 8)
Reachable-IsConsistent_example = Reachable-IsConsistent ⦃T = counter⦄ (
    Reachable.step (Reachable.create 1 5 created)
      (Step.integrate_remote_insertion (by_second 0 3) integrated))

-- Two local insertions, and a fork between them.
own : ℕ → ℕ → ℕ → Insertion
own start end run_ts = record {
  anchor = record { replica_id = 1; contained_in = 0; offset = 4 };
  text = record { inserted_by = 1; range = record { start = start; end = end } };
  run_ts = run_ts;
  lamport_ts = run_ts + 1;
}

grown : ℕ → ℕ → ℕ → Replica ℕ
grown own tree clock = record first_replica {
  run_tree = tree;
  lamport_clock = record { value = clock };
  run_clock = record { value = clock - 1 };
  version_map = record { this_id = 1; this_value = own; rest = (2, 3) ∷ [] };
}

first_insertion : inserted ⦃T = counter⦄ first_replica 4 2 ≡ ok (own 5 7 1, grown 7 10 3)
unfolding inserted own grown VersionMap.update_this LamportClock.highest RunClock.last
first_insertion = refl

second_insertion : inserted ⦃T = counter⦄ (grown 7 10 3) 4 1 ≡ ok (own 7 8 2, grown 8 11 4)
unfolding inserted own grown VersionMap.update_this LamportClock.highest RunClock.last
second_insertion = refl

inserted_consecutive_example :
    (Insertion.start (own 5 7 1) ≡ seen first_replica 1)
    × (Insertion.end (own 5 7 1) ≡ add (seen first_replica 1) 2)
    × (Insertion.start (own 7 8 2) ≡ Insertion.end (own 5 7 1))
    × (Insertion.inserted_by (own 7 8 2) ≡ Insertion.inserted_by (own 5 7 1))
inserted_consecutive_example =
    inserted_consecutive ⦃T = counter⦄ first_replica 4 2 4 1 first_replica-IsConsistent
      (omega arith) (omega arith) first_insertion second_insertion

seen_five : seen first_replica 1 ≡ 5
unfolding VersionMap.get
seen_five = refl

integrate_insertion-inserted_example :
    integrate_insertion ⦃T = counter⦄ (grown 7 10 3) (own 5 7 1) ≡ ok (none, grown 7 10 3)
integrate_insertion-inserted_example =
    integrate_insertion-inserted ⦃T = counter⦄ first_replica 4 2 first_replica-IsConsistent
      (omega arith) (omega (arith, seen_five)) first_insertion

third_replica : Replica ℕ
third_replica = record first_replica {
  id = 3;
  run_clock = RunClock.new;
  version_map = record { this_id = 3; this_value = 0; rest = (2, 3) ∷ (1, 5) ∷ [] };
  deletion_map = record { this_id = 3; this_value = 0; rest = (2, 1) ∷ (1, 0) ∷ [] };
}

forked : fork ⦃T = counter⦄ first_replica 3 ≡ ok third_replica
unfolding fork third_replica VersionMap.fork_in_place ReplicaIdMap.insert
forked = refl

own_anchor : (own 5 7 1).anchor ≡ record { replica_id = 1; contained_in = 0; offset = 4 }
unfolding own
own_anchor = refl

can_merge_insertion-fork_example : can_merge_insertion third_replica (own 5 7 1) ≡ true
can_merge_insertion-fork_example =
    can_merge_insertion-fork ⦃T = counter⦄ first_replica 3 4 2 first_replica-IsConsistent
      (omega arith) forked first_insertion (rw own_anchor (omega arith))
      (rw own_anchor (omega (arith, seen_five)))
