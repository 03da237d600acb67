-- ===== src/Examples/Counter.antt =====
-- A run tree that only counts characters, and replicas over it.
use cola.Prelude.{ℕ, ◌+◌, ◌-◌, [], ◌∷◌, ok}
use cola.Text
use cola.Text.{Text, Range}
use cola.Anchor
use cola.Anchor.{Anchor, InnerAnchor, AnchorBias, right}
use cola.EditRun
use cola.EditRun.{EditRun}
use cola.Insertion
use cola.Insertion.{Insertion}
use cola.Deletion.{Deletion}
use cola.Backlog
use cola.RunTree.{RunTree}
use cola.Replica.{Replica}

abbrev pub counter : RunTree
counter = record {
  Tree = ℕ;
  new = EditRun.len;
  len = λ t. t;
  insert = λ t offset text run_clock lamport_clock. ok (record {
    anchor = record { replica_id = 1; contained_in = 0; offset = offset };
    tree = t + Text.len text;
    run_clock = record { value = run_clock.value + 1 };
    lamport_clock = record { value = lamport_clock.value + 1 };
  });
  delete = λ t range map. ok (record {
    start = record { replica_id = 1; contained_in = 0; offset = range.start };
    end = record { replica_id = 1; contained_in = 0; offset = range.end };
    tree = t - Text.range_len range;
    version_map = map;
  });
  merge_insertion = λ t i. ok (i.anchor.offset, t + Insertion.len i);
  merge_deletion = λ t d. ok (record { start = 0; end = 1 } ∷ [], t - 1);
  create_anchor = λ t offset bias. ok Anchor.start_of_document;
  resolve_anchor = λ t anchor. ok 0;
}

-- A replica that has seen five characters of replica 1 and three of replica 2.
abbrev pub first_replica : Replica ℕ
first_replica = record {
  id = 1;
  run_tree = 8;
  lamport_clock = record { value = 2 };
  run_clock = record { value = 1 };
  version_map = record { this_id = 1; this_value = 5; rest = (2, 3) ∷ [] };
  deletion_map = record { this_id = 1; this_value = 0; rest = (2, 1) ∷ [] };
  backlog = Backlog.new;
}

-- The replica with another value for replica 2, tree and clock.
abbrev pub having : ℕ → ℕ → ℕ → Replica ℕ
having seen tree clock = record first_replica {
  version_map = record { this_id = 1; this_value = 5; rest = (2, seen) ∷ [] };
  run_tree = tree;
  lamport_clock = record { value = clock };
}

-- Insertions by replica 2 of the characters from `start` up to `end`.
abbrev pub by_second : ℕ → ℕ → Insertion
by_second start end = record {
  anchor = record { replica_id = 1; contained_in = 0; offset = 2 };
  text = record { inserted_by = 2; range = record { start = start; end = end } };
  run_ts = 0;
  lamport_ts = 4;
}

-- A deletion by replica 2 that has seen two characters of replica 1.
abbrev pub second_deletion : Deletion
second_deletion = record {
  start = record { replica_id = 1; contained_in = 0; offset = 0 };
  end = record { replica_id = 1; contained_in = 0; offset = 1 };
  version_map = record { this_id = 2; this_value = 3; rest = (1, 2) ∷ [] };
  deletion_ts = 2;
}
