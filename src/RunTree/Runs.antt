-- ===== src/RunTree/Runs.antt =====
-- `RunTree` of src/run_tree.rs over the tree of runs and the indices of their fragments: creating it,
-- local insertions, and adding a run next to another one.
use cola.Prelude.{
  ℕ, Bool, Option, none, some, Result, ok, err, map_ok, length, ◌==◌, ◌&&◌, if◌then◌else◌, add,
}
use cola.Text
use cola.Text.{Text}
use cola.Panics.{Panic}
use cola.Slices.{Cmd, pure, read, write, ◌>>=◌, ◌>>◌}
use cola.Anchor.{InnerAnchor, zero_anchor}
use cola.LamportClock
use cola.LamportClock.{LamportClock}
use cola.RunClock
use cola.RunClock.{RunClock}
use cola.EditRun
use cola.EditRun.{EditRun}
use cola.Gtree.{Leaves, Gtree, leaf}
use cola.Gtree.Edit.{from_first_leaf, prepend, append_leaf_to_another, insert_leaf_after_another}
use cola.Gtree.Insert
use cola.Gtree.Insert.{Edited}
use cola.RunIndices
use cola.RunIndices.{RunIndices, ReplicaIndices, idx_at_anchor}

-- `Gtree<RUN_TREE_ARITY, EditRun>`: a deleted run has no length in the tree.
abbrev pub leaf_runs : Leaves EditRun
leaf_runs = record {
  arity = 32;
  leaf_len = EditRun.visible_len;
  append = EditRun.append;
  prepend = EditRun.prepend;
}

pub record Runs : Type 0 where
  pub gtree : Gtree EditRun
  pub run_indices : RunIndices

abbrev pub on_gtree : {A : Type 0} → Cmd (Gtree EditRun) A → Cmd Runs A
on_gtree m t = map_ok (λ p. (p.0, record t { gtree = p.1 })) (m t.gtree)

abbrev pub see : {A : Type 0} → (Gtree EditRun → Result Panic A) → Cmd Runs A
see f = read (λ t. f t.gtree)

-- A call on `run_indices.get_mut(id)`.
abbrev pub on_indices : ℕ → (ReplicaIndices → Result Panic ReplicaIndices) → Cmd Runs (Unit {0})
on_indices id f =
    write (λ t. map_ok (λ i. record t { run_indices = i }) (RunIndices.update t.run_indices id f))

unfoldable pub new_tree : EditRun → Result Panic Runs
unfolding from_first_leaf RunIndices.update RunIndices.append
new_tree first_run = elim (from_first_leaf ⦃P = leaf_runs⦄ first_run) [
  | err p ↦ err p
  | ok (idx, gtree) ↦
      map_ok (λ i. record { gtree = gtree; run_indices = i })
        (RunIndices.update RunIndices.new (EditRun.replica_id first_run)
          (λ r. RunIndices.append r (EditRun.len first_run) idx))
]

-- The variables that the closure of an insertion assigns to. The anchor has the author, the run and
-- the offset of the split.
pub record Captured : Type 0 where
  pub anchor : InnerAnchor
  pub run_clock : RunClock
  pub lamport_clock : LamportClock

abbrev pub anchor_in : EditRun → ℕ → InnerAnchor
anchor_in run offset = record {
  replica_id = EditRun.replica_id run;
  contained_in = run.run_ts;
  offset = add (EditRun.start run) offset;
}

-- The text continues the run, which is the last one that was inserted.
abbrev continues : Text → LamportClock → EditRun → ℕ → Bool
continues text lamport_clock run offset =
    EditRun.len run == offset
    && (EditRun.end run == text.range.start
        && (EditRun.replica_id run == text.inserted_by
            && run.lamport_ts == LamportClock.highest lamport_clock))

unfoldable pub insert_with : Text → RunClock → LamportClock → EditRun → ℕ → Edited Captured EditRun
unfolding LamportClock.highest EditRun.extend EditRun.split RunClock.next LamportClock.next
insert_with text run_clock lamport_clock run offset =
    let (value, split) = EditRun.split run offset in
    let (run_ts, run_clock') = RunClock.next run_clock in
    let (lamport_ts, lamport_clock') = LamportClock.next lamport_clock in
    if continues text lamport_clock run offset
    then record {
      captured = record {
        anchor = anchor_in run offset;
        run_clock = run_clock;
        lamport_clock = lamport_clock;
      };
      value = EditRun.extend run (Text.len text);
      first = none;
      second = none;
    }
    else record {
      captured = record {
        anchor = anchor_in run offset;
        run_clock = run_clock';
        lamport_clock = lamport_clock';
      };
      value = value;
      first = some (EditRun.new_visible text run_ts lamport_ts);
      second = split;
    }

-- The indices after an insertion: of the new run and of the split off one.
abbrev index_inserted : Text → InnerAnchor → Option ℕ → Option ℕ → Cmd Runs (Unit {0})
index_inserted text anchor none split_idx =
    on_indices text.inserted_by (λ r. RunIndices.extend_last r (Text.len text))
index_inserted text anchor (some inserted_idx) none =
    on_indices text.inserted_by (λ r. RunIndices.append r (Text.len text) inserted_idx)
index_inserted text anchor (some inserted_idx) (some split_idx) =
    on_indices text.inserted_by (λ r. RunIndices.append r (Text.len text) inserted_idx)
    >> on_indices anchor.replica_id
        (λ r. RunIndices.split r anchor.contained_in anchor.offset split_idx)

unfoldable pub insert : ℕ → Text → RunClock → LamportClock → Cmd Runs Captured
unfolding RunClock.next LamportClock.next prepend Insert.insert insert_with RunIndices.update
    RunIndices.append RunIndices.split RunIndices.extend_last
insert offset text run_clock lamport_clock =
    let (run_ts, run_clock') = RunClock.next run_clock in
    let (lamport_ts, lamport_clock') = LamportClock.next lamport_clock in
    let at_start : Cmd Runs Captured = (do
      idx ← on_gtree (prepend ⦃P = leaf_runs⦄ (EditRun.new_visible text run_ts lamport_ts))
      on_indices text.inserted_by (λ r. RunIndices.append r (Text.len text) idx)
      pure (record {
        anchor = zero_anchor;
        run_clock = run_clock';
        lamport_clock = lamport_clock';
      })) in
    let inside : Cmd Runs Captured = (do
      (captured, inserted_idx, split_idx) ← on_gtree (
          Insert.insert ⦃P = leaf_runs⦄ offset
            (λ run at. ok (insert_with text run_clock lamport_clock run at)))
      index_inserted text captured.anchor inserted_idx split_idx
      pure captured) in
    if offset == 0 then at_start else inside

unfoldable pub append_run_to_another : EditRun → ℕ → Cmd Runs ℕ
unfolding leaf append_leaf_to_another RunIndices.update RunIndices.extend_last
append_run_to_another run append_to = do
  appending_to ← see (leaf append_to)
  offset ← on_gtree (append_leaf_to_another ⦃P = leaf_runs⦄ append_to run)
  on_indices (EditRun.replica_id appending_to) (λ r. RunIndices.extend_last r (EditRun.len run))
  pure (add offset (EditRun.len appending_to))

-- The run is a new one of its replica, or a later part of the last one.
abbrev append_or_extend : EditRun → ℕ → ReplicaIndices → Result Panic ReplicaIndices
append_or_extend run idx r =
    if add run.run_ts 1 == length r.vec
    then RunIndices.append_to_last r (EditRun.len run) idx
    else RunIndices.append r (EditRun.len run) idx

unfoldable pub insert_run_after_another : EditRun → ℕ → Cmd Runs ℕ
unfolding insert_leaf_after_another RunIndices.update RunIndices.append RunIndices.append_to_last
insert_run_after_another run insert_after = do
  (offset, idx) ← on_gtree (insert_leaf_after_another ⦃P = leaf_runs⦄ run insert_after)
  on_indices (EditRun.replica_id run) (append_or_extend run idx)
  pure offset
