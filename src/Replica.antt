-- ===== src/Replica.antt =====
-- `Replica` of src/replica.rs over the operations of a run tree. A method on `&mut self` returns its
-- result and the changed replica, or the panic that it ends in.
pub mod Consistent
pub mod Backlogged
pub mod Insertions
pub mod Deletions
pub mod Edits
pub mod Codec
pub mod Steps
use cola.Prelude.{
  ℕ, Bool, true, false, Option, none, some, List, [], Result, ok, err, ◌>>=◌, ltb, leb, ◌==◌, ◌&&◌,
  ◌||◌, if◌then◌else◌, add,
}
use cola.Text.{Text, Range}
use cola.Anchor.{InnerAnchor, Anchor, AnchorBias}
use cola.EditRun
use cola.LamportClock
use cola.LamportClock.{LamportClock}
use cola.RunClock
use cola.RunClock.{RunClock}
use cola.VersionMap
use cola.VersionMap.{BaseMap}
use cola.Insertion
use cola.Insertion.{Insertion}
use cola.Deletion
use cola.Deletion.{Deletion}
use cola.Backlog
use cola.Backlog.{Backlog}
use cola.Panics.{
  Panic, Bound, offset_out_of_bounds, replica_id_is_zero, replica_id_equal_to_forked,
  start_greater_than_end, range_bounds_to_start_end,
}
use cola.RunTree.{RunTree}

pub record Replica (Tree : Type 0) : Type 0 where
  pub id : ℕ
  pub run_tree : Tree
  pub lamport_clock : LamportClock
  pub run_clock : RunClock
  pub version_map : BaseMap
  pub deletion_map : BaseMap
  pub backlog : Backlog

module _ {Tree : Type 0} where
  -- The value that a replica has seen of a replica's clock, and of its deletions.
  abbrev pub seen : Replica Tree → ℕ → ℕ
  seen r id = VersionMap.get r.version_map id

  abbrev pub seen_deletions : Replica Tree → ℕ → ℕ
  seen_deletions r id = VersionMap.get r.deletion_map id

  unfoldable pub has_anchor : Replica Tree → InnerAnchor → Bool
  has_anchor r anchor = leb anchor.offset (VersionMap.get r.version_map anchor.replica_id)

  unfoldable pub has_merged_deletion : Replica Tree → Deletion → Bool
  has_merged_deletion r d =
      leb d.deletion_ts (VersionMap.get r.deletion_map (Deletion.deleted_by d))

  unfoldable pub has_merged_insertion : Replica Tree → Insertion → Bool
  has_merged_insertion r i =
      ltb (Insertion.start i) (VersionMap.get r.version_map (Insertion.inserted_by i))

  unfoldable pub can_merge_deletion : Replica Tree → Deletion → Bool
  can_merge_deletion r d =
      add (VersionMap.get r.deletion_map (Deletion.deleted_by d)) 1 == d.deletion_ts
      && VersionMap.ge r.version_map d.version_map

  unfoldable pub can_merge_insertion : Replica Tree → Insertion → Bool
  unfolding has_anchor
  can_merge_insertion r i =
      VersionMap.get r.version_map (Insertion.inserted_by i) == Insertion.start i
      && has_anchor r i.anchor

module _ ⦃T : RunTree⦄ where
  unfoldable pub new : ℕ → ℕ → Result Panic (Replica T.Tree)
  new id len =
      let (run_ts, run_clock) = RunClock.next RunClock.new in
      let (lamport_ts, lamport_clock) = LamportClock.next LamportClock.new in
      let initial_text : Text = record {
        inserted_by = id;
        range = record { start = 0; end = len };
      } in
      if id == 0
      then err replica_id_is_zero
      else ok (record {
        id = id;
        run_tree = T.new (EditRun.new_visible initial_text run_ts lamport_ts);
        lamport_clock = lamport_clock;
        run_clock = run_clock;
        version_map = VersionMap.new id len;
        deletion_map = VersionMap.new id 0;
        backlog = Backlog.new;
      })

  unfoldable pub fork : Replica T.Tree → ℕ → Result Panic (Replica T.Tree)
  fork r new_id =
      if new_id == 0
      then err replica_id_is_zero
      else if new_id == r.id
      then err replica_id_equal_to_forked
      else ok (record {
        id = new_id;
        run_tree = r.run_tree;
        run_clock = RunClock.new;
        lamport_clock = r.lamport_clock;
        version_map = VersionMap.fork r.version_map new_id 0;
        deletion_map = VersionMap.fork r.deletion_map new_id 0;
        backlog = r.backlog;
      })

  unfoldable pub inserted : Replica T.Tree → ℕ → ℕ → Result Panic (Insertion × Replica T.Tree)
  inserted r at_offset len =
      let start = r.version_map.this_value in
      let version_map = VersionMap.update_this r.version_map (λ n. add n len) in
      let text : Text = record {
        inserted_by = r.id;
        range = record { start = start; end = version_map.this_value };
      } in
      let edit : Result Panic (Insertion × Replica T.Tree) = (do
        t ← T.insert r.run_tree at_offset text r.run_clock r.lamport_clock
        ok (
          record {
            anchor = t.anchor;
            text = text;
            lamport_ts = LamportClock.highest t.lamport_clock;
            run_ts = RunClock.last t.run_clock;
          },
          record r {
            run_tree = t.tree;
            run_clock = t.run_clock;
            lamport_clock = t.lamport_clock;
            version_map = version_map;
          },
        )) in
      if ltb (T.len r.run_tree) at_offset
      then err (offset_out_of_bounds at_offset (T.len r.run_tree))
      else if len == 0
      then ok (Insertion.no_op, r)
      else edit

  unfoldable pub deleted : Replica T.Tree → Bound × Bound → Result Panic (Deletion × Replica T.Tree)
  deleted r range =
      let len = T.len r.run_tree in
      let (start, end) = range_bounds_to_start_end range 0 len in
      let edit : Result Panic (Deletion × Replica T.Tree) = (do
        t ← T.delete r.run_tree (record { start = start; end = end }) (VersionMap.new r.id 0)
        let version_map =
            VersionMap.update_all t.version_map (λ id ts. VersionMap.get r.version_map id)
        let deletion_map = VersionMap.update_this r.deletion_map (λ n. add n 1)
        ok (
          record {
            start = t.start;
            end = t.end;
            version_map = version_map;
            deletion_ts = deletion_map.this_value;
          },
          record r { run_tree = t.tree; deletion_map = deletion_map },
        )) in
      if ltb len end
      then err (offset_out_of_bounds end len)
      else if ltb end start
      then err (start_greater_than_end start end)
      else if start == end
      then ok (Deletion.no_op, r)
      else edit

  unfoldable pub merge_unchecked_insertion :
      Replica T.Tree → Insertion → Result Panic (ℕ × Replica T.Tree)
  merge_unchecked_insertion r i = do
    (offset, tree) ← T.merge_insertion r.run_tree i
    ok (
      offset,
      record r {
        run_tree = tree;
        version_map =
            VersionMap.update r.version_map (Insertion.inserted_by i)
              (λ n. add n (Insertion.len i));
        lamport_clock = LamportClock.merge r.lamport_clock i.lamport_ts;
      },
    )

  unfoldable pub merge_unchecked_deletion :
      Replica T.Tree → Deletion → Result Panic (List Range × Replica T.Tree)
  merge_unchecked_deletion r d = do
    (ranges, tree) ← T.merge_deletion r.run_tree d
    ok (
      ranges,
      record r {
        run_tree = tree;
        deletion_map =
            VersionMap.update r.deletion_map (Deletion.deleted_by d) (λ _. d.deletion_ts);
      },
    )

  unfoldable pub integrate_insertion :
      Replica T.Tree → Insertion → Result Panic (Option ℕ × Replica T.Tree)
  unfolding has_merged_insertion can_merge_insertion merge_unchecked_insertion
  integrate_insertion r i =
      if Insertion.is_no_op i || has_merged_insertion r i
      then ok (none, r)
      else if can_merge_insertion r i
      then (do (offset, r') ← merge_unchecked_insertion r i; ok (some offset, r'))
      else (do
        backlog ← Backlog.insert_insertion r.backlog i
        ok (none, record r { backlog = backlog }))

  unfoldable pub integrate_deletion :
      Replica T.Tree → Deletion → Result Panic (List Range × Replica T.Tree)
  unfolding has_merged_deletion can_merge_deletion merge_unchecked_deletion
  integrate_deletion r d =
      if Deletion.is_no_op d || has_merged_deletion r d
      then ok ([], r)
      else if can_merge_deletion r d
      then merge_unchecked_deletion r d
      else (do
        backlog ← Backlog.insert_deletion r.backlog d
        ok ([], record r { backlog = backlog }))

  unfoldable pub create_anchor : Replica T.Tree → ℕ → AnchorBias → Result Panic Anchor
  create_anchor r at_offset with_bias =
      if ltb (T.len r.run_tree) at_offset
      then err (offset_out_of_bounds at_offset (T.len r.run_tree))
      else T.create_anchor r.run_tree at_offset with_bias

  unfoldable pub resolve_anchor : Replica T.Tree → Anchor → Result Panic (Option ℕ)
  unfolding has_anchor
  resolve_anchor r anchor =
      if has_anchor r anchor.inner
      then (do offset ← T.resolve_anchor r.run_tree anchor; ok (some offset))
      else ok none
