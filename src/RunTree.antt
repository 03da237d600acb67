-- ===== src/RunTree.antt =====
-- The operations of `RunTree` (src/run_tree.rs) that a replica calls, as an interface. Each returns
-- its result and the changed tree, or the panic that it ends in.
pub mod Runs
pub mod Anchors
pub mod Coherent
pub mod Attached
pub mod Resolves
pub mod Codec
pub mod Cuts
pub mod Places
pub mod Order
pub mod Merge
pub mod Behind
pub mod Targets
pub mod Spans
pub mod Filled
pub mod Fresh
use cola.Prelude.{ℕ, List, Result}
use cola.Text.{Text, Range}
use cola.Anchor.{InnerAnchor, Anchor, AnchorBias}
use cola.EditRun.{EditRun}
use cola.LamportClock.{LamportClock}
use cola.RunClock.{RunClock}
use cola.VersionMap.{BaseMap}
use cola.Insertion.{Insertion}
use cola.Deletion.{Deletion}
use cola.Panics.{Panic}

-- What `insert` returns and changes through its references.
pub record Inserted (Tree : Type 0) : Type 0 where
  pub anchor : InnerAnchor
  pub tree : Tree
  pub run_clock : RunClock
  pub lamport_clock : LamportClock

-- What `delete` returns and changes through its references.
pub record Deleted (Tree : Type 0) : Type 0 where
  pub start : InnerAnchor
  pub end : InnerAnchor
  pub tree : Tree
  pub version_map : BaseMap

pub record RunTree : Type 1 where
  pub Tree : Type 0
  pub new : EditRun → Tree
  pub len : Tree → ℕ
  pub insert : Tree → ℕ → Text → RunClock → LamportClock → Result Panic (Inserted Tree)
  pub delete : Tree → Range → BaseMap → Result Panic (Deleted Tree)
  pub merge_insertion : Tree → Insertion → Result Panic (ℕ × Tree)
  pub merge_deletion : Tree → Deletion → Result Panic (List Range × Tree)
  pub create_anchor : Tree → ℕ → AnchorBias → Result Panic Anchor
  pub resolve_anchor : Tree → Anchor → Result Panic ℕ
