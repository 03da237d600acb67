-- ===== src/Deletion.antt =====
-- src/deletion.rs: a deletion in CRDT coordinates.
pub mod Anchors
pub mod Codec
use cola.Prelude.{ℕ, Bool, IsU64}
use cola.Anchor
use cola.Anchor.{InnerAnchor, zero_anchor, is_zero}
use cola.VersionMap.{BaseMap, new}

pub record Deletion : Type 0 where
  pub start : InnerAnchor
  pub end : InnerAnchor
  pub version_map : BaseMap
  pub deletion_ts : ℕ

abbrev pub deleted_by : Deletion → ℕ
deleted_by d = d.version_map.this_id

abbrev pub is_no_op : Deletion → Bool
is_no_op d = is_zero d.end

abbrev pub no_op : Deletion
no_op = record { start = zero_anchor; end = zero_anchor; version_map = new 0 0; deletion_ts = 0 }
