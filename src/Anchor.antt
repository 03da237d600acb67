-- ===== src/Anchor.antt =====
-- src/anchor.rs: stable references to positions in a replica.
pub mod Codec
use cola.Prelude.{ℕ, Bool, true, false, IsU64, ◌==◌, ◌&&◌}

pub data AnchorBias : Type 0 where
  left right : AnchorBias

-- The equality that is derived for `AnchorBias`.
abbrev pub same_bias : AnchorBias → AnchorBias → Bool
same_bias left left = true
same_bias right right = true
same_bias left right = false
same_bias right left = false

pub record InnerAnchor : Type 0 where
  pub replica_id : ℕ
  pub contained_in : ℕ
  pub offset : ℕ

pub record Anchor : Type 0 where
  pub inner : InnerAnchor
  pub bias : AnchorBias

-- `InnerAnchor::zero`, at the start of the document, and `is_zero`.
abbrev pub zero_anchor : InnerAnchor
zero_anchor = record { replica_id = 0; contained_in = 0; offset = 0 }

abbrev pub is_zero : InnerAnchor → Bool
is_zero a = a.replica_id == 0

abbrev pub start_of_document : Anchor
start_of_document = record { inner = zero_anchor; bias = left }

abbrev pub end_of_document : Anchor
end_of_document = record { inner = zero_anchor; bias = right }

abbrev pub is_start_of_document : Anchor → Bool
is_start_of_document a = is_zero a.inner && same_bias a.bias left

abbrev pub is_end_of_document : Anchor → Bool
is_end_of_document a = is_zero a.inner && same_bias a.bias right

-- What the field types give.
pub record IsValid (a : InnerAnchor) : Type 0 where
  pub id_fits : IsU64 a.replica_id
  pub run_ts_fits : IsU64 a.contained_in
  pub offset_fits : IsU64 a.offset
