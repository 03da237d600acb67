-- ===== src/Insertion.antt =====
-- src/insertion.rs: an insertion in CRDT coordinates.
pub mod Codec
use cola.Prelude.{ℕ, Bool, ◌==◌, IsU64, ◌≤◌}
use cola.Text
use cola.Text.{Text}
use cola.Anchor
use cola.Anchor.{InnerAnchor, zero_anchor}

pub record Insertion : Type 0 where
  pub anchor : InnerAnchor
  pub text : Text
  pub run_ts : ℕ
  pub lamport_ts : ℕ

abbrev pub inserted_by : Insertion → ℕ
inserted_by i = i.text.inserted_by

abbrev pub start : Insertion → ℕ
start i = i.text.range.start

abbrev pub end : Insertion → ℕ
end i = i.text.range.end

abbrev pub len : Insertion → ℕ
len i = Text.len i.text

abbrev pub is_no_op : Insertion → Bool
is_no_op i = len i == 0

abbrev pub no_op : Insertion
no_op = record {
  anchor = zero_anchor;
  text = record { inserted_by = 0; range = record { start = 0; end = 0 } };
  run_ts = 0;
  lamport_ts = 0;
}

-- What the field types and the way texts are made give.
pub record IsValid (i : Insertion) : Type 0 where
  pub anchor : Anchor.IsValid i.anchor
  pub text : Text.IsValid i.text
  pub run_ts_fits : IsU64 i.run_ts
  pub lamport_ts_fits : IsU64 i.lamport_ts
