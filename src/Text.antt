-- ===== src/Text.antt =====
-- src/text.rs: a range of text that a replica inserted.
pub mod Codec
use cola.Prelude.{ℕ, ◌≤◌, IsU64, sub}

-- `Range<Length>`; the crate's own type and the standard one have the same two fields.
pub record Range : Type 0 where
  pub start : ℕ
  pub end : ℕ

-- `Range::len`
abbrev pub range_len : Range → ℕ
range_len r = sub r.end r.start

pub record Text : Type 0 where
  pub inserted_by : ℕ
  pub range : Range

-- `Text::len`
abbrev pub len : Text → ℕ
len t = range_len t.range

-- What the type `u64` and the way texts are made give.
pub record IsValid (t : Text) : Type 0 where
  pub id_fits : IsU64 t.inserted_by
  pub ordered : t.range.start ≤ t.range.end
  pub end_fits : IsU64 t.range.end
