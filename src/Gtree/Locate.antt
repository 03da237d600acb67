-- ===== src/Gtree/Locate.antt =====
-- Ranges (src/utils.rs), and where a deletion looks for its range (src/gtree.rs).
use cola.Prelude.{
  ℕ, suc, Bool, Option, none, some, List, [], ◌∷◌, Result, ok, ◌>>=◌, ltb, leb, ◌&&◌, if◌then◌else◌,
  length, add, sub,
}
use cola.Text.{Range}
use cola.Panics.{Panic}
use cola.Gtree.{Leaves, Gtree, Cursor, cursor_at, leaf}
use cola.Gtree.Find.{child_len, cursor_end}
use cola.Gtree.Walk.{next_non_empty_sibling}

abbrev pub sub_range : Range → ℕ → Range
sub_range range n = record { start = sub range.start n; end = sub range.end n }

-- The range from `start` to `end` contains the other one.
abbrev pub contains_range : ℕ → ℕ → Range → Bool
contains_range start end other = leb start other.start && leb other.end end

module _ {L : Type 0} ⦃P : Leaves L⦄ where
  -- The loop that looks for the first child that ends after `from`: its index, its offset, and the
  -- number of the children that follow it.
  unfoldable pub first_after :
      Gtree L → Bool → List ℕ → ℕ → ℕ → ℕ → Result Panic (Option (ℕ × ℕ × ℕ))
  unfolding child_len
  first_after g leaves [] idx offset from = ok none
  first_after g leaves (c ∷ cs) idx offset from = do
    len ← child_len g leaves c
    let rest = first_after g leaves cs (suc idx) (add offset len) from
    let here = some (idx, sub (add offset len) len, length cs)
    if ltb from (add offset len) then ok here else rest

  -- The next sibling of the leaf at the cursor that is not empty, if it contains the range, as a cursor.
  unfoldable pub next_with_range : Cursor → Range → Gtree L → Result Panic (Option Cursor)
  unfolding cursor_end next_non_empty_sibling leaf
  next_with_range c range g = do
    end ← cursor_end c g
    next ← next_non_empty_sibling c.leaf_idx c.child_idx g
    elim next [
      | none ↦ ok none
      | some (leaf_idx, child_idx) ↦ do
        l ← leaf leaf_idx g
        let next_end = add end (P.leaf_len l)
        if contains_range end next_end range then ok (cursor_at leaf_idx end child_idx) else ok none
    ]

  -- The leaf at the cursor, or that sibling of it.
  unfoldable pub leaf_with_range : Range → Gtree L → Result Panic (Option Cursor)
  unfolding cursor_end next_with_range
  leaf_with_range range g = elim g.cursor [
    | none ↦ ok none
    | some c ↦ do
      end ← cursor_end c g
      if contains_range c.offset end range then ok (some c) else next_with_range c range g
  ]
