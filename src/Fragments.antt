-- ===== src/Fragments.antt =====
-- The fragments of an insertion run as an array (`Fragment` and `Array` of src/run_indices.rs): which
-- leaf of the run tree holds which part of the run. The array has a fixed number of slots, of which
-- the first `len` are in use.
pub mod Search
pub mod Lookup
pub mod Split
pub mod Tree
pub mod Grown
use cola.Prelude.{
  ℕ, zero, suc, ◌^◌, ◌-◌, Bool, true, false, ◌&&◌, List, [], ◌∷◌, ◌++◌, Result, ok, err, ◌>>=◌, ltb,
  leb, ◌==◌, if◌then◌else◌, length, take, drop, replicate, add, sub,
}
use cola.Anchor.{AnchorBias, right, same_bias}
use cola.Panics.{Panic, index_out_of_bounds, unreachable}

pub record Fragment : Type 0 where
  pub len : ℕ
  pub idx : ℕ

-- `LeafIdx::dangling()` is `usize::MAX`.
abbrev pub null : Fragment
null = record { len = 0; idx = 2 ^ 64 - 1 }

-- What is left of the fragment, and the new one.
abbrev pub split_fragment : Fragment → ℕ → ℕ → Fragment × Fragment
split_fragment f at_offset right_idx =
    (record f { len = at_offset }, record { len = sub f.len at_offset; idx = right_idx })

pub record Array : Type 0 where
  pub slots : List Fragment
  pub len : ℕ
  pub total_len : ℕ

abbrev pub default : ℕ → Array
default n = record { slots = replicate n null; len = 0; total_len = 0 }

abbrev pub fragments : Array → List Fragment
fragments a = take a.len a.slots

-- Reads and writes by index.
unfoldable pub slot_at : List Fragment → ℕ → Result Panic Fragment
slot_at [] i = err index_out_of_bounds
slot_at (f ∷ slots) zero = ok f
slot_at (f ∷ slots) (suc i) = slot_at slots i

unfoldable pub set_slot : List Fragment → ℕ → Fragment → Result Panic (List Fragment)
set_slot [] i x = err index_out_of_bounds
set_slot (f ∷ slots) zero x = ok (x ∷ slots)
set_slot (f ∷ slots) (suc i) x = do slots ← set_slot slots i x; ok (f ∷ slots)

unfoldable pub append : Array → Fragment → Result Panic Array
unfolding set_slot
append a f = do
  slots ← set_slot a.slots a.len f
  ok (record { slots = slots; len = suc a.len; total_len = add a.total_len f.len })

unfoldable pub extend_last : Array → ℕ → Result Panic Array
unfolding slot_at set_slot
extend_last a extend_by = do
  f ← slot_at a.slots (sub a.len 1)
  slots ← set_slot a.slots (sub a.len 1) (record f { len = add f.len extend_by })
  ok (record a { slots = slots; total_len = add a.total_len extend_by })

-- The loop of `idx_at_offset`, from an index and an offset on.
unfoldable pub scan : List Fragment → ℕ → ℕ → ℕ → Result Panic (ℕ × ℕ)
scan [] idx offset at_offset = err unreachable
scan (f ∷ rest) idx offset at_offset =
    let further = scan rest (suc idx) (add offset f.len) at_offset in
    if leb at_offset (add offset f.len) then ok (idx, sub (add offset f.len) f.len) else further

unfoldable pub idx_at_offset : Array → ℕ → Result Panic (ℕ × ℕ)
unfolding scan
idx_at_offset a at_offset = scan (fragments a) 0 0 at_offset

-- The fragment found, or the one after it when the offset is at its end and the bias is to the right.
abbrev pub pick : List Fragment → ℕ → Fragment → Bool → Result Panic Fragment
pick slots idx f true = slot_at slots (suc idx)
pick slots idx f false = ok f

unfoldable pub fragment_at_offset : Array → ℕ → AnchorBias → Result Panic Fragment
unfolding idx_at_offset slot_at
fragment_at_offset a at_offset bias = do
  (idx, fragment_offset) ← idx_at_offset a at_offset
  f ← slot_at a.slots idx
  pick a.slots idx f ((add fragment_offset f.len == at_offset) && same_bias bias right)

-- `rotate_right(1)` of the slice, whose first slot is then overwritten: the last slot is lost.
unfoldable pub shift : Fragment → List Fragment → List Fragment
shift x [] = []
shift x (f ∷ slice) = x ∷ shift f slice

-- `insert_in_slice` of src/utils.rs, at an offset inside the slice
unfoldable pub insert_in_slice : List Fragment → Fragment → ℕ → List Fragment
unfolding shift
insert_in_slice slice x zero = shift x slice
insert_in_slice [] x (suc i) = []
insert_in_slice (f ∷ slice) x (suc i) = f ∷ insert_in_slice slice x i

unfoldable pub split : Array → ℕ → ℕ → Result Panic Array
unfolding idx_at_offset slot_at set_slot insert_in_slice
split a at_offset new_idx =
    let len = suc a.len in
    let slice = take len a.slots in
    let inserted : Result Panic Array = (do
      (idx, fragment_offset) ← idx_at_offset a at_offset
      f ← slot_at slice idx
      let (kept, added) = split_fragment f (sub at_offset fragment_offset) new_idx
      slice ← set_slot slice idx kept
      ok (record {
        slots = insert_in_slice slice added (suc idx) ++ drop len a.slots;
        len = len;
        total_len = a.total_len;
      })) in
    if ltb (length a.slots) len
    then (do p ← idx_at_offset a at_offset; err index_out_of_bounds)
    else inserted

-- The two fragments that `get_two_mut` borrows, with length moved from one to the other.
unfoldable pub move_len : Array → ℕ → ℕ → ℕ → Result Panic Array
unfolding slot_at set_slot
move_len a from to len_move = do
  f ← slot_at (fragments a) from
  h ← slot_at (fragments a) to
  slots ← set_slot a.slots from (record f { len = sub f.len len_move })
  slots ← set_slot slots to (record h { len = add h.len len_move })
  ok (record a { slots = slots })

unfoldable pub move_len_to_next_fragment : Array → ℕ → ℕ → Result Panic Array
unfolding idx_at_offset move_len
move_len_to_next_fragment a at_offset len_move = do
  (this, offset) ← idx_at_offset a at_offset
  move_len a this (add this 1) len_move

unfoldable pub move_len_to_prev_fragment : Array → ℕ → ℕ → Result Panic Array
unfolding idx_at_offset move_len
move_len_to_prev_fragment a at_offset len_move = do
  (this, offset) ← idx_at_offset a at_offset
  move_len a this (sub this 1) len_move
