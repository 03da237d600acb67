-- ===== src/RunIndices.antt =====
-- `RunIndices` and `ReplicaIndices` of src/run_indices.rs: which leaves of the run tree hold the runs of
-- each replica. The entries of a replica are the fragments of its runs, in order, each with the offset
-- at which the run starts.
use cola.Prelude.{
  ℕ, zero, suc, List, [], ◌∷◌, ◌++◌, Option, none, some, Result, ok, ◌>>=◌, map_ok, add, sub,
}
use cola.Anchor.{InnerAnchor, AnchorBias}
use cola.Panics.{Panic}
use cola.Slices.{nth}
use cola.ReplicaIdMap
use cola.Fragments.Tree
use cola.Fragments.Tree.{Fragments, unwrap}

pub record ReplicaIndices : Type 0 where
  pub vec : List (Fragments × ℕ)

pub record RunIndices : Type 0 where
  pub map : List (ℕ × ReplicaIndices)

abbrev pub new : RunIndices
new = record { map = [] }

-- `last` and `last_mut` of the vector.
unfoldable pub last : List (Fragments × ℕ) → Option (Fragments × ℕ)
last [] = none
last (x ∷ []) = some x
last (x ∷ (y ∷ ys)) = last (y ∷ ys)

unfoldable pub set_last : List (Fragments × ℕ) → Fragments × ℕ → List (Fragments × ℕ)
set_last [] z = []
set_last (x ∷ []) z = z ∷ []
set_last (x ∷ (y ∷ ys)) z = x ∷ set_last (y ∷ ys) z

-- The offset at which the next run starts.
unfoldable pub next_offset : List (Fragments × ℕ) → Result Panic ℕ
unfolding last Tree.len
next_offset vec = elim (last vec) [
  | none ↦ ok 0
  | some (fragments, offset) ↦ map_ok (λ len. add len offset) (Tree.len fragments)
]

unfoldable pub append : ReplicaIndices → ℕ → ℕ → Result Panic ReplicaIndices
unfolding Tree.from_first_fragment next_offset
append r len idx = do
  new_last ← Tree.from_first_fragment (record { len = len; idx = idx })
  offset ← next_offset r.vec
  ok (record { vec = r.vec ++ (new_last, offset) ∷ [] })

unfoldable pub append_to_last : ReplicaIndices → ℕ → ℕ → Result Panic ReplicaIndices
unfolding last set_last Tree.append
append_to_last r len idx = do
  (fragments, offset) ← unwrap (last r.vec)
  fragments ← Tree.append fragments (record { len = len; idx = idx })
  ok (record { vec = set_last r.vec (fragments, offset) })

unfoldable pub extend_last : ReplicaIndices → ℕ → Result Panic ReplicaIndices
unfolding last set_last Tree.extend
extend_last r extend_by = do
  (fragments, offset) ← unwrap (last r.vec)
  fragments ← Tree.extend fragments extend_by
  ok (record { vec = set_last r.vec (fragments, offset) })

unfoldable pub idx_at_offset : ReplicaIndices → ℕ → ℕ → AnchorBias → Result Panic ℕ
unfolding nth Tree.fragment_at_offset
idx_at_offset r run_ts at_offset bias = do
  (splits, offset) ← nth r.vec run_ts
  f ← Tree.fragment_at_offset splits (sub at_offset offset) bias
  ok f.idx

-- The fragments of a run are replaced.
unfoldable pub set_run : List (Fragments × ℕ) → ℕ → Fragments → List (Fragments × ℕ)
set_run [] run_ts z = []
set_run ((x, offset) ∷ vec) zero z = (z, offset) ∷ vec
set_run (x ∷ vec) (suc run_ts) z = x ∷ set_run vec run_ts z

unfoldable pub move_len_to_next_split : ReplicaIndices → ℕ → ℕ → ℕ → Result Panic ReplicaIndices
unfolding nth set_run Tree.move_len_to_next_fragment
move_len_to_next_split r run_ts split_at_offset len_moved = do
  (splits, offset) ← nth r.vec run_ts
  splits ← Tree.move_len_to_next_fragment splits (sub split_at_offset offset) len_moved
  ok (record { vec = set_run r.vec run_ts splits })

unfoldable pub move_len_to_prev_split : ReplicaIndices → ℕ → ℕ → ℕ → Result Panic ReplicaIndices
unfolding nth set_run Tree.move_len_to_prev_split
move_len_to_prev_split r run_ts split_at_offset len_moved = do
  (splits, offset) ← nth r.vec run_ts
  splits ← Tree.move_len_to_prev_split splits (sub split_at_offset offset) len_moved
  ok (record { vec = set_run r.vec run_ts splits })

unfoldable pub split : ReplicaIndices → ℕ → ℕ → ℕ → Result Panic ReplicaIndices
unfolding nth set_run Tree.split
split r run_ts at_offset right_idx = do
  (splits, offset) ← nth r.vec run_ts
  splits ← Tree.split splits (sub at_offset offset) right_idx
  ok (record { vec = set_run r.vec run_ts splits })

-- `get_mut`, with what the caller does to the indices.
unfoldable pub update :
    RunIndices → ℕ → (ReplicaIndices → Result Panic ReplicaIndices) → Result Panic RunIndices
unfolding ReplicaIdMap.get_or_default ReplicaIdMap.insert
update r id f = do
  indices ← f (ReplicaIdMap.get_or_default (record { vec = [] }) id r.map)
  ok (record { map = ReplicaIdMap.insert id indices r.map })

unfoldable pub idx_at_anchor : RunIndices → InnerAnchor → AnchorBias → Result Panic ℕ
unfolding ReplicaIdMap.lookup idx_at_offset
idx_at_anchor r anchor bias = do
  indices ← unwrap (ReplicaIdMap.lookup anchor.replica_id r.map)
  idx_at_offset indices anchor.contained_in anchor.offset bias
