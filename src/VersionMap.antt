-- ===== src/VersionMap.antt =====
-- src/version_map.rs: the map from replica ids to clock values, with the entry of the local replica
-- kept apart. `T` is `u64` for a `DeletionMap` and `usize` for a `VersionMap`; both have default 0.
pub mod Laws
mod Entries
pub mod Codec
pub mod Order
use Prim.Native.Nat.{compare, Ordering}
use cola.Prelude.{
  ℕ, zero, suc, ◌≡◌, Bool, true, false, Option, none, some, List, [], ◌∷◌, ◌++◌, map, ltb, ◌==◌,
  if◌then◌else◌, not,
}
use cola.ReplicaIdMap
use cola.ReplicaIdMap.{Absent, HasUniqueKeys}

pub record BaseMap : Type 0 where
  pub this_id : ℕ
  pub this_value : ℕ
  pub rest : List (ℕ × ℕ)

unfoldable pub new : ℕ → ℕ → BaseMap
new this_id this_value = record { this_id = this_id; this_value = this_value; rest = [] }

unfoldable pub get : BaseMap → ℕ → ℕ
unfolding ReplicaIdMap.get_or_default
get m replica_id =
    if replica_id == m.this_id
    then m.this_value
    else ReplicaIdMap.get_or_default 0 replica_id m.rest

-- `get_mut`, with what the caller does to the value it refers to.
unfoldable pub update : BaseMap → ℕ → (ℕ → ℕ) → BaseMap
unfolding ReplicaIdMap.insert ReplicaIdMap.get_or_default
update m replica_id f =
    if replica_id == m.this_id then record m { this_value = f m.this_value } else record m {
      rest =
          ReplicaIdMap.insert replica_id (f (ReplicaIdMap.get_or_default 0 replica_id m.rest))
            m.rest;
    }

-- `this_mut`, with what the caller does to the value.
unfoldable pub update_this : BaseMap → (ℕ → ℕ) → BaseMap
update_this m f = record m { this_value = f m.this_value }

unfoldable pub insert : BaseMap → ℕ → ℕ → BaseMap
unfolding ReplicaIdMap.insert
insert m replica_id value =
    if not (replica_id == m.this_id)
    then record m { rest = ReplicaIdMap.insert replica_id value m.rest }
    else m

unfoldable pub fork_in_place : BaseMap → ℕ → ℕ → BaseMap
unfolding ReplicaIdMap.insert
fork_in_place m new_id restart_at = record {
  this_id = new_id;
  this_value = restart_at;
  rest = ReplicaIdMap.insert m.this_id m.this_value m.rest;
}

-- `fork` clones the map first, which a value does not notice.
abbrev pub fork : BaseMap → ℕ → ℕ → BaseMap
fork = fork_in_place

unfoldable pub iter : BaseMap → List (ℕ × ℕ)
iter m = (m.this_id, m.this_value) ∷ m.rest

abbrev pub write_entry : (ℕ → ℕ → ℕ) → ℕ × ℕ → ℕ × ℕ
write_entry f (id, value) = (id, f id value)

-- `iter_mut`, with what the caller's loop writes for each entry.
unfoldable pub update_all : BaseMap → (ℕ → ℕ → ℕ) → BaseMap
update_all m f = record m {
  this_value = f m.this_id m.this_value;
  rest = map (write_entry f) m.rest;
}

-- The loop of `update_order`: `this_value.cmp(&other_value)` picks the branch.
abbrev step_order : Ordering → Ordering → Option Ordering
step_order Ordering.gt Ordering.lt = none
step_order Ordering.gt _ = some Ordering.gt
step_order Ordering.lt Ordering.gt = none
step_order Ordering.lt _ = some Ordering.lt
step_order Ordering.eq order = some order

unfoldable pub update_order : List (ℕ × ℕ) → Ordering → Option Ordering
update_order [] order = some order
update_order ((this_value, other_value) ∷ l) order =
    elim (step_order (compare this_value other_value) order) [
      | none ↦ none
      | some order' ↦ update_order l order'
    ]

-- `.filter(|(_, value)| *value > 0).map(..)`, from `self` and from `other`.
unfoldable pub against_other : BaseMap → List (ℕ × ℕ) → List (ℕ × ℕ)
unfolding get
against_other other [] = []
against_other other ((id, value) ∷ l) =
    let tail = against_other other l in if ltb 0 value then (value, get other id) ∷ tail else tail

unfoldable pub against_this : BaseMap → List (ℕ × ℕ) → List (ℕ × ℕ)
unfolding get
against_this this [] = []
against_this this ((id, value) ∷ l) =
    let tail = against_this this l in if ltb 0 value then (get this id, value) ∷ tail else tail

unfoldable pub partial_cmp : BaseMap → BaseMap → Option Ordering
unfolding update_order against_other against_this iter
partial_cmp this other = elim (update_order (against_other other (iter this)) Ordering.eq) [
  | none ↦ none
  | some order ↦ update_order (against_this this (iter other)) order
]

-- The answers of `partial_cmp` that the operators `>=` and `<=` accept.
abbrev pub at_least : Option Ordering → Bool
at_least none = false
at_least (some Ordering.lt) = false
at_least (some Ordering.eq) = true
at_least (some Ordering.gt) = true

abbrev pub at_most : Option Ordering → Bool
at_most none = false
at_most (some Ordering.lt) = true
at_most (some Ordering.eq) = true
at_most (some Ordering.gt) = false

unfoldable pub ge : BaseMap → BaseMap → Bool
unfolding partial_cmp
ge this other = at_least (partial_cmp this other)

unfoldable pub le : BaseMap → BaseMap → Bool
unfolding partial_cmp
le this other = at_most (partial_cmp this other)

-- The local id is not among the others, and no id stands twice: every id has one value.
abbrev pub IsValid : BaseMap → Type 0
IsValid m = Absent m.this_id m.rest × HasUniqueKeys m.rest
