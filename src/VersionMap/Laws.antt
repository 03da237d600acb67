-- ===== src/VersionMap/Laws.antt =====
-- What the operations of the map do to the value of every id.
use cola.Prelude.{ℕ, ◌≡◌, ◌≢◌, sym, ◌==◌, if◌then◌else◌, arith, inl, inr, Bool-cases}
use cola.ReplicaIdMap.{Absent, get_or_default, lookup-insert, Absent-insert, HasUniqueKeys-insert}
use cola.VersionMap.{BaseMap, get, update, insert, fork_in_place, IsValid}

-- After a write through `get_mut` the written id has the new value and every other id the old one.
pub get-update :
    (m : BaseMap) (k j : ℕ) (f : ℕ → ℕ)
    → get (update m k f) j ≡ (if k == j then f (get m k) else get m j)
unfolding get update
get-update m k j f = ground (arith, lookup-insert k j (f (get_or_default 0 k m.rest)) m.rest)

-- `insert` sets the value of a remote id, and does nothing for the local one.
pub get-insert :
    (m : BaseMap) (k j v : ℕ)
    → get (insert m k v) j ≡ (if k == m.this_id then get m j else if k == j then v else get m j)
unfolding get insert
get-insert m k j v = ground (arith, lookup-insert k j v m.rest)

-- After a fork the new id has the given value, and every other id, the forked replica's own
-- included, the value that it had.
pub get-fork_in_place :
    (m : BaseMap) (k j v : ℕ) → get (fork_in_place m k v) j ≡ (if k == j then v else get m j)
unfolding get fork_in_place
get-fork_in_place m k j v = ground (arith, lookup-insert m.this_id j m.this_value m.rest)

-- A write through `get_mut` keeps the ids apart.
pub update-IsValid : (m : BaseMap) (k : ℕ) (f : ℕ → ℕ) → IsValid m → IsValid (update m k f)
unfolding update
update-IsValid m k f (a, u) = elim (Bool-cases (k == m.this_id)) [
  | inl e ↦ rw e (a, u)
  | inr e ↦ rw e (
    Absent-insert k m.this_id (f (get_or_default 0 k m.rest)) m.rest (λ p. ground arith) a,
    HasUniqueKeys-insert k (f (get_or_default 0 k m.rest)) m.rest u,
  )
]

-- A fork to an id that the map does not hold yet keeps the ids apart.
pub fork_in_place-IsValid :
    (m : BaseMap) (k v : ℕ)
    → k ≢ m.this_id
    → Absent k m.rest
    → IsValid m
    → IsValid (fork_in_place m k v)
unfolding fork_in_place
fork_in_place-IsValid m k v n a (b, u) = (
  Absent-insert m.this_id k m.this_value m.rest (λ p. n (sym p)) a,
  HasUniqueKeys-insert m.this_id m.this_value m.rest u,
)
