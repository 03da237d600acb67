-- ===== src/Backlog.antt =====
-- src/backlog.rs: the remote edits that were received before what they depend on. The queues of the
-- replicas are `VecDeque`s, listed front first.
pub mod Queues
pub mod Kept
pub mod Codec
use cola.Prelude.{
  ℕ, zero, suc, ◌+◌, ◌≡◌, List, [], ◌∷◌, ◌++◌, Result, ok, err, ◌>>=◌, ltb, ◌==◌, if◌then◌else◌,
}
use cola.Insertion
use cola.Insertion.{Insertion}
use cola.Deletion
use cola.Deletion.{Deletion}
use cola.ReplicaIdMap
use cola.Panics.{Panic, already_backlogged}

pub record Backlog : Type 0 where
  pub insertions : List (ℕ × List Insertion)
  pub deletions : List (ℕ × List Deletion)

abbrev pub new : Backlog
new = record { insertions = []; deletions = [] }

module _ {ℓ} {A : Type ℓ} (key : A → ℕ) where
  -- `binary_search_by(|probe| key(probe).cmp(&k))` on a deque that is sorted by `key`: the offset of
  -- an item with this key, or the offset at which one would stand.
  unfoldable pub binary_search : List A → ℕ → Result ℕ ℕ
  binary_search [] k = err 0
  binary_search (x ∷ xs) k =
      let tail = binary_search xs k in
      if key x == k
      then ok 0
      else if ltb k (key x)
      then err 0
      else elim tail [ ok i ↦ ok (suc i) | err i ↦ err (suc i) ]

-- `VecDeque::insert`, at an offset that is at most the length.
unfoldable pub insert_at {ℓ} : {A : Type ℓ} → ℕ → A → List A → List A
insert_at zero x xs = x ∷ xs
insert_at (suc i) x [] = x ∷ []
insert_at (suc i) x (y ∷ ys) = y ∷ insert_at i x ys

module _ {ℓ} {A : Type ℓ} (key : A → ℕ) where
  -- `InsertionsBacklog::insert` and `DeletionsBacklog::insert`, which differ in the key.
  unfoldable pub insert_by : A → List A → Result Panic (List A)
  unfolding binary_search insert_at
  insert_by x xs = elim (binary_search key xs (key x)) [
    | ok _ ↦ err already_backlogged
    | err offset ↦ ok (insert_at offset x xs)
  ]

abbrev pub insertion_key : Insertion → ℕ
insertion_key = Insertion.start

abbrev pub deletion_key : Deletion → ℕ
deletion_key d = d.deletion_ts

-- `Backlog::insert_insertion` and `Backlog::insert_deletion`
unfoldable pub insert_insertion : Backlog → Insertion → Result Panic Backlog
unfolding insert_by
insert_insertion b i = do
  let id = Insertion.inserted_by i
  queue ← insert_by insertion_key i (ReplicaIdMap.get_or_default [] id b.insertions)
  ok (record b { insertions = ReplicaIdMap.insert id queue b.insertions })

unfoldable pub insert_deletion : Backlog → Deletion → Result Panic Backlog
unfolding insert_by
insert_deletion b d = do
  let id = Deletion.deleted_by d
  queue ← insert_by deletion_key d (ReplicaIdMap.get_or_default [] id b.deletions)
  ok (record b { deletions = ReplicaIdMap.insert id queue b.deletions })
