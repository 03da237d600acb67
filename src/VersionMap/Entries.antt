-- ===== src/VersionMap/Entries.antt =====
-- From what holds of the entries of a version map to what holds of the value of every id, and back.
use cola.Prelude.{ℕ, ◌≡◌, some, List, [], ◌∷◌, ◌==◌, arith, inl, inr, Bool-cases}
use cola.ReplicaIdMap.{lookup, get_or_default, Absent, HasUniqueKeys}
use cola.VersionMap.{BaseMap, get, iter, IsValid}

-- The map `big` has every entry of `small`.
abbrev Found : List (ℕ × ℕ) → List (ℕ × ℕ) → Type 0
Found big [] = Unit
Found big ((id, value) ∷ small) = (lookup id big ≡ some value) × Found big small

Found-cons :
    (i w : ℕ) (big small : List (ℕ × ℕ))
    → Absent i small
    → Found big small
    → Found ((i, w) ∷ big) small
unfolding lookup
Found-cons i w big [] a f = tt
Found-cons i w big ((j, x) ∷ small) (n, a) (e, f) = (ground arith, Found-cons i w big small a f)

Found-self : (l : List (ℕ × ℕ)) → HasUniqueKeys l → Found l l
unfolding lookup
Found-self [] u = tt
Found-self ((i, w) ∷ l) (a, u) = (ground arith, Found-cons i w l l a (Found-self l u))

-- In a valid map the value of every entry is what `get` returns for its id.
abbrev pub Entries : BaseMap → List (ℕ × ℕ) → Type 0
Entries m [] = Unit
Entries m ((id, value) ∷ l) = (get m id ≡ value) × Entries m l

Entries-rest : (m : BaseMap) (l : List (ℕ × ℕ)) → Absent m.this_id l → Found m.rest l → Entries m l
unfolding get
Entries-rest m [] a f = tt
Entries-rest m ((i, w) ∷ l) (n, a) (e, f) = (ground arith, Entries-rest m l a f)

pub Entries-iter : (m : BaseMap) → IsValid m → Entries m (iter m)
unfolding iter get
Entries-iter m (a, u) = (ground arith, unfold get in Entries-rest m m.rest a (Found-self m.rest u))

-- `P` holds of every id and its value, where it holds of value 0, if it holds of the entries.
module _ (P : ℕ → ℕ → Type 0) where
  abbrev pub AllEntries : List (ℕ × ℕ) → Type 0
  AllEntries [] = Unit
  AllEntries ((id, value) ∷ l) = P id value × AllEntries l

  AllEntries-lookup :
      (zeroes : (id : ℕ) → P id 0) (l : List (ℕ × ℕ))
      → AllEntries l
      → (id : ℕ) → P id (get_or_default 0 id l)
  unfolding get_or_default lookup
  AllEntries-lookup zeroes [] a id = zeroes id
  AllEntries-lookup zeroes ((i, w) ∷ l) (p, a) id = elim (Bool-cases (i == id)) [
    | inl e ↦ rw (e, get_or_default) (let q : i ≡ id = ground arith in rw q at p)
    | inr e ↦ rw (e, get_or_default) (AllEntries-lookup zeroes l a id)
  ]

  pub AllEntries-get :
      (zeroes : (id : ℕ) → P id 0) (m : BaseMap) → AllEntries (iter m) → (id : ℕ) → P id (get m id)
  unfolding get iter
  AllEntries-get zeroes m (p, a) id = elim (Bool-cases (id == m.this_id)) [
    | inl e ↦ rw e (let q : m.this_id ≡ id = ground arith in rw q at p)
    | inr e ↦ rw e (AllEntries-lookup zeroes m.rest a id)
  ]

  pub get-AllEntries :
      (m : BaseMap) (l : List (ℕ × ℕ)) → Entries m l → ((id : ℕ) → P id (get m id)) → AllEntries l
  get-AllEntries m [] e h = tt
  get-AllEntries m ((i, w) ∷ l) (q, e) h = (rw q at (h i), get-AllEntries m l e h)
