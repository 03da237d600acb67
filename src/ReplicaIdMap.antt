-- ===== src/ReplicaIdMap.antt =====
-- `ReplicaIdMap<T>` of src/replica_id.rs: the standard `HashMap` keyed by replica ids. Its entries
-- are listed in the order in which an iteration meets them, which the standard library leaves open.
use mathlib.Core.Path.{subst}
use cola.Prelude.{
  ℕ, ◌≡◌, ◌≢◌, refl, sym, Option, none, some, List, [], ◌∷◌, ◌++◌, arith, ◌==◌, if◌then◌else◌,
  Bool-cases, inl, inr,
}

module _ {ℓ} {V : Type ℓ} where
  -- `get`
  unfoldable pub lookup : ℕ → List (ℕ × V) → Option V
  lookup k [] = none
  lookup k ((j, v) ∷ m) = if j == k then some v else lookup k m

  -- `insert`: the value of a key that is there is replaced.
  unfoldable pub insert : ℕ → V → List (ℕ × V) → List (ℕ × V)
  insert id value [] = (id, value) ∷ []
  insert id value ((other, old) ∷ entries) =
      let rest = insert id value entries in
      if other == id then (id, value) ∷ entries else (other, old) ∷ rest

  -- `get(..).copied().unwrap_or_default()`, and the value that `entry(..).or_default()` refers to.
  unfoldable pub get_or_default : V → ℕ → List (ℕ × V) → V
  unfolding lookup
  get_or_default d k m = elim (lookup k m) [ none ↦ d | some v ↦ v ]

  -- No key stands twice.
  abbrev pub Absent : ℕ → List (ℕ × V) → Type 0
  Absent k [] = Unit
  Absent k ((j, v) ∷ m) = (j ≢ k) × Absent k m

  abbrev pub HasUniqueKeys : List (ℕ × V) → Type 0
  HasUniqueKeys [] = Unit
  HasUniqueKeys ((j, v) ∷ m) = Absent j m × HasUniqueKeys m

module _ {ℓ} {V : Type ℓ} where
  pub lookup-insert :
      (written read : ℕ) (value : V) (entries : List (ℕ × V))
      → lookup read (insert written value entries)
        ≡ (if written == read then some value else lookup read entries)
  unfolding lookup insert
  lookup-insert written read value [] = refl
  lookup-insert written read value (entry ∷ entries) =
      ground (arith, lookup-insert written read value entries)

  pub Absent-insert :
      (k j : ℕ) (v : V) (m : List (ℕ × V)) → k ≢ j → Absent j m → Absent j (insert k v m)
  unfolding insert
  Absent-insert k j v [] h a = (h, tt)
  Absent-insert k j v ((i, w) ∷ m) h (n, a) = elim (Bool-cases (i == k)) [
    | inl e ↦ rw e (h, a)
    | inr e ↦ rw e (n, Absent-insert k j v m h a)
  ]

  pub HasUniqueKeys-insert :
      (k : ℕ) (v : V) (m : List (ℕ × V)) → HasUniqueKeys m → HasUniqueKeys (insert k v m)
  unfolding insert
  HasUniqueKeys-insert k v [] u = (tt, tt)
  HasUniqueKeys-insert k v ((i, w) ∷ m) (a, u) = elim (Bool-cases (i == k)) [
    | inl e ↦ let p : i ≡ k = ground arith in rw e (subst (λ t. Absent t m) p a, u)
    | inr e ↦ rw e (Absent-insert k i v m (λ p. ground arith) a, HasUniqueKeys-insert k v m u)
  ]

  -- A new key goes to the end.
  pub insert-Absent :
      (k : ℕ) (v : V) (m : List (ℕ × V)) → Absent k m → insert k v m ≡ m ++ (k, v) ∷ []
  unfolding insert
  insert-Absent k v [] a = refl
  insert-Absent k v ((i, w) ∷ m) (n, a) = ground (arith, insert-Absent k v m a)

  pub lookup-Absent : (k : ℕ) (m : List (ℕ × V)) → Absent k m → lookup k m ≡ none
  unfolding lookup
  lookup-Absent k [] a = refl
  lookup-Absent k ((i, w) ∷ m) (n, a) = ground (arith, lookup-Absent k m a)

  Absent-head :
      {i : ℕ} (m : List (ℕ × V)) (k : ℕ) (v : V) (l : List (ℕ × V))
      → Absent i (m ++ (k, v) ∷ l)
      → k ≢ i
  Absent-head [] k v l (n, a) = n
  Absent-head ((j, w) ∷ m) k v l (n, a) = Absent-head m k v l a

  -- A key that follows entries with other keys is absent from them.
  pub HasUniqueKeys-append :
      (m : List (ℕ × V)) (k : ℕ) (v : V) (l : List (ℕ × V))
      → HasUniqueKeys (m ++ (k, v) ∷ l)
      → Absent k m
  HasUniqueKeys-append [] k v l u = tt
  HasUniqueKeys-append ((i, w) ∷ m) k v l (a, u) =
      (λ p. Absent-head m k v l a (sym p), HasUniqueKeys-append m k v l u)

-- What holds of every value of a map holds of the values that it returns, and is kept by writing a
-- value of which it holds.
module _ {ℓ} {V : Type ℓ} (P : V → Type 0) where
  abbrev pub AllValues : List (ℕ × V) → Type 0
  AllValues [] = Unit
  AllValues ((k, v) ∷ m) = P v × AllValues m

  pub AllValues-get_or_default :
      (d : V) (k : ℕ) (m : List (ℕ × V)) → P d → AllValues m → P (get_or_default d k m)
  unfolding get_or_default lookup
  AllValues-get_or_default d k [] p a = p
  AllValues-get_or_default d k ((j, v) ∷ m) p (q, a) = elim (Bool-cases (j == k)) [
    | inl e ↦ rw (e, get_or_default) q
    | inr e ↦ rw (e, get_or_default) (AllValues-get_or_default d k m p a)
  ]

  pub AllValues-insert :
      (k : ℕ) (v : V) (m : List (ℕ × V)) → P v → AllValues m → AllValues (insert k v m)
  unfolding insert
  AllValues-insert k v [] p a = (p, tt)
  AllValues-insert k v ((j, w) ∷ m) p (q, a) = elim (Bool-cases (j == k)) [
    | inl e ↦ rw e (p, a)
    | inr e ↦ rw e (q, AllValues-insert k v m p a)
  ]

  pub AllValues-append : (l m : List (ℕ × V)) → AllValues l → AllValues m → AllValues (l ++ m)
  AllValues-append [] m a b = b
  AllValues-append ((k, v) ∷ l) m (p, a) b = (p, AllValues-append l m a b)
