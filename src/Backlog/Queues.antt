-- ===== src/Backlog/Queues.antt =====
-- The queues of the backlog stay sorted by the key of their edits, without duplicates.
use mathlib.Core.List.{Perm}
use mathlib.Core.List.Perm
use mathlib.Core.Path.{subst}
use native.Mathlib.Decide.{ℕ_discrete}
use cola.Prelude.{
  ℕ, ◌<◌, ◌≡◌, ◌≢◌, inl, inr, refl, sym, ap, ◌∙◌, List, [], ◌∷◌, ◌++◌, ok, err, ok-injective,
  err-ne-ok, map_ok, ltb, ◌==◌, if◌then◌else◌, All, Bool-cases, arith,
}
use cola.Panics.{already_backlogged}
use cola.Backlog.{insert_by}

module _ {ℓ} {A : Type ℓ} (key : A → ℕ) where
  abbrev pub Sorted : List A → Type 0
  Sorted [] = Unit
  Sorted (x ∷ xs) = All (λ y. key x < key y) xs × Sorted xs

  -- No item has this key.
  abbrev pub Missing : ℕ → List A → Type 0
  Missing k = All (λ y. key y ≢ k)

  -- One step of the search and the insertion together.
  insert_by-cons :
      (x y : A) (ys : List A)
      → insert_by key x (y ∷ ys) ≡ (
          if key y == key x
          then err already_backlogged
          else if ltb (key x) (key y)
          then ok (x ∷ y ∷ ys)
          else map_ok (λ zs. y ∷ zs) (insert_by key x ys))
  unfolding insert_by
  insert_by-cons x y ys = ground arith

  All-lt_trans : (a b : ℕ) (xs : List A) → a < b → All (λ y. b < key y) xs → All (λ y. a < key y) xs
  All-lt_trans a b [] h s = tt
  All-lt_trans a b (x ∷ xs) h (p, s) = (omega arith, All-lt_trans a b xs h s)

  -- An item with a key that the queue does not have is inserted: the queue stays sorted, has the
  -- new item besides its old ones, and no bound below its keys and the new one is lost.
  record Grown (x : A) (xs ys : List A) : Type ℓ where
    sorted : Sorted ys
    above : (k : ℕ) → k < key x → All (λ y. k < key y) xs → All (λ y. k < key y) ys
    same_items : Perm ys (x ∷ xs)

  insert_by_grows :
      (x : A) (xs : List A)
      → Sorted xs
      → Missing (key x) xs
      → (ys : List A) × (insert_by key x xs ≡ ok ys) × Grown x xs ys
  insert_by_grows x [] s m = (
    x ∷ [],
    unfold insert_by in refl,
    record { sorted = (tt, tt); above = λ k h a. (h, tt); same_items = Perm.refl (x ∷ []) },
  )
  insert_by_grows x (y ∷ ys) (a, s) (n, m) = elim (Bool-cases (ltb (key x) (key y))) [
    | inl e ↦ (
      x ∷ y ∷ ys,
      rw (insert_by-cons x y ys) (ground arith),
      record {
        sorted = ((ground arith, All-lt_trans (key x) (key y) ys (ground arith) a), (a, s));
        above = λ k h b. (h, b);
        same_items = Perm.refl (x ∷ y ∷ ys);
      },
    )
    | inr e ↦
        let (zs, p, g) = insert_by_grows x ys s m in
        (
          y ∷ zs,
          rw (insert_by-cons x y ys) (ground arith),
          record {
            sorted = (g.above (key y) (ground arith) a, g.sorted);
            above = λ k h b. (b.0, g.above k h b.1);
            same_items = Perm.trans (Perm.cons y g.same_items) (Perm.swap x y ys);
          },
        )
  ]

  -- Inserting an edit whose key a sorted queue does not hold succeeds, and the new queue is sorted and
  -- holds the same edits and the new one.
  pub insert_by-Sorted :
      (x : A) (xs : List A)
      → Sorted xs
      → Missing (key x) xs
      → (ys : List A) × (insert_by key x xs ≡ ok ys) × Sorted ys × Perm ys (x ∷ xs)
  insert_by-Sorted x xs s m =
      let (ys, p, g) = insert_by_grows x xs s m in (ys, p, g.sorted, g.same_items)

  above-All :
      (k : ℕ) (front : List A) (y : A) (back : List A)
      → All (λ z. k < key z) (front ++ y ∷ back)
      → k < key y
  above-All k [] y back a = a.0
  above-All k (z ∷ front) y back a = above-All k front y back a.1

  -- Inserting an edit with the key of one that a sorted queue holds panics.
  pub insert_by_present :
      (x y : A) (front back : List A)
      → Sorted (front ++ y ∷ back)
      → key y ≡ key x
      → insert_by key x (front ++ y ∷ back) ≡ err already_backlogged
  insert_by_present x y [] back s e = rw (insert_by-cons x y back) (ground arith)
  insert_by_present x y (z ∷ front) back (a, s) e =
      let below = above-All (key z) front y back a in
      rw (insert_by-cons x z (front ++ y ∷ back))
        (ground (arith, insert_by_present x y front back s e))

  -- The item with a key, if there is one.
  data Occurs (k : ℕ) : List A → Type ℓ where
    missing : {xs : List A} → Missing k xs → Occurs k xs
    present :
        {xs : List A} (front : List A) (y : A) (back : List A)
        → xs ≡ front ++ y ∷ back
        → key y ≡ k
        → Occurs k xs

  occurs : (k : ℕ) (xs : List A) → Occurs k xs
  occurs k [] = missing tt
  occurs k (x ∷ xs) = elim (ℕ_discrete (key x) k) [
    | yes e ↦ present [] x xs refl e
    | no n ↦ elim (occurs k xs) [
      | missing m ↦ missing (n, m)
      | present front y back e h ↦ present (x ∷ front) y back (ap (λ t. x ∷ t) e) h
    ]
  ]

  -- Whatever is inserted, a sorted queue that comes back is sorted.
  pub insert_by-keeps_Sorted :
      (x : A) (xs ys : List A) → Sorted xs → insert_by key x xs ≡ ok ys → Sorted ys
  insert_by-keeps_Sorted x xs ys s h = elim (occurs (key x) xs) [
    | missing m ↦
        let (zs, p, g) = insert_by_grows x xs s m in
        subst Sorted (ok-injective (sym p ∙ h)) g.sorted
    | present front y back e k ↦ absurd (
        err-ne-ok (
          sym (insert_by_present x y front back (subst Sorted e s) k)
          ∙ subst (λ t. insert_by key x t ≡ ok ys) e h))
  ]
