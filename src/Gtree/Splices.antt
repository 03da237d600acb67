-- ===== src/Gtree/Splices.antt =====
-- Insertions in a list at an offset, and in the parts of a list that was split (`insert_at` and
-- `insert_two` on the children of an inode, src/gtree.rs).
use cola.Prelude.{
  take-drop, ℕ, zero, suc, ◌+◌, ◌-◌, ◌≤◌, ◌≡◌, refl, sym, ap, ◌∙◌, List, [], ◌∷◌, ◌++◌, length,
  length-take_le, take, drop, arith,
}
use cola.Gtree.Node.{insert_at}

module _ {A : Type 0} where
  pub length-insert_at : (xs : List A) (i : ℕ) (x : A) → length (insert_at xs i x) ≡ suc (length xs)
  unfolding insert_at
  length-insert_at xs zero x = refl
  length-insert_at [] (suc i) x = refl
  length-insert_at (y ∷ ys) (suc i) x = ap suc (length-insert_at ys i x)

  -- An insertion in the first half, and in the second.
  pub insert_at-take :
      (k i : ℕ) (xs : List A) (x : A)
      → i ≤ k
      → insert_at (take k xs) i x ++ drop k xs ≡ insert_at xs i x
  unfolding insert_at
  insert_at-take k zero xs x h = ap (λ t. x ∷ t) (take-drop k xs)
  insert_at-take zero (suc i) xs x h = absurd (omega arith)
  insert_at-take (suc k) (suc i) [] x h = refl
  insert_at-take (suc k) (suc i) (y ∷ ys) x h =
      ap (λ t. y ∷ t) (insert_at-take k i ys x (omega arith))

  pub insert_at-drop :
      (k i : ℕ) (xs : List A) (x : A)
      → k ≤ i
      → k ≤ length xs
      → take k xs ++ insert_at (drop k xs) (i - k) x ≡ insert_at xs i x
  unfolding insert_at
  insert_at-drop zero i xs x h b =
      let same : i - 0 ≡ i = omega arith in ap (λ j. insert_at xs j x) same
  insert_at-drop (suc k) i [] x h b = absurd (omega arith)
  insert_at-drop (suc k) zero (y ∷ ys) x h b = absurd (omega arith)
  insert_at-drop (suc k) (suc i) (y ∷ ys) x h b =
      let same : suc i - suc k ≡ i - k = omega arith in
      rw same (ap (λ t. y ∷ t) (insert_at-drop k i ys x (omega arith) (omega arith)))

  -- An insertion in the first of two lists, and in the second.
  pub insert_at-append :
      (xs ys : List A) (i : ℕ) (x : A)
      → i ≤ length xs
      → insert_at xs i x ++ ys ≡ insert_at (xs ++ ys) i x
  unfolding insert_at
  insert_at-append xs ys zero x h = refl
  insert_at-append [] ys (suc i) x h = absurd (omega arith)
  insert_at-append (z ∷ zs) ys (suc i) x h =
      ap (λ t. z ∷ t) (insert_at-append zs ys i x (omega arith))

  pub append-insert_at :
      (xs ys : List A) (i j : ℕ) (x : A)
      → i ≡ length xs + j
      → xs ++ insert_at ys j x ≡ insert_at (xs ++ ys) i x
  unfolding insert_at
  append-insert_at [] ys i j x h = let same : j ≡ i = omega arith in ap (λ k. insert_at ys k x) same
  append-insert_at (z ∷ zs) ys zero j x h = absurd (omega arith)
  append-insert_at (z ∷ zs) ys (suc i) j x h =
      ap (λ t. z ∷ t) (append-insert_at zs ys i j x (omega arith))

  -- Two insertions, at offsets in order: both in the first list, both in the second, one in each.
  unfoldable pub insert_two_at : List A → ℕ → A → ℕ → A → List A
  insert_two_at xs i x j y = insert_at (insert_at xs i x) (suc j) y

  module _ (xs ys : List A) (i : ℕ) (x : A) (j : ℕ) (y : A) where
    pub insert_two_at-append :
        i ≤ j → j ≤ length xs → insert_two_at xs i x j y ++ ys ≡ insert_two_at (xs ++ ys) i x j y
    unfolding insert_two_at
    insert_two_at-append h k =
        insert_at-append (insert_at xs i x) ys (suc j) y (omega (arith, length-insert_at xs i x))
        ∙ ap (λ t. insert_at t (suc j) y) (insert_at-append xs ys i x (omega arith))

    pub append-insert_two_at :
        length xs ≤ i
        → i ≤ j
        → xs ++ insert_two_at ys (i - length xs) x (j - length xs) y
          ≡ insert_two_at (xs ++ ys) i x j y
    unfolding insert_two_at
    append-insert_two_at h k =
        append-insert_at xs (insert_at ys (i - length xs) x) (suc j) (suc (j - length xs)) y
          (omega arith)
        ∙ ap (λ t. insert_at t (suc j) y) (append-insert_at xs ys i (i - length xs) x (omega arith))

    pub insert_at-append-insert_at :
        i ≤ length xs
        → length xs ≤ j
        → insert_at xs i x ++ insert_at ys (j - length xs) y ≡ insert_two_at (xs ++ ys) i x j y
    unfolding insert_two_at
    insert_at-append-insert_at h k =
        append-insert_at (insert_at xs i x) ys (suc j) (j - length xs) y
          (omega (arith, length-insert_at xs i x))
        ∙ ap (λ t. insert_at t (suc j) y) (insert_at-append xs ys i x h)

  pub length-insert_two_at :
      (xs : List A) (i : ℕ) (x : A) (j : ℕ) (y : A)
      → length (insert_two_at xs i x j y) ≡ suc (suc (length xs))
  unfolding insert_two_at
  length-insert_two_at xs i x j y =
      length-insert_at (insert_at xs i x) (suc j) y ∙ ap suc (length-insert_at xs i x)

-- Two insertions in a list that is split at `k`.
module _ {A : Type 0} (k : ℕ) (xs : List A) (fits : k ≤ length xs) (i : ℕ) (x : A) (j : ℕ)
    (y : A) where
  pub insert_two_at-before :
      i ≤ j → j ≤ k → insert_two_at (take k xs) i x j y ++ drop k xs ≡ insert_two_at xs i x j y
  insert_two_at-before h b =
      insert_two_at-append (take k xs) (drop k xs) i x j y h
        (omega (arith, length-take_le k xs fits))
      ∙ ap (λ t. insert_two_at t i x j y) (take-drop k xs)

  pub insert_two_at-after :
      k ≤ i
      → i ≤ j
      → take k xs ++ insert_two_at (drop k xs) (i - k) x (j - k) y ≡ insert_two_at xs i x j y
  insert_two_at-after b h =
      let size = length-take_le k xs fits in
      ap (λ t. take k xs ++ insert_two_at (drop k xs) (i - t) x (j - t) y) (sym size)
      ∙ append-insert_two_at (take k xs) (drop k xs) i x j y (omega arith) h
      ∙ ap (λ t. insert_two_at t i x j y) (take-drop k xs)

  pub insert_two_at-around :
      i ≤ k
      → k ≤ j
      → insert_at (take k xs) i x ++ insert_at (drop k xs) (j - k) y ≡ insert_two_at xs i x j y
  insert_two_at-around h b =
      let size = length-take_le k xs fits in
      ap (λ t. insert_at (take k xs) i x ++ insert_at (drop k xs) (j - t) y) (sym size)
      ∙ insert_at-append-insert_at (take k xs) (drop k xs) i x j y (omega arith) (omega arith)
      ∙ ap (λ t. insert_two_at t i x j y) (take-drop k xs)
