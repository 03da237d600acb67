-- ===== src/RunTree/Codec/Writes.antt =====
-- Lists in which elements of another list are written at their places, as the decoder of the run tree
-- writes leaves (src/run_tree.rs, `mod encode`).
use cola.Prelude.{
  ℕ, zero, suc, ◌<◌, ◌≡◌, ◌⊎◌, inl, inr, refl, sym, ap, ◌∙◌, List, [], ◌∷◌, Result, ok, err, map_ok,
  map_err, ok-injective, length, arith,
}
use cola.Slices.{nth, update_nth}

-- One of the elements.
abbrev pub Any : {A : Type 0} → (A → Type 0) → List A → Type 0
Any P [] = ⊥
Any P (x ∷ xs) = P x ⊎ Any P xs

pub map_err-eq-ok :
    {E F A : Type 0} (f : E → F) (r : Result E A) (a : A) → map_err f r ≡ ok a → r ≡ ok a
map_err-eq-ok f (ok b) a h = ap ok (ok-injective h)
map_err-eq-ok f (err e) a h = cc

map_ok-eq-ok :
    {E A B : Type 0} (f : A → B) (r : Result E A) (b : B)
    → map_ok f r ≡ ok b
    → (a : A) × (r ≡ ok a) × (b ≡ f a)
map_ok-eq-ok f (ok a) b h = (a, refl, sym (ok-injective h))
map_ok-eq-ok f (err e) b h = cc

module _ {A : Type 0} where
  -- What a write of an element of another list at its place keeps of the places that agree.
  pub record Writes (target xs ys : List A) (now : ℕ → Type 0) : Type 0 where
    pub same : (i : ℕ) → nth xs i ≡ nth target i → nth ys i ≡ nth target i
    pub wrote : (i : ℕ) → now i → nth ys i ≡ nth target i
    pub kept : length ys ≡ length xs

  same-update_nth :
      (target xs ys : List A) (idx : ℕ) (x : A)
      → nth target idx ≡ ok x
      → update_nth xs idx (λ y. x) ≡ ok ys
      → (i : ℕ) → nth xs i ≡ nth target i
      → nth ys i ≡ nth target i
  unfolding nth update_nth
  same-update_nth target [] ys idx x at e i h = cc
  same-update_nth [] (z ∷ xs) ys idx x at e i h = cc
  same-update_nth (t ∷ target) (z ∷ xs) ys zero x at e zero h =
      let same : ys ≡ x ∷ xs = sym (ok-injective e) in rw same (sym at)
  same-update_nth (t ∷ target) (z ∷ xs) ys zero x at e (suc i) h =
      let same : ys ≡ x ∷ xs = sym (ok-injective e) in rw same h
  same-update_nth (t ∷ target) (z ∷ xs) ys (suc idx) x at e zero h =
      let (zs, p, q) = map_ok-eq-ok (λ zs. z ∷ zs) (update_nth xs idx (λ y. x)) ys e in rw q h
  same-update_nth (t ∷ target) (z ∷ xs) ys (suc idx) x at e (suc i) h =
      let (zs, p, q) = map_ok-eq-ok (λ zs. z ∷ zs) (update_nth xs idx (λ y. x)) ys e in
      rw q (same-update_nth target xs zs idx x at p i h)

  wrote-update_nth :
      (xs ys : List A) (idx : ℕ) (x : A) → update_nth xs idx (λ y. x) ≡ ok ys → nth ys idx ≡ ok x
  unfolding nth update_nth
  wrote-update_nth [] ys idx x e = cc
  wrote-update_nth (z ∷ xs) ys zero x e =
      let same : ys ≡ x ∷ xs = sym (ok-injective e) in rw same refl
  wrote-update_nth (z ∷ xs) ys (suc idx) x e =
      let (zs, p, q) = map_ok-eq-ok (λ zs. z ∷ zs) (update_nth xs idx (λ y. x)) ys e in
      rw q (wrote-update_nth xs zs idx x p)

  length-update_nth :
      (xs ys : List A) (idx : ℕ) (x : A)
      → update_nth xs idx (λ y. x) ≡ ok ys
      → length ys ≡ length xs
  unfolding update_nth
  length-update_nth [] ys idx x e = cc
  length-update_nth (z ∷ xs) ys zero x e =
      let same : ys ≡ x ∷ xs = sym (ok-injective e) in rw same refl
  length-update_nth (z ∷ xs) ys (suc idx) x e =
      let (zs, p, q) = map_ok-eq-ok (λ zs. z ∷ zs) (update_nth xs idx (λ y. x)) ys e in
      rw q (ap suc (length-update_nth xs zs idx x p))

  pub update_nth-Writes :
      (target xs ys : List A) (idx : ℕ) (x : A)
      → nth target idx ≡ ok x
      → update_nth xs idx (λ y. x) ≡ ok ys
      → Writes target xs ys (λ i. idx ≡ i)
  update_nth-Writes target xs ys idx x at e = record {
    same = same-update_nth target xs ys idx x at e;
    wrote =
        λ i p. ap (nth ys) (sym p) ∙ wrote-update_nth xs ys idx x e ∙ sym at ∙ ap (nth target) p;
    kept = length-update_nth xs ys idx x e;
  }

  pub Writes-none : (target xs : List A) → Writes target xs xs (λ i. ⊥)
  Writes-none target xs = record { same = λ i h. h; wrote = λ i none. absurd none; kept = refl }

  pub Writes-fewer :
      (target xs ys : List A) (P Q : ℕ → Type 0)
      → ((i : ℕ) → Q i → P i)
      → Writes target xs ys P
      → Writes target xs ys Q
  Writes-fewer target xs ys P Q f w = record {
    same = w.same;
    wrote = λ i q. w.wrote i (f i q);
    kept = w.kept;
  }

  pub Writes-then :
      (target xs ys zs : List A) (P Q : ℕ → Type 0)
      → Writes target xs ys P
      → Writes target ys zs Q
      → Writes target xs zs (λ i. P i ⊎ Q i)
  Writes-then target xs ys zs P Q a b = record {
    same = λ i h. b.same i (a.same i h);
    wrote = λ i p. elim p [ inl p ↦ b.same i (a.wrote i p) | inr q ↦ b.wrote i q ];
    kept = b.kept ∙ a.kept;
  }

  pub nth-eq :
      (xs ys : List A)
      → length xs ≡ length ys
      → ((i : ℕ) → i < length ys → nth xs i ≡ nth ys i)
      → xs ≡ ys
  unfolding nth
  nth-eq [] [] e h = refl
  nth-eq [] (y ∷ ys) e h = absurd (omega (arith, e))
  nth-eq (x ∷ xs) [] e h = absurd (omega (arith, e))
  nth-eq (x ∷ xs) (y ∷ ys) e h =
      let first : x ≡ y = ok-injective (h 0 (omega arith)) in
      let rest : xs ≡ ys = nth-eq xs ys (omega (arith, e)) (λ i p. h (suc i) (omega (arith, p))) in
      cc
