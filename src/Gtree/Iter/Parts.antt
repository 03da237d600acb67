-- ===== src/Gtree/Iter/Parts.antt =====
-- The child of an inode that holds a leaf, with the leaves of the children after it (src/gtree.rs).
use cola.Prelude.{
  ℕ, zero, suc, ◌+◌, ◌≡◌, refl, sym, ap, ◌∙◌, true, false, List, [], ◌∷◌, ◌++◌, ok, drop, ◌==◌,
  arith, ok-injective,
}
use mathlib.Core.Path.{subst}
use cola.Slices.{nth}
use cola.Gtree.Node.{position}
use cola.Gtree.Shape.{NoRepeat, All-nth, Parts}

pub position-nth :
    (cs : List ℕ) (i c j : ℕ) → NoRepeat cs → nth cs i ≡ ok c → position cs c j ≡ ok (j + i)
unfolding position nth
position-nth [] i c j alone e = cc
position-nth (d ∷ cs) zero c j alone e =
    let same : d ≡ c = ok-injective e in
    let found : (d == c) ≡ true = ground arith in
    let sum : j ≡ j + 0 = omega arith in rw found (ap ok sum)
position-nth (d ∷ cs) (suc i) c j (apart, alone) e =
    let other = All-nth (λ x. (d == x) ≡ false) cs i c apart e in
    let sum : suc j + i ≡ j + suc i = omega arith in
    rw (other, position-nth cs i c (suc j) alone e) (ap ok sum)

pub drop-nth : (cs : List ℕ) (i c : ℕ) → nth cs i ≡ ok c → drop i cs ≡ c ∷ drop (suc i) cs
unfolding nth
drop-nth [] i c e = cc
drop-nth (d ∷ cs) zero c e = ap (λ t. t ∷ cs) (ok-injective e)
drop-nth (d ∷ cs) (suc i) c e = drop-nth cs i c e

module _ {A : Type 0} where
  nothing : (front : List A) (x : A) (back : List A) → [] ≡ front ++ x ∷ back → ⊥
  nothing [] x back e = cc
  nothing (y ∷ front) x back e = cc

  pub single :
      (front : List A) (x : A) (back : List A) (y : A)
      → y ∷ [] ≡ front ++ x ∷ back
      → (y ≡ x) × (back ≡ [])
  single [] x back y e = (cc, cc)
  single (z ∷ []) x back y e = cc
  single (z ∷ w ∷ front) x back y e = cc

  -- An element of two lists together is in the first or in the second.
  data Side (xs ys front : List A) (x : A) (back : List A) : Type 0 where
    within : (rest : List A) → xs ≡ front ++ x ∷ rest → back ≡ rest ++ ys → Side xs ys front x back
    beyond :
        (start : List A) → front ≡ xs ++ start → ys ≡ start ++ x ∷ back → Side xs ys front x back

  Side-longer :
      (z : A) (xs ys front : List A) (x : A) (back : List A)
      → Side xs ys front x back
      → Side (z ∷ xs) ys (z ∷ front) x back
  Side-longer z xs ys front x back (within rest p q) = within rest (ap (λ t. z ∷ t) p) q
  Side-longer z xs ys front x back (beyond start p q) = beyond start (ap (λ t. z ∷ t) p) q

  append-Side :
      (xs ys front : List A) (x : A) (back : List A)
      → xs ++ ys ≡ front ++ x ∷ back
      → Side xs ys front x back
  append-Side [] ys front x back e = beyond front refl e
  append-Side (z ∷ xs) ys [] x back e =
      let same : z ∷ xs ≡ x ∷ xs = cc in let rest : back ≡ xs ++ ys = cc in within xs same rest
  append-Side (z ∷ xs) ys (w ∷ front) x back e =
      let same : z ≡ w = cc in
      let rest : xs ++ ys ≡ front ++ x ∷ back = cc in
      subst (λ t. Side (z ∷ xs) ys (t ∷ front) x back) same
        (Side-longer z xs ys front x back (append-Side xs ys front x back rest))

module _ {L : Type 0} (C : ℕ → List (ℕ × L) → Type 0) where
  -- The child that holds a leaf, with the leaves of it and of those after it.
  pub record In (cs : List ℕ) (here : ℕ × L) (back : List (ℕ × L)) : Type 0 where
    pub place : ℕ
    pub child : ℕ
    pub at_place : nth cs place ≡ ok child
    pub part : List (ℕ × L)
    pub front : List (ℕ × L)
    pub rest : List (ℕ × L)
    pub inside : part ≡ front ++ here ∷ rest
    pub holds : C child part
    pub later : List (ℕ × L)
    pub others : Parts C (drop (suc place) cs) later
    pub after : back ≡ rest ++ later

  In-Side :
      (c : ℕ) (cs : List ℕ) (part later front : List (ℕ × L)) (here : ℕ × L) (back : List (ℕ × L))
      → C c part
      → Parts C cs later
      → Side part later front here back
      → ((start : List (ℕ × L)) → later ≡ start ++ here ∷ back → In cs here back)
      → In (c ∷ cs) here back
  unfolding nth
  In-Side c cs part later front here back holds others (within rest p q) search = record {
    place = 0;
    child = c;
    at_place = refl;
    part = part;
    front = front;
    rest = rest;
    inside = p;
    holds = holds;
    later = later;
    others = others;
    after = q;
  }
  In-Side c cs part later front here back holds others (beyond start p q) search =
      let i = search start q in
      record {
        place = suc i.place;
        child = i.child;
        at_place = i.at_place;
        part = i.part;
        front = i.front;
        rest = i.rest;
        inside = i.inside;
        holds = i.holds;
        later = i.later;
        others = i.others;
        after = i.after;
      }

  pub Parts-In :
      (cs : List ℕ) (ls front : List (ℕ × L)) (here : ℕ × L) (back : List (ℕ × L))
      → Parts C cs ls
      → ls ≡ front ++ here ∷ back
      → In cs here back
  Parts-In [] ls front here back empty e = absurd (nothing front here back (sym empty ∙ e))
  Parts-In (c ∷ cs) ls front here back (part, later, holds, split, others) e =
      In-Side c cs part later front here back holds others
        (append-Side part later front here back (sym split ∙ e))
        (λ start q. Parts-In cs later start here back others q)
