-- ===== src/VersionMap/Order.antt =====
-- The partial order of version maps (`impl PartialOrd for VersionMap`).
use Prim.Native.Nat.{compare, Ordering}
use cola.Prelude.{
  ℕ, ◌≤◌, ◌≡◌, ◌↔◌, refl, sym, ◌∙◌, Bool, true, false, none, some, List, [], ◌∷◌, arith, leb, ◌&&◌,
}
use cola.VersionMap.Entries.{AllEntries, Entries-iter, AllEntries-get, get-AllEntries}
use cola.VersionMap.{
  BaseMap, get, iter, step_order, update_order, against_other, against_this, partial_cmp, at_least,
  at_most, ge, le, IsValid,
}

all_fall : List (ℕ × ℕ) → Bool
all_fall [] = true
all_fall ((this_value, other_value) ∷ l) = leb other_value this_value && all_fall l

all_rise : List (ℕ × ℕ) → Bool
all_rise [] = true
all_rise ((this_value, other_value) ∷ l) = leb this_value other_value && all_rise l

and_true : (b : Bool) → b ≡ (b && true)
and_true true = refl
and_true false = refl

-- The first value is not smaller.
abbrev not_less : Ordering → Bool
not_less Ordering.lt = false
not_less Ordering.eq = true
not_less Ordering.gt = true

at_least_step :
    (c o : Ordering) (l : List (ℕ × ℕ))
    → ((o' : Ordering) → at_least (update_order l o') ≡ (at_least (some o') && all_fall l))
    → at_least (elim (step_order c o) [ none ↦ none | some o' ↦ update_order l o' ])
      ≡ (at_least (some o) && (not_less c && all_fall l))
at_least_step Ordering.lt Ordering.gt l ih = refl
at_least_step Ordering.lt Ordering.eq l ih = ih Ordering.lt
at_least_step Ordering.lt Ordering.lt l ih = ih Ordering.lt
at_least_step Ordering.eq o l ih = ih o
at_least_step Ordering.gt Ordering.lt l ih = refl
at_least_step Ordering.gt Ordering.eq l ih = ih Ordering.gt
at_least_step Ordering.gt Ordering.gt l ih = ih Ordering.gt

not_less-compare : (a b : ℕ) → leb b a ≡ not_less (compare a b)
not_less-compare a b = ground arith

at_least-update_order :
    (l : List (ℕ × ℕ)) (o : Ordering)
    → at_least (update_order l o) ≡ (at_least (some o) && all_fall l)
unfolding update_order all_fall
at_least-update_order [] o = and_true (at_least (some o))
at_least-update_order ((a, b) ∷ l) o =
    rw (not_less-compare a b) (at_least_step (compare a b) o l (at_least-update_order l))

-- The first value is not greater.
abbrev not_greater : Ordering → Bool
not_greater Ordering.gt = false
not_greater Ordering.eq = true
not_greater Ordering.lt = true

at_most_step :
    (c o : Ordering) (l : List (ℕ × ℕ))
    → ((o' : Ordering) → at_most (update_order l o') ≡ (at_most (some o') && all_rise l))
    → at_most (elim (step_order c o) [ none ↦ none | some o' ↦ update_order l o' ])
      ≡ (at_most (some o) && (not_greater c && all_rise l))
at_most_step Ordering.gt Ordering.lt l ih = refl
at_most_step Ordering.gt Ordering.eq l ih = ih Ordering.gt
at_most_step Ordering.gt Ordering.gt l ih = ih Ordering.gt
at_most_step Ordering.eq o l ih = ih o
at_most_step Ordering.lt Ordering.gt l ih = refl
at_most_step Ordering.lt Ordering.eq l ih = ih Ordering.lt
at_most_step Ordering.lt Ordering.lt l ih = ih Ordering.lt

not_greater-compare : (a b : ℕ) → leb a b ≡ not_greater (compare a b)
not_greater-compare a b = ground arith

at_most-update_order :
    (l : List (ℕ × ℕ)) (o : Ordering)
    → at_most (update_order l o) ≡ (at_most (some o) && all_rise l)
unfolding update_order all_rise
at_most-update_order [] o = and_true (at_most (some o))
at_most-update_order ((a, b) ∷ l) o =
    rw (not_greater-compare a b) (at_most_step (compare a b) o l (at_most-update_order l))

-- Both passes over the entries count.
at_least-partial_cmp :
    (a b : BaseMap)
    → at_least (partial_cmp a b)
      ≡ (all_fall (against_other b (iter a)) && all_fall (against_this a (iter b)))
unfolding partial_cmp
at_least-partial_cmp a b = ground (
  arith,
  at_least-update_order (against_other b (iter a)) Ordering.eq,
  at_least-update_order (against_this a (iter b)) Ordering.lt,
  at_least-update_order (against_this a (iter b)) Ordering.eq,
  at_least-update_order (against_this a (iter b)) Ordering.gt,
)

at_most-partial_cmp :
    (a b : BaseMap)
    → at_most (partial_cmp a b)
      ≡ (all_rise (against_other b (iter a)) && all_rise (against_this a (iter b)))
unfolding partial_cmp
at_most-partial_cmp a b = ground (
  arith,
  at_most-update_order (against_other b (iter a)) Ordering.eq,
  at_most-update_order (against_this a (iter b)) Ordering.lt,
  at_most-update_order (against_this a (iter b)) Ordering.eq,
  at_most-update_order (against_this a (iter b)) Ordering.gt,
)

-- What each pass says of the entries that it visits.
module _ (m : BaseMap) where
  fall_this→ :
      (l : List (ℕ × ℕ))
      → all_fall (against_this m l) ≡ true
      → AllEntries (λ id value. value ≤ get m id) l
  unfolding all_fall against_this
  fall_this→ [] h = tt
  fall_this→ ((i, w) ∷ l) h = (ground arith, fall_this→ l (ground arith))

  →fall_this :
      (l : List (ℕ × ℕ))
      → AllEntries (λ id value. value ≤ get m id) l
      → all_fall (against_this m l) ≡ true
  unfolding all_fall against_this
  →fall_this [] h = refl
  →fall_this ((i, w) ∷ l) (p, h) = ground (arith, →fall_this l h)

  →fall_other :
      (l : List (ℕ × ℕ))
      → AllEntries (λ id value. get m id ≤ value) l
      → all_fall (against_other m l) ≡ true
  unfolding all_fall against_other
  →fall_other [] h = refl
  →fall_other ((i, w) ∷ l) (p, h) = ground (arith, →fall_other l h)

  rise_other→ :
      (l : List (ℕ × ℕ))
      → all_rise (against_other m l) ≡ true
      → AllEntries (λ id value. value ≤ get m id) l
  unfolding all_rise against_other
  rise_other→ [] h = tt
  rise_other→ ((i, w) ∷ l) h = (ground arith, rise_other→ l (ground arith))

  →rise_other :
      (l : List (ℕ × ℕ))
      → AllEntries (λ id value. value ≤ get m id) l
      → all_rise (against_other m l) ≡ true
  unfolding all_rise against_other
  →rise_other [] h = refl
  →rise_other ((i, w) ∷ l) (p, h) = ground (arith, →rise_other l h)

  →rise_this :
      (l : List (ℕ × ℕ))
      → AllEntries (λ id value. get m id ≤ value) l
      → all_rise (against_this m l) ≡ true
  unfolding all_rise against_this
  →rise_this [] h = refl
  →rise_this ((i, w) ∷ l) (p, h) = ground (arith, →rise_this l h)

both : {a b : Bool} → a ≡ true → b ≡ true → (a && b) ≡ true
both p q = ground arith

and-left : (a b : Bool) → (a && b) ≡ true → a ≡ true
and-left a b h = ground arith

and-right : (a b : Bool) → (a && b) ≡ true → b ≡ true
and-right a b h = ground arith

module _ (a b : BaseMap) (v : IsValid a) (w : IsValid b) where
  -- On valid maps `a >= b` holds exactly when every id has at least the value in `a` that it has in
  -- `b`, an id without an entry counting as 0.
  pub ge_iff : (ge a b ≡ true) ↔ ((id : ℕ) → get b id ≤ get a id)
  unfolding ge
  ge_iff = (
    λ h.
        AllEntries-get (λ id value. value ≤ get a id) (λ id. omega arith) b
          (fall_this→ a (iter b) (
            and-right (all_fall (against_other b (iter a))) _
              (sym (at_least-partial_cmp a b) ∙ h))),
    λ h.
        at_least-partial_cmp a b
        ∙ both
            (→fall_other b (iter a)
              (get-AllEntries (λ id value. get b id ≤ value) a (iter a) (Entries-iter a v) h))
            (→fall_this a (iter b)
              (get-AllEntries (λ id value. value ≤ get a id) b (iter b) (Entries-iter b w) h)),
  )

  -- On valid maps `a <= b` holds exactly when no id has a greater value in `a` than in `b`.
  pub le_iff : (le a b ≡ true) ↔ ((id : ℕ) → get a id ≤ get b id)
  unfolding le
  le_iff = (
    λ h.
        AllEntries-get (λ id value. value ≤ get b id) (λ id. omega arith) a
          (rise_other→ b (iter a)
            (and-left _ (all_rise (against_this a (iter b))) (sym (at_most-partial_cmp a b) ∙ h))),
    λ h.
        at_most-partial_cmp a b
        ∙ both
            (→rise_other b (iter a)
              (get-AllEntries (λ id value. value ≤ get b id) a (iter a) (Entries-iter a v) h))
            (→rise_this a (iter b)
              (get-AllEntries (λ id value. get a id ≤ value) b (iter b) (Entries-iter b w) h)),
  )
