-- ===== src/Fragments/Lookup.antt =====
-- Finding the fragment at an offset.
use cola.Prelude.{
  take-drop, length-append, ℕ, suc, ◌+◌, ◌<◌, ◌≤◌, ◌≡◌, refl, sym, ap, ◌∙◌, ok, true, false, inl,
  inr, Bool-cases, List, [], ◌∷◌, ◌++◌, append_assoc, ◌==◌, ◌&&◌, length, drop, All, add, arith,
}
use mathlib.Core.Path.{subst}
use cola.Anchor.{left, right, same_bias}
use cola.Fragments.{Fragment, Array, fragments, slot_at, idx_at_offset, fragment_at_offset}
use cola.Fragments.Search.{
  sum, sum-append, IsValid, NonEmpty, All-at, Around, slot_at-append, Finds, scan-Around,
}

module _ (a : Array) (v : IsValid a) where
  abbrev pub Found : ℕ → Around (fragments a) → Type 0
  Found o p =
      (idx_at_offset a o ≡ ok (length p.front, sum p.front))
      × (slot_at a.slots (length p.front) ≡ ok p.here)
      × (sum p.front < o)
      × (o ≤ sum p.front + p.here.len)

  pub all_slots :
      (p : Around (fragments a)) → a.slots ≡ p.front ++ p.here ∷ (p.back ++ drop a.len a.slots)
  all_slots p =
      sym (take-drop a.len a.slots)
      ∙ ap (λ t. t ++ drop a.len a.slots) p.parts
      ∙ append_assoc p.front (p.here ∷ p.back) (drop a.len a.slots)

  Finds-Found :
      (o : ℕ) (p : Around (fragments a)) → Finds (fragments a) 0 0 o p.front p.here → Found o p
  unfolding idx_at_offset
  Finds-Found o p (found, after, before) =
      let zero_idx : 0 + length p.front ≡ length p.front = omega arith in
      let zero_sum : 0 + sum p.front ≡ sum p.front = omega arith in
      (
        rw (← zero_idx, ← zero_sum) found,
        ap (λ t. slot_at t (length p.front)) (all_slots p) ∙ slot_at-append p.front p.here _,
        omega arith,
        omega arith,
      )

  pub idx_at_offset-Found :
      (o : ℕ) → 0 < o → o ≤ a.total_len → (p : Around (fragments a)) × Found o p
  idx_at_offset-Found o h k =
      let (p, found) =
        scan-Around (fragments a) 0 0 o h (omega (arith, v.total))
          (omega (arith, v.total, v.fits)) in
      (p, Finds-Found o p found)

  -- With a bias to the left, the fragment at a positive offset of a valid array that is at most its
  -- length is the one in which the character before the offset lies.
  pub fragment_at_offset-left :
      (o : ℕ)
      → 0 < o
      → o ≤ a.total_len
      → (p : Around (fragments a)) × (fragment_at_offset a o left ≡ ok p.here)
        × (sum p.front < o)
        × (o ≤ sum p.front + p.here.len)
  unfolding fragment_at_offset
  fragment_at_offset-left o h k =
      let (p, (found, slot, after, before)) = idx_at_offset-Found o h k in
      let never : ((add (sum p.front) p.here.len == o) && same_bias left right) ≡ false =
        ground arith in
      (p, rw (found, slot, never), after, before)

  -- The slot after a fragment, when another one follows it.
  next_slot :
      (p : Around (fragments a)) (o : ℕ)
      → sum p.front + p.here.len ≡ o
      → o < a.total_len
      → (g : Fragment) (back : List Fragment) → p.back ≡ g ∷ back
      → slot_at a.slots (suc (length p.front)) ≡ ok g
  next_slot p o e h g back q =
      let split_back : a.slots ≡ (p.front ++ p.here ∷ []) ++ g ∷ (back ++ drop a.len a.slots) =
        all_slots p
        ∙ ap (λ t. p.front ++ p.here ∷ (t ++ drop a.len a.slots)) q
        ∙ sym (append_assoc p.front (p.here ∷ []) (g ∷ (back ++ drop a.len a.slots))) in
      let here : length (p.front ++ p.here ∷ []) ≡ suc (length p.front) =
        length-append p.front (p.here ∷ []) ∙ omega arith in
      ap (λ t. slot_at t (suc (length p.front))) split_back
      ∙ ap (slot_at ((p.front ++ p.here ∷ []) ++ g ∷ (back ++ drop a.len a.slots))) (sym here)
      ∙ slot_at-append (p.front ++ p.here ∷ []) g (back ++ drop a.len a.slots)

  Here : ℕ → Around (fragments a) → Type 0
  Here o q =
      (fragment_at_offset a o right ≡ ok q.here)
      × (sum q.front ≤ o)
      × (o < sum q.front + q.here.len)

  inside :
      (o : ℕ) (p : Around (fragments a))
      → Found o p
      → (add (sum p.front) p.here.len == o) ≡ false
      → o < a.total_len
      → Here o p
  unfolding fragment_at_offset Here
  inside o p (found, slot, after, before) e h =
      let all : sum (fragments a) ≡ sum p.front + (p.here.len + sum p.back) =
        ap sum p.parts ∙ sum-append p.front (p.here ∷ p.back) ∙ unfold sum in refl in
      let add_ok : add (sum p.front) p.here.len ≡ sum p.front + p.here.len =
        omega (arith, v.total, v.fits) in
      (rw (found, slot, e), omega arith, ground (arith, e, add_ok))

  at_end :
      (o : ℕ) (p : Around (fragments a)) (back : List Fragment)
      → p.back ≡ back
      → Found o p
      → (add (sum p.front) p.here.len == o) ≡ true
      → o < a.total_len
      → (q : Around (fragments a)) × Here o q
  unfolding fragment_at_offset Here sum
  at_end o p [] r (found, slot, after, before) e h =
      let all : sum (fragments a) ≡ sum p.front + (p.here.len + 0) =
        ap sum (p.parts ∙ ap (λ t. p.front ++ p.here ∷ t) r) ∙ sum-append p.front (p.here ∷ []) in
      let add_ok : add (sum p.front) p.here.len ≡ sum p.front + p.here.len =
        omega (arith, v.total, v.fits) in
      let ends : sum p.front + p.here.len ≡ o = ground (arith, e, add_ok) in
      absurd (omega (arith, v.total))
  at_end o p (g ∷ back) r (found, slot, after, before) e h =
      let parts : fragments a ≡ (p.front ++ p.here ∷ []) ++ g ∷ back =
        p.parts
        ∙ ap (λ t. p.front ++ p.here ∷ t) r
        ∙ sym (append_assoc p.front (p.here ∷ []) (g ∷ back)) in
      let all : sum (fragments a) ≡ sum p.front + (p.here.len + (g.len + sum back)) =
        ap sum (p.parts ∙ ap (λ t. p.front ++ p.here ∷ t) r)
        ∙ sum-append p.front (p.here ∷ g ∷ back) in
      let add_ok : add (sum p.front) p.here.len ≡ sum p.front + p.here.len =
        omega (arith, v.total, v.fits) in
      let ends : sum p.front + p.here.len ≡ o = ground (arith, e, add_ok) in
      let so_far : sum (p.front ++ p.here ∷ []) ≡ sum p.front + (p.here.len + 0) =
        sum-append p.front (p.here ∷ []) in
      let positive : 0 < g.len =
        All-at (p.front ++ p.here ∷ []) g back (subst (All NonEmpty) parts v.none_empty) in
      (
        record { front = p.front ++ p.here ∷ []; here = g; back = back; parts = parts },
        (rw (found, slot, e) (next_slot p o ends h g back r), omega arith, omega arith),
      )

  -- With a bias to the right, the fragment at a positive offset of a valid array that is below its
  -- length is the one in which the character at the offset lies.
  pub fragment_at_offset-right :
      (o : ℕ)
      → 0 < o
      → o < a.total_len
      → (q : Around (fragments a)) × (fragment_at_offset a o right ≡ ok q.here)
        × (sum q.front ≤ o)
        × (o < sum q.front + q.here.len)
  unfolding Here
  fragment_at_offset-right o h k =
      let (p, found) = idx_at_offset-Found o h (omega arith) in
      elim (Bool-cases (add (sum p.front) p.here.len == o)) [
        | inl e ↦ let (q, here) = at_end o p p.back refl found e k in (q, here.0, here.1, here.2)
        | inr e ↦ let here = inside o p found e k in (p, here.0, here.1, here.2)
      ]
