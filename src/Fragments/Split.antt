-- ===== src/Fragments/Split.antt =====
-- Splitting a fragment of an array.
use cola.Prelude.{
  ℕ, false, ◌⊎◌, inl, inr, Bool-cases, ◌==◌, zero, suc, ◌+◌, ◌-◌, ◌<◌, ◌≤◌, ◌≡◌, refl, ap, ◌∙◌, ok,
  List, [], ◌∷◌, ◌++◌, sym, All, length-append, length-take_le, take-append, length, take, drop,
  ltb, sub, arith, append_assoc,
}
use mathlib.Core.Path.{subst}
use cola.Fragments.{Fragment, Array, fragments, set_slot, shift, insert_in_slice, split}
use cola.Fragments.Search.{IsValid, Around, sum, NonEmpty, sum-append, slot_at-append}
use cola.Fragments.Lookup.{Found, idx_at_offset-Found}

set_slot-append :
    (front : List Fragment) (f x : Fragment) (back : List Fragment)
    → set_slot (front ++ f ∷ back) (length front) x ≡ ok (front ++ x ∷ back)
unfolding set_slot
set_slot-append [] f x back = refl
set_slot-append (g ∷ front) f x back = rw (set_slot-append front f x back)

shift-append :
    (x : Fragment) (l : List Fragment) (spare : Fragment) → shift x (l ++ spare ∷ []) ≡ x ∷ l
unfolding shift
shift-append x [] spare = refl
shift-append x (f ∷ l) spare = ap (λ t. x ∷ t) (shift-append f l spare)

insert_in_slice-append :
    (front : List Fragment) (f x : Fragment) (l : List Fragment) (spare : Fragment)
    → insert_in_slice (front ++ f ∷ (l ++ spare ∷ [])) x (suc (length front)) ≡ front ++ f ∷ x ∷ l
unfolding insert_in_slice
insert_in_slice-append [] f x l spare = ap (λ t. f ∷ t) (shift-append x l spare)
insert_in_slice-append (g ∷ front) f x l spare =
    ap (λ t. g ∷ t) (insert_in_slice-append front f x l spare)

-- One more slot.
take-suc :
    (n : ℕ) (l : List Fragment)
    → n < length l
    → (spare : Fragment) × (take (suc n) l ≡ take n l ++ spare ∷ [])
take-suc n [] h = absurd (omega arith)
take-suc zero (x ∷ l) h = (x, refl)
take-suc (suc n) (x ∷ l) h =
    let (spare, e) = take-suc n l (omega arith) in (spare, ap (λ t. x ∷ t) e)

All-parted :
    (front : List Fragment) (f kept added : Fragment) (back : List Fragment)
    → All NonEmpty (front ++ f ∷ back)
    → NonEmpty kept
    → NonEmpty added
    → All NonEmpty (front ++ kept ∷ added ∷ back)
All-parted [] f kept added back (h, t) k a = (k, (a, t))
All-parted (g ∷ front) f kept added back (h, t) k a = (h, All-parted front f kept added back t k a)

module _ (a : Array) (v : IsValid a) where
  -- The array that a split leaves.
  abbrev pub parted : ℕ → ℕ → Around (fragments a) → Array
  parted o new_idx p = record {
    slots =
        p.front
        ++ record { len = o - sum p.front; idx = p.here.idx }
          ∷ record { len = sum p.front + p.here.len - o; idx = new_idx }
          ∷ (p.back ++ drop (suc a.len) a.slots);
    len = suc a.len;
    total_len = a.total_len;
  }

  split-Found :
      (o new_idx : ℕ) (p : Around (fragments a)) (spare : Fragment)
      → a.len < length a.slots
      → o ≤ a.total_len
      → take (suc a.len) a.slots ≡ fragments a ++ spare ∷ []
      → Found a v o p
      → split a o new_idx ≡ ok (parted o new_idx p)
  unfolding split
  split-Found o new_idx p spare room k e (found, slot, after, before) =
      let enough : ltb (length a.slots) (suc a.len) ≡ false = ground arith in
      let slice : take (suc a.len) a.slots ≡ p.front ++ p.here ∷ (p.back ++ spare ∷ []) =
        e
        ∙ ap (λ t. t ++ spare ∷ []) p.parts
        ∙ append_assoc p.front (p.here ∷ p.back) (spare ∷ []) in
      let all : sum (fragments a) ≡ sum p.front + (p.here.len + sum p.back) =
        ap sum p.parts ∙ sum-append p.front (p.here ∷ p.back) ∙ unfold sum in refl in
      let kept_len : sub o (sum p.front) ≡ o - sum p.front = omega (arith, v.fits) in
      let added_len : sub p.here.len (o - sum p.front) ≡ sum p.front + p.here.len - o =
        omega (arith, v.fits, v.total) in
      rw
        (
          enough,
          found,
          slice,
          slot_at-append p.front p.here (p.back ++ spare ∷ []),
          set_slot-append p.front p.here (record { len = sub o (sum p.front); idx = p.here.idx })
              (p.back ++ spare ∷ []),
          insert_in_slice-append p.front _ _ p.back spare,
          kept_len,
          added_len,
        )
        (rw append_assoc)

  used : (p : Around (fragments a)) → length p.front + suc (length p.back) ≡ a.len
  used p =
      sym (length-append p.front (p.here ∷ p.back))
      ∙ ap length (sym p.parts)
      ∙ length-take_le a.len a.slots v.enough

  -- The slots in use after a split.
  fragments-parted :
      (o new_idx : ℕ) (p : Around (fragments a))
      → fragments (parted o new_idx p)
        ≡ p.front
          ++ record { len = o - sum p.front; idx = p.here.idx }
            ∷ record { len = sum p.front + p.here.len - o; idx = new_idx }
            ∷ p.back
  fragments-parted o new_idx p =
      let kept : Fragment = record { len = o - sum p.front; idx = p.here.idx } in
      let added : Fragment = record { len = sum p.front + p.here.len - o; idx = new_idx } in
      let rest = drop (suc a.len) a.slots in
      let in_use = used p in
      let after : length (p.front ++ kept ∷ added ∷ p.back)
          ≡ length p.front + suc (suc (length p.back)) =
        length-append p.front (kept ∷ added ∷ p.back) in
      ap (take (suc a.len)) (sym (append_assoc p.front (kept ∷ added ∷ p.back) rest))
      ∙ take-append (suc a.len) (p.front ++ kept ∷ added ∷ p.back) rest (omega arith)

  -- A split strictly inside a fragment leaves a valid array.
  parted-IsValid :
      (o new_idx : ℕ) (p : Around (fragments a))
      → a.len < length a.slots
      → sum p.front < o
      → o < sum p.front + p.here.len
      → IsValid (parted o new_idx p)
  parted-IsValid o new_idx p room h k =
      let kept : Fragment = record { len = o - sum p.front; idx = p.here.idx } in
      let added : Fragment = record { len = sum p.front + p.here.len - o; idx = new_idx } in
      let rest = drop (suc a.len) a.slots in
      let in_use = fragments-parted o new_idx p in
      let slots : length (p.front ++ kept ∷ added ∷ (p.back ++ rest))
          ≡ length p.front + suc (suc (length (p.back ++ rest))) =
        length-append p.front (kept ∷ added ∷ (p.back ++ rest)) in
      let whole : sum (fragments a) ≡ sum p.front + (p.here.len + sum p.back) =
        ap sum p.parts ∙ sum-append p.front (p.here ∷ p.back) ∙ unfold sum in refl in
      let parts : sum (p.front ++ kept ∷ added ∷ p.back)
          ≡ sum p.front + (o - sum p.front + (sum p.front + p.here.len - o + sum p.back)) =
        sum-append p.front (kept ∷ added ∷ p.back) ∙ unfold sum in refl in
      record {
        enough = omega (arith, slots, length-append p.back rest, used p);
        total = omega (arith, v.total, whole, parts) ∙ sym (ap sum in_use);
        fits = v.fits;
        none_empty = subst (All NonEmpty) (sym in_use) (
            All-parted p.front p.here kept added p.back (subst (All NonEmpty) p.parts v.none_empty)
              (omega arith) (omega arith));
      }

  -- Splitting a valid array that has a free slot, at a positive offset that is at most its length: of
  -- the fragment in which the character before the offset lies, what is before the offset stays, and
  -- the new leaf gets the rest of this fragment, right after it; the fragments before and after it
  -- and the total length are as they were. The array is valid again, unless the offset is at the end
  -- of the fragment.
  pub split-parted :
      (o new_idx : ℕ)
      → a.len < length a.slots
      → 0 < o
      → o ≤ a.total_len
      → (p : Around (fragments a)) × (split a o new_idx ≡ ok (parted o new_idx p))
        × (sum p.front < o)
        × (o ≤ sum p.front + p.here.len)
        × (IsValid (parted o new_idx p) ⊎ (o ≡ sum p.front + p.here.len))
  split-parted o new_idx room h k =
      let (spare, e) = take-suc a.len a.slots room in
      let (p, found) = idx_at_offset-Found a v o h k in
      (
        p,
        split-Found o new_idx p spare room k e found,
        found.2,
        found.3,
        elim (Bool-cases (o == sum p.front + p.here.len)) [
          | inl q ↦ inr (ground arith)
          | inr q ↦ inl (parted-IsValid o new_idx p room found.2 (ground (arith, q, found.3)))
        ],
      )
