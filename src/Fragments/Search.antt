-- ===== src/Fragments/Search.antt =====
-- The search for an offset in a list of fragments, and the invariant of an array.
use cola.Prelude.{
  ℕ, suc, ◌+◌, ◌<◌, ◌≤◌, ◌≡◌, refl, ap, ok, false, inl, inr, Bool-cases, List, [], ◌∷◌, ◌++◌, leb,
  length, All, IsU64, add, sub, arith,
}
use cola.Fragments.{Fragment, Array, fragments, slot_at, scan}

-- The length of fragments together.
unfoldable pub sum : List Fragment → ℕ
sum [] = 0
sum (f ∷ l) = f.len + sum l

pub sum-append : (l m : List Fragment) → sum (l ++ m) ≡ sum l + sum m
unfolding sum
sum-append [] m = omega arith
sum-append (f ∷ l) m = omega (arith, sum-append l m)

abbrev pub NonEmpty : Fragment → Type 0
NonEmpty f = 0 < f.len

pub All-at :
    (front : List Fragment) (f : Fragment) (back : List Fragment)
    → All NonEmpty (front ++ f ∷ back)
    → NonEmpty f
All-at [] f back h = h.0
All-at (g ∷ front) f back h = All-at front f back h.1

-- The invariant of an array: the slots in use are there, none of them is empty, and `total_len` is
-- their length.
pub record IsValid (a : Array) : Type 0 where
  pub enough : a.len ≤ length a.slots
  pub total : a.total_len ≡ sum (fragments a)
  pub fits : IsU64 a.total_len
  pub none_empty : All NonEmpty (fragments a)

-- A fragment of a list, with those before and after it.
pub record Around (l : List Fragment) : Type 0 where
  pub front : List Fragment
  pub here : Fragment
  pub back : List Fragment
  pub parts : l ≡ front ++ here ∷ back

pub slot_at-append :
    (front : List Fragment) (f : Fragment) (back : List Fragment)
    → slot_at (front ++ f ∷ back) (length front) ≡ ok f
unfolding slot_at
slot_at-append [] f back = refl
slot_at-append (g ∷ front) f back = slot_at-append front f back

-- The search in a list finds this fragment, counting from an index and an offset.
abbrev pub Finds : List Fragment → ℕ → ℕ → ℕ → List Fragment → Fragment → Type 0
Finds l idx offset at front here =
    (scan l idx offset at ≡ ok (idx + length front, offset + sum front))
    × (offset + sum front < at)
    × (at ≤ offset + sum front + here.len)

scan-further :
    (f : Fragment) (l : List Fragment) (idx offset at : ℕ) (front : List Fragment) (here : Fragment)
    → IsU64 (offset + f.len)
    → leb at (add offset f.len) ≡ false
    → Finds l (suc idx) (offset + f.len) at front here
    → Finds (f ∷ l) idx offset at (f ∷ front) here
unfolding scan sum
scan-further f l idx offset at front here fits e (found, after, before) =
    let add_ok : add offset f.len ≡ offset + f.len = omega arith in
    let next_idx : suc idx + length front ≡ idx + suc (length front) = omega arith in
    let next_sum : offset + f.len + sum front ≡ offset + (f.len + sum front) = omega arith in
    (rw (e, add_ok, ← next_idx, ← next_sum) found, omega arith, omega arith)

-- What the search finds: the first fragment that ends at the offset or after it.
pub scan-Around :
    (l : List Fragment) (idx offset at : ℕ)
    → offset < at
    → at ≤ offset + sum l
    → IsU64 (offset + sum l)
    → (p : Around l) × Finds l idx offset at p.front p.here
unfolding scan sum
scan-Around [] idx offset at h k fits = absurd (omega arith)
scan-Around (f ∷ l) idx offset at h k fits = elim (Bool-cases (leb at (add offset f.len))) [
  | inl e ↦
      let add_ok : add offset f.len ≡ offset + f.len = omega arith in
      let back : sub (add offset f.len) f.len ≡ offset = omega arith in
      let in_here : at ≤ offset + f.len = ground (arith, e, add_ok) in
      let zero_idx : idx ≡ idx + 0 = omega arith in
      let zero_sum : offset ≡ offset + 0 = omega arith in
      (
        record { front = []; here = f; back = l; parts = refl },
        (rw (e, back, ← zero_idx, ← zero_sum), omega arith, omega arith),
      )
  | inr e ↦
      let fits_here : IsU64 (offset + f.len) = omega arith in
      let add_ok : add offset f.len ≡ offset + f.len = omega arith in
      let beyond : offset + f.len < at = ground (arith, e, add_ok) in
      let (p, found) =
        scan-Around l (suc idx) (offset + f.len) at beyond (omega arith) (omega arith) in
      (
        record {
          front = f ∷ p.front;
          here = p.here;
          back = p.back;
          parts = ap (λ t. f ∷ t) p.parts;
        },
        scan-further f l idx offset at p.front p.here fits_here e found,
      )
]
