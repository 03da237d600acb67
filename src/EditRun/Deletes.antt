-- ===== src/EditRun/Deletes.antt =====
-- What splitting, joining and deleting do to the cells of a run.
use cola.Prelude.{
  ℕ, zero, suc, ◌+◌, ◌-◌, ◌≤◌, ◌<◌, ◌≡◌, refl, sym, ◌∙◌, Option, none, some, List, [], ◌∷◌, ◌++◌,
  append-nil, arith,
}
use mathlib.Core.Path.{ap₂}
use cola.Text
use cola.Text.{Range}
use cola.EditRun.{EditRun, start, end, split, delete, delete_range, with_range}
use cola.EditRun.Cells.{Cell, cells_from, cells, cells_of, mark, cells_from_cut, mark_cut}
use native.Mathlib.Decide.{dec_lt, ℕ_discrete}

-- The cells of what a split returns, in order.
abbrev pub pieces : EditRun × Option EditRun → List Cell
pieces (r, o) = cells r ++ cells_of o

abbrev pub pieces3 : EditRun × Option EditRun × Option EditRun → List Cell
pieces3 (r, o, p) = cells r ++ (cells_of o ++ cells_of p)

-- Where a cut at an offset falls.
data Cut (n : ℕ) : ℕ → Type 0 where
  at_start : {o : ℕ} → o ≡ 0 → Cut n o
  inside : {o : ℕ} → 0 < o → o < n → Cut n o
  at_end : {o : ℕ} → 0 < o → o ≡ n → Cut n o

cut : (n o : ℕ) → o ≤ n → Cut n o
cut n o h = elim (ℕ_discrete o 0) [
  | yes e ↦ at_start e
  | no ne ↦ elim (dec_lt o n) [
    | yes l ↦ inside (omega arith) l
    | no l ↦ at_end (omega arith) (omega arith)
  ]
]

module _ (r : EditRun) (v : Text.IsValid r.text) where
  split_start : (o : ℕ) → o ≡ 0 → split r o ≡ (r, none)
  unfolding split
  split_start o h = ground arith

  split_end : (o : ℕ) → o ≡ end r - start r → split r o ≡ (r, none)
  unfolding split
  split_end o h = ground (arith, v)

  -- The two halves of a run, cut at the clock value `start + o`.
  split_inside :
      (o : ℕ)
      → 0 < o
      → o < end r - start r
      → split r o
        ≡ (with_range r (start r) (start r + o), some (with_range r (start r + o) (end r)))
  unfolding split
  split_inside o h k = ground (arith, v)

  -- Cutting a run of valid text at an offset that is at most its length keeps its cells, in order.
  pub pieces-split : (o : ℕ) → o ≤ end r - start r → pieces (split r o) ≡ cells r
  unfolding cells_of
  pieces-split o h = at_cut (cut (end r - start r) o h)
    where
      at_cut : Cut (end r - start r) o → pieces (split r o) ≡ cells r
      at_cut (at_start e) = rw (split_start o e) (append-nil (cells r))
      at_cut (inside p q) =
          rw (split_inside o p q)
            (sym (cells_from_cut _ _ (start r) (start r + o) (end r) (omega arith) (omega arith)))
      at_cut (at_end p q) = rw (split_end o q) (append-nil (cells r))

  -- The branches of `delete_range`, at valid offsets.
  delete_nothing :
      (a b : ℕ) → a ≡ b → delete_range r (record { start = a; end = b }) ≡ (r, none, none)
  unfolding delete_range
  delete_nothing a b h = ground arith

  delete_all :
      (a b : ℕ)
      → a ≡ 0
      → 0 < b
      → b ≡ end r - start r
      → delete_range r (record { start = a; end = b }) ≡ (delete r, none, none)
  unfolding delete_range
  delete_all a b h k l = ground (arith, v)

  delete_head :
      (a b : ℕ)
      → a ≡ 0
      → 0 < b
      → b < end r - start r
      → delete_range r (record { start = a; end = b }) ≡ (
        delete (with_range r (start r) (start r + b)),
        some (with_range r (start r + b) (end r)),
        none,
      )
  unfolding delete_range
  delete_head a b h k l = ground (arith, v, split_inside b k l)

  delete_tail :
      (a b : ℕ)
      → 0 < a
      → a < b
      → b ≡ end r - start r
      → delete_range r (record { start = a; end = b }) ≡ (
        with_range r (start r) (start r + a),
        some (delete (with_range r (start r + a) (end r))),
        none,
      )
  unfolding delete_range
  delete_tail a b h k l = ground (arith, v)

  delete_middle :
      (a b : ℕ)
      → 0 < a
      → a < b
      → b < end r - start r
      → delete_range r (record { start = a; end = b }) ≡ (
        with_range r (start r) (start r + a),
        some (delete (with_range r (start r + a) (start r + b))),
        some (with_range r (start r + b) (end r)),
      )
  unfolding delete_range
  delete_middle a b h k l = ground (arith, v)

mark_none : (k : ℕ) (l : List Cell) → mark k 0 l ≡ l
unfolding mark
mark_none zero l = refl
mark_none (suc k) [] = refl
mark_none (suc k) (c ∷ l) = rw (mark_none k l)

module _ (r : EditRun) (v : Text.IsValid r.text) where
  -- Deleting `a..b` of a run marks exactly its cells from `a` up to `b`, and keeps all the others.
  mark-cells :
      (a b : ℕ)
      → a ≤ b
      → b ≤ end r - start r
      → mark a (b - a) (cells r)
        ≡ cells (with_range r (start r) (start r + a))
          ++ (cells (delete (with_range r (start r + a) (start r + b)))
              ++ cells (with_range r (start r + b) (end r)))
  unfolding cells
  mark-cells a b h k =
      let e : a ≡ (start r + a) - start r = omega arith in
      let f : b - a ≡ (start r + b) - (start r + a) = omega arith in
      ap₂ (λ k n. mark k n (cells r)) e f
      ∙ mark_cut _ _ (start r) (start r + a) (start r + b) (end r) (omega arith) (omega arith)
          (omega arith)

  empty_cells : (q : EditRun) → end q ≤ start q → cells q ≡ []
  unfolding cells cells_from
  empty_cells q h = let e : end q - start q ≡ 0 = omega arith in rw e

  from_start :
      (a b : ℕ)
      → a ≡ 0
      → 0 < b
      → b ≤ end r - start r
      → pieces3 (delete_range r (record { start = a; end = b }))
        ≡ cells (delete (with_range r (start r + a) (start r + b)))
          ++ cells (with_range r (start r + b) (end r))
  unfolding cells_of
  from_start a b z p k =
      let e : start r + a ≡ start r = omega arith in
      elim (cut (end r - start r) b k) [
        | at_start q ↦ absurd (omega arith)
        | inside _ q ↦
            rw (delete_head r v a b z p q, e)
              (rw (append-nil (cells (with_range r (start r + b) (end r)))))
        | at_end _ q ↦
            let f : start r + b ≡ end r = omega arith in
            rw (delete_all r v a b z p q, e, f)
              (rw (empty_cells (with_range r (end r) (end r)) (omega arith)))
      ]

  from_inside :
      (a b : ℕ)
      → 0 < a
      → a < b
      → b ≤ end r - start r
      → pieces3 (delete_range r (record { start = a; end = b }))
        ≡ cells (with_range r (start r) (start r + a))
          ++ (cells (delete (with_range r (start r + a) (start r + b)))
              ++ cells (with_range r (start r + b) (end r)))
  unfolding cells_of
  from_inside a b p q k = elim (cut (end r - start r) b k) [
    | at_start z ↦ absurd (omega arith)
    | inside _ l ↦ rw (delete_middle r v a b p q l)
    | at_end _ l ↦
        let f : start r + b ≡ end r = omega arith in
        rw (delete_tail r v a b p q l, f)
          (rw (empty_cells (with_range r (end r) (end r)) (omega arith)))
  ]

  -- Deleting the range `a..b` of a run with a valid text, where `a ≤ b` and `b` is at most the
  -- length of the run, leaves pieces whose cells are, in order, the cells of the run with exactly
  -- those from `a` up to `b` marked as deleted.
  pub pieces-delete_range :
      (a b : ℕ)
      → a ≤ b
      → b ≤ end r - start r
      → pieces3 (delete_range r (record { start = a; end = b })) ≡ mark a (b - a) (cells r)
  unfolding cells_of
  pieces-delete_range a b h k = elim (ℕ_discrete a b) [
    | yes e ↦
        let z : b - a ≡ 0 = omega arith in
        rw (delete_nothing r v a b e, z) (rw (append-nil (cells r)) (sym (mark_none a (cells r))))
    | no ne ↦ elim (cut (end r - start r) a (omega arith)) [
      | at_start z ↦
          rw (mark-cells a b h k, empty_cells (with_range r (start r) (start r + a)) (omega arith))
            (from_start a b z (omega arith) k)
      | inside p q ↦ rw (mark-cells a b h k) (from_inside a b p (omega arith) k)
      | at_end p q ↦ absurd (omega arith)
    ]
  ]
