-- ===== src/EditRun/Cells.antt =====
-- Runs as what they stand for: one cell for each inserted character, with its clock value and
-- whether it has been deleted.
use cola.Prelude.{
  ℕ, zero, suc, ◌+◌, ◌-◌, ◌≤◌, ◌≡◌, refl, Bool, true, Option, none, some, List, [], ◌∷◌, ◌++◌,
  arith,
}
use cola.EditRun.{EditRun, replica_id, start, end}

pub record Cell : Type 0 where
  pub inserted_by : ℕ
  pub offset : ℕ
  pub deleted : Bool

-- The `n` cells from the clock value `a` on.
unfoldable pub cells_from : ℕ → Bool → ℕ → ℕ → List Cell
cells_from id d a zero = []
cells_from id d a (suc n) =
    (record { inserted_by = id; offset = a; deleted = d }) ∷ cells_from id d (suc a) n

unfoldable pub cells : EditRun → List Cell
cells r = cells_from (replica_id r) r.is_deleted (start r) (end r - start r)

unfoldable pub cells_of : Option EditRun → List Cell
unfolding cells
cells_of none = []
cells_of (some r) = cells r

-- Deletes `n` cells after skipping `k`.
unfoldable pub mark : ℕ → ℕ → List Cell → List Cell
mark zero zero l = l
mark zero (suc n) [] = []
mark zero (suc n) (c ∷ l) = (record c { deleted = true }) ∷ mark zero n l
mark (suc k) n [] = []
mark (suc k) n (c ∷ l) = c ∷ mark k n l

cells_from-add :
    (id : ℕ) (d : Bool) (a m n : ℕ)
    → cells_from id d a (m + n) ≡ cells_from id d a m ++ cells_from id d (a + m) n
unfolding cells_from
cells_from-add id d a zero n =
    let e : 0 + n ≡ n = omega arith in let f : a + 0 ≡ a = omega arith in rw (e, f)
cells_from-add id d a (suc m) n =
    let e : suc m + n ≡ suc (m + n) = omega arith in
    let f : a + suc m ≡ suc a + m = omega arith in rw (e, f, cells_from-add id d (suc a) m n)

-- The cells of a run up to an offset and from it on.
pub cells_from_cut :
    (id : ℕ) (d : Bool) (a b c : ℕ)
    → a ≤ b
    → b ≤ c
    → cells_from id d a (c - a) ≡ cells_from id d a (b - a) ++ cells_from id d b (c - b)
cells_from_cut id d a b c h k =
    let e : c - a ≡ (b - a) + (c - b) = omega arith in
    let f : a + (b - a) ≡ b = omega arith in
    rw e (rw (cells_from-add id d a (b - a) (c - b)) (rw f))

mark_skip :
    (k n : ℕ) (id : ℕ) (d : Bool) (a : ℕ) (l : List Cell)
    → mark k n (cells_from id d a k ++ l) ≡ cells_from id d a k ++ mark zero n l
unfolding mark cells_from
mark_skip zero n id d a l = refl
mark_skip (suc k) n id d a l = rw (mark_skip k n id d (suc a) l)

mark_first :
    (n : ℕ) (id : ℕ) (d : Bool) (a : ℕ) (l : List Cell)
    → mark zero n (cells_from id d a n ++ l) ≡ cells_from id true a n ++ l
unfolding mark cells_from
mark_first zero id d a l = refl
mark_first (suc n) id d a l = rw (mark_first n id d (suc a) l)

-- Deleting the cells between two clock values of a run.
pub mark_cut :
    (id : ℕ) (d : Bool) (a b c e : ℕ)
    → a ≤ b
    → b ≤ c
    → c ≤ e
    → mark (b - a) (c - b) (cells_from id d a (e - a))
      ≡ cells_from id d a (b - a) ++ (cells_from id true b (c - b) ++ cells_from id d c (e - c))
mark_cut id d a b c e h k l =
    rw (cells_from_cut id d a b e h (omega arith), cells_from_cut id d b c e k l)
      (rw (mark_skip (b - a) (c - b) id d a _, mark_first (c - b) id d b _))
