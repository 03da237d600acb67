-- ===== src/Gtree/Arena.antt =====
-- Writing to one inode, and the lengths of the children of an inode (src/gtree.rs).
use cola.Prelude.{
  ℕ, zero, suc, ◌+◌, ◌^◌, ◌<◌, ◌≡◌, refl, ap, Bool, List, [], ◌∷◌, ok, take, add, arith,
}
use cola.Slices.{nth, update_nth}
use cola.Gtree.{Leaves, Gtree, Inode, inode, update_inode}
use cola.Gtree.Find.{child_len, sum_lens}

-- The list with another element at an index.
unfoldable pub set_nth : {A : Type 0} → List A → ℕ → A → List A
set_nth [] i y = []
set_nth (x ∷ xs) zero y = y ∷ xs
set_nth (x ∷ xs) (suc i) y = x ∷ set_nth xs i y

module _ {A : Type 0} where
  pub update_nth-set_nth :
      (xs : List A) (i : ℕ) (x : A) (f : A → A)
      → nth xs i ≡ ok x
      → update_nth xs i f ≡ ok (set_nth xs i (f x))
  unfolding nth update_nth set_nth
  update_nth-set_nth [] i x f h = cc
  update_nth-set_nth (y ∷ ys) zero x f h = cc
  update_nth-set_nth (y ∷ ys) (suc i) x f h = rw (update_nth-set_nth ys i x f h)

  pub nth-set_nth :
      (xs : List A) (i : ℕ) (x y : A) → nth xs i ≡ ok x → nth (set_nth xs i y) i ≡ ok y
  unfolding nth set_nth
  nth-set_nth [] i x y h = cc
  nth-set_nth (z ∷ zs) zero x y h = refl
  nth-set_nth (z ∷ zs) (suc i) x y h = nth-set_nth zs i x y h

  pub set_nth-set_nth :
      (xs : List A) (i : ℕ) (y z : A) → set_nth (set_nth xs i y) i z ≡ set_nth xs i z
  unfolding set_nth
  set_nth-set_nth [] i y z = refl
  set_nth-set_nth (x ∷ xs) zero y z = refl
  set_nth-set_nth (x ∷ xs) (suc i) y z = ap (λ t. x ∷ t) (set_nth-set_nth xs i y z)

module _ {L : Type 0} where
  -- The tree with another inode at an index.
  abbrev pub set_inode : ℕ → Inode → Gtree L → Gtree L
  set_inode idx n g = record g { inodes = set_nth g.inodes idx n }

  pub update_inode-set_inode :
      (idx : ℕ) (f : Inode → Inode) (g : Gtree L) (n : Inode)
      → inode idx g ≡ ok n
      → update_inode idx f g ≡ ok (tt, set_inode idx (f n) g)
  unfolding inode update_inode
  update_inode-set_inode idx f g n h = rw (update_nth-set_nth g.inodes idx n f h)

  pub inode-set_inode :
      (idx : ℕ) (m : Inode) (g : Gtree L) (n : Inode)
      → inode idx g ≡ ok n
      → inode idx (set_inode idx m g) ≡ ok m
  unfolding inode
  inode-set_inode idx m g n h = nth-set_nth g.inodes idx n m h

  pub set_inode-set_inode :
      (idx : ℕ) (m n : Inode) (g : Gtree L)
      → set_inode idx n (set_inode idx m g) ≡ set_inode idx n g
  set_inode-set_inode idx m n g =
      ap (λ t. record g { inodes = t }) (set_nth-set_nth g.inodes idx m n)

abbrev pub total : List ℕ → ℕ
total [] = 0
total (n ∷ ns) = n + total ns

module _ {L : Type 0} ⦃P : Leaves L⦄ where
  -- These are the lengths of the children.
  abbrev pub HasLens : Gtree L → Bool → List ℕ → List ℕ → Type 0
  HasLens g leaves [] [] = Unit {0}
  HasLens g leaves [] (n ∷ ns) = ⊥
  HasLens g leaves (c ∷ cs) [] = ⊥
  HasLens g leaves (c ∷ cs) (n ∷ ns) = (child_len g leaves c ≡ ok n) × HasLens g leaves cs ns

  pub sum_lens-total :
      (g : Gtree L) (leaves : Bool) (cs ns : List ℕ) (k i : ℕ)
      → HasLens g leaves cs ns
      → i + total ns < 2 ^ 64
      → sum_lens g leaves (take k cs) i ≡ ok (i + total (take k ns))
  unfolding sum_lens
  sum_lens-total g leaves [] [] zero i h b = ap ok (omega arith)
  sum_lens-total g leaves [] [] (suc k) i h b = ap ok (omega arith)
  sum_lens-total g leaves [] (n ∷ ns) k i h b = absurd h
  sum_lens-total g leaves (c ∷ cs) [] k i h b = absurd h
  sum_lens-total g leaves (c ∷ cs) (n ∷ ns) zero i h b = ap ok (omega arith)
  sum_lens-total g leaves (c ∷ cs) (n ∷ ns) (suc k) i (e, h) b =
      let fits : add i n ≡ i + n = omega arith in
      rw (e, fits, sum_lens-total g leaves cs ns k (i + n) h (omega arith)) (ap ok (omega arith))
