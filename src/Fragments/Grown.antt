-- ===== src/Fragments/Grown.antt =====
-- The tree that replaces a full array holds the same fragments (src/run_indices.rs).
use cola.Prelude.{
  err-ne-ok, ok-injective, ℕ, zero, suc, ◌+◌, ◌-◌, ◌<◌, ◌^◌, ◌≡◌, refl, sym, ap, ◌∙◌, true, false,
  inl, inr, Bool-cases, List, [], ◌∷◌, ◌++◌, append_assoc, Result, ok, err, All, length,
  length-append, ◌==◌, leb, ltb, ◌≤◌, ◌>>=◌, take, add, sub, IsU64, arith,
}
use cola.Panics.{Panic}
use cola.Slices.{nth}
use cola.Gtree.{Leaves, Gtree, Lnode, inode, lnode, leaf}
use cola.Gtree.Find.{child_len, scan_children, child_at_offset, descend, leaf_at_offset}
use cola.Gtree.Edit.{indices, lnodes_of, one_inode, from_leaves}
use cola.Gtree.Shape.{Parts, Child, NoRepeat, Shows, span}
use cola.Fragments.{Fragment, Array, fragments, scan, idx_at_offset}
use cola.Fragments.Tree.{leaf_fragments, fragments_inline, to_gtree}

nth-append :
    {A : Type 0} (front : List A) (x : A) (back : List A) (i : ℕ)
    → length front ≡ i
    → nth (front ++ x ∷ back) i ≡ ok x
unfolding nth
nth-append [] x back zero h = refl
nth-append [] x back (suc i) h = absurd (omega arith)
nth-append (y ∷ front) x back zero h = absurd (omega arith)
nth-append (y ∷ front) x back (suc i) h = nth-append front x back i (omega arith)

length-take_bound : {A : Type 0} (n : ℕ) (xs : List A) → length (take n xs) ≤ n
length-take_bound zero xs = omega arith
length-take_bound (suc n) [] = omega arith
length-take_bound (suc n) (x ∷ xs) = let less = length-take_bound n xs in omega arith

-- Leaves with their indices, from `i` on.
abbrev pub numbered : {L : Type 0} → List L → ℕ → List (ℕ × L)
numbered [] i = []
numbered (l ∷ ls) i = (i, l) ∷ numbered ls (suc i)

module _ {L : Type 0} where
  All-indices : (ls : List L) (i j : ℕ) → i < j → All (λ d. (i == d) ≡ false) (indices ls j)
  All-indices [] i j h = tt
  All-indices (l ∷ ls) i j h = (ground arith, All-indices ls i (suc j) (omega arith))

  NoRepeat-indices : (ls : List L) (i : ℕ) → NoRepeat (indices ls i)
  NoRepeat-indices [] i = tt
  NoRepeat-indices (l ∷ ls) i =
      (All-indices ls i (suc i) (omega arith), NoRepeat-indices ls (suc i))

module _ {L : Type 0} ⦃P : Leaves L⦄ where
  lnode-lnodes_of :
      (g : Gtree L) (front : List (Lnode L)) (l : L) (ls : List L) (i : ℕ)
      → g.lnodes ≡ front ++ lnodes_of (l ∷ ls) 0
      → length front ≡ i
      → lnode i g ≡ ok (record { value = l; parent = 0 })
  unfolding lnode
  lnode-lnodes_of g front l ls i e h =
      ap (λ t. nth t i) e ∙ nth-append front (record { value = l; parent = 0 }) (lnodes_of ls 0) i h

  later_lnodes :
      (g : Gtree L) (front : List (Lnode L)) (l : L) (ls : List L)
      → g.lnodes ≡ front ++ lnodes_of (l ∷ ls) 0
      → g.lnodes ≡ (front ++ record { value = l; parent = 0 } ∷ []) ++ lnodes_of ls 0
  later_lnodes g front l ls e =
      e ∙ sym (append_assoc front (record { value = l; parent = 0 } ∷ []) (lnodes_of ls 0))

  Parts-lnodes_of :
      (g : Gtree L) (k : ℕ) (front : List (Lnode L)) (ls : List L) (i : ℕ)
      → g.lnodes ≡ front ++ lnodes_of ls 0
      → length front ≡ i
      → Parts (Child g k 0 true) (indices ls i) (numbered ls i)
  Parts-lnodes_of g k front [] i e h = refl
  Parts-lnodes_of g k front (l ∷ ls) i e h =
      let x : Lnode L = record { value = l; parent = 0 } in
      (
        (i, l) ∷ [],
        numbered ls (suc i),
        (x, lnode-lnodes_of g front l ls i e h, refl, refl),
        refl,
        Parts-lnodes_of g k (front ++ x ∷ []) ls (suc i) (later_lnodes g front l ls e)
            (length-append front (x ∷ []) ∙ omega arith),
      )

  pub from_leaves-one_inode :
      (ls : List L) (tot_len : ℕ)
      → length ls ≤ P.arity
      → from_leaves ls tot_len ≡ ok (one_inode ls tot_len)
  unfolding from_leaves
  from_leaves-one_inode ls tot_len few =
      let room : ltb P.arity (length ls) ≡ false = ground arith in rw room refl

  one_inode-Shows :
      (ls : List L) (tot_len : ℕ)
      → tot_len ≡ span (numbered ls 0)
      → IsU64 tot_len
      → Shows (one_inode ls tot_len) (numbered ls 0)
  unfolding inode
  one_inode-Shows ls tot_len h fits = record {
    height = 0;
    root = record {
      tot_len = tot_len;
      parent = 2 ^ 64 - 1;
      children = indices ls 0;
      has_leaves = true;
    };
    at_root = refl;
    tot_len = h;
    apart = NoRepeat-indices ls 0;
    below = Parts-lnodes_of (one_inode ls tot_len) 0 [] ls 0 refl refl;
    low = omega arith;
    fits = omega (arith, h);
    cursor = tt;
  }

  -- Making a tree from at most as many leaves as the arity and their total length, which fits in 64 bits,
  -- does not panic, and the tree shows the leaves in order.
  pub from_leaves-Shows :
      (ls : List L) (tot_len : ℕ)
      → length ls ≤ P.arity
      → tot_len ≡ span (numbered ls 0)
      → IsU64 tot_len
      → (g : Gtree L) × (from_leaves ls tot_len ≡ ok g) × Shows g (numbered ls 0)
  from_leaves-Shows ls tot_len few h fits = (
    one_inode ls tot_len,
    from_leaves-one_inode ls tot_len few,
    one_inode-Shows ls tot_len h fits,
  )

-- The children of the only inode of a tree are scanned as the fragments of an array.
scan_children-scan :
    (g : Gtree Fragment) (front : List (Lnode Fragment)) (fs : List Fragment) (i offset at : ℕ)
    → g.lnodes ≡ front ++ lnodes_of fs 0
    → length front ≡ i
    → scan_children ⦃P = leaf_fragments⦄ g true (indices fs i) i offset at ≡ scan fs i offset at
unfolding scan_children scan child_len leaf
scan_children-scan g front [] i offset at e h = refl
scan_children-scan g front (f ∷ fs) i offset at e h =
    let x : Lnode Fragment = record { value = f; parent = 0 } in
    rw
      (
        lnode-lnodes_of ⦃P = leaf_fragments⦄ g front f fs i e h,
        scan_children-scan g (front ++ x ∷ []) fs (suc i) (add offset f.len) at
            (later_lnodes ⦃P = leaf_fragments⦄ g front f fs e)
            (length-append front (x ∷ []) ∙ omega arith),
      )
      refl

-- The index that a scan returns is that of a fragment, and the offset fits.
abbrev Inside : List Fragment → ℕ → ℕ × ℕ → Type 0
Inside fs i p = (j : ℕ) × (p.0 ≡ i + j) × (nth (indices fs i) j ≡ ok p.0) × IsU64 p.1

Inside-here :
    (f : Fragment) (fs : List Fragment) (i at : ℕ) (p : ℕ × ℕ)
    → (i, sub at f.len) ≡ p
    → Inside (f ∷ fs) i p
unfolding nth
Inside-here f fs i at p e =
    let first : i ≡ p.0 = ap (λ q. q.0) e in
    let fits : sub at f.len ≡ p.1 = ap (λ q. q.1) e in (0, omega arith, ap ok first, omega arith)

Inside-later :
    (f : Fragment) (fs : List Fragment) (i : ℕ) (p : ℕ × ℕ)
    → Inside fs (suc i) p
    → Inside (f ∷ fs) i p
unfolding nth
Inside-later f fs i p (j, e, n, fits) = (suc j, omega arith, n, fits)

scan-Inside :
    (fs : List Fragment) (i offset at : ℕ) (p : ℕ × ℕ) → scan fs i offset at ≡ ok p → Inside fs i p
unfolding scan
scan-Inside [] i offset at p h = absurd (err-ne-ok h)
scan-Inside (f ∷ fs) i offset at p h = elim (Bool-cases (leb at (add offset f.len))) [
  | inl q ↦ Inside-here f fs i (add offset f.len) p (ok-injective (rw q at h))
  | inr q ↦ Inside-later f fs i p (scan-Inside fs (suc i) (add offset f.len) at p (rw q at h))
]

module _ (a : Array) (o : ℕ) (fits : IsU64 o) where
  abbrev grown : Gtree Fragment
  grown = one_inode (fragments a) a.total_len

  scanned :
      (r : Result Panic (ℕ × ℕ))
      → scan (fragments a) 0 0 o ≡ r
      → leaf_at_offset ⦃P = leaf_fragments⦄ o grown ≡ r
  unfolding leaf_at_offset descend child_at_offset inode
  scanned (err reason) h =
      let exact : sub o 0 ≡ o = omega arith in
      let found = scan_children-scan grown [] (fragments a) 0 0 o refl refl in
      rw (exact, found, h) refl
  scanned (ok p) h =
      let exact : sub o 0 ≡ o = omega arith in
      let found = scan_children-scan grown [] (fragments a) 0 0 o refl refl in
      let (j, e, n, small) = scan-Inside (fragments a) 0 0 o p h in
      let same : j ≡ p.0 = omega arith in
      let child : nth (indices (fragments a) 0) p.0 ≡ ok p.0 =
        ap (nth (indices (fragments a) 0)) (sym same) ∙ n in
      let start : add 0 p.1 ≡ p.1 = omega arith in rw (exact, found, h, child, start) refl

  -- The tree that replaces an array of fragments, which has 8 of them at most, is made without a panic, and
  -- in it `leaf_at_offset` returns at every offset that fits in 64 bits what `idx_at_offset` returns in the
  -- array: the same index and offset, or the same panic.
  pub leaf_at_offset-to_gtree :
      a.len ≤ fragments_inline
      → (do g ← to_gtree a; leaf_at_offset ⦃P = leaf_fragments⦄ o g) ≡ idx_at_offset a o
  unfolding idx_at_offset
  leaf_at_offset-to_gtree few =
      let size : length (fragments a) ≤ fragments_inline =
        let less = length-take_bound a.len a.slots in omega arith in
      rw (from_leaves-one_inode ⦃P = leaf_fragments⦄ (fragments a) a.total_len size)
        (scanned (idx_at_offset a o) refl)
