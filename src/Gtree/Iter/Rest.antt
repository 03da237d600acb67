-- ===== src/Gtree/Iter/Rest.antt =====
-- What an iterator over the leaves has before it, and what `next` makes of it (`mod iter`, src/gtree.rs).
use cola.Prelude.{
  All, ok-injective, ℕ, zero, suc, ◌<◌, ◌≡◌, refl, sym, ap, ◌∙◌, true, false, List, [], ◌∷◌, ◌++◌,
  append_assoc, ok, length, drop, ltb, All, arith,
}
use mathlib.Core.Path.{subst}
use cola.Slices.{nth}
use cola.Gtree.{Leaves, Gtree, Inode, inode, rounds}
use cola.Gtree.Shape.{Parts, Child}
use cola.Gtree.Iter.{LeavesFrom, next_path}

-- What is left of a list from an index on: nothing, or the element there and what is after it.
drop-nil : (cs : List ℕ) (i : ℕ) → drop i cs ≡ [] → ltb i (length cs) ≡ false
drop-nil [] i e = ground arith
drop-nil (c ∷ cs) zero e = cc
drop-nil (c ∷ cs) (suc i) e = let later = drop-nil cs i e in ground arith

pub drop-cons :
    (cs : List ℕ) (i c : ℕ) (rest : List ℕ)
    → drop i cs ≡ c ∷ rest
    → (ltb i (length cs) ≡ true) × (nth cs i ≡ ok c) × (drop (suc i) cs ≡ rest)
unfolding nth
drop-cons [] zero c rest e = cc
drop-cons [] (suc i) c rest e = cc
drop-cons (d ∷ cs) zero c rest e = (ground arith, cc, cc)
drop-cons (d ∷ cs) (suc i) c rest e =
    let (within, found, after) = drop-cons cs i c rest e in (ground arith, found, after)

-- Every inode has a child.
abbrev pub Populated : {L : Type 0} → Gtree L → Type 0
Populated g = (idx : ℕ) (n : Inode) → inode idx g ≡ ok n → 0 < length n.children

in_list :
    (l : List Inode) (idx : ℕ) (n : Inode)
    → All (λ n. 0 < length n.children) l
    → nth l idx ≡ ok n
    → 0 < length n.children
unfolding nth
in_list [] idx n a e = cc
in_list (m ∷ l) zero n (b, a) e = subst (λ n. 0 < length n.children) (ok-injective e) b
in_list (m ∷ l) (suc idx) n (b, a) e = in_list l idx n a e

pub All-Populated :
    {L : Type 0} (g : Gtree L) → All (λ n. 0 < length n.children) g.inodes → Populated g
unfolding inode
All-Populated g a idx n e = in_list g.inodes idx n a e

module _ {L : Type 0} ⦃P : Leaves L⦄ (g : Gtree L) where
  -- The leaves below the children of an inode from an index on, at most so many levels below it.
  pub record Below (idx i : ℕ) (ls : List (ℕ × L)) : Type 0 where
    pub level : ℕ
    pub n : Inode
    pub here : inode idx g ≡ ok n
    pub internal : n.has_leaves ≡ false
    pub low : level < rounds g
    pub parts : Parts (Child g level idx false) (drop i n.children) ls

  -- The leaves below the later children of the inodes on a path.
  abbrev pub Later : List (ℕ × ℕ) → List (ℕ × L) → Type 0
  Later [] ls = ls ≡ []
  Later ((idx, i) ∷ path) ls =
      (below : List (ℕ × L)) × (above : List (ℕ × L)) × (ls ≡ below ++ above)
      × Below idx (suc i) below
      × Later path above

  -- The leaves that an iterator has before it.
  pub record Rest (it : LeavesFrom) (ls : List (ℕ × L)) : Type 0 where
    pub level : ℕ
    pub parent : ℕ
    pub here : List (ℕ × L)
    pub above : List (ℕ × L)
    pub current : Parts (Child g level parent true) it.current_leaves here
    pub later : Later it.path above
    pub parts : ls ≡ here ++ above

  -- The child at an index of an inode, which is an inode itself, with the leaves below it and after it.
  pub record Stop (idx i : ℕ) (path : List (ℕ × ℕ)) (ls : List (ℕ × L)) : Type 0 where
    pub level : ℕ
    pub n : Inode
    pub here : inode idx g ≡ ok n
    pub internal : n.has_leaves ≡ false
    pub low : level < rounds g
    pub child : ℕ
    pub rest : List ℕ
    pub at_child : drop i n.children ≡ child ∷ rest
    pub part : List (ℕ × L)
    pub others : List (ℕ × L)
    pub above : List (ℕ × L)
    pub holds : Child g level idx false child part
    pub siblings : Parts (Child g level idx false) rest others
    pub later : Later path above
    pub parts : ls ≡ part ++ (others ++ above)

  -- The path to the inode that comes next, if there is one.
  abbrev pub Landed : List (ℕ × ℕ) → List (ℕ × L) → Type 0
  Landed [] ls = ls ≡ []
  Landed ((idx, i) ∷ path) ls = Stop idx i path ls

  pub record Goes (path : List (ℕ × ℕ)) (ls : List (ℕ × L)) : Type 0 where
    pub path' : List (ℕ × ℕ)
    pub goes : next_path g path ≡ ok path'
    pub landed : Landed path' ls

  module _ (idx i : ℕ) (path : List (ℕ × ℕ)) (ls below above : List (ℕ × L))
      (e : ls ≡ below ++ above) (b : Below idx (suc i) below) where
    Goes-up : drop (suc i) b.n.children ≡ [] → Goes path above → Goes ((idx, i) ∷ path) ls
    unfolding next_path
    Goes-up none_left g' =
        let over = drop-nil b.n.children (suc i) none_left in
        let empty : below ≡ [] =
          subst (λ cs. Parts (Child g b.level idx false) cs below) none_left b.parts in
        let same : ls ≡ above = e ∙ ap (λ t. t ++ above) empty in
        record {
          path' = g'.path';
          goes = rw (b.here, g'.goes, over) refl;
          landed = subst (Landed g'.path') (sym same) g'.landed;
        }

    Goes-here :
        (c : ℕ) (rest : List ℕ)
        → drop (suc i) b.n.children ≡ c ∷ rest
        → Later path above
        → Goes path above
        → Goes ((idx, i) ∷ path) ls
    unfolding next_path
    Goes-here c rest left later g' =
        let (within, _, _) = drop-cons b.n.children (suc i) c rest left in
        let (part, others, holds, parts, siblings) =
          subst (λ cs. Parts (Child g b.level idx false) cs below) left b.parts in
        record {
          path' = (idx, suc i) ∷ path;
          goes = rw (b.here, g'.goes, within) refl;
          landed = record {
            level = b.level;
            n = b.n;
            here = b.here;
            internal = b.internal;
            low = b.low;
            child = c;
            rest = rest;
            at_child = left;
            part = part;
            others = others;
            above = above;
            holds = holds;
            siblings = siblings;
            later = later;
            parts = e ∙ ap (λ t. t ++ above) parts ∙ append_assoc part others above;
          };
        }

    Goes-any :
        (left : List ℕ)
        → drop (suc i) b.n.children ≡ left
        → Later path above
        → Goes path above
        → Goes ((idx, i) ∷ path) ls
    Goes-any [] q later g' = Goes-up q g'
    Goes-any (c ∷ rest) q later g' = Goes-here c rest q later g'

  pub Later-Goes : (path : List (ℕ × ℕ)) (ls : List (ℕ × L)) → Later path ls → Goes path ls
  unfolding next_path
  Later-Goes [] ls e = record { path' = []; goes = refl; landed = e }
  Later-Goes ((idx, i) ∷ path) ls (below, above, e, b, later) =
      Goes-any idx i path ls below above e b (drop (suc i) b.n.children) refl later
        (Later-Goes path above later)
