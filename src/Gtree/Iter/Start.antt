-- ===== src/Gtree/Iter/Start.antt =====
-- Where an iterator that starts at a leaf stands (`Leaves::new`, src/gtree.rs).
use cola.Prelude.{
  ℕ, zero, suc, ◌+◌, ◌<◌, ◌≡◌, refl, sym, ap, ◌∙◌, Bool, true, false, List, [], ◌∷◌, ◌++◌,
  append_assoc, append-nil, Result, ok, ◌>>=◌, drop, if◌then◌else◌, ==_refl, arith,
}
use mathlib.Core.Path.{subst}
use cola.Panics.{Panic}
use cola.Slices.{nth}
use cola.Gtree.{Leaves, Gtree, Inode, Lnode, inode, lnode, rounds}
use cola.Gtree.Node.{idx_of_leaf_child, idx_of_internal_child}
use cola.Gtree.Find.{is_root, idx_of_inode_in_parent}
use cola.Gtree.Walk.{siblings}
use cola.Gtree.Shape.{NoRepeat, Parts, Child, Spot, Shows}
use cola.Gtree.Iter.{LeavesFrom, path_from_root, leaves_from}
use cola.Gtree.Iter.Rest.{Later, Rest}
use cola.Gtree.Iter.Parts.{position-nth, drop-nth, single, In, Parts-In}

module _ {L : Type 0} ⦃P : Leaves L⦄ (g : Gtree L) where
  -- The iterators that start at a leaf, or after it.
  pub record Starts (here : ℕ × L) (back : List (ℕ × L)) : Type 0 where
    pub with_it : LeavesFrom
    pub included : leaves_from true here.0 g ≡ ok with_it
    pub from_it : Rest g with_it (here ∷ back)
    pub after_it : LeavesFrom
    pub excluded : leaves_from false here.0 g ≡ ok after_it
    pub behind_it : Rest g after_it back
    pub beside : siblings false here.0 g ≡ ok after_it.current_leaves

  abbrev standing : List ℕ → Result Panic (List (ℕ × ℕ)) → Result Panic LeavesFrom
  standing cs found = do path ← found; ok (record { path = path; current_leaves = cs })

  leaves_from-standing :
      (include : Bool) (i : ℕ) (cs : List ℕ) (l : Lnode L) (path : List (ℕ × ℕ))
      → siblings include i g ≡ ok cs
      → lnode i g ≡ ok l
      → path_from_root g (rounds g) l.parent ≡ ok path
      → leaves_from include i g ≡ ok (record { path = path; current_leaves = cs })
  unfolding leaves_from
  leaves_from-standing include i cs l path a b c =
      ap (λ r. (do cs ← r; l ← lnode i g; standing cs (path_from_root g (rounds g) l.parent))) a
      ∙ ap (λ r. (do l ← r; standing cs (path_from_root g (rounds g) l.parent))) b
      ∙ ap (standing cs) c

  siblings-drop :
      (include : Bool) (idx i place : ℕ) (n : Inode) (l : Lnode L)
      → inode idx g ≡ ok n
      → NoRepeat n.children
      → n.has_leaves ≡ true
      → lnode i g ≡ ok l
      → l.parent ≡ idx
      → nth n.children place ≡ ok i
      → siblings include i g ≡ ok (drop (if include then place else suc place) n.children)
  unfolding siblings idx_of_leaf_child
  siblings-drop include idx i place n l e alone kind value parent at_place =
      let sum : 0 + place ≡ place = omega arith in
      let at = position-nth n.children place i 0 alone at_place ∙ ap ok sum in
      rw (value, parent, e, kind, at) refl

  -- The climb from an inode that is so many levels below the root finds the path to it.
  abbrev Climb : ℕ → List (ℕ × ℕ) → ℕ → Type 0
  Climb idx path depth = (fuel : ℕ) → depth < fuel → path_from_root g fuel idx ≡ ok path

  module _ (k idx : ℕ) (n : Inode) (path : List (ℕ × ℕ)) (depth : ℕ) (above : List (ℕ × L))
      (e : inode idx g ≡ ok n) (alone : NoRepeat n.children) (climb : Climb idx path depth)
      (later : Later g path above) (deep : depth < rounds g) where
    Starts-child :
        (place child : ℕ) (l : Lnode L) (behind : List (ℕ × L))
        → n.has_leaves ≡ true
        → nth n.children place ≡ ok child
        → lnode child g ≡ ok l
        → l.parent ≡ idx
        → Parts (Child g k idx true) (drop (suc place) n.children) behind
        → Starts (child, l.value) (behind ++ above)
    Starts-child place child l behind kind at_place value parent others =
        let here = ap (path_from_root g (rounds g)) parent ∙ climb (rounds g) deep in
        let whole = drop-nth n.children place child at_place in
        record {
          with_it = record { path = path; current_leaves = drop place n.children };
          included =
              leaves_from-standing true child (drop place n.children) l path
                (siblings-drop true idx child place n l e alone kind value parent at_place) value
                here;
          from_it = record {
            level = k;
            parent = idx;
            here = (child, l.value) ∷ behind;
            above = above;
            current =
                subst (λ cs. Parts (Child g k idx true) cs ((child, l.value) ∷ behind)) (sym whole)
                  ((child, l.value) ∷ [], behind, (l, value, parent, refl), refl, others);
            later = later;
            parts = refl;
          };
          after_it = record { path = path; current_leaves = drop (suc place) n.children };
          excluded =
              leaves_from-standing false child (drop (suc place) n.children) l path
                (siblings-drop false idx child place n l e alone kind value parent at_place) value
                here;
          beside = siblings-drop false idx child place n l e alone kind value parent at_place;
          behind_it = record {
            level = k;
            parent = idx;
            here = behind;
            above = above;
            current = others;
            later = later;
            parts = refl;
          };
        }

    Starts-here :
        (here : ℕ × L) (back : List (ℕ × L))
        → n.has_leaves ≡ true
        → In (Child g k idx true) n.children here back
        → Starts here (back ++ above)
    Starts-here here back kind i =
        let (l, value, parent, only) = i.holds in
        let (same, none_after) =
          single i.front here i.rest (i.child, l.value) (sym only ∙ i.inside) in
        let behind : i.later ≡ back = sym (i.after ∙ ap (λ t. t ++ i.later) none_after) in
        subst (λ t. Starts t (back ++ above)) same
          (subst (λ t. Starts (i.child, l.value) (t ++ above)) behind
            (Starts-child i.place i.child l i.later kind i.at_place value parent i.others))

    Climb-below :
        (place child : ℕ) (m : Inode)
        → n.has_leaves ≡ false
        → nth n.children place ≡ ok child
        → inode child g ≡ ok m
        → m.parent ≡ idx
        → is_root child g ≡ false
        → Climb child ((idx, place) ∷ path) (suc depth)
    unfolding path_from_root idx_of_inode_in_parent idx_of_internal_child
    Climb-below place child m kind at_place e' parent inner zero enough = absurd (omega arith)
    Climb-below place child m kind at_place e' parent inner (suc fuel) enough =
        let sum : 0 + place ≡ place = omega arith in
        let at = position-nth n.children place child 0 alone at_place ∙ ap ok sum in
        rw (inner, e', parent, e, kind, at, climb fuel (omega arith)) refl

  descend-Starts :
      (k idx : ℕ) (n : Inode) (path : List (ℕ × ℕ)) (depth : ℕ) (above ls front : List (ℕ × L))
      (here : ℕ × L) (back : List (ℕ × L)) (leaves : Bool)
      → inode idx g ≡ ok n
      → NoRepeat n.children
      → n.has_leaves ≡ leaves
      → Parts (Child g k idx leaves) n.children ls
      → ls ≡ front ++ here ∷ back
      → Climb idx path depth
      → Later g path above
      → k + depth < rounds g
      → Starts here (back ++ above)
  descend-Starts k idx n path depth above ls front here back true e alone kind parts split climb
        later deep =
      Starts-here k idx n path depth above e alone climb later (omega arith) here back kind
        (Parts-In (Child g k idx true) n.children ls front here back parts split)
  descend-Starts zero idx n path depth above ls front here back false e alone kind parts split climb
        later deep =
      absurd (Parts-In (Child g zero idx false) n.children ls front here back parts split).holds
  descend-Starts (suc k) idx n path depth above ls front here back false e alone kind parts split
        climb later deep =
      let i = Parts-In (Child g (suc k) idx false) n.children ls front here back parts split in
      let (m, e', parent, inner, alone', len, below) = i.holds in
      let joined : i.rest ++ (i.later ++ above) ≡ back ++ above =
        sym (ap (λ t. t ++ above) i.after ∙ append_assoc i.rest i.later above) in
      subst (Starts here) joined (
        descend-Starts k i.child m ((idx, i.place) ∷ path) (suc depth) (i.later ++ above) i.part
          i.front here i.rest m.has_leaves e' alone' refl below i.inside
          (Climb-below (suc k) idx n path depth above e alone climb later (omega arith) i.place
            i.child m kind i.at_place e' parent inner)
          (
            i.later,
            above,
            refl,
            record {
              level = suc k;
              n = n;
              here = e;
              internal = kind;
              low = omega arith;
              parts = i.others;
            },
            later,
          )
          (omega arith))

  at_root : Climb g.root_idx [] 0
  unfolding path_from_root
  at_root zero enough = absurd (omega arith)
  at_root (suc fuel) enough = rw (==_refl g.root_idx) refl

  -- Every leaf of a tree that shows its leaves can be started at.
  pub Shows-Starts : (ls : List (ℕ × L)) → Shows g ls → (s : Spot ls) → Starts s.here s.back
  unfolding path_from_root
  Shows-Starts ls shows s = subst (Starts s.here) (append-nil s.back) (
      descend-Starts shows.height g.root_idx shows.root [] 0 [] ls s.front s.here s.back
        shows.root.has_leaves shows.at_root shows.apart refl shows.below s.parts at_root refl
        (omega (arith, shows.low)))
