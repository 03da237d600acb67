-- ===== src/Gtree/Iter/Visits.antt =====
-- The iterator yields the leaves that are before it, one after the other (`mod iter`, src/gtree.rs).
use cola.Prelude.{
  ℕ, zero, suc, ◌<◌, ◌≡◌, refl, sym, ap, ◌∙◌, true, Option, none, some, List, [], ◌∷◌, ◌++◌, Result,
  ok, length, arith,
}
use mathlib.Core.Path.{subst}
use cola.Panics.{Panic}
use cola.Slices.{nth}
use cola.Gtree.{Leaves, Gtree, Inode, inode, leaf, rounds}
use cola.Gtree.Shape.{Parts, Child}
use cola.Gtree.Iter.{LeavesFrom, next_in, next, collect}
use cola.Gtree.Iter.Rest.{Populated, Rest, Later-Goes}
use cola.Gtree.Iter.Descent.{Moved, ended, moved, Landed-Moved}

module _ {L : Type 0} ⦃P : Leaves L⦄ (g : Gtree L) (full : Populated g) where
  -- What `next` does: it ends, or it yields the first of the leaves.
  data Step (call : Result Panic (Option (ℕ × LeavesFrom))) : List (ℕ × L) → Type 0 where
    over : call ≡ ok none → Step call []
    yields :
        (i : ℕ) (l : L) (it : LeavesFrom) (ls : List (ℕ × L))
        → call ≡ ok (some (i, it))
        → leaf i g ≡ ok l
        → Rest g it ls
        → Step call ((i, l) ∷ ls)

  Ready-Step :
      (it : LeavesFrom) (ls : List (ℕ × L)) (k first : ℕ) (others : List ℕ)
      → it.current_leaves ≡ first ∷ others
      → Rest g it ls
      → Step (next_in g (suc k) it) ls
  unfolding next_in leaf
  Ready-Step it ls k first others q r =
      let (part, later, (l, value, parent, only), split, siblings) =
        subst (λ cs. Parts (Child g r.level r.parent true) cs r.here) q r.current in
      let same : (first, l.value) ∷ (later ++ r.above) ≡ ls =
        sym (r.parts ∙ ap (λ t. t ++ r.above) (split ∙ ap (λ t. t ++ later) only)) in
      subst (Step (next_in g (suc k) it)) same (
        yields first l.value (record it { current_leaves = others }) (later ++ r.above) (rw q refl)
          (rw value refl)
          (record {
            level = r.level;
            parent = r.parent;
            here = later;
            above = r.above;
            current = siblings;
            later = r.later;
            parts = refl;
          }))

  Moved-Step :
      (it : LeavesFrom) (ls : List (ℕ × L)) (k : ℕ)
      → it.current_leaves ≡ []
      → Moved g full it.path ls
      → Step (next_in g (suc (suc k)) it) ls
  unfolding next_in
  Moved-Step it ls k q (ended e none_left) =
      subst (Step (next_in g (suc (suc k)) it)) (sym none_left) (over (rw (q, e) refl))
  Moved-Step it ls k q (moved it' e ready) =
      let again : next_in g (suc (suc k)) it ≡ next_in g (suc k) it' = rw (q, e) refl in
      subst (λ call. Step call ls) (sym again)
        (Ready-Step it' ls k ready.first ready.others ready.some_left ready.rest)

  next_in-Step :
      (it : LeavesFrom) (ls : List (ℕ × L)) (k : ℕ) (cs : List ℕ)
      → it.current_leaves ≡ cs
      → Rest g it ls
      → Step (next_in g (suc (suc k)) it) ls
  next_in-Step it ls k (first ∷ others) q r = Ready-Step it ls (suc k) first others q r
  next_in-Step it ls k [] q r =
      let goes = Later-Goes g it.path r.above r.later in
      let none_here : r.here ≡ [] =
        subst (λ cs. Parts (Child g r.level r.parent true) cs r.here) q r.current in
      let same : ls ≡ r.above = r.parts ∙ ap (λ t. t ++ r.above) none_here in
      subst (Step (next_in g (suc (suc k)) it)) (sym same) (
        Moved-Step it r.above k q
          (Landed-Moved g full it.path goes.path' r.above goes.goes goes.landed))

  -- What `next` returns for an iterator with these leaves before it.
  pub data Next (it : LeavesFrom) : List (ℕ × L) → Type 0 where
    ends : next g it ≡ ok none → Next it []
    takes :
        (item : ℕ × L) (it' : LeavesFrom) (ls : List (ℕ × L))
        → next g it ≡ ok (some (item, it'))
        → leaf item.0 g ≡ ok item.1
        → Rest g it' ls
        → Next it (item ∷ ls)

  Step-Next : (it : LeavesFrom) (ls : List (ℕ × L)) → Step (next_in g (rounds g) it) ls → Next it ls
  unfolding next
  Step-Next it ls (over e) = ends (rw e refl)
  Step-Next it ls (yields i l it' rest e value r) =
      takes (i, l) it' rest (rw (e, value) refl) value r

  module _ (root : Inode) (at_root : inode g.root_idx g ≡ ok root) where
    two_rounds : (k : ℕ) × (rounds g ≡ suc (suc k))
    unfolding inode nth
    two_rounds =
        elim g.inodes
            as (λ l. nth l g.root_idx ≡ ok root → (k : ℕ) × (suc (length l) ≡ suc (suc k))) [
              | [] ↦ λ e. cc
              | n ∷ ns ↦ λ e. (length ns, refl)
            ]
          at_root

    pub Rest-Next : (it : LeavesFrom) (ls : List (ℕ × L)) → Rest g it ls → Next it ls
    Rest-Next it ls r =
        let (k, enough) = two_rounds in
        Step-Next it ls (
          subst (λ n. Step (next_in g n it) ls) (sym enough)
            (next_in-Step it ls k it.current_leaves refl r))

    collect-Next :
        (it : LeavesFrom) (ls : List (ℕ × L)) (k : ℕ)
        → Next it ls
        → length ls < suc k
        → ((it' : LeavesFrom) (ms : List (ℕ × L))
            → Rest g it' ms
            → length ms < k
            → collect g k it' ≡ ok ms)
        → collect g (suc k) it ≡ ok ls
    unfolding collect
    collect-Next it ls k (ends e) enough again = rw e refl
    collect-Next it ls k (takes item it' rest e value r) enough again =
        rw (e, again it' rest r (omega arith)) refl

    -- The iterator yields exactly the leaves before it.
    pub collect-Rest :
        (it : LeavesFrom) (ls : List (ℕ × L)) (k : ℕ)
        → Rest g it ls
        → length ls < k
        → collect g k it ≡ ok ls
    collect-Rest it ls zero r enough = absurd (omega arith)
    collect-Rest it ls (suc k) r enough =
        collect-Next it ls k (Rest-Next it ls r) enough (λ it' ms. collect-Rest it' ms k)
