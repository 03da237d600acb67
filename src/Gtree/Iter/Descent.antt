-- ===== src/Gtree/Iter/Descent.antt =====
-- The descent of the iterator to the next inode with leaves (`mod iter`, src/gtree.rs).
use cola.Prelude.{
  ℕ, zero, suc, ◌<◌, ◌≡◌, refl, sym, ap, ◌∙◌, Bool, true, false, none, some, List, [], ◌∷◌, ◌++◌,
  append_assoc, ok, length, drop, arith,
}
use mathlib.Core.Path.{subst}
use cola.Slices.{nth}
use cola.Gtree.{Leaves, Gtree, Inode, inode, rounds}
use cola.Gtree.Shape.{Parts, Child}
use cola.Gtree.Iter.{LeavesFrom, next_path, descend_first, next_leaves}
use cola.Gtree.Iter.Rest.{Populated, Later, Rest, Landed, drop-cons}

module _ {L : Type 0} ⦃P : Leaves L⦄ (g : Gtree L) (full : Populated g) where
  -- An iterator that stands at leaves.
  pub record Ready (it : LeavesFrom) (ls : List (ℕ × L)) : Type 0 where
    pub rest : Rest g it ls
    pub first : ℕ
    pub others : List ℕ
    pub some_left : it.current_leaves ≡ first ∷ others

  record Descent (fuel idx : ℕ) (path : List (ℕ × ℕ)) (ls : List (ℕ × L)) : Type 0 where
    pub it : LeavesFrom
    pub found : descend_first g fuel idx path ≡ ok it
    pub ready : Ready it ls

  module _ (k fuel idx p : ℕ) (path : List (ℕ × ℕ)) (n : Inode) (part above : List (ℕ × L))
      (e : inode idx g ≡ ok n) (later : Later g path above) where
    Descent-here :
        (cs : List ℕ)
        → n.children ≡ cs
        → n.has_leaves ≡ true
        → Parts (Child g k idx true) n.children part
        → Descent (suc fuel) idx path (part ++ above)
    unfolding descend_first nth
    Descent-here [] q kind parts = absurd (omega (arith, full idx n e, ap length q))
    Descent-here (c ∷ cs) q kind parts = record {
      it = record { path = path; current_leaves = n.children };
      found = rw (e, q, kind) refl;
      ready = record {
        rest = record {
          level = k;
          parent = idx;
          here = part;
          above = above;
          current = parts;
          later = later;
          parts = refl;
        };
        first = c;
        others = cs;
        some_left = q;
      };
    }

    Descent-below :
        (c : ℕ) (cs : List ℕ) (first later_part : List (ℕ × L))
        → n.children ≡ c ∷ cs
        → n.has_leaves ≡ false
        → part ≡ first ++ later_part
        → Descent fuel c ((idx, 0) ∷ path) (first ++ (later_part ++ above))
        → Descent (suc fuel) idx path (part ++ above)
    unfolding descend_first nth
    Descent-below c cs first later_part q kind split d = record {
      it = d.it;
      found = rw (e, q, kind) d.found;
      ready =
          subst (Ready d.it)
            (sym (ap (λ t. t ++ above) split ∙ append_assoc first later_part above)) d.ready;
    }

  descend-Descent :
      (k fuel idx p : ℕ) (path : List (ℕ × ℕ)) (n : Inode) (part above : List (ℕ × L))
      (leaves : Bool) (cs : List ℕ)
      → inode idx g ≡ ok n
      → Later g path above
      → n.has_leaves ≡ leaves
      → n.children ≡ cs
      → Parts (Child g k idx leaves) cs part
      → k < fuel
      → k < rounds g
      → Descent fuel idx path (part ++ above)
  descend-Descent k zero idx p path n part above leaves cs e later kind q parts enough low =
      absurd (omega arith)
  descend-Descent k (suc fuel) idx p path n part above true cs e later kind q parts enough low =
      Descent-here k fuel idx p path n part above e later cs q kind
        (subst (λ t. Parts (Child g k idx true) t part) (sym q) parts)
  descend-Descent k (suc fuel) idx p path n part above false [] e later kind q parts enough low =
      absurd (omega (arith, full idx n e, ap length q))
  descend-Descent zero (suc fuel) idx p path n part above false (c ∷ cs) e later kind q
        (first, others, holds, split, siblings) enough low =
      absurd holds
  descend-Descent (suc k) (suc fuel) idx p path n part above false (c ∷ cs) e later kind q
        (first, others, (m, e', _, _, _, _, inner), split, siblings) enough low =
      Descent-below (suc k) fuel idx p path n part above e later c cs first others q kind split (
        descend-Descent k fuel c idx ((idx, 0) ∷ path) m first (others ++ above) m.has_leaves
          m.children e'
          (
            others,
            above,
            refl,
            record {
              level = suc k;
              n = n;
              here = e;
              internal = kind;
              low = low;
              parts =
                  subst (λ t. Parts (Child g (suc k) idx false) (drop 1 t) others) (sym q) siblings;
            },
            later,
          )
          refl refl inner (omega arith) (omega arith))

  -- The leaves of the next inode, if there is one.
  pub data Moved (path : List (ℕ × ℕ)) (ls : List (ℕ × L)) : Type 0 where
    ended : next_leaves g path ≡ ok none → ls ≡ [] → Moved path ls
    moved : (it : LeavesFrom) → next_leaves g path ≡ ok (some it) → Ready it ls → Moved path ls

  Child-Descent :
      (k p c : ℕ) (path : List (ℕ × ℕ)) (part above : List (ℕ × L))
      → Child g k p false c part
      → k < rounds g
      → Later g path above
      → Descent (rounds g) c path (part ++ above)
  Child-Descent zero p c path part above holds low later = absurd holds
  Child-Descent (suc k) p c path part above (m, e, _, _, _, _, inner) low later =
      descend-Descent k (rounds g) c p path m part above m.has_leaves m.children e later refl refl
        inner (omega arith) (omega arith)

  pub Landed-Moved :
      (path path' : List (ℕ × ℕ)) (ls : List (ℕ × L))
      → next_path g path ≡ ok path'
      → Landed g path' ls
      → Moved path ls
  unfolding next_leaves
  Landed-Moved path [] ls e q = ended (rw e refl) q
  Landed-Moved path ((idx, i) ∷ above) ls e s =
      let (within, child, rest) = drop-cons s.n.children i s.child s.rest s.at_child in
      let siblings =
        subst (λ t. Parts (Child g s.level idx false) t s.others) (sym rest) s.siblings in
      let d =
        Child-Descent s.level idx s.child ((idx, i) ∷ above) s.part (s.others ++ s.above) s.holds
          s.low
          (
            s.others,
            s.above,
            refl,
            record {
              level = s.level;
              n = s.n;
              here = s.here;
              internal = s.internal;
              low = s.low;
              parts = siblings;
            },
            s.later,
          ) in
      moved d.it (rw (e, s.here, child, s.internal, d.found) refl)
        (subst (Ready d.it) (sym s.parts) d.ready)
