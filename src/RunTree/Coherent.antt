-- ===== src/RunTree/Coherent.antt =====
-- Run trees whose indices name the leaves that they stand for, and the first run that is not deleted
-- (src/run_tree.rs).
use cola.Prelude.{
  ℕ, zero, suc, ◌+◌, ◌<◌, ◌≤◌, ◌≡◌, refl, ap, true, false, inl, inr, Bool-cases, List, [], ◌∷◌,
  ◌++◌, Result, ok, length, All, arith,
}
use mathlib.Core.Path.{subst}
use cola.Panics.{Panic}
use cola.Text
use cola.Anchor.{InnerAnchor, left, right}
use cola.EditRun
use cola.EditRun.{EditRun}
use cola.Gtree.{Gtree, Inode, inode}
use cola.Gtree.Shape.{Spot, span, Shows}
use cola.Gtree.Iter.{LeavesFrom}
use cola.Gtree.Iter.Rest.{Populated, Rest}
use cola.Gtree.Iter.Visits.{Next, ends, takes, Rest-Next}
use cola.RunIndices.{idx_at_anchor}
use cola.RunTree.Runs.{Runs, leaf_runs}
use cola.RunTree.Anchors.{first_visible}

abbrev pub Leaf : Type 0
Leaf = ℕ × EditRun

-- A run of a replica, with at least one character.
pub record IsRun (r : EditRun) : Type 0 where
  pub text : Text.IsValid r.text
  pub some_text : EditRun.start r < EditRun.end r
  pub replica : 0 < EditRun.replica_id r

-- A position in a run, as an anchor.
abbrev pub position_in : EditRun → ℕ → InnerAnchor
position_in r offset = record {
  replica_id = EditRun.replica_id r;
  contained_in = r.run_ts;
  offset = offset;
}

abbrev pub RunSpot : List Leaf → Type 0
RunSpot ls = Spot ⦃P = leaf_runs⦄ ls

-- The tree stands for these runs, and the indices name the leaf that each character is in.
pub record Coherent (t : Runs) (ls : List Leaf) : Type 0 where
  pub shows : Shows ⦃P = leaf_runs⦄ t.gtree ls
  pub full : Populated t.gtree
  pub few : length ls ≤ length t.gtree.lnodes
  pub runs : All (λ l. IsRun l.1) ls
  pub after :
      (s : RunSpot ls) (offset : ℕ)
      → EditRun.start s.here.1 < offset
      → offset ≤ EditRun.end s.here.1
      → idx_at_anchor t.run_indices (position_in s.here.1 offset) left ≡ ok s.here.0
  pub before :
      (s : RunSpot ls) (offset : ℕ)
      → EditRun.start s.here.1 ≤ offset
      → offset < EditRun.end s.here.1
      → idx_at_anchor t.run_indices (position_in s.here.1 offset) right ≡ ok s.here.0

pub All-spot :
    (Q : Leaf → Type 0) (ls front : List Leaf) (here : Leaf) (back : List Leaf)
    → All Q ls
    → ls ≡ front ++ here ∷ back
    → Q here
All-spot Q [] [] here back a e = cc
All-spot Q [] (x ∷ front) here back a e = cc
All-spot Q (y ∷ ls) [] here back (q, a) e = let same : y ≡ here = cc in subst Q same q
All-spot Q (y ∷ ls) (x ∷ front) here back (q, a) e =
    let rest : ls ≡ front ++ here ∷ back = cc in All-spot Q ls front here back a rest

pub visible-len :
    (r : EditRun)
    → IsRun r
    → r.is_deleted ≡ false
    → EditRun.visible_len r + EditRun.start r ≡ EditRun.end r
unfolding EditRun.visible_len
visible-len r v kept = rw kept (omega (arith, v.some_text, v.text.end_fits))

pub deleted-len : (r : EditRun) → r.is_deleted ≡ true → EditRun.visible_len r ≡ 0
unfolding EditRun.visible_len
deleted-len r gone = rw gone (omega arith)

abbrev pub length_of : List Leaf → ℕ
length_of ls = span ⦃P = leaf_runs⦄ ls

module _ (g : Gtree EditRun) where
  -- The first run that is not deleted.
  pub record FirstVisible (call : Result Panic EditRun) (ls : List Leaf) : Type 0 where
    pub spot : RunSpot ls
    pub found : call ≡ ok spot.here.1
    pub kept : spot.here.1.is_deleted ≡ false
    pub none_before : length_of spot.front ≡ 0

  FirstVisible-later :
      (item : Leaf) (ls : List Leaf) (call : Result Panic EditRun)
      → EditRun.visible_len item.1 ≡ 0
      → FirstVisible call ls
      → FirstVisible call (item ∷ ls)
  FirstVisible-later item ls call gone f = record {
    spot = record {
      front = item ∷ f.spot.front;
      here = f.spot.here;
      back = f.spot.back;
      parts = ap (λ t. item ∷ t) f.spot.parts;
    };
    found = f.found;
    kept = f.kept;
    none_before = omega (arith, f.none_before, gone);
  }

  first_visible-Next :
      (full : Populated g) (it : LeavesFrom) (ls : List Leaf) (k : ℕ)
      → Next ⦃P = leaf_runs⦄ g full it ls
      → 0 < length_of ls
      → length ls < suc k
      → ((it' : LeavesFrom) (ms : List Leaf)
          → Rest ⦃P = leaf_runs⦄ g it' ms
          → length ms < k
          → 0 < length_of ms
          → FirstVisible (first_visible g k it') ms)
      → FirstVisible (first_visible g (suc k) it) ls
  unfolding first_visible
  first_visible-Next full it ls k (ends e) some_text enough again = absurd (omega arith)
  first_visible-Next full it ls k (takes item it' rest e value r) some_text enough again =
      elim (Bool-cases item.1.is_deleted) [
        | inl gone ↦
            let nothing = deleted-len item.1 gone in
            let f = again it' rest r (omega arith) (omega arith) in
            let same : first_visible g k it' ≡ first_visible g (suc k) it = rw (e, gone) refl in
            subst (λ call. FirstVisible call (item ∷ rest)) same
              (FirstVisible-later item rest (first_visible g k it') nothing f)
        | inr kept ↦ record {
          spot = record { front = []; here = item; back = rest; parts = refl };
          found = rw (e, kept) refl;
          kept = kept;
          none_before = refl;
        }
      ]

  module _ (full : Populated g) (root : Inode) (at_root : inode g.root_idx g ≡ ok root) where
    pub first_visible-Rest :
        (it : LeavesFrom) (ls : List Leaf) (k : ℕ)
        → Rest ⦃P = leaf_runs⦄ g it ls
        → length ls < k
        → 0 < length_of ls
        → FirstVisible (first_visible g k it) ls
    first_visible-Rest it ls zero r enough some_text = absurd (omega arith)
    first_visible-Rest it ls (suc k) r enough some_text =
        first_visible-Next full it ls k (Rest-Next ⦃P = leaf_runs⦄ g full root at_root it ls r)
          some_text enough (λ it' ms r' enough' some'. first_visible-Rest it' ms k r' enough' some')
