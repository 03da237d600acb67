-- ===== src/RunTree/Fresh.antt =====
-- The run tree of a new replica (`RunTree::new`, src/run_tree.rs).
use cola.Prelude.{
  ℕ, ◌<◌, ◌≤◌, ◌≡◌, refl, Bool, true, false, ◌&&◌, [], ◌∷◌, ok, ◌==◌, ==_refl, sub, add, leb, arith,
  IsU64,
}
use cola.Anchor.{left, right}
use cola.EditRun
use cola.EditRun.{EditRun}
use cola.Gtree.{inode, lnode, dangling}
use cola.Gtree.Shape.{Shows}
use cola.Gtree.Iter.Rest.{All-Populated}
use cola.RunIndices.{idx_at_anchor}
use cola.RunTree.Runs.{Runs, leaf_runs, new_tree}
use cola.RunTree.Filled.{first_tree, new_tree-first_tree}
use cola.RunTree.Coherent.{Leaf, IsRun, position_in, Coherent, All-spot, visible-len}

-- The first run of a replica, as `Replica::new` makes it.
abbrev pub first_run : ℕ → ℕ → ℕ → EditRun
first_run id len lamport_ts =
    EditRun.new_visible (record { inserted_by = id; range = record { start = 0; end = len } }) 0
      lamport_ts

and_false : (b : Bool) → (b && false) ≡ false
and_false true = refl
and_false false = refl

module _ (id len lamport_ts : ℕ) (i : 0 < id) (fits : IsU64 id) (n : 0 < len)
    (small : IsU64 len) where
  run_ok : IsRun (first_run id len lamport_ts)
  run_ok = record {
    text = record { id_fits = fits; ordered = omega arith; end_fits = small };
    some_text = n;
    replica = i;
  }

  after_first :
      (offset : ℕ)
      → 0 < offset
      → offset ≤ len
      → idx_at_anchor
          (first_tree (first_run id len lamport_ts)).run_indices
          (position_in (first_run id len lamport_ts) offset)
          left
        ≡ ok 0
  unfolding idx_at_anchor
  after_first offset a b =
      let same : sub offset 0 ≡ offset = omega arith in
      let size : sub len 0 ≡ len = omega arith in
      let end : add 0 len ≡ len = omega arith in
      let here : leb offset len ≡ true = ground arith in
      let none : sub len len ≡ 0 = omega arith in
      rw (==_refl id, same, size, end, here, none, end, and_false (len == offset)) refl

  before_first :
      (offset : ℕ)
      → 0 ≤ offset
      → offset < len
      → idx_at_anchor
          (first_tree (first_run id len lamport_ts)).run_indices
          (position_in (first_run id len lamport_ts) offset)
          right
        ≡ ok 0
  unfolding idx_at_anchor
  before_first offset a b =
      let same : sub offset 0 ≡ offset = omega arith in
      let size : sub len 0 ≡ len = omega arith in
      let end : add 0 len ≡ len = omega arith in
      let here : leb offset len ≡ true = ground arith in
      let none : sub len len ≡ 0 = omega arith in
      let inside : (len == offset) ≡ false = ground arith in
      rw (==_refl id, same, size, end, here, none, end, inside) refl

  visible : EditRun.visible_len (first_run id len lamport_ts) ≡ len
  visible = omega (arith, visible-len (first_run id len lamport_ts) run_ok refl)

  first_tree-Shows :
      Shows ⦃P = leaf_runs⦄
        (first_tree (first_run id len lamport_ts)).gtree
        ((0, first_run id len lamport_ts) ∷ [])
  unfolding inode lnode
  first_tree-Shows =
      let run = first_run id len lamport_ts in
      record {
        height = 0;
        root = record {
          tot_len = EditRun.visible_len run;
          parent = dangling;
          children = 0 ∷ [];
          has_leaves = true;
        };
        at_root = refl;
        tot_len = omega arith;
        apart = (tt, tt);
        below =
            ((0, run) ∷ [], [], (record { value = run; parent = 0 }, refl, refl, refl), refl, refl);
        low = omega arith;
        fits = omega (arith, visible);
        cursor = tt;
      }

  -- For an id that is not 0 and a length of at least 1 that fits in 64 bits, creating the run tree of a new
  -- replica does not panic, and the tree stands for the one run: its searches, its iterators and its
  -- indices agree on it.
  pub new_tree-Coherent :
      (t : Runs) × (new_tree (first_run id len lamport_ts) ≡ ok t)
      × Coherent t ((0, first_run id len lamport_ts) ∷ [])
  unfolding inode
  new_tree-Coherent =
      let run = first_run id len lamport_ts in
      let leaf : Leaf = (0, run) in
      (
        first_tree run,
        new_tree-first_tree run,
        record {
          shows = first_tree-Shows;
          full = All-Populated (first_tree run).gtree (omega arith, tt);
          few = omega arith;
          runs = (run_ok, tt);
          after = λ s.
              All-spot
                (λ l.
                  (offset : ℕ)
                  → EditRun.start l.1 < offset
                  → offset ≤ EditRun.end l.1
                  → idx_at_anchor (first_tree run).run_indices (position_in l.1 offset) left
                    ≡ ok l.0)
                (leaf ∷ []) s.front s.here s.back (after_first, tt) s.parts;
          before = λ s.
              All-spot
                (λ l.
                  (offset : ℕ)
                  → EditRun.start l.1 ≤ offset
                  → offset < EditRun.end l.1
                  → idx_at_anchor (first_tree run).run_indices (position_in l.1 offset) right
                    ≡ ok l.0)
                (leaf ∷ []) s.front s.here s.back (before_first, tt) s.parts;
        },
      )
