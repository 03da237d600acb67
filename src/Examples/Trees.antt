-- ===== src/Examples/Trees.antt =====
-- A tree whose leaves are their lengths, of arity four, and the encoding of inodes.
use cola.Prelude.{
  List, Option, ℕ, ◌+◌, ◌≡◌, ◌≤◌, ◌<◌, refl, true, false, none, [], ◌∷◌, ◌++◌, ok, err, arith,
}
use cola.Panics.{index_out_of_bounds}
use cola.Gtree.{Leaves, Gtree, Inode, cursor_at, dangling, inode, lnode, leaf}
use cola.Gtree.Find.{leaf_at_offset, offset_of_leaf, child_len, offset_from_root}
use cola.Gtree.Node.{insert_at}
use cola.Gtree.Grow.{insert_in_inode, insert_two_in_inode}
use cola.Gtree.Splices.{insert_two_at}
use cola.Gtree.Arena.{set_inode, HasLens}
use cola.Gtree.Halves.{IsMeasured, Halved}
use cola.Gtree.Room.{insert_in_inode-Halved}
use cola.Gtree.Ordered.{insert_two_in_inode-Halved}
use cola.Gtree.Shape.{Parts, Child, Shows, Spot, span}
use cola.Gtree.Edit.{from_leaves}
use cola.Fragments.Grown.{from_leaves-Shows}
use cola.Gtree.Offsets.{leaf_at_offset-Shows}
use cola.Gtree.Codec.{Fits, encode_inode, decode_inode, panicked, decode_inode_crowded}
use cola.Examples.Bytes.{leb128, leb128-IsVarint}

abbrev pub lengths : Leaves ℕ
lengths = record {
  arity = 4;
  leaf_len = λ n. n;
  append = λ l other. err other;
  prepend = λ l other. err other;
}

abbrev first_inode : Inode
first_inode = record { tot_len = 12; parent = 2; children = 0 ∷ 1 ∷ 2 ∷ []; has_leaves = true }

abbrev second_inode : Inode
second_inode = record { tot_len = 13; parent = 2; children = 3 ∷ 4 ∷ []; has_leaves = true }

abbrev root : Inode
root = record { tot_len = 25; parent = dangling; children = 0 ∷ 1 ∷ []; has_leaves = false }

-- Five leaves of the lengths 3 to 7 below two inodes, with the cursor at the second one.
abbrev sapling : Gtree ℕ
sapling = record {
  inodes = first_inode ∷ second_inode ∷ root ∷ [];
  lnodes =
      record { value = 3; parent = 0 }
      ∷ record { value = 4; parent = 0 }
      ∷ record { value = 5; parent = 0 }
      ∷ record { value = 6; parent = 1 }
      ∷ record { value = 7; parent = 1 }
      ∷ [];
  root_idx = 2;
  cursor = cursor_at 1 3 1;
}

abbrev leaves : List (ℕ × ℕ)
leaves = (0, 3) ∷ (1, 4) ∷ (2, 5) ∷ (3, 6) ∷ (4, 7) ∷ []

first-Parts :
    Parts
      (Child ⦃P = lengths⦄ sapling 0 0 true)
      first_inode.children
      ((0, 3) ∷ (1, 4) ∷ (2, 5) ∷ [])
unfolding lnode
first-Parts = (
  (0, 3) ∷ [],
  (1, 4) ∷ (2, 5) ∷ [],
  (record { value = 3; parent = 0 }, refl, refl, refl),
  refl,
  (
    (1, 4) ∷ [],
    (2, 5) ∷ [],
    (record { value = 4; parent = 0 }, refl, refl, refl),
    refl,
    ((2, 5) ∷ [], [], (record { value = 5; parent = 0 }, refl, refl, refl), refl, refl),
  ),
)

second-Parts :
    Parts (Child ⦃P = lengths⦄ sapling 0 1 true) second_inode.children ((3, 6) ∷ (4, 7) ∷ [])
unfolding lnode
second-Parts = (
  (3, 6) ∷ [],
  (4, 7) ∷ [],
  (record { value = 6; parent = 1 }, refl, refl, refl),
  refl,
  ((4, 7) ∷ [], [], (record { value = 7; parent = 1 }, refl, refl, refl), refl, refl),
)

sapling-Shows : Shows ⦃P = lengths⦄ sapling leaves
unfolding inode leaf offset_from_root
sapling-Shows = record {
  height = 1;
  root = root;
  at_root = refl;
  tot_len = refl;
  apart = ((refl, tt), (tt, tt));
  below = (
    (0, 3) ∷ (1, 4) ∷ (2, 5) ∷ [],
    (3, 6) ∷ (4, 7) ∷ [],
    (
      first_inode,
      refl,
      refl,
      refl,
      ((refl, (refl, tt)), ((refl, tt), (tt, tt))),
      refl,
      first-Parts,
    ),
    refl,
    (
      (3, 6) ∷ (4, 7) ∷ [],
      [],
      (second_inode, refl, refl, refl, ((refl, tt), (tt, tt)), refl, second-Parts),
      refl,
      refl,
    ),
  );
  low = omega arith;
  fits = omega arith;
  cursor = (
    record {
      front = (0, 3) ∷ [];
      here = (1, 4);
      back = (2, 5) ∷ (3, 6) ∷ (4, 7) ∷ [];
      parts = refl;
    },
    refl,
    refl,
    refl,
    refl,
  );
}

leaf_at_offset-Shows_example :
    (spot : Spot ⦃P = lengths⦄ leaves) × (leaf_at_offset ⦃P = lengths⦄ 15 sapling
      ≡ ok (spot.here.0, span ⦃P = lengths⦄ spot.front))
    × (leaf spot.here.0 sapling ≡ ok spot.here.1)
    × (span ⦃P = lengths⦄ spot.front < 15)
    × (15 ≤ span ⦃P = lengths⦄ spot.front + spot.here.1)
    × (offset_of_leaf ⦃P = lengths⦄ spot.here.0 sapling ≡ ok (span ⦃P = lengths⦄ spot.front))
leaf_at_offset-Shows_example =
    leaf_at_offset-Shows ⦃P = lengths⦄ sapling leaves sapling-Shows 15 (omega arith) (omega arith)

-- The children of a full inode.
abbrev full_inode : Inode
full_inode = record {
  tot_len = 18;
  parent = dangling;
  children = 0 ∷ 1 ∷ 2 ∷ 3 ∷ [];
  has_leaves = true;
}

abbrev full : Gtree ℕ
full = record {
  inodes = full_inode ∷ [];
  lnodes =
      record { value = 3; parent = 0 }
      ∷ record { value = 4; parent = 0 }
      ∷ record { value = 5; parent = 0 }
      ∷ record { value = 6; parent = 0 }
      ∷ [];
  root_idx = 0;
  cursor = none;
}

full-HasLens : HasLens ⦃P = lengths⦄ full true full_inode.children (3 ∷ 4 ∷ 5 ∷ 6 ∷ [])
unfolding child_len
full-HasLens = (refl, (refl, (refl, (refl, tt))))

full-IsMeasured : IsMeasured full_inode (3 ∷ 4 ∷ 5 ∷ 6 ∷ [])
full-IsMeasured = record { lengths = refl; tot_len = refl }

at_first : inode 0 full ≡ ok full_inode
unfolding inode
at_first = refl

insert_in_inode-Halved_example :
    (n : Inode) × (rest : Option Inode) × (insert_in_inode ⦃P = lengths⦄ 0 3 9 8 full
      ≡ ok (rest, set_inode 0 n full))
    × (n.parent ≡ dangling)
    × (n.has_leaves ≡ true)
    × Halved 4 n rest (0 ∷ 1 ∷ 2 ∷ 9 ∷ 3 ∷ []) (3 ∷ 4 ∷ 5 ∷ 8 ∷ 6 ∷ [])
unfolding insert_at
insert_in_inode-Halved_example =
    insert_in_inode-Halved ⦃P = lengths⦄ full 0 3 9 8 full_inode (3 ∷ 4 ∷ 5 ∷ 6 ∷ []) 2 at_first
      full-HasLens full-IsMeasured refl (omega arith) (omega arith) (omega arith) (omega arith)

insert_two_in_inode-Halved_example :
    (n : Inode) × (rest : Option Inode) × (insert_two_in_inode ⦃P = lengths⦄ 0 3 9 8 1 7 2 full
      ≡ ok (rest, set_inode 0 n full))
    × (n.parent ≡ dangling)
    × (n.has_leaves ≡ true)
    × Halved 4 n rest (0 ∷ 7 ∷ 1 ∷ 2 ∷ 9 ∷ 3 ∷ []) (3 ∷ 2 ∷ 4 ∷ 5 ∷ 8 ∷ 6 ∷ [])
unfolding insert_two_at insert_at
insert_two_in_inode-Halved_example =
    insert_two_in_inode-Halved ⦃P = lengths⦄ full 0 3 9 8 1 7 2 full_inode (3 ∷ 4 ∷ 5 ∷ 6 ∷ []) 2
      at_first full-HasLens full-IsMeasured refl (omega arith) (omega arith) (omega arith)
      (omega arith) (omega arith)

full-Fits : Fits 4 full_inode
full-Fits = record {
  tot_len_fits = omega arith;
  parent_fits = omega arith;
  count_fits = omega arith;
  children_fit = (omega arith, (omega arith, (omega arith, (omega arith, tt))));
  room = omega arith;
}

decode_inode_crowded_example :
    decode_inode ⦃v = leb128⦄ 3 (encode_inode ⦃v = leb128⦄ full_inode ++ [])
    ≡ err (panicked index_out_of_bounds)
decode_inode_crowded_example =
    decode_inode_crowded ⦃v = leb128⦄ leb128-IsVarint 3 full_inode [] (omega arith) (omega arith)
      (omega arith) (omega arith)

from_leaves-Shows_example :
    (g : Gtree ℕ) × (from_leaves ⦃P = lengths⦄ (3 ∷ 4 ∷ []) 7 ≡ ok g)
    × Shows ⦃P = lengths⦄ g ((0, 3) ∷ (1, 4) ∷ [])
from_leaves-Shows_example =
    from_leaves-Shows ⦃P = lengths⦄ (3 ∷ 4 ∷ []) 7 (omega arith) refl (omega arith)
