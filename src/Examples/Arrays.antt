-- ===== src/Examples/Arrays.antt =====
-- Fragments in an array of three slots, of which two are in use.
use cola.Prelude.{◌>>=◌, ◌<◌, ◌≤◌, ◌≡◌, ◌⊎◌, ◌+◌, refl, ok, [], ◌∷◌, arith}
use cola.Anchor.{left, right}
use cola.Fragments.{Array, fragments, null, fragment_at_offset, idx_at_offset, split}
use cola.Fragments.Tree.{leaf_fragments, to_gtree}
use cola.Fragments.Grown.{leaf_at_offset-to_gtree}
use cola.Gtree.Find.{leaf_at_offset}
use cola.Fragments.Search.{IsValid, Around, sum}
use cola.Fragments.Lookup.{fragment_at_offset-left, fragment_at_offset-right}
use cola.Fragments.Split.{parted, split-parted}

abbrev pair : Array
pair = record {
  slots = record { len = 3; idx = 0 } ∷ record { len = 4; idx = 5 } ∷ null ∷ [];
  len = 2;
  total_len = 7;
}

pair-IsValid : IsValid pair
unfolding sum
pair-IsValid = record {
  enough = omega arith;
  total = refl;
  fits = omega arith;
  none_empty = (omega arith, (omega arith, tt));
}

fragment_at_offset-left_example :
    (p : Around (fragments pair)) × (fragment_at_offset pair 3 left ≡ ok p.here)
    × (sum p.front < 3)
    × (3 ≤ sum p.front + p.here.len)
fragment_at_offset-left_example =
    fragment_at_offset-left pair pair-IsValid 3 (omega arith) (omega arith)

fragment_at_offset-right_example :
    (q : Around (fragments pair)) × (fragment_at_offset pair 3 right ≡ ok q.here)
    × (sum q.front ≤ 3)
    × (3 < sum q.front + q.here.len)
fragment_at_offset-right_example =
    fragment_at_offset-right pair pair-IsValid 3 (omega arith) (omega arith)

split-parted_example :
    (p : Around (fragments pair)) × (split pair 5 9 ≡ ok (parted pair pair-IsValid 5 9 p))
    × (sum p.front < 5)
    × (5 ≤ sum p.front + p.here.len)
    × (IsValid (parted pair pair-IsValid 5 9 p) ⊎ (5 ≡ sum p.front + p.here.len))
split-parted_example = split-parted pair pair-IsValid 5 9 (omega arith) (omega arith) (omega arith)

leaf_at_offset-to_gtree_example :
    (do g ← to_gtree pair; leaf_at_offset ⦃P = leaf_fragments⦄ 5 g) ≡ idx_at_offset pair 5
leaf_at_offset-to_gtree_example = leaf_at_offset-to_gtree pair 5 (omega arith) (omega arith)
