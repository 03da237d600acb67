-- ===== src/Gtree.antt =====
-- `Gtree` of src/gtree.rs: a balanced tree whose internal nodes and leaves stand in two vectors that
-- only grow and refer to each other by index. An index that points nowhere is `usize::MAX`.
pub mod Node
pub mod Find
pub mod Walk
pub mod Arena
pub mod Splices
pub mod Halves
pub mod Iter
pub mod Grow
pub mod Room
pub mod Pairs
pub mod Ordered
pub mod Shape
pub mod Lookup
pub mod Offsets
pub mod Edit
pub mod Insert
pub mod Locate
pub mod Codec
pub mod Delete
use cola.Prelude.{
  ℕ, zero, suc, ◌-◌, ◌/◌, ◌^◌, Bool, true, false, Option, none, some, List, [], ◌∷◌, Result, ok,
  err, ◌>>=◌, map_ok, length, ltb, ◌==◌, if◌then◌else◌, add, sub,
}
use cola.Panics.{Panic}
use cola.Slices.{nth, update_nth, Cmd, write}

-- `Length::diff` and `Length::patch`
pub data Diff : Type 0 where
  plus minus : ℕ → Diff

abbrev pub diff : ℕ → ℕ → Diff
diff from to = if ltb from to then plus (sub to from) else minus (sub from to)

abbrev pub patched : ℕ → Diff → ℕ
patched len (plus n) = add len n
patched len (minus n) = sub len n

-- The parameters of the type: `ARITY`, and the traits `Leaf` and `Join` of the leaves. A join that
-- succeeds returns the joined leaf, and else the leaf that was to be joined.
pub record Leaves (L : Type 0) : Type 0 where
  pub arity : ℕ
  pub leaf_len : L → ℕ
  pub append : L → L → Result L L
  pub prepend : L → L → Result L L

abbrev pub dangling : ℕ
dangling = 2 ^ 64 - 1

-- The slots of `children` that are in use; there are `num_children` of them.
pub record Inode : Type 0 where
  pub tot_len : ℕ
  pub parent : ℕ
  pub children : List ℕ
  pub has_leaves : Bool

pub record Lnode (L : Type 0) : Type 0 where
  pub value : L
  pub parent : ℕ

pub record Cursor : Type 0 where
  pub leaf_idx : ℕ
  pub offset : ℕ
  pub child_idx : ℕ

pub record Gtree (L : Type 0) : Type 0 where
  pub inodes : List Inode
  pub lnodes : List (Lnode L)
  pub root_idx : ℕ
  pub cursor : Option Cursor

abbrev pub num_children : Inode → ℕ
num_children n = length n.children

abbrev pub cursor_at : ℕ → ℕ → ℕ → Option Cursor
cursor_at leaf_idx offset child_idx =
    some (record { leaf_idx = leaf_idx; offset = offset; child_idx = child_idx })

module _ {L : Type 0} where
  unfoldable pub inode : ℕ → Gtree L → Result Panic Inode
  unfolding nth
  inode idx g = nth g.inodes idx

  unfoldable pub lnode : ℕ → Gtree L → Result Panic (Lnode L)
  unfolding nth
  lnode idx g = nth g.lnodes idx

  unfoldable pub leaf : ℕ → Gtree L → Result Panic L
  unfolding lnode
  leaf idx g = do n ← lnode idx g; ok n.value

  -- `inode_mut` and `lnode_mut`, with what the caller does to the node.
  unfoldable pub update_inode : ℕ → (Inode → Inode) → Cmd (Gtree L) (Unit {0})
  unfolding update_nth
  update_inode idx f =
      write (λ g. do inodes ← update_nth g.inodes idx f; ok (record g { inodes = inodes }))

  unfoldable pub update_lnode : ℕ → (Lnode L → Lnode L) → Cmd (Gtree L) (Unit {0})
  unfolding update_nth
  update_lnode idx f =
      write (λ g. do lnodes ← update_nth g.lnodes idx f; ok (record g { lnodes = lnodes }))

  abbrev pub set_cursor : Option Cursor → Cmd (Gtree L) (Unit {0})
  set_cursor c g = ok (tt, record g { cursor = c })

  -- The rounds that the model gives to a loop along a path of the tree: there are no more inodes on it
  -- than inodes.
  abbrev pub rounds : Gtree L → ℕ
  rounds g = suc (length g.inodes)

  unfoldable pub gtree_len : Gtree L → Result Panic ℕ
  unfolding inode
  gtree_len g = do n ← inode g.root_idx g; ok n.tot_len
