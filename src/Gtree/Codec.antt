-- ===== src/Gtree/Codec.antt =====
-- The encoding of inodes (src/gtree.rs, `mod encode`). A decoder of this module returns the value and the
-- rest of the buffer, or the error, or the panic that it ends in.
use cola.Prelude.{
  ℕ, ◌≤◌, ◌≡◌, List, [], ◌++◌, append_assoc, Result, ok, err, map_err, ◌>>=◌, length, IsU64, All,
  ltb, if◌then◌else◌, true, false, ◌<◌, arith,
}
use cola.Panics.{Panic, index_out_of_bounds}
use cola.Leb128.{Varint, IsVarint}
use cola.Codec.{encode_u64, decode_u64, encode_bool, decode_bool, IntDecodeError, BoolDecodeError}
use cola.Codec.RoundTrip.{decode_u64-encode_u64, decode_bool-encode_bool}
use cola.Codec.Items.{encode_all, push_times, push_times-encode_all}
use cola.Gtree.{Inode}

pub data InodeDecodeError : Type 0 where
  bool : BoolDecodeError → InodeDecodeError
  int : IntDecodeError → InodeDecodeError
  panicked : Panic → InodeDecodeError

-- An inode whose fields fit.
pub record Fits (arity : ℕ) (n : Inode) : Type 0 where
  pub tot_len_fits : IsU64 n.tot_len
  pub parent_fits : IsU64 n.parent
  pub count_fits : IsU64 (length n.children)
  pub children_fit : All IsU64 n.children
  pub room : length n.children ≤ arity

module _ ⦃v : Varint⦄ where
  unfoldable pub encode_inode : Inode → List ℕ
  unfolding encode_all
  encode_inode n =
      encode_u64 n.tot_len
      ++ (encode_u64 n.parent
          ++ (encode_u64 (length n.children)
              ++ (encode_bool n.has_leaves ++ encode_all encode_u64 n.children)))

  -- The slice of the first `num_children` of an array of `arity` children.
  unfoldable pub decode_inode : ℕ → List ℕ → Result InodeDecodeError (Inode × List ℕ)
  unfolding push_times
  decode_inode arity buf = do
    (tot_len, buf) ← map_err int (decode_u64 buf)
    (parent, buf) ← map_err int (decode_u64 buf)
    (num_children, buf) ← map_err int (decode_u64 buf)
    (has_leaves, buf) ← map_err bool (decode_bool buf)
    let read : Result InodeDecodeError (List ℕ × List ℕ) =
        map_err int (push_times num_children decode_u64 [] buf)
    (children, buf) ← if ltb arity num_children then err (panicked index_out_of_bounds) else read
    ok (
      record { tot_len = tot_len; parent = parent; children = children; has_leaves = has_leaves },
      buf,
    )

  -- An inode whose numbers fit in 64 bits and that has at most the arity of children is read back from
  -- its encoding, and what follows it is left.
  pub decode_inode-encode_inode :
      (laws : IsVarint v) (arity : ℕ) (n : Inode) (rest : List ℕ)
      → Fits arity n
      → decode_inode arity (encode_inode n ++ rest) ≡ ok (n, rest)
  unfolding decode_inode encode_inode
  decode_inode-encode_inode laws arity n rest f =
      let room : ltb arity (length n.children) ≡ false = ground (arith, f.room) in
      simp append_assoc (
        rw (
          decode_u64-encode_u64 laws n.tot_len _ f.tot_len_fits,
          decode_u64-encode_u64 laws n.parent _ f.parent_fits,
          decode_u64-encode_u64 laws (length n.children) _ f.count_fits,
          decode_bool-encode_bool n.has_leaves _,
          room,
          push_times-encode_all encode_u64 decode_u64 IsU64 (decode_u64-encode_u64 laws) n.children
              [] rest f.children_fit,
        ))

  -- Decoding an inode that was encoded with more children than the arity of the tree panics, where the sizes
  -- that are written fit in 64 bits.
  pub decode_inode_crowded :
      (laws : IsVarint v) (arity : ℕ) (n : Inode) (rest : List ℕ)
      → IsU64 n.tot_len
      → IsU64 n.parent
      → IsU64 (length n.children)
      → arity < length n.children
      → decode_inode arity (encode_inode n ++ rest) ≡ err (panicked index_out_of_bounds)
  unfolding decode_inode encode_inode
  decode_inode_crowded laws arity n rest a b c crowded =
      let full : ltb arity (length n.children) ≡ true = ground arith in
      simp append_assoc (
        rw (
          decode_u64-encode_u64 laws n.tot_len _ a,
          decode_u64-encode_u64 laws n.parent _ b,
          decode_u64-encode_u64 laws (length n.children) _ c,
          decode_bool-encode_bool n.has_leaves _,
          full,
        ))
