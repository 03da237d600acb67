-- ===== src/RunTree/Codec.antt =====
-- The encoding of the run tree (src/run_tree.rs, `mod encode`). The runs are written replica by replica,
-- run by run and fragment by fragment, each with the index of its leaf; of their texts only the lengths
-- are written. A decoder of this module returns the value and the rest of the buffer, or the error, or the
-- panic that it ends in.
pub mod Reads
pub mod RoundTrip
pub mod Writes
pub mod Named
pub mod Leaves
use cola.Prelude.{
  ℕ, zero, suc, Bool, false, List, [], ◌∷◌, ◌++◌, Result, ok, map_err, ◌>>=◌, length, replicate,
  add, none,
}
use cola.Panics.{Panic}
use cola.Text
use cola.Slices.{update_nth}
use cola.Leb128.{Varint}
use cola.Codec.{encode_u64, decode_u64, encode_bool, decode_bool, IntDecodeError, BoolDecodeError}
use cola.Codec.Items.{encode_all, push_times}
use cola.EditRun
use cola.EditRun.{EditRun}
use cola.Fragments.{Fragment}
use cola.Fragments.Tree
use cola.Fragments.Tree.{Fragments}
use cola.Gtree.{Gtree, Inode, Lnode, lnode, dangling}
use cola.Gtree.Codec.{InodeDecodeError, encode_inode, decode_inode}
use cola.RunIndices
use cola.RunIndices.{RunIndices, ReplicaIndices}
use cola.RunTree.Runs.{Runs, leaf_runs}

pub data RunTreeDecodeError : Type 0 where
  bool : BoolDecodeError → RunTreeDecodeError
  inode : InodeDecodeError → RunTreeDecodeError
  int : IntDecodeError → RunTreeDecodeError
  panicked : Panic → RunTreeDecodeError

abbrev dummy : EditRun
dummy = EditRun.new (record { inserted_by = 0; range = record { start = 0; end = 0 } }) 0 0 false

pub record RunTreeDecodeCtx : Type 0 where
  pub lnodes : List (Lnode EditRun)
  pub run_indices : RunIndices
  pub replica_indices : List (Fragments × ℕ)
  pub fragments : Fragments
  pub replica_id : ℕ
  pub run_ts : ℕ
  pub temporal_offset : ℕ

abbrev pub ctx_with : List (Lnode EditRun) → RunTreeDecodeCtx
ctx_with lnodes = record {
  lnodes = lnodes;
  run_indices = RunIndices.new;
  replica_indices = [];
  fragments = Tree.default;
  replica_id = 0;
  run_ts = 0;
  temporal_offset = 0;
}

-- What a decoder does with the fragment that it has read: the fragment is appended to its run, and its
-- leaf gets the run of text that starts where the one before it ended.
unfoldable pub add_fragment :
    ℕ → ℕ → Bool → ℕ → ℕ → RunTreeDecodeCtx → Result Panic RunTreeDecodeCtx
unfolding Tree.append update_nth
add_fragment len lamport_ts is_deleted leaf_idx parent_idx ctx = do
  fragments ← Tree.append ctx.fragments (record { len = len; idx = leaf_idx })
  let temporal_end = add ctx.temporal_offset len
  let text : Text.Text = record {
    inserted_by = ctx.replica_id;
    range = record { start = ctx.temporal_offset; end = temporal_end };
  }
  let edit_run = EditRun.new text ctx.run_ts lamport_ts is_deleted
  lnodes ← update_nth ctx.lnodes leaf_idx (λ l. record { value = edit_run; parent = parent_idx })
  ok (record ctx { fragments = fragments; temporal_offset = temporal_end; lnodes = lnodes })

-- At the end of a run, with the offset that it starts at.
abbrev pub end_run : ℕ → RunTreeDecodeCtx → RunTreeDecodeCtx
end_run initial_temporal_offset ctx = record ctx {
  fragments = Tree.default;
  replica_indices = ctx.replica_indices ++ (ctx.fragments, initial_temporal_offset) ∷ [];
}

abbrev pub start_replica : ℕ → RunTreeDecodeCtx → RunTreeDecodeCtx
start_replica replica_id ctx = record ctx { replica_id = replica_id; temporal_offset = 0 }

-- `*ctx.run_indices.get_mut(replica_id) = ReplicaIndices::new(indices)`
unfoldable pub end_replica : ℕ → RunTreeDecodeCtx → Result Panic RunTreeDecodeCtx
unfolding RunIndices.update
end_replica replica_id ctx = do
  run_indices ←
      RunIndices.update ctx.run_indices replica_id (λ r. ok (record { vec = ctx.replica_indices }))
  ok (record ctx { replica_indices = []; run_indices = run_indices })

abbrev pub dummies : ℕ → List (Lnode EditRun)
dummies num_leaves = replicate num_leaves (record { value = dummy; parent = dangling })

abbrev pub decoded_tree : List Inode → ℕ → RunTreeDecodeCtx → Runs
decoded_tree inodes root_idx ctx = record {
  gtree = record { inodes = inodes; lnodes = ctx.lnodes; root_idx = root_idx; cursor = none };
  run_indices = ctx.run_indices;
}

-- The loops of the encoders, whose body may panic.
unfoldable pub encode_each :
    {A : Type 0} → (A → Result Panic (List ℕ)) → List A → Result Panic (List ℕ)
encode_each encode [] = ok []
encode_each encode (x ∷ xs) = do bytes ← encode x; rest ← encode_each encode xs; ok (bytes ++ rest)

-- The loops `for _ in 0..n` of the decoders, with how many rounds are over.
unfoldable pub decode_rounds :
    ℕ
    → ℕ
    → (ℕ → List ℕ → RunTreeDecodeCtx → Result RunTreeDecodeError (RunTreeDecodeCtx × List ℕ))
    → List ℕ
    → RunTreeDecodeCtx
    → Result RunTreeDecodeError (RunTreeDecodeCtx × List ℕ)
decode_rounds i zero decode buf ctx = ok (ctx, buf)
decode_rounds i (suc n) decode buf ctx = do
  (ctx, buf) ← decode i buf ctx
  decode_rounds (suc i) n decode buf ctx

module _ ⦃v : Varint⦄ where
  -- `RunFragment`
  unfoldable pub encode_fragment : Gtree EditRun → Fragment → Result Panic (List ℕ)
  unfolding lnode
  encode_fragment g f = do
    l ← lnode f.idx g
    ok (
        encode_u64 (EditRun.len l.value)
        ++ (encode_u64 l.value.lamport_ts
            ++ (encode_bool l.value.is_deleted ++ (encode_u64 f.idx ++ encode_u64 l.parent))))

  -- `RunFragments`
  unfoldable pub encode_fragments : Gtree EditRun → Fragments × ℕ → Result Panic (List ℕ)
  unfolding Tree.num_fragments Tree.iter encode_each encode_fragment
  encode_fragments g (fragments, offset) = do
    fs ← Tree.iter fragments
    bytes ← encode_each (encode_fragment g) fs
    ok (encode_u64 (Tree.num_fragments fragments) ++ bytes)

  -- `ReplicaRuns`
  unfoldable pub encode_replica_runs : Gtree EditRun → ℕ × ReplicaIndices → Result Panic (List ℕ)
  unfolding encode_each encode_fragments
  encode_replica_runs g (replica_id, runs) = do
    bytes ← encode_each (encode_fragments g) runs.vec
    ok (encode_u64 replica_id ++ (encode_u64 (length runs.vec) ++ bytes))

  unfoldable pub encode_run_tree : Runs → Result Panic (List ℕ)
  unfolding encode_each encode_replica_runs encode_all encode_inode
  encode_run_tree t = do
    bytes ← encode_each (encode_replica_runs t.gtree) t.run_indices.map
    ok (
        encode_u64 (length t.run_indices.map)
        ++ (encode_u64 (length t.gtree.lnodes)
            ++ (bytes
                ++ (encode_u64 (length t.gtree.inodes)
                    ++ (encode_all encode_inode t.gtree.inodes ++ encode_u64 t.gtree.root_idx)))))

  abbrev read_u64 : List ℕ → Result RunTreeDecodeError (ℕ × List ℕ)
  read_u64 buf = map_err int (decode_u64 buf)

  unfoldable pub decode_fragment :
      List ℕ → RunTreeDecodeCtx → Result RunTreeDecodeError (RunTreeDecodeCtx × List ℕ)
  unfolding add_fragment
  decode_fragment buf ctx = do
    (len, buf) ← read_u64 buf
    (lamport_ts, buf) ← read_u64 buf
    (is_deleted, buf) ← map_err bool (decode_bool buf)
    (leaf_idx, buf) ← read_u64 buf
    (parent_idx, buf) ← read_u64 buf
    ctx ← map_err panicked (add_fragment len lamport_ts is_deleted leaf_idx parent_idx ctx)
    ok (ctx, buf)

  unfoldable pub decode_fragments :
      List ℕ → RunTreeDecodeCtx → Result RunTreeDecodeError (RunTreeDecodeCtx × List ℕ)
  unfolding decode_rounds decode_fragment
  decode_fragments buf ctx = do
    (num_fragments, buf) ← read_u64 buf
    let initial_temporal_offset = ctx.temporal_offset
    (ctx, buf) ← decode_rounds 0 num_fragments (λ i. decode_fragment) buf ctx
    ok (end_run initial_temporal_offset ctx, buf)

  abbrev pub decode_run :
      ℕ → List ℕ → RunTreeDecodeCtx → Result RunTreeDecodeError (RunTreeDecodeCtx × List ℕ)
  decode_run run_ts buf ctx = decode_fragments buf (record ctx { run_ts = run_ts })

  unfoldable pub decode_replica_runs :
      List ℕ → RunTreeDecodeCtx → Result RunTreeDecodeError (RunTreeDecodeCtx × List ℕ)
  unfolding decode_rounds decode_fragments end_replica
  decode_replica_runs buf ctx = do
    (replica_id, buf) ← read_u64 buf
    (num_runs, buf) ← read_u64 buf
    (ctx, buf) ← decode_rounds 0 num_runs decode_run buf (start_replica replica_id ctx)
    ctx ← map_err panicked (end_replica replica_id ctx)
    ok (ctx, buf)

  -- The inodes and the index of the root, which follow the runs.
  unfoldable pub decode_inodes :
      RunTreeDecodeCtx → List ℕ → Result RunTreeDecodeError (Runs × List ℕ)
  unfolding push_times decode_inode
  decode_inodes ctx buf = do
    (num_inodes, buf) ← read_u64 buf
    (inodes, buf) ← map_err inode (push_times num_inodes (decode_inode leaf_runs.arity) [] buf)
    (root_idx, buf) ← read_u64 buf
    ok (decoded_tree inodes root_idx ctx, buf)

  unfoldable pub decode_run_tree : List ℕ → Result RunTreeDecodeError (Runs × List ℕ)
  unfolding decode_rounds decode_replica_runs decode_inodes
  decode_run_tree buf = do
    (num_replicas, buf) ← read_u64 buf
    (num_leaves, buf) ← read_u64 buf
    (ctx, buf) ←
        decode_rounds 0 num_replicas (λ i. decode_replica_runs) buf (ctx_with (dummies num_leaves))
    decode_inodes ctx buf
