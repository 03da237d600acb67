-- ===== src/RunTree/Codec/RoundTrip.antt =====
-- What decoding does with the bytes that encoding wrote (src/run_tree.rs, `mod encode`).
use cola.Prelude.{
  ℕ, ◌≡◌, refl, List, [], ◌++◌, append_assoc, Result, ok, map_err, map_ok, ◌>>=◌, length, IsU64,
  All,
}
use cola.Leb128.{Varint, IsVarint}
use cola.Codec.{encode_u64, encode_bool}
use cola.Codec.RoundTrip.{decode_u64-encode_u64, decode_bool-encode_bool}
use cola.Codec.Items.{encode_all, push_times-encode_all}
use cola.EditRun
use cola.EditRun.{EditRun}
use cola.Fragments.{Fragment}
use cola.Fragments.Tree
use cola.Fragments.Tree.{Fragments}
use cola.Gtree.{Gtree, Lnode, lnode}
use cola.Gtree.Codec.{Fits, encode_inode, decode_inode, decode_inode-encode_inode}
use cola.RunIndices.{ReplicaIndices}
use cola.RunTree.Runs.{Runs}
use cola.RunTree.Codec.{
  RunTreeDecodeError, panicked, RunTreeDecodeCtx, ctx_with, dummies, decoded_tree, add_fragment,
  end_run, start_replica, end_replica, encode_fragment, encode_fragments, encode_replica_runs,
  encode_run_tree, decode_fragment, decode_fragments, decode_run, decode_replica_runs,
  decode_inodes, decode_run_tree,
}
use cola.RunTree.Codec.Reads.{Decoding, after_step, then_ok, All-map, steps, Reads, Reads-ReadsAll}

-- The steps, without the bytes.
abbrev pub restore_fragment : Gtree EditRun → ℕ → Fragment → RunTreeDecodeCtx → Decoding
restore_fragment g i f ctx = do
  l ← map_err panicked (lnode f.idx g)
  map_err panicked
      (add_fragment (EditRun.len l.value) l.value.lamport_ts l.value.is_deleted f.idx l.parent ctx)

-- How a fragment, a run, a replica and a tree fit into the format: what is written of them fits in 64 bits,
-- a fragment is in a leaf that exists, and a run has as many fragments as it counts.
pub record FragmentFits (g : Gtree EditRun) (f : Fragment) : Type 0 where
  pub lnode_of : Lnode EditRun
  pub exists : lnode f.idx g ≡ ok lnode_of
  pub len_fits : IsU64 (EditRun.len lnode_of.value)
  pub lamport_ts_fits : IsU64 lnode_of.value.lamport_ts
  pub idx_fits : IsU64 f.idx
  pub parent_fits : IsU64 lnode_of.parent

pub record RunFits (g : Gtree EditRun) (run : Fragments × ℕ) : Type 0 where
  pub fragments : List Fragment
  pub in_order : Tree.iter run.0 ≡ ok fragments
  pub counted : Tree.num_fragments run.0 ≡ length fragments
  pub count_fits : IsU64 (length fragments)
  pub fragments_fit : All (FragmentFits g) fragments

pub record ReplicaFits (g : Gtree EditRun) (r : ℕ × ReplicaIndices) : Type 0 where
  pub id_fits : IsU64 r.0
  pub count_fits : IsU64 (length r.1.vec)
  pub runs_fit : All (RunFits g) r.1.vec

pub record TreeFits (t : Runs) : Type 0 where
  pub replicas_count_fits : IsU64 (length t.run_indices.map)
  pub leaves_count_fits : IsU64 (length t.gtree.lnodes)
  pub inodes_count_fits : IsU64 (length t.gtree.inodes)
  pub root_fits : IsU64 t.gtree.root_idx
  pub replicas_fit : All (ReplicaFits t.gtree) t.run_indices.map
  pub inodes_fit : All (Fits 32) t.gtree.inodes

abbrev pub restore_run : Gtree EditRun → ℕ → Fragments × ℕ → RunTreeDecodeCtx → Decoding
restore_run g run_ts (fragments, offset) ctx = do
  fs ← map_err panicked (Tree.iter fragments)
  ctx' ← steps (restore_fragment g) 0 fs (record ctx { run_ts = run_ts })
  ok (end_run ctx.temporal_offset ctx')

abbrev pub restore_replica : Gtree EditRun → ℕ → ℕ × ReplicaIndices → RunTreeDecodeCtx → Decoding
restore_replica g i (replica_id, runs) ctx = do
  ctx ← steps (restore_run g) 0 runs.vec (start_replica replica_id ctx)
  map_err panicked (end_replica replica_id ctx)

-- The tree that is built anew from the leaves that the indices name, with the same inodes.
unfoldable pub restored : Runs → Result RunTreeDecodeError Runs
unfolding steps
restored t = do
  ctx ←
      steps (restore_replica t.gtree) 0 t.run_indices.map
        (ctx_with (dummies (length t.gtree.lnodes)))
  ok (decoded_tree t.gtree.inodes t.gtree.root_idx ctx)

module _ ⦃v : Varint⦄ (laws : IsVarint v) (g : Gtree EditRun) where
  fragment-Reads :
      (f : Fragment)
      → FragmentFits g f
      → Reads (encode_fragment g) (λ i. decode_fragment) (restore_fragment g) f
  unfolding encode_fragment decode_fragment
  fragment-Reads f h =
      let l = h.lnode_of in
      record {
        bytes =
            encode_u64 (EditRun.len l.value)
            ++ (encode_u64 l.value.lamport_ts
                ++ (encode_bool l.value.is_deleted ++ (encode_u64 f.idx ++ encode_u64 l.parent)));
        written = rw h.exists refl;
        read = λ i ctx rest. simp append_assoc (
            rw
              (
                decode_u64-encode_u64 laws (EditRun.len l.value) _ h.len_fits,
                decode_u64-encode_u64 laws l.value.lamport_ts _ h.lamport_ts_fits,
                decode_bool-encode_bool l.value.is_deleted _,
                decode_u64-encode_u64 laws f.idx _ h.idx_fits,
                decode_u64-encode_u64 laws l.parent rest h.parent_fits,
              )
              (rw h.exists (
                then_ok (λ c. (c, rest))
                  (map_err panicked (
                    add_fragment (EditRun.len l.value) l.value.lamport_ts l.value.is_deleted f.idx
                      l.parent ctx)))));
      }

  run-Reads :
      (run : Fragments × ℕ)
      → RunFits g run
      → Reads (encode_fragments g) decode_run (restore_run g) run
  unfolding encode_fragments decode_fragments
  run-Reads (frs, offset) h =
      let all =
        Reads-ReadsAll (encode_fragment g) (λ i. decode_fragment) (restore_fragment g) h.fragments
          (All-map fragment-Reads h.fragments h.fragments_fit) in
      record {
        bytes = encode_u64 (length h.fragments) ++ all.bytes;
        written = rw (h.in_order, all.written, h.counted) refl;
        read = λ i ctx rest. simp append_assoc (
            rw
              (
                decode_u64-encode_u64 laws (length h.fragments) _ h.count_fits,
                all.read 0 (record ctx { run_ts = i }) rest,
                h.in_order,
              )
              (after_step rest rest (λ ctx' buf. ok (end_run ctx.temporal_offset ctx', buf))
                (λ ctx'. ok (end_run ctx.temporal_offset ctx')) (λ ctx'. refl)
                (steps (restore_fragment g) 0 h.fragments (record ctx { run_ts = i }))));
      }

  replica-Reads :
      (r : ℕ × ReplicaIndices)
      → ReplicaFits g r
      → Reads (encode_replica_runs g) (λ i. decode_replica_runs) (restore_replica g) r
  unfolding encode_replica_runs decode_replica_runs
  replica-Reads (id, runs) h =
      let all =
        Reads-ReadsAll (encode_fragments g) decode_run (restore_run g) runs.vec
          (All-map run-Reads runs.vec h.runs_fit) in
      record {
        bytes = encode_u64 id ++ (encode_u64 (length runs.vec) ++ all.bytes);
        written = rw all.written refl;
        read = λ i ctx rest. simp append_assoc (
            rw
              (
                decode_u64-encode_u64 laws id _ h.id_fits,
                decode_u64-encode_u64 laws (length runs.vec) _ h.count_fits,
                all.read 0 (start_replica id ctx) rest,
              )
              (after_step rest rest
                (λ ctx' buf. (do ctx'' ← map_err panicked (end_replica id ctx'); ok (ctx'', buf)))
                (λ ctx'. map_err panicked (end_replica id ctx'))
                (λ ctx'. then_ok (λ c. (c, rest)) (map_err panicked (end_replica id ctx')))
                (steps (restore_run g) 0 runs.vec (start_replica id ctx))));
      }

-- What encoding a tree writes, and what the decoder makes of it.
pub record Restores ⦃v : Varint⦄ (t : Runs) : Type 0 where
  pub bytes : List ℕ
  pub written : encode_run_tree t ≡ ok bytes
  pub read :
      (rest : List ℕ) → decode_run_tree (bytes ++ rest) ≡ map_ok (λ t'. (t', rest)) (restored t)

inodes-read :
    ⦃v : Varint⦄ (laws : IsVarint v) (t : Runs) (ctx : RunTreeDecodeCtx) (rest : List ℕ)
    → TreeFits t
    → decode_inodes ctx (
        encode_u64 (length t.gtree.inodes)
        ++ (encode_all encode_inode t.gtree.inodes ++ (encode_u64 t.gtree.root_idx ++ rest)))
      ≡ ok (decoded_tree t.gtree.inodes t.gtree.root_idx ctx, rest)
unfolding decode_inodes
inodes-read laws t ctx rest h = rw (
  decode_u64-encode_u64 laws (length t.gtree.inodes) _ h.inodes_count_fits,
  push_times-encode_all encode_inode (decode_inode 32) (Fits 32)
      (λ n rest f. decode_inode-encode_inode laws 32 n rest f) t.gtree.inodes [] _ h.inodes_fit,
  decode_u64-encode_u64 laws t.gtree.root_idx rest h.root_fits,
)

pub encode_run_tree-Restores : ⦃v : Varint⦄ (laws : IsVarint v) (t : Runs) → TreeFits t → Restores t
unfolding encode_run_tree decode_run_tree restored
encode_run_tree-Restores laws t h =
    let g = t.gtree in
    let all =
      Reads-ReadsAll (encode_replica_runs g) (λ i. decode_replica_runs) (restore_replica g)
        t.run_indices.map (All-map (replica-Reads laws g) t.run_indices.map h.replicas_fit) in
    record {
      bytes =
          encode_u64 (length t.run_indices.map)
          ++ (encode_u64 (length g.lnodes)
              ++ (all.bytes
                  ++ (encode_u64 (length g.inodes)
                      ++ (encode_all encode_inode g.inodes ++ encode_u64 g.root_idx))));
      written = rw all.written refl;
      read = λ rest. simp append_assoc (
          rw
            (
              decode_u64-encode_u64 laws (length t.run_indices.map) _ h.replicas_count_fits,
              decode_u64-encode_u64 laws (length g.lnodes) _ h.leaves_count_fits,
              all.read 0 (ctx_with (dummies (length g.lnodes))) _,
            )
            (after_step _ rest decode_inodes (λ ctx. ok (decoded_tree g.inodes g.root_idx ctx))
              (λ ctx. inodes-read laws t ctx rest h)
              (steps (restore_replica g) 0 t.run_indices.map
                (ctx_with (dummies (length g.lnodes))))));
    }
