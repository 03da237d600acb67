-- ===== src/RunTree/Codec/Leaves.antt =====
-- The leaves that the decoder of the run tree writes (src/run_tree.rs, `mod encode`).
use cola.Prelude.{
  ℕ, zero, suc, ◌<◌, ◌≡◌, refl, sym, ap, ◌∙◌, List, [], ◌∷◌, Result, ok, map_err, ◌>>=◌, >>=-eq-ok,
  ok-injective, length, add, none, replicate,
}
use mathlib.Core.Path.{subst}
use cola.Panics.{Panic}
use cola.EditRun.{EditRun}
use cola.Fragments.{Fragment}
use cola.Fragments.Tree
use cola.Fragments.Tree.{Fragments}
use cola.Gtree.{Gtree}
use cola.RunIndices
use cola.RunIndices.{ReplicaIndices}
use cola.RunTree.Runs.{Runs}
use cola.RunTree.Codec.{
  panicked, RunTreeDecodeCtx, end_run, start_replica, end_replica, ctx_with, dummies, decoded_tree,
}
use cola.RunTree.Codec.Reads.{Decoding, steps}
use cola.RunTree.Codec.RoundTrip.{restore_fragment, restore_run, restore_replica, restored}
use cola.RunTree.Codec.Writes.{
  Any, Writes, map_err-eq-ok, Writes-none, Writes-fewer, Writes-then, nth-eq,
}
use cola.RunTree.Codec.Named.{At, Named, fragment-Writes}

module _ (g : Gtree EditRun) where
  -- The fragments of a run follow each other.
  abbrev pub offset_after : ℕ → List Fragment → ℕ
  offset_after start [] = start
  offset_after start (f ∷ fs) = offset_after (add start f.len) fs

  abbrev pub AllNamed : ℕ → ℕ → ℕ → List Fragment → Type 0
  AllNamed id run_ts start [] = Unit
  AllNamed id run_ts start (f ∷ fs) =
      Named g id run_ts start f × AllNamed id run_ts (add start f.len) fs

  -- The leaf at an index is that of one of the fragments.
  abbrev pub InFragments : List Fragment → ℕ → Type 0
  InFragments fs i = Any (λ f. f.idx ≡ i) fs

  fragments-Writes :
      (id run_ts start i : ℕ) (fs : List Fragment) (ctx ctx' : RunTreeDecodeCtx)
      → AllNamed id run_ts start fs
      → At id run_ts start ctx
      → steps (restore_fragment g) i fs ctx ≡ ok ctx'
      → At id run_ts (offset_after start fs) ctx'
        × Writes g.lnodes ctx.lnodes ctx'.lnodes (InFragments fs)
  unfolding steps
  fragments-Writes id run_ts start i [] ctx ctx' h at e =
      subst (λ c. At id run_ts start c × Writes g.lnodes ctx.lnodes c.lnodes (λ i. ⊥))
        (ok-injective e) (at, Writes-none g.lnodes ctx.lnodes)
  fragments-Writes id run_ts start i (f ∷ fs) ctx ctx' (h, hs) at e =
      let (next, here, rest) =
        >>=-eq-ok (restore_fragment g i f ctx) (steps (restore_fragment g) (suc i) fs) e in
      let (at', first) = fragment-Writes g id run_ts start i f ctx next h at here in
      let (at'', later) =
        fragments-Writes id run_ts (add start f.len) (suc i) fs next ctx' hs at' rest in
      (
        at'',
        Writes-then g.lnodes ctx.lnodes next.lnodes ctx'.lnodes (λ i. f.idx ≡ i) (InFragments fs)
            first later,
      )

  -- The runs of a replica follow each other.
  pub record RunNamed (id run_ts start : ℕ) (run : Fragments × ℕ) (end : ℕ) : Type 0 where
    pub parts : List Fragment
    pub in_order : Tree.iter run.0 ≡ ok parts
    pub named : AllNamed id run_ts start parts
    pub ends : offset_after start parts ≡ end

  abbrev pub InRun : Fragments × ℕ → ℕ → Type 0
  InRun run i = (fs : List Fragment) × (Tree.iter run.0 ≡ ok fs) × InFragments fs i

  run-Writes :
      (id run_ts start end other : ℕ) (run : Fragments × ℕ) (ctx ctx' : RunTreeDecodeCtx)
      → RunNamed id run_ts start run end
      → At id other start ctx
      → restore_run g run_ts run ctx ≡ ok ctx'
      → At id run_ts end ctx' × Writes g.lnodes ctx.lnodes ctx'.lnodes (InRun run)
  run-Writes id run_ts start end other (frs, offset) ctx ctx' h at e =
      let ctx0 : RunTreeDecodeCtx = record ctx { run_ts = run_ts } in
      let at0 : At id run_ts start ctx0 = record {
        id_at = at.id_at;
        run_at = refl;
        offset_at = at.offset_at;
      } in
      let call = steps (restore_fragment g) 0 h.parts ctx0 in
      let finish : RunTreeDecodeCtx → Decoding = λ c. ok (end_run ctx.temporal_offset c) in
      let done : (call >>= finish) ≡ ok ctx' = rw h.in_order at e in
      let (last, here, same) = >>=-eq-ok call finish done in
      let (at', w) = fragments-Writes id run_ts start 0 h.parts ctx0 last h.named at0 here in
      let is_part : (i : ℕ) → InRun (frs, offset) i → InFragments h.parts i = λ i (fs, q, among).
        let eq : fs ≡ h.parts = ok-injective (sym q ∙ h.in_order) in
        subst (λ fs. InFragments fs i) eq among in
      subst (λ c. At id run_ts end c × Writes g.lnodes ctx.lnodes c.lnodes (InRun (frs, offset)))
        (ok-injective same)
        (
          record { id_at = at'.id_at; run_at = at'.run_at; offset_at = at'.offset_at ∙ h.ends },
          Writes-fewer g.lnodes ctx.lnodes last.lnodes (InFragments h.parts) (InRun (frs, offset))
              is_part w,
        )

  abbrev pub AllRunsNamed : ℕ → ℕ → ℕ → List (Fragments × ℕ) → Type 0
  AllRunsNamed id run_ts start [] = Unit
  AllRunsNamed id run_ts start (run ∷ runs) =
      (end : ℕ) × RunNamed id run_ts start run end × AllRunsNamed id (suc run_ts) end runs

  abbrev pub InRuns : List (Fragments × ℕ) → ℕ → Type 0
  InRuns runs i = Any (λ run. InRun run i) runs

  runs-Writes :
      (id run_ts start other : ℕ) (runs : List (Fragments × ℕ)) (ctx ctx' : RunTreeDecodeCtx)
      → AllRunsNamed id run_ts start runs
      → At id other start ctx
      → steps (restore_run g) run_ts runs ctx ≡ ok ctx'
      → Writes g.lnodes ctx.lnodes ctx'.lnodes (InRuns runs)
  unfolding steps
  runs-Writes id run_ts start other [] ctx ctx' h at e =
      subst (λ c. Writes g.lnodes ctx.lnodes c.lnodes (λ i. ⊥)) (ok-injective e)
        (Writes-none g.lnodes ctx.lnodes)
  runs-Writes id run_ts start other (run ∷ runs) ctx ctx' (end, h, hs) at e =
      let (next, here, rest) =
        >>=-eq-ok (restore_run g run_ts run ctx) (steps (restore_run g) (suc run_ts) runs) e in
      let (at', first) = run-Writes id run_ts start end other run ctx next h at here in
      Writes-then g.lnodes ctx.lnodes next.lnodes ctx'.lnodes (InRun run) (InRuns runs) first
        (runs-Writes id (suc run_ts) end run_ts runs next ctx' hs at' rest)

  end_replica-lnodes :
      (id : ℕ) (ctx ctx' : RunTreeDecodeCtx)
      → end_replica id ctx ≡ ok ctx'
      → ctx.lnodes ≡ ctx'.lnodes
  unfolding end_replica
  end_replica-lnodes id ctx ctx' e =
      let change : ReplicaIndices → Result Panic ReplicaIndices =
        λ r. ok (record { vec = ctx.replica_indices }) in
      let (run_indices, p, same) =
        >>=-eq-ok (RunIndices.update ctx.run_indices id change)
          (λ run_indices. ok (record ctx { replica_indices = []; run_indices = run_indices })) e in
      ap (λ c. c.lnodes) (ok-injective same)

  -- The texts of each replica start at zero.
  abbrev pub AllReplicasNamed : List (ℕ × ReplicaIndices) → Type 0
  AllReplicasNamed [] = Unit
  AllReplicasNamed (r ∷ rs) = AllRunsNamed r.0 0 0 r.1.vec × AllReplicasNamed rs

  abbrev pub InReplicas : List (ℕ × ReplicaIndices) → ℕ → Type 0
  InReplicas rs i = Any (λ r. InRuns r.1.vec i) rs

  replica-Writes :
      (i : ℕ) (r : ℕ × ReplicaIndices) (ctx ctx' : RunTreeDecodeCtx)
      → AllRunsNamed r.0 0 0 r.1.vec
      → restore_replica g i r ctx ≡ ok ctx'
      → Writes g.lnodes ctx.lnodes ctx'.lnodes (InRuns r.1.vec)
  replica-Writes i (id, runs) ctx ctx' h e =
      let (last, here, end) =
        >>=-eq-ok (steps (restore_run g) 0 runs.vec (start_replica id ctx))
          (λ c. map_err panicked (end_replica id c)) e in
      let w =
        runs-Writes id 0 0 ctx.run_ts runs.vec (start_replica id ctx) last h
          (record { id_at = refl; run_at = refl; offset_at = refl }) here in
      let ended = map_err-eq-ok panicked (end_replica id last) ctx' end in
      subst (λ ls. Writes g.lnodes ctx.lnodes ls (InRuns runs.vec))
        (end_replica-lnodes id last ctx' ended) w

  replicas-Writes :
      (i : ℕ) (rs : List (ℕ × ReplicaIndices)) (ctx ctx' : RunTreeDecodeCtx)
      → AllReplicasNamed rs
      → steps (restore_replica g) i rs ctx ≡ ok ctx'
      → Writes g.lnodes ctx.lnodes ctx'.lnodes (InReplicas rs)
  unfolding steps
  replicas-Writes i [] ctx ctx' h e =
      subst (λ c. Writes g.lnodes ctx.lnodes c.lnodes (λ i. ⊥)) (ok-injective e)
        (Writes-none g.lnodes ctx.lnodes)
  replicas-Writes i (r ∷ rs) ctx ctx' (h, hs) e =
      let (next, here, rest) =
        >>=-eq-ok (restore_replica g i r ctx) (steps (restore_replica g) (suc i) rs) e in
      Writes-then g.lnodes ctx.lnodes next.lnodes ctx'.lnodes (InRuns r.1.vec) (InReplicas rs)
        (replica-Writes i r ctx next h here) (replicas-Writes (suc i) rs next ctx' hs rest)

length-replicate : {A : Type 0} (n : ℕ) (x : A) → length (replicate n x) ≡ n
length-replicate zero x = refl
length-replicate (suc n) x = ap suc (length-replicate n x)

-- The fragments of the indices name each leaf, with the place of its run in the text of its replica.
pub record NamesLeaves (t : Runs) : Type 0 where
  pub named : AllReplicasNamed t.gtree t.run_indices.map
  pub each : (i : ℕ) → i < length t.gtree.lnodes → InReplicas t.gtree t.run_indices.map i

-- Rebuilding such a tree gives the same tree of runs, without its cursor.
pub restored-gtree :
    (t t' : Runs) → NamesLeaves t → restored t ≡ ok t' → t'.gtree ≡ record t.gtree { cursor = none }
unfolding restored
restored-gtree t t' h e =
    let g = t.gtree in
    let start = ctx_with (dummies (length g.lnodes)) in
    let (ctx, done, same) =
      >>=-eq-ok (steps (restore_replica g) 0 t.run_indices.map start)
        (λ ctx. ok (decoded_tree g.inodes g.root_idx ctx)) e in
    let w = replicas-Writes g 0 t.run_indices.map start ctx h.named done in
    let lnodes : ctx.lnodes ≡ g.lnodes =
      nth-eq ctx.lnodes g.lnodes (w.kept ∙ length-replicate (length g.lnodes) _)
        (λ i p. w.wrote i (h.each i p)) in
    ap (λ t. t.gtree) (sym (ok-injective same))
    ∙ ap (λ ls. record g { lnodes = ls; cursor = none }) lnodes
