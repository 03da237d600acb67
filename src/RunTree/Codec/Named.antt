-- ===== src/RunTree/Codec/Named.antt =====
-- Fragments that name a leaf and the place of its run in the text of its replica, and the leaf that the
-- decoder writes for one (src/run_tree.rs, `mod encode`).
use cola.Prelude.{
  ℕ, ◌≡◌, refl, sym, ap, ◌∙◌, Result, ok, err, ◌>>=◌, ok-injective, add, arith, Bool,
}
use cola.Slices.{update_nth}
use cola.Text
use cola.EditRun
use cola.EditRun.{EditRun}
use cola.Fragments.{Fragment}
use cola.Fragments.Tree
use cola.Fragments.Tree.{Fragments}
use cola.Gtree.{Gtree, Lnode, lnode}
use cola.RunTree.Codec.{panicked, RunTreeDecodeCtx, add_fragment}
use cola.RunTree.Codec.RoundTrip.{restore_fragment}
use cola.RunTree.Codec.Writes.{Writes, map_err-eq-ok, update_nth-Writes}

abbrev pub text_at : ℕ → ℕ → ℕ → Text.Text
text_at id start end = record { inserted_by = id; range = record { start = start; end = end } }

-- Two calls and what is made of their values.
two_steps :
    {E A B C : Type 0} (r : Result E A) (q : Result E B) (f : A → B → C) (c : C)
    → (do a ← r; b ← q; ok (f a b)) ≡ ok c
    → (a : A) × (b : B) × (q ≡ ok b) × (f a b ≡ c)
two_steps (ok a) (ok b) f c e = (a, b, refl, ok-injective e)
two_steps (ok a) (err p) f c e = cc
two_steps (err p) q f c e = cc

-- Where in the runs of a replica the decoder is.
pub record At (id run_ts start : ℕ) (ctx : RunTreeDecodeCtx) : Type 0 where
  pub id_at : ctx.replica_id ≡ id
  pub run_at : ctx.run_ts ≡ run_ts
  pub offset_at : ctx.temporal_offset ≡ start

-- A fragment adds its leaf.
add_fragment-At :
    (id run_ts start len lamport_ts : ℕ) (is_deleted : Bool) (leaf_idx parent_idx : ℕ)
    (ctx ctx' : RunTreeDecodeCtx)
    → At id run_ts start ctx
    → add_fragment len lamport_ts is_deleted leaf_idx parent_idx ctx ≡ ok ctx'
    → At id run_ts (add start len) ctx'
      × (update_nth ctx.lnodes leaf_idx (λ l. record {
        value = EditRun.new (text_at id start (add start len)) run_ts lamport_ts is_deleted;
        parent = parent_idx;
      })
          ≡ ok ctx'.lnodes)
unfolding add_fragment
add_fragment-At id run_ts start len lamport_ts is_deleted leaf_idx parent_idx ctx ctx' at e =
    let text = text_at ctx.replica_id ctx.temporal_offset (add ctx.temporal_offset len) in
    let (frs, ls, written, same) =
      two_steps (Tree.append ctx.fragments (record { len = len; idx = leaf_idx }))
        (update_nth ctx.lnodes leaf_idx (λ l. record {
          value = EditRun.new text ctx.run_ts lamport_ts is_deleted;
          parent = parent_idx;
        }))
        (λ frs ls. record ctx {
          fragments = frs;
          temporal_offset = add ctx.temporal_offset len;
          lnodes = ls;
        })
        ctx' e in
    let lnodes : ls ≡ ctx'.lnodes = ap (λ c. c.lnodes) same in
    (
      record {
        id_at = ap (λ c. c.replica_id) (sym same) ∙ at.id_at;
        run_at = ap (λ c. c.run_ts) (sym same) ∙ at.run_at;
        offset_at = ap (λ c. c.temporal_offset) (sym same) ∙ ap (λ n. add n len) at.offset_at;
      },
      rw (sym at.id_at, sym at.run_at, sym at.offset_at, sym lnodes) written,
    )

module _ (g : Gtree EditRun) where
  -- The leaf of a fragment is as long as it, and holds the run of a replica with this timestamp from an
  -- offset on.
  pub record Named (id run_ts start : ℕ) (f : Fragment) : Type 0 where
    pub lnode_of : Lnode EditRun
    pub exists : lnode f.idx g ≡ ok lnode_of
    pub text : Text.IsValid lnode_of.value.text
    pub author : EditRun.replica_id lnode_of.value ≡ id
    pub run : lnode_of.value.run_ts ≡ run_ts
    pub starts : EditRun.start lnode_of.value ≡ start
    pub same_len : EditRun.len lnode_of.value ≡ f.len

  -- The leaf is what the decoder makes of its parts.
  leaf-Named :
      (id run_ts start : ℕ) (f : Fragment) (h : Named id run_ts start f)
      → h.lnode_of ≡ record {
        value =
            EditRun.new
              (text_at id start (add start f.len))
              run_ts
              h.lnode_of.value.lamport_ts
              h.lnode_of.value.is_deleted;
        parent = h.lnode_of.parent;
      }
  leaf-Named id run_ts start f h =
      let end : add start f.len ≡ EditRun.end h.lnode_of.value =
        omega (arith, h.text.ordered, h.text.end_fits, h.starts, h.same_len) in
      rw (end, sym h.author, sym h.run, sym h.starts) refl

  pub fragment-Writes :
      (id run_ts start i : ℕ) (f : Fragment) (ctx ctx' : RunTreeDecodeCtx)
      → Named id run_ts start f
      → At id run_ts start ctx
      → restore_fragment g i f ctx ≡ ok ctx'
      → At id run_ts (add start f.len) ctx'
        × Writes g.lnodes ctx.lnodes ctx'.lnodes (λ i. f.idx ≡ i)
  unfolding lnode
  fragment-Writes id run_ts start i f ctx ctx' h at e =
      let l = h.lnode_of in
      let call =
        add_fragment (EditRun.len l.value) l.value.lamport_ts l.value.is_deleted f.idx l.parent
          ctx in
      let added : call ≡ ok ctx' = map_err-eq-ok panicked call ctx' (rw h.exists at e) in
      let (at', written) =
        add_fragment-At id run_ts start f.len l.value.lamport_ts l.value.is_deleted f.idx l.parent
          ctx ctx' at (rw h.same_len at added) in
      (
        at',
        update_nth-Writes g.lnodes ctx.lnodes ctx'.lnodes f.idx l h.exists
            (rw (leaf-Named id run_ts start f h) written),
      )
