-- ===== src/RunTree/Filled.antt =====
-- The run tree as what a replica takes it for: the interface RunTree and the encoding TreeCodec with the
-- operations of src/run_tree.rs.
use cola.Prelude.{
  ℕ, true, ◌≡◌, refl, ◌∙◌, ap, [], ◌∷◌, Result, ok, err, map_ok, map_err, add, replicate, none,
}
use cola.Panics.{Panic}
use cola.EditRun
use cola.EditRun.{EditRun}
use cola.Leb128.{Varint, IsVarint}
use cola.Fragments as Inline
use cola.Fragments.Tree.{Fragments}
use cola.Gtree.{dangling}
use cola.Gtree.Grow.{push_leaf, push_inode}
use cola.Gtree.Edit.{initialize, from_first_leaf}
use cola.RunIndices
use cola.RunTree.{RunTree, Inserted, Deleted}
use cola.RunTree.Runs
use cola.RunTree.Runs.{Runs, Captured, new_tree}
use cola.RunTree.Anchors
use cola.RunTree.Cuts
use cola.RunTree.Merge
use cola.RunTree.Spans
use cola.Gtree.Codec.{InodeDecodeError}
use cola.RunTree.Codec.{RunTreeDecodeError, bool, inode, int, encode_run_tree, decode_run_tree}
use cola.RunTree.Codec.RoundTrip.{TreeFits, restored, encode_run_tree-Restores}
use cola.RunTree.Codec.Leaves.{NamesLeaves, restored-gtree}
use cola.Replica.Codec.{TreeCodec, ReadsBack, Stop, raised}
use cola.Anchor.{InnerAnchor}
use cola.VersionMap.{BaseMap}

-- What `RunTree::new` makes of the first run: one leaf below one inode, and one run of one fragment.
abbrev pub first_tree : EditRun → Runs
first_tree run = record {
  gtree = record {
    inodes =
        record {
          tot_len = EditRun.visible_len run;
          parent = dangling;
          children = 0 ∷ [];
          has_leaves = true;
        }
        ∷ [];
    lnodes = record { value = run; parent = 0 } ∷ [];
    root_idx = 0;
    cursor = none;
  };
  run_indices = record {
    map =
        (
          EditRun.replica_id run,
          record {
            vec =
                (
                  Fragments.array (record {
                    slots = record { len = EditRun.len run; idx = 0 } ∷ replicate 7 Inline.null;
                    len = 1;
                    total_len = add 0 (EditRun.len run);
                  }),
                  0,
                )
                ∷ [];
          },
        )
        ∷ [];
  };
}

-- Creating a tree does not panic.
pub new_tree-first_tree : (run : EditRun) → new_tree run ≡ ok (first_tree run)
unfolding new_tree from_first_leaf initialize push_leaf push_inode RunIndices.update
    RunIndices.append
new_tree-first_tree run = refl

-- A tree without a root, which no operation makes, has no length.
abbrev len_of : Result Panic ℕ → ℕ
len_of (ok n) = n
len_of (err p) = 0

unfoldable pub len : Runs → ℕ
unfolding Anchors.len
len t = len_of (Anchors.len t)

abbrev as_inserted : Captured × Runs → Inserted Runs
as_inserted (c, t) = record {
  anchor = c.anchor;
  tree = t;
  run_clock = c.run_clock;
  lamport_clock = c.lamport_clock;
}

abbrev as_deleted : (InnerAnchor × InnerAnchor × BaseMap) × Runs → Deleted Runs
as_deleted ((start, end, map), t) = record { start = start; end = end; tree = t; version_map = map }

-- The operations of `RunTree`.
abbrev pub run_tree : RunTree
run_tree = record {
  Tree = Runs;
  new = first_tree;
  len = len;
  insert = λ t offset text run_clock lamport_clock.
      map_ok as_inserted (Runs.insert offset text run_clock lamport_clock t);
  delete = λ t range map. map_ok as_deleted (Cuts.delete range map t);
  merge_insertion = λ t insertion. Merge.merge_insertion insertion t;
  merge_deletion = λ t deletion. Spans.merge_deletion deletion t;
  create_anchor = Anchors.create_anchor;
  resolve_anchor = Anchors.resolve_anchor;
}

-- The decoders of the tree keep their panics among their errors.
abbrev stop : RunTreeDecodeError → Stop RunTreeDecodeError
stop (bool e) = raised (bool e)
stop (int e) = raised (int e)
stop (inode (InodeDecodeError.bool e)) = raised (inode (InodeDecodeError.bool e))
stop (inode (InodeDecodeError.int e)) = raised (inode (InodeDecodeError.int e))
stop (inode (InodeDecodeError.panicked p)) = Stop.panicked p
stop (RunTreeDecodeError.panicked p) = Stop.panicked p

-- Its encoding.
abbrev pub run_tree_codec : ⦃v : Varint⦄ → TreeCodec Runs
run_tree_codec = record {
  RunTreeDecodeError = RunTreeDecodeError;
  encode_tree = encode_run_tree;
  decode_tree = λ buf. map_err stop (decode_run_tree buf);
}

-- Let the parts of a tree fit into the format, let its fragments name each leaf with the place of its run in
-- the text of its replica, and let appending the fragments anew not panic. Then encoding the tree does not
-- panic, decoding the bytes returns a tree and leaves what follows them, and that tree has the inodes, the
-- leaves and the root of the encoded one, and no cursor.
pub decode_run_tree-encode_run_tree :
    ⦃v : Varint⦄ (laws : IsVarint v) (t t' : Runs)
    → TreeFits t
    → NamesLeaves t
    → restored t ≡ ok t'
    → ReadsBack run_tree_codec t t' × (t'.gtree ≡ record t.gtree { cursor = none })
decode_run_tree-encode_run_tree laws t t' h names e =
    let r = encode_run_tree-Restores laws t h in
    (
      record {
        bytes = r.bytes;
        written = r.written;
        read = λ rest. ap (map_err stop) (r.read rest ∙ ap (map_ok (λ t'. (t', rest))) e);
      },
      restored-gtree t t' names e,
    )
