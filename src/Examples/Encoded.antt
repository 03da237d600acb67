-- ===== src/Examples/Encoded.antt =====
-- Encoded replicas on the run tree, also one whose decoding panics, with a digest that tells the length of the bytes.
use cola.Prelude.{
  ◌↔◌, List, ◌++◌, ℕ, zero, suc, ◌<◌, inl, inr, ◌≡◌, ◌%◌, refl, [], ◌∷◌, Result, ok, err, ◌>>=◌,
  none, length, map_ok, replicate, arith,
}
use cola.Panics.{Panic, index_out_of_bounds}
use cola.Codec.{encode_u64, decode_u64, decode_bool}
use cola.Text.{Text}
use cola.EditRun
use cola.EditRun.{EditRun}
use cola.Backlog
use cola.Replica
use cola.Replica.{Replica}
use cola.Replica.Codec.{
  panicked, decode_replica, TreeCodec, ReadsBack, IsEncodable, Encoded, encode_replica-Encoded,
  decoded,
}
use cola.RunTree.Runs.{Runs, Captured, insert}
use cola.RunTree.Codec.{add_fragment, end_replica, decode_run_tree}
use cola.RunTree.Codec.RoundTrip.{TreeFits, restored}
use cola.RunTree.Codec.Leaves.{NamesLeaves, InReplicas}
use cola.Gtree.{Lnode, lnode}
use cola.Fragments.Tree
use cola.RunTree.Filled.{run_tree, run_tree_codec, first_tree, decode_run_tree-encode_run_tree}
use cola.EncodedReplica.{
  Sha256, IsSha256, encode, decode, decode-encode, to_replica, same_bytes, IsSealed,
  to_replica_authentic, to_replica_panics,
}
use cola.Examples.Bytes.{leb128, leb128-IsVarint}

abbrev of_length : Sha256
of_length = record { digest = λ bytes. length bytes % 256 ∷ replicate 31 0 }

of_length-IsSha256 : IsSha256 of_length
of_length-IsSha256 = record { size = λ bytes. refl }

abbrev codec : TreeCodec Runs
codec = run_tree_codec ⦃v = leb128⦄

-- A run of ten characters of replica 1, with two characters inserted after the fourth one.
abbrev pub text_from : ℕ → ℕ → Text
text_from start end = record { inserted_by = 1; range = record { start = start; end = end } }

abbrev tree_of : Result Panic (Captured × Runs) → Runs
tree_of (ok (c, t)) = t
tree_of (err p) = first_tree (EditRun.new_visible (text_from 0 10) 0 0)

abbrev pub edited_tree : Runs
edited_tree = tree_of (
    insert 4 (text_from 10 12) (record { value = 1 }) (record { value = 1 })
      (first_tree (EditRun.new_visible (text_from 0 10) 0 0)))

-- The same tree without its cursor.
abbrev read_tree : Runs
read_tree = record edited_tree { gtree = record edited_tree.gtree { cursor = none } }

-- A leaf whose run has the same timestamp twice.
abbrev leaf_of : ℕ → ℕ → ℕ → Lnode EditRun
leaf_of start end ts = record {
  value = EditRun.new_visible (text_from start end) ts ts;
  parent = 0;
}

edited_tree-TreeFits : TreeFits edited_tree
unfolding insert Tree.iter Tree.num_fragments lnode EditRun.visible_len
edited_tree-TreeFits = record {
  replicas_count_fits = omega arith;
  leaves_count_fits = omega arith;
  inodes_count_fits = omega arith;
  root_fits = omega arith;
  replicas_fit = (
    record {
      id_fits = omega arith;
      count_fits = omega arith;
      runs_fit = (
        record {
          fragments = record { len = 4; idx = 0 } ∷ record { len = 6; idx = 2 } ∷ [];
          in_order = refl;
          counted = refl;
          count_fits = omega arith;
          fragments_fit = (
            record {
              lnode_of = leaf_of 0 4 0;
              exists = refl;
              len_fits = omega arith;
              lamport_ts_fits = omega arith;
              idx_fits = omega arith;
              parent_fits = omega arith;
            },
            (
              record {
                lnode_of = leaf_of 4 10 0;
                exists = refl;
                len_fits = omega arith;
                lamport_ts_fits = omega arith;
                idx_fits = omega arith;
                parent_fits = omega arith;
              },
              tt,
            ),
          );
        },
        (
          record {
            fragments = record { len = 2; idx = 1 } ∷ [];
            in_order = refl;
            counted = refl;
            count_fits = omega arith;
            fragments_fit = (
              record {
                lnode_of = leaf_of 10 12 1;
                exists = refl;
                len_fits = omega arith;
                lamport_ts_fits = omega arith;
                idx_fits = omega arith;
                parent_fits = omega arith;
              },
              tt,
            );
          },
          tt,
        ),
      );
    },
    tt,
  );
  inodes_fit = (
    record {
      tot_len_fits = omega arith;
      parent_fits = omega arith;
      count_fits = omega arith;
      children_fit = (omega arith, (omega arith, (omega arith, tt)));
      room = omega arith;
    },
    tt,
  );
}

edited_tree-restored : restored edited_tree ≡ ok read_tree
unfolding restored insert EditRun.visible_len Tree.iter add_fragment end_replica
edited_tree-restored = refl

leaf_named :
    (i : ℕ)
    → i < length edited_tree.gtree.lnodes
    → InReplicas edited_tree.gtree edited_tree.run_indices.map i
unfolding insert Tree.iter EditRun.visible_len
leaf_named zero p = inl (inl (_, refl, inl refl))
leaf_named (suc zero) p = inl (inr (inl (_, refl, inl refl)))
leaf_named (suc (suc zero)) p = inl (inl (_, refl, inr (inl refl)))
leaf_named (suc (suc (suc i))) p = absurd (omega arith)

edited_tree-NamesLeaves : NamesLeaves edited_tree
unfolding insert Tree.iter lnode EditRun.visible_len
edited_tree-NamesLeaves = record {
  named = (
    (
      10,
      record {
        parts = record { len = 4; idx = 0 } ∷ record { len = 6; idx = 2 } ∷ [];
        in_order = refl;
        named = (
          record {
            lnode_of = leaf_of 0 4 0;
            exists = refl;
            text = record { id_fits = omega arith; ordered = omega arith; end_fits = omega arith };
            author = refl;
            run = refl;
            starts = refl;
            same_len = refl;
          },
          (
            record {
              lnode_of = leaf_of 4 10 0;
              exists = refl;
              text = record {
                id_fits = omega arith;
                ordered = omega arith;
                end_fits = omega arith;
              };
              author = refl;
              run = refl;
              starts = refl;
              same_len = refl;
            },
            tt,
          ),
        );
        ends = refl;
      },
      (
        12,
        record {
          parts = record { len = 2; idx = 1 } ∷ [];
          in_order = refl;
          named = (
            record {
              lnode_of = leaf_of 10 12 1;
              exists = refl;
              text = record {
                id_fits = omega arith;
                ordered = omega arith;
                end_fits = omega arith;
              };
              author = refl;
              run = refl;
              starts = refl;
              same_len = refl;
            },
            tt,
          );
          ends = refl;
        },
        tt,
      ),
    ),
    tt,
  );
  each = leaf_named;
}

decode_run_tree-encode_run_tree_example :
    ReadsBack codec edited_tree read_tree
    × (read_tree.gtree ≡ record edited_tree.gtree { cursor = none })
decode_run_tree-encode_run_tree_example =
    decode_run_tree-encode_run_tree ⦃v = leb128⦄ leb128-IsVarint edited_tree read_tree
      edited_tree-TreeFits edited_tree-NamesLeaves edited_tree-restored

abbrev edited_replica : Replica Runs
edited_replica = record {
  id = 1;
  run_tree = edited_tree;
  lamport_clock = record { value = 2 };
  run_clock = record { value = 2 };
  version_map = record { this_id = 1; this_value = 12; rest = (2, 3) ∷ [] };
  deletion_map = record { this_id = 1; this_value = 0; rest = (2, 1) ∷ [] };
  backlog = Backlog.new;
}

edited_replica-IsEncodable : IsEncodable codec edited_replica read_tree
edited_replica-IsEncodable = record {
  tree =
      (decode_run_tree-encode_run_tree ⦃v = leb128⦄ leb128-IsVarint edited_tree read_tree
        edited_tree-TreeFits edited_tree-NamesLeaves edited_tree-restored).0;
  clock_fits = omega arith;
  versions = ((omega arith, tt), (tt, tt));
  versions_fit = record {
    id_fits = omega arith;
    value_fits = omega arith;
    count_fits = omega arith;
    entries_fit = ((omega arith, omega arith), tt);
  };
  deletions = ((omega arith, tt), (tt, tt));
  deletions_fit = record {
    id_fits = omega arith;
    value_fits = omega arith;
    count_fits = omega arith;
    entries_fit = ((omega arith, omega arith), tt);
  };
  backlog = record {
    insertion_ids = tt;
    insertions_fit = omega arith;
    insertions = tt;
    deletion_ids = tt;
    deletions_fit = omega arith;
    deletions = tt;
  };
}

decode-encode_example :
    (encode ⦃v = leb128⦄ ⦃s = of_length⦄ ⦃C = codec⦄ edited_replica
      >>= decode ⦃v = leb128⦄ ⦃s = of_length⦄ ⦃C = codec⦄ 7)
    ≡ map_ok ok (Replica.fork ⦃T = run_tree⦄ (record edited_replica { run_tree = read_tree }) 7)
decode-encode_example =
    decode-encode ⦃v = leb128⦄ ⦃s = of_length⦄ leb128-IsVarint of_length-IsSha256 ⦃T = run_tree⦄
      ⦃C = codec⦄ 7 edited_replica read_tree (omega arith) edited_replica-IsEncodable

abbrev encoded : Encoded ⦃v = leb128⦄ ⦃C = codec⦄ edited_replica read_tree
encoded =
    encode_replica-Encoded ⦃v = leb128⦄ ⦃C = codec⦄ leb128-IsVarint edited_replica read_tree
      edited_replica-IsEncodable

-- The bytes of a version, a checksum and a body.
abbrev packed : List ℕ → List ℕ
packed body = encode_u64 ⦃v = leb128⦄ 3 ++ (of_length.digest body ++ body)

-- The body is read back, with nothing left.
to_replica_authentic_example :
    (to_replica ⦃v = leb128⦄ ⦃s = of_length⦄ ⦃C = codec⦄ (packed encoded.bytes)
      ≡ ok (ok (decoded ⦃v = leb128⦄ ⦃C = codec⦄ edited_replica read_tree)))
    ↔ ((body : List ℕ) × (rest : List ℕ) × IsSealed ⦃v = leb128⦄ ⦃s = of_length⦄
          (packed encoded.bytes)
          body
        × (decode_replica ⦃v = leb128⦄ ⦃C = codec⦄ body
            ≡ ok (decoded ⦃v = leb128⦄ ⦃C = codec⦄ edited_replica read_tree, rest)))
to_replica_authentic_example =
    to_replica_authentic ⦃v = leb128⦄ ⦃s = of_length⦄ ⦃C = codec⦄ (packed encoded.bytes)
      (decoded ⦃v = leb128⦄ ⦃C = codec⦄ edited_replica read_tree)

-- A body with an inode of 33 children.
abbrev crowded : List ℕ
crowded = 0 ∷ 0 ∷ 1 ∷ 0 ∷ 0 ∷ 33 ∷ 1 ∷ []

to_replica_panics_example :
    (to_replica ⦃v = leb128⦄ ⦃s = of_length⦄ ⦃C = codec⦄ (packed crowded) ≡ err index_out_of_bounds)
    ↔ ((body : List ℕ) × IsSealed ⦃v = leb128⦄ ⦃s = of_length⦄ (packed crowded) body
        × (decode_replica ⦃v = leb128⦄ ⦃C = codec⦄ body ≡ err (panicked index_out_of_bounds)))
to_replica_panics_example =
    to_replica_panics ⦃v = leb128⦄ ⦃s = of_length⦄ ⦃C = codec⦄ (packed crowded) index_out_of_bounds

crowded_panics :
    to_replica ⦃v = leb128⦄ ⦃s = of_length⦄ ⦃C = codec⦄ (packed crowded) ≡ err index_out_of_bounds
unfolding to_replica decode_u64 leb128 encode_u64 same_bytes decode_replica decode_run_tree
    decode_bool
crowded_panics = refl
