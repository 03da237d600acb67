-- ===== src/Replica/Codec.antt =====
-- The encoding of replicas (src/replica.rs, `mod encode`), over that of run trees.
use cola.Prelude.{ℕ, ◌≡◌, refl, List, ◌++◌, append_assoc, Result, ok, map_err, ◌>>=◌, IsU64}
use cola.Panics.{Panic}
use cola.Leb128.{Varint, IsVarint}
use cola.Codec.{encode_u64, decode_u64, IntDecodeError}
use cola.Codec.RoundTrip.{decode_u64-encode_u64}
use cola.LamportClock.{LamportClock}
use cola.VersionMap
use cola.VersionMap.{BaseMap}
use cola.VersionMap.Codec.{Fits, BaseMapDecodeError, encode_map, decode_map, decode_map-encode_map}
use cola.Backlog.{Backlog}
use cola.Backlog.Codec.{BacklogDecodeError, encode_backlog, decode_backlog}
use cola.Backlog.Codec.RoundTrip
use cola.Backlog.Codec.RoundTrip.{decode_backlog-encode_backlog}
use cola.Replica.{Replica}

-- How a decoder stops before its end: it returns an error, or it panics.
pub data Stop (E : Type 0) : Type 0 where
  raised : E → Stop E
  panicked : Panic → Stop E

abbrev pub raised_as : {E F : Type 0} → (E → F) → Stop E → Stop F
raised_as f (raised e) = raised (f e)
raised_as f (panicked p) = panicked p

-- `Encode` and `Decode` of `RunTree` (src/run_tree.rs).
pub record TreeCodec (Tree : Type 0) : Type 1 where
  pub RunTreeDecodeError : Type 0
  pub encode_tree : Tree → Result Panic (List ℕ)
  pub decode_tree : List ℕ → Result (Stop RunTreeDecodeError) (Tree × List ℕ)

-- The second tree is read back from the encoding of the first one.
pub record ReadsBack {Tree : Type 0} (C : TreeCodec Tree) (t t' : Tree) : Type 0 where
  pub bytes : List ℕ
  pub written : C.encode_tree t ≡ ok bytes
  pub read : (rest : List ℕ) → C.decode_tree (bytes ++ rest) ≡ ok (t', rest)

pub data ReplicaDecodeError (E : Type 0) : Type 0 where
  backlog : BacklogDecodeError → ReplicaDecodeError E
  deletion_map version_map : BaseMapDecodeError → ReplicaDecodeError E
  int : IntDecodeError → ReplicaDecodeError E
  run_tree : E → ReplicaDecodeError E

-- What is decoded.
pub record Decoded (Tree : Type 0) : Type 0 where
  pub run_tree : Tree
  pub lamport_clock : LamportClock
  pub version_map : BaseMap
  pub deletion_map : BaseMap
  pub backlog : Backlog

-- The parts of the replica fit into the format, and its tree is read back as the given one, which need
-- not have the same cursor and the same trees of fragments.
pub record IsEncodable {Tree : Type 0} (C : TreeCodec Tree) (r : Replica Tree) (t' : Tree)
    : Type 0 where
  pub tree : ReadsBack C r.run_tree t'
  pub clock_fits : IsU64 r.lamport_clock.value
  pub versions : VersionMap.IsValid r.version_map
  pub versions_fit : Fits r.version_map
  pub deletions : VersionMap.IsValid r.deletion_map
  pub deletions_fit : Fits r.deletion_map
  pub backlog : RoundTrip.IsValid r.backlog

module _ ⦃v : Varint⦄ where
  unfoldable pub encode_lamport_clock : LamportClock → List ℕ
  encode_lamport_clock c = encode_u64 c.value

  unfoldable pub decode_lamport_clock : List ℕ → Result IntDecodeError (LamportClock × List ℕ)
  decode_lamport_clock buf = do (ts, buf) ← decode_u64 buf; ok (record { value = ts }, buf)

module _ ⦃v : Varint⦄ {Tree : Type 0} ⦃C : TreeCodec Tree⦄ where
  unfoldable pub encode_replica : Replica Tree → Result Panic (List ℕ)
  encode_replica r = do
    tree ← C.encode_tree r.run_tree
    ok (
        tree
        ++ (encode_lamport_clock r.lamport_clock
            ++ (encode_map r.version_map
                ++ (encode_map r.deletion_map ++ encode_backlog r.backlog))))

  unfoldable pub decode_replica :
      List ℕ → Result (Stop (ReplicaDecodeError C.RunTreeDecodeError)) (Decoded Tree × List ℕ)
  decode_replica buf = do
    (tree, buf) ← map_err (raised_as run_tree) (C.decode_tree buf)
    (clock, buf) ← map_err (λ e. raised (int e)) (decode_lamport_clock buf)
    (versions, buf) ← map_err (λ e. raised (version_map e)) (decode_map buf)
    (deletions, buf) ← map_err (λ e. raised (deletion_map e)) (decode_map buf)
    (queues, buf) ← map_err (λ e. raised (backlog e)) (decode_backlog buf)
    ok (
      record {
        run_tree = tree;
        lamport_clock = clock;
        version_map = versions;
        deletion_map = deletions;
        backlog = queues;
      },
      buf,
    )

  -- What the replica is decoded to, with the tree that is read back.
  abbrev pub decoded : Replica Tree → Tree → Decoded Tree
  decoded r t' = record {
    run_tree = t';
    lamport_clock = r.lamport_clock;
    version_map = r.version_map;
    deletion_map = r.deletion_map;
    backlog = r.backlog;
  }

  pub record Encoded (r : Replica Tree) (t' : Tree) : Type 0 where
    pub bytes : List ℕ
    pub written : encode_replica r ≡ ok bytes
    pub read : (rest : List ℕ) → decode_replica (bytes ++ rest) ≡ ok (decoded r t', rest)

  pub encode_replica-Encoded :
      (laws : IsVarint v) (r : Replica Tree) (t' : Tree) → IsEncodable C r t' → Encoded r t'
  unfolding decode_replica encode_replica encode_lamport_clock decode_lamport_clock
  encode_replica-Encoded laws r t' h = record {
    bytes =
        h.tree.bytes
        ++ (encode_lamport_clock r.lamport_clock
            ++ (encode_map r.version_map
                ++ (encode_map r.deletion_map ++ encode_backlog r.backlog)));
    written = rw h.tree.written refl;
    read = λ rest. simp append_assoc (
        rw (
          h.tree.read _,
          decode_u64-encode_u64 laws r.lamport_clock.value _ h.clock_fits,
          decode_map-encode_map laws r.version_map _ h.versions h.versions_fit,
          decode_map-encode_map laws r.deletion_map _ h.deletions h.deletions_fit,
          decode_backlog-encode_backlog laws r.backlog rest h.backlog,
        ));
  }
