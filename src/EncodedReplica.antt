-- ===== src/EncodedReplica.antt =====
-- `EncodedReplica` of src/encoded_replica.rs, and `decode` and `encode` of src/replica.rs. An encoded
-- replica is the list of its bytes. The digest is that of the crate `sha2`.
use cola.Prelude.{
  ◌↔◌, ◌≤◌, ok-injective, Bool-cases, inl, inr, err-ne-ok, ℕ, ◌+◌, ◌≡◌, ◌≢◌, Bool, true, false,
  List, [], ◌∷◌, ◌++◌, append_assoc, append-nil, Result, ok, err, ◌>>=◌, map_ok, length, take, drop,
  replicate, ltb, ◌==◌, ◌&&◌, if◌then◌else◌, take-append, drop-append, length-append, arith, refl,
  ap, sym, ◌∙◌,
}
use cola.Panics.{Panic, replica_id_is_zero}
use cola.Leb128.{Varint, IsVarint}
use cola.Codec.{encode_u64, decode_u64, IntDecodeError}
use cola.Codec.RoundTrip.{decode_u64-encode_u64}
use cola.RunClock
use cola.VersionMap
use cola.RunTree.{RunTree}
use cola.Replica
use cola.Replica.{Replica}
use cola.Replica.Codec.{
  TreeCodec, Stop, raised, panicked, ReplicaDecodeError, Decoded, IsEncodable, encode_replica,
  decode_replica, decoded, Encoded, encode_replica-Encoded,
}

-- `Sha256::digest`
pub record Sha256 : Type 0 where
  pub digest : List ℕ → List ℕ

-- What the crate documents of it: a digest is an array of 32 bytes.
pub record IsSha256 (s : Sha256) : Type 0 where
  pub size : (bytes : List ℕ) → length (s.digest bytes) ≡ 32

pub data DecodeError : Type 0 where
  checksum_failed : DecodeError
  different_protocol : ℕ → ℕ → DecodeError
  invalid_data : DecodeError

abbrev pub protocol_version : ℕ
protocol_version = 3

abbrev pub checksum_len : ℕ
checksum_len = 32

-- The comparison of two slices of bytes.
unfoldable pub same_bytes : List ℕ → List ℕ → Bool
same_bytes [] [] = true
same_bytes [] (y ∷ ys) = false
same_bytes (x ∷ xs) [] = false
same_bytes (x ∷ xs) (y ∷ ys) = x == y && same_bytes xs ys

pub same_bytes_refl : (xs : List ℕ) → same_bytes xs xs ≡ true
unfolding same_bytes
same_bytes_refl [] = refl
same_bytes_refl (x ∷ xs) = ground (arith, same_bytes_refl xs)

pub same_bytes-eq : (xs ys : List ℕ) → same_bytes xs ys ≡ true → xs ≡ ys
unfolding same_bytes
same_bytes-eq [] [] h = refl
same_bytes-eq [] (y ∷ ys) h = cc
same_bytes-eq (x ∷ xs) [] h = cc
same_bytes-eq (x ∷ xs) (y ∷ ys) h =
    let same : x ≡ y = ground arith in
    let rest : same_bytes xs ys ≡ true = ground arith in rw (same, same_bytes-eq xs ys rest) refl

module _ ⦃v : Varint⦄ ⦃s : Sha256⦄ {Tree : Type 0} ⦃C : TreeCodec Tree⦄ where
  -- The dummy checksum is overwritten once the replica is encoded after it.
  unfoldable pub from_replica : Replica Tree → Result Panic (List ℕ)
  unfolding encode_replica
  from_replica r = do
    let protocol = encode_u64 protocol_version
    replica ← encode_replica r
    let bytes = protocol ++ (replicate checksum_len 0 ++ replica)
    let replica_start = length protocol + checksum_len
    let checksum = s.digest (drop replica_start bytes)
    ok (take (length protocol) bytes ++ (checksum ++ drop replica_start bytes))

  -- `map(|(value, _rest)| value)` and `map_err(|_| DecodeError::InvalidData)` of what the decoder returns, if
  -- it returns; if it panics, so does the caller.
  abbrev opened :
      Result (Stop (ReplicaDecodeError C.RunTreeDecodeError)) (Decoded Tree × List ℕ)
      → Result Panic (Result DecodeError (Decoded Tree))
  opened (ok (replica, rest)) = ok (ok replica)
  opened (err (raised e)) = ok (err invalid_data)
  opened (err (panicked p)) = err p

  -- The checks on what follows the version.
  abbrev after_version :
      Result IntDecodeError (ℕ × List ℕ) → Result Panic (Result DecodeError (Decoded Tree))
  after_version (err e) = ok (err invalid_data)
  after_version (ok (version, buf)) =
      let body = drop checksum_len buf in
      let replica = opened (decode_replica body) in
      let checked =
        if same_bytes (take checksum_len buf) (s.digest body)
        then replica
        else ok (err checksum_failed) in
      let sized = if ltb (length buf) checksum_len then ok (err invalid_data) else checked in
      if version == protocol_version
      then sized
      else ok (err (different_protocol version protocol_version))

  unfoldable pub to_replica : List ℕ → Result Panic (Result DecodeError (Decoded Tree))
  to_replica bytes = after_version (decode_u64 bytes)

  unfoldable pub decode : ℕ → List ℕ → Result Panic (Result DecodeError (Replica Tree))
  unfolding to_replica
  decode id encoded =
      let replica : Decoded Tree → Replica Tree = λ d. record {
        id = id;
        run_tree = d.run_tree;
        run_clock = RunClock.new;
        lamport_clock = d.lamport_clock;
        version_map = VersionMap.fork_in_place d.version_map id 0;
        deletion_map = VersionMap.fork_in_place d.deletion_map id 0;
        backlog = d.backlog;
      } in
      let decoded = map_ok (map_ok replica) (to_replica encoded) in
      if id == 0 then err replica_id_is_zero else decoded

  -- `Replica::encode`
  abbrev pub encode : Replica Tree → Result Panic (List ℕ)
  encode r = from_replica r

passed :
    {A : Type 0} (b : Bool) (x y r : A)
    → (y ≡ r → ⊥)
    → (if b then x else y) ≡ r
    → (b ≡ true) × (x ≡ r)
passed true x y r other h = (refl, h)
passed false x y r other h = absurd (other h)

not_passed :
    {A : Type 0} (b : Bool) (x y r : A)
    → (x ≡ r → ⊥)
    → (if b then x else y) ≡ r
    → (b ≡ false) × (y ≡ r)
not_passed false x y r other h = (refl, h)
not_passed true x y r other h = absurd (other h)

module _ ⦃v : Varint⦄ ⦃s : Sha256⦄ where
  -- The bytes are this version of the protocol, a checksum of 32 bytes and the body that it is of.
  pub record IsSealed (bytes body : List ℕ) : Type 0 where
    pub buf : List ℕ
    pub version : decode_u64 bytes ≡ ok (protocol_version, buf)
    pub long : checksum_len ≤ length buf
    pub checksum : take checksum_len buf ≡ s.digest body
    pub after : drop checksum_len buf ≡ body

module _ ⦃v : Varint⦄ ⦃s : Sha256⦄ {Tree : Type 0} ⦃C : TreeCodec Tree⦄ where
  -- An outcome that is not an error comes from the decoder of replicas.
  after_version-IsSealed :
      (bytes : List ℕ) (x : Result IntDecodeError (ℕ × List ℕ))
      (r : Result Panic (Result DecodeError (Decoded Tree)))
      → ((e : DecodeError) → ok (err e) ≡ r → ⊥)
      → decode_u64 bytes ≡ x
      → after_version x ≡ r
      → (body : List ℕ) × IsSealed bytes body × (opened (decode_replica body) ≡ r)
  after_version-IsSealed bytes (err e) r fine h k = absurd (fine invalid_data k)
  after_version-IsSealed bytes (ok (version, buf)) r fine h k =
      let body = drop checksum_len buf in
      let (same, sized) =
        passed (version == protocol_version) _ _ r
          (fine (different_protocol version protocol_version)) k in
      let (enough, checked) =
        not_passed (ltb (length buf) checksum_len) _ _ r (fine invalid_data) sized in
      let (sum, opens) =
        passed (same_bytes (take checksum_len buf) (s.digest body)) _ _ r (fine checksum_failed)
          checked in
      let is : version ≡ protocol_version = ground arith in
      (
        body,
        record {
          buf = buf;
          version = h ∙ ap (λ n. ok (n, buf)) is;
          long = ground arith;
          checksum = same_bytes-eq (take checksum_len buf) (s.digest body) sum;
          after = refl;
        },
        opens,
      )

  to_replica-IsSealed :
      (bytes body : List ℕ)
      → IsSealed bytes body
      → to_replica {Tree = Tree} bytes ≡ opened (decode_replica body)
  unfolding to_replica
  to_replica-IsSealed bytes body a =
      let enough : ltb (length a.buf) checksum_len ≡ false = ground (arith, a.long) in
      rw (a.version, enough, a.after, a.checksum, same_bytes_refl (s.digest body)) refl

  opened-ok :
      (m : Result (Stop (ReplicaDecodeError C.RunTreeDecodeError)) (Decoded Tree × List ℕ))
      (d : Decoded Tree)
      → opened m ≡ ok (ok d)
      → (rest : List ℕ) × (m ≡ ok (d, rest))
  opened-ok (ok (d', rest)) d h = (rest, ap (λ x. ok (x, rest)) (ok-injective (ok-injective h)))
  opened-ok (err (raised e)) d h = absurd (err-ne-ok (ok-injective h))
  opened-ok (err (panicked p)) d h = absurd (err-ne-ok h)

  opened-err :
      (m : Result (Stop (ReplicaDecodeError C.RunTreeDecodeError)) (Decoded Tree × List ℕ))
      (p : Panic)
      → opened m ≡ err p
      → m ≡ err (panicked p)
  opened-err (ok (d', rest)) p h = cc
  opened-err (err (raised e)) p h = cc
  opened-err (err (panicked q)) p h = let same : q ≡ p = cc in ap (λ x. err (panicked x)) same

  -- Any bytes at all are decoded to a replica exactly when they are this version of the protocol, a checksum
  -- of 32 bytes and a body with that checksum, and the decoder of replicas reads this replica from the body,
  -- whatever it leaves of it.
  pub to_replica_authentic :
      (bytes : List ℕ) (d : Decoded Tree)
      → (to_replica bytes ≡ ok (ok d)) ↔ (
          (body : List ℕ) × (rest : List ℕ) × IsSealed bytes body
          × (decode_replica body ≡ ok (d, rest)))
  unfolding to_replica
  to_replica_authentic bytes d = (
    λ h.
        let (body, a, opens) =
          after_version-IsSealed bytes (decode_u64 bytes) (ok (ok d))
            (λ e k. err-ne-ok (ok-injective k)) refl h in
        let (rest, read) = opened-ok (decode_replica body) d opens in (body, rest, a, read),
    λ (body, rest, a, read). to_replica-IsSealed bytes body a ∙ ap opened read,
  )

  -- Decoding bytes panics exactly when they are this version of the protocol, a checksum of 32 bytes and a
  -- body with that checksum, on which the decoder of replicas panics; with other bytes it returns.
  pub to_replica_panics :
      (bytes : List ℕ) (p : Panic)
      → (to_replica {Tree = Tree} bytes ≡ err p) ↔ (
          (body : List ℕ) × IsSealed bytes body
          × (decode_replica {Tree = Tree} body ≡ err (panicked p)))
  unfolding to_replica
  to_replica_panics bytes p = (
    λ h.
        let (body, a, opens) =
          after_version-IsSealed bytes (decode_u64 bytes) (err p) (λ e k. err-ne-ok (sym k)) refl
            h in
        (body, a, opened-err (decode_replica body) p opens),
    λ (body, a, stops). to_replica-IsSealed bytes body a ∙ ap opened stops,
  )

module _ ⦃v : Varint⦄ ⦃s : Sha256⦄ (laws : IsVarint v) (sha : IsSha256 s) {Tree : Type 0}
    ⦃C : TreeCodec Tree⦄ where
  from_replica-parts :
      (r : Replica Tree) (body : List ℕ)
      → encode_replica r ≡ ok body
      → from_replica r ≡ ok (encode_u64 protocol_version ++ (s.digest body ++ body))
  unfolding from_replica
  from_replica-parts r body e =
      let protocol = encode_u64 protocol_version in
      let zeroes = replicate checksum_len 0 in
      let size : length (protocol ++ zeroes) ≡ length protocol + checksum_len =
        length-append protocol zeroes in
      let kept : drop (length protocol + checksum_len) (protocol ++ (zeroes ++ body)) ≡ body =
        ap (drop (length protocol + checksum_len)) (sym (append_assoc protocol zeroes body))
        ∙ drop-append (length protocol + checksum_len) (protocol ++ zeroes) body size in
      rw (e, kept, take-append (length protocol) protocol (zeroes ++ body) refl)

  pub to_replica-whole :
      (r : Replica Tree) (t' : Tree) (c : Encoded r t')
      → to_replica (encode_u64 protocol_version ++ (s.digest c.bytes ++ c.bytes))
        ≡ ok (ok (decoded r t'))
  unfolding to_replica
  to_replica-whole r t' c =
      let sum = s.digest c.bytes in
      let size = sha.size c.bytes in
      let enough : ltb (length (sum ++ c.bytes)) checksum_len ≡ false =
        ground (arith, length-append sum c.bytes) in
      let whole : decode_replica c.bytes ≡ ok (decoded r t', []) =
        ap decode_replica (sym (append-nil c.bytes)) ∙ c.read [] in
      rw (
        decode_u64-encode_u64 laws protocol_version (sum ++ c.bytes) (omega arith),
        enough,
        take-append checksum_len sum c.bytes size,
        drop-append checksum_len sum c.bytes size,
        same_bytes_refl sum,
        whole,
      )

  pub record Written (r : Replica Tree) (t' : Tree) : Type 0 where
    pub bytes : List ℕ
    pub written : from_replica r ≡ ok bytes
    pub read : to_replica bytes ≡ ok (ok (decoded r t'))

  pub from_replica-Written : (r : Replica Tree) (t' : Tree) → IsEncodable C r t' → Written r t'
  from_replica-Written r t' h =
      let c = encode_replica-Encoded laws r t' h in
      record {
        bytes = encode_u64 protocol_version ++ (s.digest c.bytes ++ c.bytes);
        written = from_replica-parts r c.bytes c.written;
        read = to_replica-whole r t' c;
      }

module _ ⦃v : Varint⦄ ⦃s : Sha256⦄ (laws : IsVarint v) (sha : IsSha256 s) ⦃T : RunTree⦄
    ⦃C : TreeCodec T.Tree⦄ where
  -- Encoding a replica whose parts fit into the format does not panic, and decoding it under another id
  -- has the outcome of forking the replica, with its run tree replaced by the one that is read back.
  pub decode-encode :
      (id : ℕ) (r : Replica T.Tree) (t' : T.Tree)
      → id ≢ r.id
      → IsEncodable C r t'
      → (do bytes ← encode r; decode id bytes)
        ≡ map_ok ok (Replica.fork (record r { run_tree = t' }) id)
  unfolding decode Replica.fork
  decode-encode id r t' other h =
      let w = from_replica-Written laws sha r t' h in
      let not_own : (id == r.id) ≡ false = ground arith in
      elim (Bool-cases (id == 0)) [
        | inl q ↦ rw (w.written, w.read, not_own, q) refl
        | inr q ↦ rw (w.written, w.read, not_own, q) refl
      ]
