-- ===== src/Codec/Items.antt =====
-- The loops `for _ in 0..n` that the decoders of src/backlog.rs run, over queues and over maps keyed
-- by replica ids, with the loops over their items that the encoders run.
use cola.Prelude.{
  ℕ, zero, suc, ◌≡◌, ◌∙◌, List, [], ◌∷◌, ◌++◌, append_assoc, append-nil, Result, ok, ◌>>=◌, length,
  All,
}
use cola.ReplicaIdMap
use cola.ReplicaIdMap.{HasUniqueKeys, insert-Absent, HasUniqueKeys-append}

module _ {ℓ} {A : Type ℓ} where
  unfoldable pub encode_all : (A → List ℕ) → List A → List ℕ
  encode_all encode [] = []
  encode_all encode (x ∷ xs) = encode x ++ encode_all encode xs

module _ {E A : Type 0} where
  -- `n` items, each pushed to the back of the queue.
  unfoldable pub push_times :
      ℕ → (List ℕ → Result E (A × List ℕ)) → List A → List ℕ → Result E (List A × List ℕ)
  push_times zero decode queue buf = ok (queue, buf)
  push_times (suc n) decode queue buf = do
    (x, buf) ← decode buf
    push_times n decode (queue ++ x ∷ []) buf

module _ {E C : Type 0} where
  -- `n` items, each of which decodes into the context.
  unfoldable pub decode_times :
      ℕ → (List ℕ → C → Result E (C × List ℕ)) → C → List ℕ → Result E (C × List ℕ)
  decode_times zero decode ctx buf = ok (ctx, buf)
  decode_times (suc n) decode ctx buf = do
    (ctx, buf) ← decode buf ctx
    decode_times n decode ctx buf

module _ {E A : Type 0} (encode : A → List ℕ) (decode : List ℕ → Result E (A × List ℕ))
    (P : A → Type 0)
    (reads_back : (x : A) (rest : List ℕ) → P x → decode (encode x ++ rest) ≡ ok (x, rest)) where
  pub push_times-encode_all :
      (xs queue : List A) (rest : List ℕ)
      → All P xs
      → push_times (length xs) decode queue (encode_all encode xs ++ rest) ≡ ok (queue ++ xs, rest)
  unfolding push_times encode_all
  push_times-encode_all [] queue rest a = rw append-nil
  push_times-encode_all (x ∷ xs) queue rest (p, a) =
      rw (append_assoc, reads_back x (encode_all encode xs ++ rest) p)
        (push_times-encode_all xs (queue ++ x ∷ []) rest a ∙ rw (append_assoc queue (x ∷ []) xs))

module _ {E V : Type 0} (encode : ℕ × V → List ℕ)
    (decode : List ℕ → List (ℕ × V) → Result E (List (ℕ × V) × List ℕ)) (P : ℕ × V → Type 0)
    (reads_back : (k : ℕ) (x : V) (ctx : List (ℕ × V)) (rest : List ℕ)
      → P (k, x)
      → decode (encode (k, x) ++ rest) ctx ≡ ok (ReplicaIdMap.insert k x ctx, rest)) where
  pub decode_times-encode_all :
      (l ctx : List (ℕ × V)) (rest : List ℕ)
      → All P l
      → HasUniqueKeys (ctx ++ l)
      → decode_times (length l) decode ctx (encode_all encode l ++ rest) ≡ ok (ctx ++ l, rest)
  unfolding decode_times encode_all
  decode_times-encode_all [] ctx rest a u = rw append-nil
  decode_times-encode_all ((k, x) ∷ l) ctx rest (p, a) u =
      let e = append_assoc ctx ((k, x) ∷ []) l in
      rw
        (
          append_assoc,
          reads_back k x ctx (encode_all encode l ++ rest) p,
          insert-Absent k x ctx (HasUniqueKeys-append ctx k x l u),
        )
        (decode_times-encode_all l (ctx ++ (k, x) ∷ []) rest a (rw e u) ∙ rw e)
