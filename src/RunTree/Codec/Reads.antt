-- ===== src/RunTree/Codec/Reads.antt =====
-- Decoding what was written, value by value (src/run_tree.rs, `mod encode`).
use cola.Prelude.{
  ℕ, suc, ◌≡◌, refl, List, [], ◌∷◌, ◌++◌, append_assoc, Result, ok, err, map_ok, ◌>>=◌, length, All,
}
use cola.Panics.{Panic}
use cola.RunTree.Codec.{RunTreeDecodeError, RunTreeDecodeCtx, encode_each, decode_rounds}

abbrev pub Decoding : Type 0
Decoding = Result RunTreeDecodeError RunTreeDecodeCtx

-- A step, and what comes after it.
module _ {A B : Type 0} (buf rest : List ℕ)
    (decode : A → List ℕ → Result RunTreeDecodeError (B × List ℕ))
    (later : A → Result RunTreeDecodeError B)
    (reads : (a : A) → decode a buf ≡ map_ok (λ b. (b, rest)) (later a)) where
  pub after_step :
      (r : Result RunTreeDecodeError A)
      → (do (a, buf') ← map_ok (λ a. (a, buf)) r; decode a buf')
        ≡ map_ok (λ b. (b, rest)) (do a ← r; later a)
  after_step (ok a) = reads a
  after_step (err e) = refl

pub then_ok : {E A B : Type 0} (f : A → B) (r : Result E A) → (do a ← r; ok (f a)) ≡ map_ok f r
then_ok f (ok a) = refl
then_ok f (err e) = refl

pub All-map :
    {A : Type 0} {P Q : A → Type 0} → ((x : A) → P x → Q x) → (xs : List A) → All P xs → All Q xs
All-map f [] a = tt
All-map f (x ∷ xs) (p, a) = (f x p, All-map f xs a)

-- The steps of a loop.
module _ {A : Type 0} (step : ℕ → A → RunTreeDecodeCtx → Decoding) where
  unfoldable pub steps : ℕ → List A → RunTreeDecodeCtx → Decoding
  steps i [] ctx = ok ctx
  steps i (x ∷ xs) ctx = do ctx ← step i x ctx; steps (suc i) xs ctx

-- A value is written, and what the decoder does with the bytes is a step from context to context.
module _ {A : Type 0} (encode : A → Result Panic (List ℕ))
    (decode : ℕ → List ℕ → RunTreeDecodeCtx → Result RunTreeDecodeError (RunTreeDecodeCtx × List ℕ))
    (step : ℕ → A → RunTreeDecodeCtx → Decoding) where
  pub record Reads (x : A) : Type 0 where
    pub bytes : List ℕ
    pub written : encode x ≡ ok bytes
    pub read :
        (i : ℕ) (ctx : RunTreeDecodeCtx) (rest : List ℕ)
        → decode i (bytes ++ rest) ctx ≡ map_ok (λ c. (c, rest)) (step i x ctx)

  pub record ReadsAll (xs : List A) : Type 0 where
    pub bytes : List ℕ
    pub written : encode_each encode xs ≡ ok bytes
    pub read :
        (i : ℕ) (ctx : RunTreeDecodeCtx) (rest : List ℕ)
        → decode_rounds i (length xs) decode (bytes ++ rest) ctx
          ≡ map_ok (λ c. (c, rest)) (steps step i xs ctx)

  pub Reads-ReadsAll : (xs : List A) → All Reads xs → ReadsAll xs
  unfolding encode_each decode_rounds steps
  Reads-ReadsAll [] a = record { bytes = []; written = refl; read = λ i ctx rest. refl }
  Reads-ReadsAll (x ∷ xs) (r, a) =
      let all = Reads-ReadsAll xs a in
      record {
        bytes = r.bytes ++ all.bytes;
        written = rw (r.written, all.written) refl;
        read = λ i ctx rest.
            rw (append_assoc r.bytes all.bytes rest, r.read i ctx (all.bytes ++ rest))
              (after_step (all.bytes ++ rest) rest
                (λ ctx' buf. decode_rounds (suc i) (length xs) decode buf ctx')
                (steps step (suc i) xs) (λ ctx'. all.read (suc i) ctx' rest) (step i x ctx));
      }
