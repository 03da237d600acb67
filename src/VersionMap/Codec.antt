-- ===== src/VersionMap/Codec.antt =====
-- The encoding of version maps and deletion maps (src/version_map.rs, `mod encode`), and of any list
-- of entries keyed by replica ids, which the backlog writes in the same way.
use cola.Prelude.{
  ℕ, zero, suc, ◌≡◌, ◌∙◌, List, [], ◌∷◌, ◌++◌, append_assoc, append-nil, Result, ok, map_err, ◌>>=◌,
  length, IsU64, All,
}
use cola.Leb128.{Varint, IsVarint}
use cola.Codec.{encode_u64, decode_u64, IntDecodeError}
use cola.Codec.RoundTrip.{decode_u64-encode_u64}
use cola.ReplicaIdMap
use cola.ReplicaIdMap.{Absent, HasUniqueKeys, insert-Absent, HasUniqueKeys-append}
use cola.VersionMap.{BaseMap, IsValid}

pub data BaseMapDecodeError : Type 0 where
  key value : IntDecodeError → BaseMapDecodeError

module _ ⦃v : Varint⦄ where
  unfoldable pub encode_entries : List (ℕ × ℕ) → List ℕ
  encode_entries [] = []
  encode_entries ((id, x) ∷ l) = encode_u64 id ++ (encode_u64 x ++ encode_entries l)

  unfoldable pub encode_map : BaseMap → List ℕ
  unfolding encode_entries
  encode_map m =
      encode_u64 m.this_id
      ++ (encode_u64 m.this_value ++ (encode_u64 (length m.rest) ++ encode_entries m.rest))

  -- The loop `for _ in 0..rest_len`.
  unfoldable pub decode_entries :
      ℕ → List (ℕ × ℕ) → List ℕ → Result BaseMapDecodeError (List (ℕ × ℕ) × List ℕ)
  decode_entries zero rest buf = ok (rest, buf)
  decode_entries (suc n) rest buf = do
    (id, buf) ← map_err key (decode_u64 buf)
    (x, buf) ← map_err value (decode_u64 buf)
    decode_entries n (ReplicaIdMap.insert id x rest) buf

  unfoldable pub decode_map : List ℕ → Result BaseMapDecodeError (BaseMap × List ℕ)
  unfolding decode_entries
  decode_map buf = do
    (this_id, buf) ← map_err key (decode_u64 buf)
    (this_value, buf) ← map_err value (decode_u64 buf)
    (rest_len, buf) ← map_err key (decode_u64 buf)
    (rest, buf) ← decode_entries rest_len [] buf
    ok (record { this_id = this_id; this_value = this_value; rest = rest }, buf)

-- Ids, values and the number of entries fit in 64 bits.
abbrev EntryFits : ℕ × ℕ → Type 0
EntryFits (id, x) = IsU64 id × IsU64 x

pub record Fits (m : BaseMap) : Type 0 where
  pub id_fits : IsU64 m.this_id
  pub value_fits : IsU64 m.this_value
  pub count_fits : IsU64 (length m.rest)
  pub entries_fit : All EntryFits m.rest

module _ ⦃v : Varint⦄ (laws : IsVarint v) where
  decode_entries-encode_entries :
      (l acc : List (ℕ × ℕ)) (rest : List ℕ)
      → All EntryFits l
      → HasUniqueKeys (acc ++ l)
      → decode_entries (length l) acc (encode_entries l ++ rest) ≡ ok (acc ++ l, rest)
  unfolding decode_entries encode_entries
  decode_entries-encode_entries [] acc rest f u = rw append-nil
  decode_entries-encode_entries ((id, x) ∷ l) acc rest ((f, g), fs) u =
      let e = append_assoc acc ((id, x) ∷ []) l in
      rw
        (
          append_assoc,
          append_assoc,
          decode_u64-encode_u64 laws id _ f,
          decode_u64-encode_u64 laws x _ g,
          insert-Absent id x acc (HasUniqueKeys-append acc id x l u),
        )
        (decode_entries-encode_entries l (acc ++ (id, x) ∷ []) rest fs (rw e u) ∙ rw e)

  -- A valid map whose fields fit is read back from its encoding, entry by entry in the same order,
  -- and what follows it is left.
  pub decode_map-encode_map :
      (m : BaseMap) (rest : List ℕ)
      → IsValid m
      → Fits m
      → decode_map (encode_map m ++ rest) ≡ ok (m, rest)
  unfolding decode_map encode_map
  decode_map-encode_map m rest (a, u) f = simp append_assoc (
      rw (
        decode_u64-encode_u64 laws m.this_id _ f.id_fits,
        decode_u64-encode_u64 laws m.this_value _ f.value_fits,
        decode_u64-encode_u64 laws (length m.rest) _ f.count_fits,
        decode_entries-encode_entries m.rest [] rest f.entries_fit u,
      ))
