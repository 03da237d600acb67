-- ===== src/Examples/Bytes.antt =====
-- LEB128 integers of ten bytes at most, as the crate `varint_simd` documents them.
use cola.Prelude.{
  ℕ, zero, suc, ◌+◌, ◌-◌, ◌*◌, ◌/◌, ◌%◌, ◌<◌, ◌≤◌, ◌≡◌, refl, ◌∙◌, true, false, List, [], ◌∷◌, ◌++◌,
  Result, ok, err, ◌>>=◌, inl, inr, Bool-cases, ltb, if◌then◌else◌, take, length, arith,
}
use cola.Leb128.{Varint, IsVarint, VarIntDecodeError}

unfoldable groups : ℕ → ℕ → List ℕ
groups zero n = []
groups (suc k) n =
    let rest = groups k (n / 128) in if ltb n 128 then n ∷ [] else (n % 128 + 128) ∷ rest

unfoldable from_groups : ℕ → List ℕ → Result VarIntDecodeError (ℕ × ℕ)
from_groups zero bytes = err VarIntDecodeError.overflow
from_groups (suc k) [] = err VarIntDecodeError.not_enough_bytes
from_groups (suc k) (byte ∷ bytes) =
    let more : Result VarIntDecodeError (ℕ × ℕ) = (do
      (n, len) ← from_groups k bytes
      ok (byte - 128 + 128 * n, suc len)) in
    if ltb byte 128 then ok (byte, 1) else more

abbrev bound : ℕ → ℕ
bound zero = 1
bound (suc k) = 128 * bound k

length-groups : (k n : ℕ) → length (groups k n) ≤ k
unfolding groups
length-groups zero n = omega arith
length-groups (suc k) n = ground (arith, length-groups k (n / 128))

take_all : (l : List ℕ) → take (length l) l ≡ l
take_all [] = refl
take_all (x ∷ l) = rw (take_all l)

from_groups-last :
    (k n : ℕ) (rest : List ℕ)
    → ltb n 128 ≡ true
    → from_groups (suc k) (groups (suc k) n ++ rest) ≡ ok (n, length (groups (suc k) n))
unfolding groups from_groups
from_groups-last k n rest e = rw (e, e)

groups-more :
    (k n : ℕ) → ltb n 128 ≡ false → groups (suc k) n ≡ (n % 128 + 128) ∷ groups k (n / 128)
unfolding groups
groups-more k n e = rw e

from_groups-more :
    (k byte : ℕ) (bytes : List ℕ) {n len : ℕ}
    → from_groups k bytes ≡ ok (n, len)
    → from_groups (suc k) ((byte + 128) ∷ bytes) ≡ ok (byte + 128 * n, suc len)
unfolding from_groups
from_groups-more k byte bytes h =
    let e : ltb (byte + 128) 128 ≡ false = ground arith in
    let f : byte + 128 - 128 ≡ byte = omega arith in rw (e, h, f)

from_groups-groups :
    (k n : ℕ) (rest : List ℕ)
    → n < bound (suc k)
    → from_groups (suc k) (groups (suc k) n ++ rest) ≡ ok (n, length (groups (suc k) n))
from_groups-groups zero n rest h = from_groups-last zero n rest (ground arith)
from_groups-groups (suc k) n rest h = elim (Bool-cases (ltb n 128)) [
  | inl e ↦ from_groups-last (suc k) n rest e
  | inr e ↦
      let f : n % 128 + 128 * (n / 128) ≡ n = omega arith in
      rw (groups-more (suc k) n e) (
        from_groups-more (suc k) (n % 128) (groups (suc k) (n / 128) ++ rest)
          (from_groups-groups k (n / 128) rest (omega (arith, h)))
        ∙ rw f)
]

unfoldable pub leb128 : Varint
unfolding groups from_groups
leb128 = record { encode = λ n. (groups 10 n, length (groups 10 n)); decode = from_groups 10 }

pub leb128-IsVarint : IsVarint leb128
unfolding leb128
leb128-IsVarint = record {
  fits = λ n h. (length-groups 10 n, omega arith);
  reads_back =
      λ n rest h. rw (take_all (groups 10 n)) (from_groups-groups 9 n rest (omega (arith, h)));
}
