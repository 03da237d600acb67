-- ===== src/Slices.antt =====
-- Indexing into vectors and slices, which panics out of bounds, and commands on a state that can
-- panic: what a method on `&mut self` does.
use cola.Prelude.{ℕ, zero, suc, List, [], ◌∷◌, Result, ok, err, map_ok}
use cola.Panics.{Panic, index_out_of_bounds}

module _ {A : Type 0} where
  unfoldable pub nth : List A → ℕ → Result Panic A
  nth [] i = err index_out_of_bounds
  nth (x ∷ xs) zero = ok x
  nth (x ∷ xs) (suc i) = nth xs i

  unfoldable pub update_nth : List A → ℕ → (A → A) → Result Panic (List A)
  update_nth [] i f = err index_out_of_bounds
  update_nth (x ∷ xs) zero f = ok (f x ∷ xs)
  update_nth (x ∷ xs) (suc i) f = map_ok (λ ys. x ∷ ys) (update_nth xs i f)

-- `S` is the type of `self`.
abbrev pub Cmd : Type 0 → Type 0 → Type 0
Cmd S A = S → Result Panic (A × S)

module _ {S A : Type 0} where
  abbrev pub pure : A → Cmd S A
  pure a s = ok (a, s)

  abbrev pub panic : Panic → Cmd S A
  panic p s = err p

  -- A call of a method on `&self`.
  abbrev pub read : (S → Result Panic A) → Cmd S A
  read f s = map_ok (λ a. (a, s)) (f s)

abbrev pub write : {S : Type 0} → (S → Result Panic S) → Cmd S (Unit {0})
write f s = map_ok (λ t. (tt, t)) (f s)

module _ {S A B : Type 0} where
  abbrev pub and_then : Result Panic (A × S) → (A → Cmd S B) → Result Panic (B × S)
  and_then (err p) k = err p
  and_then (ok (a, s)) k = k a s

  infixl 5 ◌>>=◌ ◌>>◌
  abbrev pub ◌>>=◌ : Cmd S A → (A → Cmd S B) → Cmd S B
  ◌>>=◌ m k s = and_then (m s) k

  abbrev pub ◌>>◌ : Cmd S A → Cmd S B → Cmd S B
  m >> n = m >>= λ _. n
