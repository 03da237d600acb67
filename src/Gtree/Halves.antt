-- ===== src/Gtree/Halves.antt =====
-- A node that was split, with new children in one of its halves or in both (src/gtree.rs).
use cola.Prelude.{
  length-drop, take-drop, length-drop, ℕ, zero, suc, ◌+◌, ◌/◌, ◌^◌, ◌<◌, ◌≤◌, ◌≡◌, refl, sym, ap,
  ◌∙◌, Option, none, some, List, [], ◌∷◌, ◌++◌, length, length-take_le, take, drop, arith,
}
use cola.Gtree.{Inode}
use cola.Gtree.Node
use cola.Gtree.Node.{insert_at}
use cola.Gtree.Arena.{total}
use cola.Gtree.Splices.{length-insert_at, insert_two_at}

pub total-append : (ms ns : List ℕ) → total (ms ++ ns) ≡ total ms + total ns
total-append [] ns = omega arith
total-append (m ∷ ms) ns = omega (arith, total-append ms ns)

pub total-insert_at : (ns : List ℕ) (i n : ℕ) → total (insert_at ns i n) ≡ total ns + n
unfolding insert_at
total-insert_at ns zero n = omega arith
total-insert_at [] (suc i) n = omega arith
total-insert_at (m ∷ ms) (suc i) n = omega (arith, total-insert_at ms i n)

pub total-take-drop : (k : ℕ) (ns : List ℕ) → total (take k ns) + total (drop k ns) ≡ total ns
total-take-drop k ns = sym (total-append (take k ns) (drop k ns)) ∙ ap total (take-drop k ns)

-- These are the lengths of the children of the node.
pub record IsMeasured (n : Inode) (ns : List ℕ) : Type 0 where
  pub lengths : length ns ≡ length n.children
  pub tot_len : n.tot_len ≡ total ns

pub IsMeasured-insert :
    (n : Inode) (ns : List ℕ) (at c len : ℕ)
    → IsMeasured n ns
    → total ns + len < 2 ^ 64
    → IsMeasured (Node.insert at c len n) (insert_at ns at len)
unfolding Node.insert
IsMeasured-insert n ns at c len h fits = record {
  lengths = length-insert_at ns at len ∙ ap suc h.lengths ∙ sym (length-insert_at n.children at c);
  tot_len = omega (arith, h.tot_len, total-insert_at ns at len);
}

pub total-insert_two_at :
    (ns : List ℕ) (i m j n : ℕ) → total (insert_two_at ns i m j n) ≡ total ns + m + n
unfolding insert_two_at
total-insert_two_at ns i m j n =
    omega (arith, total-insert_at (insert_at ns i m) (suc j) n, total-insert_at ns i m)

pub IsMeasured-insert_two :
    (n : Inode) (ns : List ℕ) (i c len j d len' : ℕ)
    → IsMeasured n ns
    → total ns + len + len' < 2 ^ 64
    → IsMeasured (Node.insert_two i c len j d len' n) (insert_two_at ns i len j len')
unfolding Node.insert_two insert_two_at
IsMeasured-insert_two n ns i c len j d len' h fits =
    IsMeasured-insert (Node.insert i c len n) (insert_at ns i len) (suc j) d len'
      (IsMeasured-insert n ns i c len h (omega arith)) (omega (arith, total-insert_at ns i len))

module _ (n : Inode) (ns : List ℕ) (k : ℕ) (h : IsMeasured n ns)
    (inside : k ≤ length n.children) where
  pub IsMeasured-kept : IsMeasured (Node.split k (total (take k ns)) n).0 (take k ns)
  unfolding Node.split
  IsMeasured-kept = record {
    lengths =
        length-take_le k ns (omega (arith, h.lengths)) ∙ sym (length-take_le k n.children inside);
    tot_len = refl;
  }

  pub IsMeasured-rest :
      total ns < 2 ^ 64 → IsMeasured (Node.split k (total (take k ns)) n).1 (drop k ns)
  unfolding Node.split
  IsMeasured-rest fits = record {
    lengths = omega (arith, length-drop k ns, length-drop k n.children, h.lengths);
    tot_len = omega (arith, h.tot_len, total-take-drop k ns);
  }

-- A node of an arity, and the one split off it if there is one, have these children with these
-- lengths; the node that was split off has the least number of children, and the other one no fewer.
abbrev pub Halved : ℕ → Inode → Option Inode → List ℕ → List ℕ → Type 0
Halved arity n none cs ns = (n.children ≡ cs) × IsMeasured n ns × (length cs ≤ arity)
Halved arity n (some rest) cs ns =
    (lens : List ℕ × List ℕ) × (n.children ++ rest.children ≡ cs)
    × (lens.0 ++ lens.1 ≡ ns)
    × IsMeasured n lens.0
    × IsMeasured rest lens.1
    × (length rest.children ≡ arity / 2)
    × (arity / 2 ≤ length n.children)
    × (length n.children ≤ arity)
    × (rest.has_leaves ≡ n.has_leaves)
