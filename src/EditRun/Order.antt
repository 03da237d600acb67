-- ===== src/EditRun/Order.antt =====
-- The order that breaks ties between concurrent runs (`impl Ord for EditRun`).
use Prim.Native.Nat.{Ordering}
use cola.Prelude.{◌<◌, ◌≡◌, ◌↔◌, ◌⊎◌, arith}
use cola.EditRun.{EditRun, replica_id, reverse, cmp}

-- What the comment in `cmp` says: descending Lamport timestamps, then ascending ids.
abbrev pub Before : EditRun → EditRun → Type 0
Before a b =
    (b.lamport_ts < a.lamport_ts) ⊎ ((a.lamport_ts ≡ b.lamport_ts) × (replica_id a < replica_id b))

-- `cmp a b` is `less` exactly when `a` has the higher Lamport timestamp, or the same one and the
-- smaller replica id, and it is `equal` exactly when both agree.
pub cmp_iff :
    (a b : EditRun)
    → ((cmp a b ≡ Ordering.lt) ↔ Before a b)
      × ((cmp a b ≡ Ordering.eq) ↔ (a.lamport_ts ≡ b.lamport_ts) × (replica_id a ≡ replica_id b))
unfolding cmp
cmp_iff a b = ((ground arith, ground arith), (ground arith, ground arith))

-- Swapping the operands reverses the answer, and `less` is transitive.
pub cmp_strict_order :
    (a b c : EditRun)
    → (cmp b a ≡ reverse (cmp a b))
      × (cmp a b ≡ Ordering.lt → cmp b c ≡ Ordering.lt → cmp a c ≡ Ordering.lt)
unfolding cmp
cmp_strict_order a b c = (ground arith, λ p q. ground arith)
