-- ===== src/Replica/Insertions.antt =====
-- Integrating remote insertions: what each outcome means, and that it happens once and in order.
use mathlib.Core.Path.{subst}
use cola.Prelude.{
  ℕ, ◌≤◌, ◌<◌, ◌≡◌, ◌≢◌, ◌⊎◌, inl, inr, refl, ap, ◌∙◌, true, false, Option, none, some, ok,
  >>=-eq-ok, ok-injective, arith, ◌==◌, ◌||◌, if◌then◌else◌, add, Ensures, Ensures-ok, Ensures-if,
  Ensures-bind,
}
use cola.Text
use cola.Text.{Range}
use cola.VersionMap.Laws.{get-update}
use cola.Insertion
use cola.Insertion.{Insertion}
use cola.Backlog
use cola.Backlog.{Backlog}
use cola.LamportClock
use cola.RunTree.{RunTree}
use cola.Replica.{
  seen, Replica, has_merged_insertion, can_merge_insertion, merge_unchecked_insertion,
  integrate_insertion,
}

-- What merging an insertion changes besides the tree.
pub record Merged {Tree : Type 0} (r : Replica Tree) (i : Insertion) (r' : Replica Tree)
    : Type 0 where
  pub in_order : seen r (Insertion.inserted_by i) ≡ Insertion.start i
  pub anchored : i.anchor.offset ≤ seen r i.anchor.replica_id
  pub new : Insertion.len i ≢ 0
  pub versions :
      (id : ℕ)
      → seen r' id ≡ (
          if Insertion.inserted_by i == id
          then add (Insertion.start i) (Insertion.len i)
          else seen r id)
  pub same_id : r'.id ≡ r.id
  pub same_deletions : r'.deletion_map ≡ r.deletion_map
  pub same_backlog : r'.backlog ≡ r.backlog
  pub clock : r'.lamport_clock ≡ LamportClock.merge r.lamport_clock i.lamport_ts

-- What integrating an insertion means, by its outcome: an offset says that the insertion was the
-- next one of its replica, that its anchor was known, and that it was merged; none says that there
-- was nothing to do, or that it was queued and nothing else changed.
abbrev pub Integrated :
    {Tree : Type 0} → Replica Tree → Insertion → Option ℕ × Replica Tree → Type 0
Integrated r i (some offset, r') = Merged r i r'
Integrated r i (none, r') =
    ((r' ≡ r) × ((Insertion.len i ≡ 0) ⊎ (Insertion.start i < seen r (Insertion.inserted_by i))))
    ⊎ ((b : Backlog) × (Backlog.insert_insertion r.backlog i ≡ ok b)
        × (r' ≡ record r { backlog = b })
        × ((seen r (Insertion.inserted_by i) < Insertion.start i)
            ⊎ (seen r i.anchor.replica_id < i.anchor.offset)))

module _ {Tree : Type 0} (r : Replica Tree) (i : Insertion) where
  nothing_to_do :
      (Insertion.is_no_op i || has_merged_insertion r i) ≡ true
      → (Insertion.len i ≡ 0) ⊎ (Insertion.start i < seen r (Insertion.inserted_by i))
  unfolding has_merged_insertion
  nothing_to_do h = ground arith

  something_to_do :
      (Insertion.is_no_op i || has_merged_insertion r i) ≡ false
      → (Insertion.len i ≢ 0) × (seen r (Insertion.inserted_by i) ≤ Insertion.start i)
  unfolding has_merged_insertion
  something_to_do h = (ground arith, ground arith)

  is_ready :
      can_merge_insertion r i ≡ true
      → (seen r (Insertion.inserted_by i) ≡ Insertion.start i)
        × (i.anchor.offset ≤ seen r i.anchor.replica_id)
  unfolding can_merge_insertion
  is_ready h = (ground arith, ground arith)

  is_early :
      can_merge_insertion r i ≡ false
      → seen r (Insertion.inserted_by i) ≤ Insertion.start i
      → (seen r (Insertion.inserted_by i) < Insertion.start i)
        ⊎ (seen r i.anchor.replica_id < i.anchor.offset)
  unfolding can_merge_insertion
  is_early h k = ground arith

  already :
      (k : ℕ)
      → Text.IsValid i.text
      → Insertion.len i ≢ 0
      → seen r (Insertion.inserted_by i) ≡ (
          if Insertion.inserted_by i == Insertion.inserted_by i
          then add (Insertion.start i) (Insertion.len i)
          else k)
      → (Insertion.is_no_op i || has_merged_insertion r i) ≡ true
  unfolding has_merged_insertion
  already k v n e = ground (arith, v)

module _ {Tree : Type 0} (r : Replica Tree) (i : Insertion) where
  grows :
      (o : Option ℕ) (r' : Replica Tree) (id : ℕ)
      → Text.IsValid i.text
      → Integrated r i (o, r')
      → seen r id ≤ seen r' id
  grows (some offset) r' id v m = ground (arith, v, m.versions id, m.in_order)
  grows none r' id v (inl (e, h)) = rw e (omega arith)
  grows none r' id v (inr (b, e, p, h)) = rw p (omega arith)

module _ ⦃T : RunTree⦄ where
  merge_unchecked_insertion-Merged :
      (r : Replica T.Tree) (i : Insertion) {offset : ℕ} {r' : Replica T.Tree}
      → can_merge_insertion r i ≡ true
      → Insertion.len i ≢ 0
      → merge_unchecked_insertion r i ≡ ok (offset, r')
      → Merged r i r'
  unfolding merge_unchecked_insertion
  merge_unchecked_insertion-Merged r i c n h =
      let (in_order, anchored) = is_ready r i c in
      let (t, m, e) = >>=-eq-ok (T.merge_insertion r.run_tree i) _ h in
      subst (λ (p : ℕ × Replica T.Tree). Merged r i p.1) (ok-injective e)
        (record {
          in_order = in_order;
          anchored = anchored;
          new = n;
          versions = λ id.
              get-update r.version_map (Insertion.inserted_by i) id (λ k. add k (Insertion.len i))
              ∙ ap
                  (λ k.
                    if Insertion.inserted_by i == id then add k (Insertion.len i) else seen r id)
                  in_order;
          same_id = refl;
          same_deletions = refl;
          same_backlog = refl;
          clock = refl;
        })

  integrate_insertion-Integrated :
      (r : Replica T.Tree) (i : Insertion) → Ensures (Integrated r i) (integrate_insertion r i)
  unfolding integrate_insertion
  integrate_insertion-Integrated r i =
      Ensures-if (Insertion.is_no_op i || has_merged_insertion r i) _ _
        (λ e. Ensures-ok _ (inl (refl, nothing_to_do r i e)))
        λ e.
          Ensures-if (can_merge_insertion r i) _ _
            (λ c. Ensures-bind (merge_unchecked_insertion r i) _ λ t m.
              Ensures-ok _ (merge_unchecked_insertion-Merged r i c (something_to_do r i e).0 m))
            λ c.
              Ensures-bind (Backlog.insert_insertion r.backlog i) _
                λ b m. Ensures-ok _ (inr (b, m, refl, is_early r i c (something_to_do r i e).1))

  -- If integrating an insertion does not panic and returns an offset, the insertion was the next one
  -- of its author, was not empty and its anchor had been seen, and the version map and the Lamport
  -- clock move past it while id, deletion map and backlog stay. If it returns none, either the
  -- replica is unchanged, and the insertion is empty or starts before what was seen of its author, or
  -- only the backlog changes, by the insertion, whose start or anchor is beyond what was seen.
  pub integrate_insertion_outcomes :
      (r : Replica T.Tree) (i : Insertion) (result : Option ℕ × Replica T.Tree)
      → integrate_insertion r i ≡ ok result
      → Integrated r i result
  integrate_insertion_outcomes r i result h = (integrate_insertion-Integrated r i).at result h

  -- An insertion of valid text that was merged is not merged again: integrating it once more returns
  -- none and changes nothing.
  pub integrate_insertion_twice :
      (r : Replica T.Tree) (i : Insertion) {offset : ℕ} {r' : Replica T.Tree}
      → Text.IsValid i.text
      → integrate_insertion r i ≡ ok (some offset, r')
      → integrate_insertion r' i ≡ ok (none, r')
  unfolding integrate_insertion
  integrate_insertion_twice r i {offset} {r'} v h =
      let m : Merged r i r' = integrate_insertion_outcomes r i (some offset, r') h in
      let e : (Insertion.is_no_op i || has_merged_insertion r' i) ≡ true =
        already r' i (seen r (Insertion.inserted_by i)) v m.new
          (m.versions (Insertion.inserted_by i)) in
      rw e

  -- Integrating a valid insertion never lowers what the replica has seen of any replica.
  pub seen-integrate_insertion :
      (r : Replica T.Tree) (i : Insertion) (result : Option ℕ × Replica T.Tree)
      → Text.IsValid i.text
      → integrate_insertion r i ≡ ok result
      → (id : ℕ) → seen r id ≤ seen result.1 id
  seen-integrate_insertion r i result v h id =
      grows r i result.0 result.1 id v (integrate_insertion_outcomes r i result h)
