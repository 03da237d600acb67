-- ===== src/Replica/Edits.antt =====
-- Local edits: the clock values that they take, and that a fork can merge what its origin inserts.
use cola.Prelude.{
  ℕ, ◌≡◌, ◌≢◌, ◌≤◌, refl, sym, ap, ◌∙◌, true, ok, ltb, ◌==◌, if◌then◌else◌, add, arith, Ensures,
  Ensures-ok, Ensures-err, Ensures-if, Ensures-bind, IsU64, ◌+◌, none, ◌||◌,
}
use cola.VersionMap
use cola.VersionMap.Laws.{get-fork_in_place}
use cola.Insertion
use cola.Insertion.{Insertion}
use cola.RunTree.{RunTree}
use cola.Replica.{
  Replica, seen, has_anchor, can_merge_insertion, has_merged_insertion, integrate_insertion,
  inserted, fork,
}
use cola.Replica.Consistent.{IsConsistent, new_text, inserted-IsConsistent}

-- What a local insertion of `len` characters means.
pub record InsertedHere {Tree : Type 0} (r : Replica Tree) (len : ℕ) (i : Insertion)
    (r' : Replica Tree) : Type 0 where
  pub same_id : r'.id ≡ r.id
  pub by_this : Insertion.inserted_by i ≡ r.id
  pub starts : Insertion.start i ≡ seen r r.id
  pub ends : Insertion.end i ≡ add (seen r r.id) len
  pub versions : (id : ℕ) → seen r' id ≡ (if r.id == id then add (seen r r.id) len else seen r id)

abbrev pub AfterInsertion : {Tree : Type 0} → Replica Tree → ℕ → Insertion × Replica Tree → Type 0
AfterInsertion r len (i, r') = InsertedHere r len i r'

module _ {Tree : Type 0} (r : Replica Tree) (c : IsConsistent r) where
  seen_this : seen r r.id ≡ r.version_map.this_value
  unfolding VersionMap.get
  seen_this = ground (arith, c.version_id)

  seen_next :
      (id n : ℕ)
      → VersionMap.get (VersionMap.update_this r.version_map (λ k. add k n)) id
        ≡ (if r.id == id then add r.version_map.this_value n else seen r id)
  unfolding VersionMap.get VersionMap.update_this
  seen_next id n = ground (arith, c.version_id)

module _ ⦃T : RunTree⦄ where
  inserted-After :
      (r : Replica T.Tree) (at_offset len : ℕ)
      → IsConsistent r
      → len ≢ 0
      → Ensures (AfterInsertion r len) (inserted r at_offset len)
  unfolding inserted VersionMap.update_this
  inserted-After r at_offset len c n =
      Ensures-if (ltb (T.len r.run_tree) at_offset) _ _ (λ _. Ensures-err _)
        λ _.
          Ensures-if (len == 0) _ _ (λ z. absurd (ground arith))
            λ _.
              Ensures-bind
                (T.insert r.run_tree at_offset (new_text r len) r.run_clock r.lamport_clock) _
                λ t e. Ensures-ok _ (record {
                  same_id = refl;
                  by_this = refl;
                  starts = sym (seen_this r c);
                  ends = ap (λ k. add k len) (sym (seen_this r c));
                  versions = λ id. rw (seen_this r c) (seen_next r c id len);
                })

  -- Two consecutive local insertions of at least one character each by a consistent replica: the text
  -- of the first starts at the value that the replica has seen of itself and ends after its length,
  -- the text of the second starts where that of the first ends, and both have the same author.
  pub inserted_consecutive :
      (r : Replica T.Tree) (a m b n : ℕ) {i j : Insertion} {r' r'' : Replica T.Tree}
      → IsConsistent r
      → m ≢ 0
      → n ≢ 0
      → inserted r a m ≡ ok (i, r')
      → inserted r' b n ≡ ok (j, r'')
      → (Insertion.start i ≡ seen r r.id)
        × (Insertion.end i ≡ add (seen r r.id) m)
        × (Insertion.start j ≡ Insertion.end i)
        × (Insertion.inserted_by j ≡ Insertion.inserted_by i)
  inserted_consecutive r a m b n {i} {j} {r'} {r''} c p q h k =
      let first : InsertedHere r m i r' = (inserted-After r a m c p).at (i, r') h in
      let c' : IsConsistent r' = (inserted-IsConsistent r a m c).at (i, r') h in
      let second : InsertedHere r' n j r'' = (inserted-After r' b n c' q).at (j, r'') k in
      let joint : seen r' r'.id ≡ add (seen r r.id) m =
        ap (seen r') first.same_id ∙ first.versions r.id ∙ ground arith in
      (
        first.starts,
        first.ends,
        second.starts ∙ joint ∙ sym first.ends,
        second.by_this ∙ first.same_id ∙ sym first.by_this,
      )

  -- An insertion of at least one character that its own consistent replica receives back is ignored,
  -- if the clock did not pass 2 ^ 64.
  pub integrate_insertion-inserted :
      (r : Replica T.Tree) (at_offset len : ℕ) {i : Insertion} {r' : Replica T.Tree}
      → IsConsistent r
      → len ≢ 0
      → IsU64 (seen r r.id + len)
      → inserted r at_offset len ≡ ok (i, r')
      → integrate_insertion r' i ≡ ok (none, r')
  unfolding integrate_insertion has_merged_insertion
  integrate_insertion-inserted r at_offset len {i} {r'} c n fits h =
      let after : InsertedHere r len i r' = (inserted-After r at_offset len c n).at (i, r') h in
      let joint : seen r' (Insertion.inserted_by i) ≡ add (seen r r.id) len =
        ap (seen r') after.by_this ∙ after.versions r.id ∙ ground arith in
      let older : ltb (Insertion.start i) (seen r' (Insertion.inserted_by i)) ≡ true =
        rw (joint, after.starts) (ground (arith, n, fits)) in
      let done : (Insertion.is_no_op i
            || ltb (Insertion.start i) (seen r' (Insertion.inserted_by i)))
          ≡ true =
        rw older (ground arith) in
      rw done

  -- What a fork has seen.
  Forked : Replica T.Tree → ℕ → Replica T.Tree → Type 0
  Forked r new_id f =
      (new_id ≢ r.id) × ((id : ℕ) → seen f id ≡ (if new_id == id then 0 else seen r id))

  fork-Forked : (r : Replica T.Tree) (new_id : ℕ) → Ensures (Forked r new_id) (fork r new_id)
  unfolding fork Forked
  fork-Forked r new_id =
      Ensures-if (new_id == 0) _ _ (λ _. Ensures-err _)
        λ _.
          Ensures-if (new_id == r.id) _ _ (λ _. Ensures-err _)
            λ e. Ensures-ok _ (ground arith, λ id. get-fork_in_place r.version_map new_id id 0)

  -- A fork of a consistent replica can merge the next insertion, of at least one character, of the
  -- replica that it was forked from, if the replica has seen the anchor of the insertion and the
  -- anchor is not in text of the fork's own id.
  pub can_merge_insertion-fork :
      (r : Replica T.Tree) (new_id at_offset len : ℕ) {i : Insertion} {f r' : Replica T.Tree}
      → IsConsistent r
      → len ≢ 0
      → fork r new_id ≡ ok f
      → inserted r at_offset len ≡ ok (i, r')
      → i.anchor.replica_id ≢ new_id
      → i.anchor.offset ≤ seen r i.anchor.replica_id
      → can_merge_insertion f i ≡ true
  unfolding can_merge_insertion has_anchor Forked
  can_merge_insertion-fork r new_id at_offset len {i} {f} {r'} c n e h ne known =
      let after : InsertedHere r len i r' = (inserted-After r at_offset len c n).at (i, r') h in
      let (other, versions) = (fork-Forked r new_id).at f e in
      let same : seen f (Insertion.inserted_by i) ≡ Insertion.start i =
        versions (Insertion.inserted_by i) ∙ ground (arith, after.by_this, after.starts) in
      let holds : seen f i.anchor.replica_id ≡ seen r i.anchor.replica_id =
        versions i.anchor.replica_id ∙ ground arith in
      rw (same, holds) (ground arith)
