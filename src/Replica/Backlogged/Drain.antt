-- ===== src/Replica/Backlogged/Drain.antt =====
-- What the iterators over the backlogged edits yield.
use cola.Prelude.{
  ℕ, ◌≡◌, refl, sym, ap, ◌∙◌, true, false, none, some, List, [], ◌∷◌, ◌++◌, append-nil,
  append_assoc, ok,
}
use cola.Insertion.{Insertion}
use cola.RunTree.{RunTree}
use cola.Replica.{Replica, can_merge_insertion, merge_unchecked_insertion}
use cola.Replica.Backlogged.{BackloggedInsertions, scan_insertions, next_insertion}

module _ {Tree : Type 0} (r : Replica Tree) where
  -- No queue has an insertion at its front that can be merged.
  abbrev pub Blocked : List (ℕ × List Insertion) → Type 0
  Blocked [] = Unit
  Blocked ((id, []) ∷ l) = Blocked l
  Blocked ((id, first ∷ queue) ∷ l) = (can_merge_insertion r first ≡ false) × Blocked l

module _ ⦃T : RunTree⦄ where
  -- Blocked queues are gone past.
  scan_insertions_skip :
      (r : Replica T.Tree) (past before coming : List (ℕ × List Insertion))
      → Blocked r before
      → scan_insertions r past (before ++ coming) ≡ scan_insertions r (past ++ before) coming
  unfolding scan_insertions
  scan_insertions_skip r past [] coming b = rw append-nil
  scan_insertions_skip r past ((id, []) ∷ before) coming b =
      scan_insertions_skip r (past ++ (id, []) ∷ []) before coming b
      ∙ ap (λ t. scan_insertions r t coming) (append_assoc past ((id, []) ∷ []) before)
  scan_insertions_skip r past ((id, first ∷ queue) ∷ before) coming (e, b) = rw e (
      scan_insertions_skip r (past ++ (id, first ∷ queue) ∷ []) before coming b
      ∙ ap (λ t. scan_insertions r t coming) (append_assoc past ((id, first ∷ queue) ∷ []) before))

  -- `next` yields nothing when all the queues to come are blocked: the replica is as before, and the
  -- iterator has gone past them.
  pub next_insertion-none :
      (s : BackloggedInsertions T.Tree)
      → Blocked s.replica s.coming
      → next_insertion s
        ≡ ok (none, record { replica = s.replica; past = s.past ++ s.coming; coming = [] })
  unfolding next_insertion
  next_insertion-none s b =
      ap (λ t. scan_insertions s.replica s.past t) (sym (append-nil s.coming))
      ∙ scan_insertions_skip s.replica s.past s.coming [] b

  -- Let some queues be blocked, and let the front of the next one be mergeable, by a merge that does not
  -- panic. Then `next` merges it, yields its text with the offset that the merge returns, takes it off its
  -- queue and goes past the queues before it only.
  pub next_insertion-some :
      (r : Replica T.Tree) (past before after : List (ℕ × List Insertion)) (id : ℕ)
      (first : Insertion) (queue : List Insertion) {offset : ℕ} {r' : Replica T.Tree}
      → Blocked r before
      → can_merge_insertion r first ≡ true
      → merge_unchecked_insertion r first ≡ ok (offset, r')
      → next_insertion
          (record { replica = r; past = past; coming = before ++ (id, first ∷ queue) ∷ after })
        ≡ ok (
          some (first.text, offset),
          record { replica = r'; past = past ++ before; coming = (id, queue) ∷ after },
        )
  unfolding next_insertion
  next_insertion-some r past before after id first queue b e m =
      scan_insertions_skip r past before ((id, first ∷ queue) ∷ after) b ∙ rw (e, m)

  -- An insertion that a merge unblocks after the iterator has gone past its queue is not yielded:
  -- with one blocked queue before one whose only insertion `y` is ready, the iterator yields `y` and
  -- then ends, whether or not the front `x` of the first queue can be merged by then.
  pub unblocked_late :
      (r : Replica T.Tree) (a b : ℕ) (x y : Insertion) (queue : List Insertion) {offset : ℕ}
      {r' : Replica T.Tree}
      → can_merge_insertion r x ≡ false
      → can_merge_insertion r y ≡ true
      → merge_unchecked_insertion r y ≡ ok (offset, r')
      → (s s' : BackloggedInsertions T.Tree) × (next_insertion
            (record { replica = r; past = []; coming = (a, x ∷ queue) ∷ (b, y ∷ []) ∷ [] })
          ≡ ok (some (y.text, offset), s))
        × (next_insertion s ≡ ok (none, s'))
        × (s'.replica ≡ r')
        × (s'.past ≡ (a, x ∷ queue) ∷ (b, []) ∷ [])
  unblocked_late r a b x y queue {offset} {r'} h k m = (
    record { replica = r'; past = (a, x ∷ queue) ∷ []; coming = (b, []) ∷ [] },
    record { replica = r'; past = (a, x ∷ queue) ∷ (b, []) ∷ []; coming = [] },
    next_insertion-some r [] ((a, x ∷ queue) ∷ []) [] b y [] (h, tt) k m,
    next_insertion-none (record { replica = r'; past = (a, x ∷ queue) ∷ []; coming = (b, []) ∷ [] })
        tt,
    refl,
    refl,
  )
