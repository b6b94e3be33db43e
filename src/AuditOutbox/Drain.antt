-- ===== src/AuditOutbox/Drain.antt =====
-- `_mover_loop`: it moves batches until one moves nothing, and then sleeps. Batch number `i` meets the
-- world `worlds i`, and `running i` is what the loop reads after it.
use open_langgraph_platform.Prelude.{
  ℕ, zero, suc, ◌+◌, ◌≤◌, ◌<◌, ◌≡◌, ◌≢◌, refl, Bool, true, false, not, Option, none, some, List, [],
  ◌∷◌, Text, if◌then◌else◌, ◌==◌, length, arith, Bool-cases, inl, inr, ap, ◌∙◌,
}
use mathlib.Core.Path.{subst}
use open_langgraph_platform.Dict.{Dict, lookup, remove, has, IsUnique}
use open_langgraph_platform.AuditOutbox.{OutboxRow}
use open_langgraph_platform.AuditOutbox.Retries.{get, clear}
use open_langgraph_platform.AuditOutbox.Mover.{
  Outbox, World, End, committed, commit_fails, Batch, lands, succeed, move_row, move_rows, among,
  delete_ids, mark_processed, start_batch, end_batch, end_empty, move_selected, move_batch,
  select_rows, counted, count_moved, mover_error,
}
use open_langgraph_platform.AuditOutbox.Rows.{select_rows-IsUnique, filter-IsUnique}
use open_langgraph_platform.AuditOutbox.Kept.{
  Ahead, Ahead-start, move_rows-Balanced, length-mark_processed, delete_none,
}

-- the inner loop, with fuel
unfoldable pub drain : ℕ → (ℕ → World) → (ℕ → Bool) → ℕ → Outbox → Option Outbox
unfolding move_batch
drain zero worlds running i s = none
drain (suc fuel) worlds running i s =
    let (s', moved) = move_batch (worlds i) s in
    let onward = drain fuel worlds running (suc i) s' in
    if moved == 0 then some s' else if running i then onward else some s'

lookup-has_mark :
    (k : Text) (ids : List Text) (d : Dict OutboxRow)
    → has k d ≡ false
    → has k (mark_processed ids d) ≡ false
unfolding mark_processed lookup
lookup-has_mark k ids [] h = refl
lookup-has_mark k ids ((j, r) ∷ d) h = ground (arith, lookup-has_mark k ids d)

mark_processed-IsUnique :
    (ids : List Text) (d : Dict OutboxRow) → IsUnique d → IsUnique (mark_processed ids d)
unfolding mark_processed
mark_processed-IsUnique ids [] u = tt
mark_processed-IsUnique ids ((j, r) ∷ d) u =
    (lookup-has_mark j ids d u.0, mark_processed-IsUnique ids d u.1)

-- A committed batch keeps the ids unique and shortens the outbox by what it moved.
record Shrunk (s s' : Outbox) (moved : ℕ) : Type 0 where
  unique : IsUnique s'.outbox
  shorter : length s'.outbox + moved ≡ length s.outbox

move_selected-Shrunk :
    (w : World) (s : Outbox) (rows : Dict OutboxRow)
    → w.ending ≡ committed
    → IsUnique s.outbox
    → select_rows w s.outbox ≡ rows
    → Shrunk s (move_selected w s rows).0 (move_selected w s rows).1
unfolding move_selected end_empty end_batch counted count_moved start_batch delete_ids
move_selected-Shrunk w s [] c u e = rw c (record { unique = u; shorter = omega arith })
move_selected-Shrunk w s (r ∷ rows) c u e =
    let v : IsUnique (r ∷ rows) = subst IsUnique e (select_rows-IsUnique w s.outbox u) in
    let a = subst (λ q. Ahead q s.outbox (start_batch s).success_ids) e (Ahead-start w s) in
    let b = move_rows w (start_batch s) (r ∷ rows) in
    let balanced = move_rows-Balanced w (r ∷ rows) s.outbox (start_batch s) u v a in
    rw c (record {
      unique =
          mark_processed-IsUnique b.poison_ids (delete_ids b.success_ids s.outbox)
            (filter-IsUnique (λ r. not (among r.0 b.success_ids)) s.outbox u);
      shorter = omega (
        arith,
        length-mark_processed b.poison_ids (delete_ids b.success_ids s.outbox),
        balanced.left,
        ap length (delete_none s.outbox),
      );
    })

move_batch-Shrunk :
    (w : World) (s : Outbox)
    → w.ending ≡ committed
    → IsUnique s.outbox
    → Shrunk s (move_batch w s).0 (move_batch w s).1
unfolding move_batch mover_error
move_batch-Shrunk w s c u = elim (Bool-cases w.opens) [
  | inl p ↦ rw p (move_selected-Shrunk w s (select_rows w s.outbox) c u refl)
  | inr p ↦ rw p (record { unique = u; shorter = omega arith })
]

-- While its transactions commit and nothing is inserted into the outbox meanwhile, the mover's loop ends:
-- it needs one batch more than the outbox has rows, whatever the rows' inserts into the audit log
-- answer, and whether or not it is told to stop. The outbox that it leaves has unique ids again and is
-- no longer than before.
pub drain_ends :
    (fuel : ℕ) (worlds : ℕ → World) (running : ℕ → Bool) (i : ℕ) (s : Outbox)
    → ((j : ℕ) → (worlds j).ending ≡ committed)
    → IsUnique s.outbox
    → length s.outbox < fuel
    → (s' : Outbox) × (drain fuel worlds running i s ≡ some s')
      × IsUnique s'.outbox
      × (length s'.outbox ≤ length s.outbox)
unfolding drain
drain_ends zero worlds running i s c u f = absurd (omega arith)
drain_ends (suc fuel) worlds running i s c u f =
    let (s', moved) = move_batch (worlds i) s in
    let one = move_batch-Shrunk (worlds i) s (c i) u in
    let fewer : length s'.outbox ≤ length s.outbox = omega (arith, one.shorter) in
    elim (Bool-cases (moved == 0)) [
      | inl p ↦ (s', rw p refl, one.unique, fewer)
      | inr p ↦ elim (Bool-cases (running i)) [
        | inr q ↦ (s', rw (p, q) refl, one.unique, fewer)
        | inl q ↦
            let less : moved ≢ 0 = ground (arith, p) in
            let (t, e, v, l) =
              drain_ends fuel worlds running (suc i) s' c one.unique (omega (arith, one.shorter)) in
            (t, rw (p, q) e, v, omega (arith, one.shorter))
      ]
    ]

-- Rows that have no failures counted and whose inserts succeed are all moved.
move_row-lands :
    (w : World) (id : Text) (row : OutboxRow) (b : Batch)
    → lands (w.answers id) ≡ true
    → b.retry_cache.cache ≡ []
    → ((move_row w b id row).moved_count ≡ b.moved_count + 1)
      × ((move_row w b id row).retry_cache.cache ≡ [])
unfolding move_row get lookup succeed clear remove
move_row-lands w id row b l e = rw (e, l) (refl, refl)

move_rows-lands :
    (w : World) (rows : Dict OutboxRow) (b : Batch)
    → ((k : Text) → lands (w.answers k) ≡ true)
    → b.retry_cache.cache ≡ []
    → ((move_rows w b rows).moved_count ≡ b.moved_count + length rows)
      × ((move_rows w b rows).retry_cache.cache ≡ [])
unfolding move_rows
move_rows-lands w [] b l e = (omega arith, e)
move_rows-lands w ((id, row) ∷ rows) b l e =
    let (n, empty) = move_row-lands w id row b (l id) e in
    let (m, empty') = move_rows-lands w rows (move_row w b id row) l empty in
    (omega (arith, n, m), empty')

end_batch_undone :
    (e : End) (s : Outbox) (b : Batch)
    → e ≡ commit_fails
    → ((end_batch e s b).outbox ≡ s.outbox)
      × ((end_batch e s b).retry_cache.cache ≡ b.retry_cache.cache)
unfolding end_batch counted count_moved mover_error
end_batch_undone e s b c = rw c (refl, refl)

-- A batch whose commit fails: it answers how many rows it moved, and moves none.
move_selected_undone :
    (w : World) (s : Outbox) (r : Text × OutboxRow) (rows : Dict OutboxRow)
    → w.ending ≡ commit_fails
    → ((k : Text) → lands (w.answers k) ≡ true)
    → s.retry_cache.cache ≡ []
    → let (s', moved) = move_selected w s (r ∷ rows) in
      (moved ≡ length (r ∷ rows)) × (s'.outbox ≡ s.outbox) × (s'.retry_cache.cache ≡ [])
unfolding move_selected start_batch
move_selected_undone w s r rows c l e =
    let (n, empty) = move_rows-lands w (r ∷ rows) (start_batch s) l e in
    let (same, kept) = end_batch_undone w.ending s (move_rows w (start_batch s) (r ∷ rows)) c in
    (omega (arith, n), same, kept ∙ empty)

-- The mover does not sleep between two batches when the first one could not commit: if every batch
-- selects a row, every insert succeeds, no failure is counted and every commit fails, the loop runs on
-- for as long as the mover is not stopped, and no number of batches ends it.
pub drain_spins :
    (fuel : ℕ) (worlds : ℕ → World) (i : ℕ) (s : Outbox) (r : Text × OutboxRow)
    (rows : Dict OutboxRow)
    → ((j : ℕ) → (worlds j).opens ≡ true)
    → ((j : ℕ) → (worlds j).ending ≡ commit_fails)
    → ((j : ℕ) (k : Text) → lands ((worlds j).answers k) ≡ true)
    → ((j : ℕ) → select_rows (worlds j) s.outbox ≡ r ∷ rows)
    → s.retry_cache.cache ≡ []
    → drain fuel worlds (λ _. true) i s ≡ none
unfolding drain move_batch
drain_spins zero worlds i s r rows o c l sel e = refl
drain_spins (suc fuel) worlds i s r rows o c l sel e =
    let (s', moved) = move_selected (worlds i) s (r ∷ rows) in
    let (n, same, empty) = move_selected_undone (worlds i) s r rows (c i) (l i) e in
    let more : (moved == 0) ≡ false = ground (arith, n) in
    rw (o i, sel i, more)
      (drain_spins fuel worlds (suc i) s' r rows o c l
        (λ j. ap (select_rows (worlds j)) same ∙ sel j) empty)
