-- ===== src/AuditOutbox/Kept.antt =====
-- services/audit_outbox_service.py, `_move_batch`: what becomes of the rows, whatever the database answers.
use open_langgraph_platform.Prelude.{
  ℕ, ◌+◌, ◌≤◌, ◌≡◌, refl, ◌⊎◌, true, false, none, some, List, [], ◌∷◌, ◌++◌, Text, text_eq,
  text_eq_iff, text_eq_refl, if◌then◌else◌, leb, length, inl, inr, Occurs, arith, Bool-cases, sym,
  ap, length-append, ◌∙◌,
}
use mathlib.Core.Path.{subst}
use open_langgraph_platform.Dict.{Dict, lookup, has, IsUnique}
use open_langgraph_platform.AuditOutbox.{OutboxRow}
use open_langgraph_platform.AuditOutbox.Retries.{IsValid, get}
use open_langgraph_platform.AuditOutbox.Rows.{
  Occurs-select_rows, select_rows-IsUnique, lookup_of_Occurs, has-select_rows,
}
use open_langgraph_platform.AuditOutbox.Batch.{log_of, among-append, Looped, move_rows-Looped}
use open_langgraph_platform.AuditOutbox.Mover.{
  Outbox, World, End, committed, commit_fails, statement_fails, Batch, lands, succeed, move_row,
  move_rows, among, delete_ids, mark_processed, start_batch, end_batch, end_empty, move_selected,
  move_batch, select_rows, counted, count_moved, mover_error,
}

delete_absent :
    (ids : List Text) (id : Text) (d : Dict OutboxRow)
    → has id d ≡ false
    → delete_ids (ids ++ id ∷ []) d ≡ delete_ids ids d
unfolding delete_ids lookup
delete_absent ids id [] h = refl
delete_absent ids id ((j, row) ∷ d) h =
    ground (arith, delete_absent ids id d, among-append j id ids, text_eq_iff j id, text_eq_refl j)

-- One more id that stands in the table deletes one more row.
length-delete_ids :
    (ids : List Text) (id : Text) (d : Dict OutboxRow)
    → IsUnique d
    → has id d ≡ true
    → among id ids ≡ false
    → length (delete_ids (ids ++ id ∷ []) d) + 1 ≡ length (delete_ids ids d)
unfolding delete_ids lookup
length-delete_ids ids id [] u h new = cc
length-delete_ids ids id ((j, row) ∷ d) u h new = elim (Bool-cases (text_eq j id)) [
  | inl e ↦
      let same : j ≡ id = (text_eq_iff j id).0 e in
      ground (
        arith,
        delete_absent ids j d u.0,
        among-append j id ids,
        text_eq_refl j,
        same,
        delete_absent ids id d,
      )
  | inr e ↦ ground (arith, length-delete_ids ids id d u.1, among-append j id ids)
]

-- The rows that are left to take have not been taken.
abbrev pub Ahead : Dict OutboxRow → Dict OutboxRow → List Text → Type 0
Ahead rows d ids = (k : Text) → has k rows ≡ true → (has k d ≡ true) × (among k ids ≡ false)

-- What a batch moves leaves the table of the outbox and enters the logs, one for one.
pub record Balanced (d : Dict OutboxRow) (b b' : Batch) : Type 0 where
  pub left :
      length (delete_ids b'.success_ids d) + b'.moved_count
      ≡ length (delete_ids b.success_ids d) + b.moved_count
  pub entered : length b'.logs + b.moved_count ≡ length b.logs + b'.moved_count

Ahead-cons :
    (id : Text) (row : OutboxRow) (rows d : Dict OutboxRow) (ids : List Text)
    → has id rows ≡ false
    → Ahead ((id, row) ∷ rows) d ids
    → Ahead rows d ids × Ahead rows d (ids ++ id ∷ [])
unfolding lookup
Ahead-cons id row rows d ids fresh a = (
  λ k h. a k (ground (arith, h)),
  λ k h.
      let (there, new) = a k (ground (arith, h)) in
      (there, ground (arith, among-append k id ids, text_eq_iff k id, fresh, h, new)),
)

move_row-Balanced :
    (w : World) (id : Text) (row : OutboxRow) (rows d : Dict OutboxRow) (b : Batch)
    → IsUnique d
    → has id rows ≡ false
    → Ahead ((id, row) ∷ rows) d b.success_ids
    → Balanced d b (move_row w b id row) × Ahead rows d (move_row w b id row).success_ids
unfolding move_row succeed lookup
move_row-Balanced w id row rows d b u fresh a =
    let (stay, go) = Ahead-cons id row rows d b.success_ids fresh a in
    elim (Bool-cases (leb 3 (get id b.retry_cache))) [
      | inl p ↦ rw p (record { left = refl; entered = refl }, stay)
      | inr p ↦ elim (Bool-cases (lands (w.answers id))) [
        | inr q ↦ rw (p, q) (record { left = refl; entered = refl }, stay)
        | inl q ↦
            let (there, new) = a id (ground (arith, text_eq_refl id)) in
            rw (p, q)
              (
                record {
                  left = omega (arith, length-delete_ids b.success_ids id d u there new);
                  entered = omega (arith, length-append b.logs (log_of w id row ∷ []));
                },
                go,
              )
      ]
    ]

pub move_rows-Balanced :
    (w : World) (rows d : Dict OutboxRow) (b : Batch)
    → IsUnique d
    → IsUnique rows
    → Ahead rows d b.success_ids
    → Balanced d b (move_rows w b rows)
unfolding move_rows
move_rows-Balanced w [] d b u v a = record { left = refl; entered = refl }
move_rows-Balanced w ((id, row) ∷ rows) d b u v a =
    let (one, a') = move_row-Balanced w id row rows d b u v.0 a in
    let rest = move_rows-Balanced w rows d (move_row w b id row) u v.1 a' in
    record { left = rest.left ∙ one.left; entered = omega (arith, one.entered, rest.entered) }

among_nil : (k : Text) → among k [] ≡ false
unfolding among
among_nil k = refl

lookup-delete_ids :
    (k : Text) (ids : List Text) (d : Dict OutboxRow)
    → lookup k (delete_ids ids d) ≡ (if among k ids then none else lookup k d)
unfolding delete_ids lookup
lookup-delete_ids k ids [] = ground arith
lookup-delete_ids k ids ((j, row) ∷ d) = ground (arith, lookup-delete_ids k ids d, text_eq_iff j k)

lookup-mark_processed :
    (k : Text) (ids : List Text) (row : OutboxRow) (d : Dict OutboxRow)
    → lookup k d ≡ some row
    → lookup k (mark_processed ids d)
      ≡ some (if among k ids then record row { processed = true } else row)
unfolding mark_processed lookup
lookup-mark_processed k ids row [] h = cc
lookup-mark_processed k ids row ((j, r) ∷ d) h = elim (Bool-cases (text_eq j k)) [
  | inl e ↦
      let same : j ≡ k = (text_eq_iff j k).0 e in
      let found : r ≡ row = cc (rw e at h) in rw (e, same, found) refl
  | inr e ↦ rw e (lookup-mark_processed k ids row d (rw e at h))
]

none-mark_processed :
    (k : Text) (ids : List Text) (d : Dict OutboxRow)
    → lookup k d ≡ none
    → lookup k (mark_processed ids d) ≡ none
unfolding mark_processed lookup
none-mark_processed k ids [] h = refl
none-mark_processed k ids ((j, r) ∷ d) h = ground (arith, none-mark_processed k ids d)

pub length-mark_processed :
    (ids : List Text) (d : Dict OutboxRow) → length (mark_processed ids d) ≡ length d
unfolding mark_processed
length-mark_processed ids [] = refl
length-mark_processed ids (e ∷ d) = omega (arith, length-mark_processed ids d)

-- Where a row of the outbox is after a batch: it waits as before, it is set aside after at least
-- three counted failures, or its record stands in the logs.
abbrev pub Fate : World → Outbox → Outbox → Text → OutboxRow → Type 0
Fate w s s' k row =
    (lookup k s'.outbox ≡ some row)
    ⊎ ((lookup k s'.outbox ≡ some (record row { processed = true })) × (3 ≤ get k s.retry_cache))
    ⊎ ((lookup k s'.outbox ≡ none) × Occurs (log_of w k row) s'.logs)

abbrev pub total : Outbox → ℕ
total s = length s.outbox + length s.logs

module _ (w : World) (s : Outbox) (k : Text) (row : OutboxRow) (unique : IsUnique s.outbox)
    (valid : IsValid s.retry_cache) (waits : lookup k s.outbox ≡ some row) where
  committed-Fate :
      (b : Batch)
      → Looped w k (select_rows w s.outbox) (start_batch s) b
      → Fate w s (end_batch committed s b) k row
  unfolding end_batch counted count_moved start_batch
  committed-Fate b l = elim (Bool-cases (among k b.success_ids)) [
    | inl p ↦ elim (l.success p) as (λ _. Fate w s (end_batch committed s b) k row) [
      | inl q ↦ cc (q, among_nil k)
      | inr (row', o, logged) ↦
          let found : some row' ≡ some row =
            sym
              (lookup_of_Occurs k row' s.outbox unique (Occurs-select_rows w (k, row') s.outbox o))
            ∙ waits in
          let same : row' ≡ row = cc found in
          inr (
            inr (
              none-mark_processed k b.poison_ids (delete_ids b.success_ids s.outbox)
                  (rw (lookup-delete_ids k b.success_ids s.outbox, p) refl),
              subst (λ r. Occurs (log_of w k r) b.logs) same logged,
            ))
    ]
    | inr p ↦
        let kept : lookup k (delete_ids b.success_ids s.outbox) ≡ some row =
          rw (lookup-delete_ids k b.success_ids s.outbox, p) waits in
        let marked =
          lookup-mark_processed k b.poison_ids row (delete_ids b.success_ids s.outbox) kept in
        elim (Bool-cases (among k b.poison_ids)) [
          | inr q ↦ inl (rw q at marked)
          | inl q ↦ elim (l.poison q) as (λ _. Fate w s (end_batch committed s b) k row) [
            | inl bad ↦ cc (bad, among_nil k)
            | inr (_, many) ↦ inr (inl (rw q at marked, many))
          ]
        ]
  ]

  selected-Fate :
      (e : End) (b : Batch)
      → Looped w k (select_rows w s.outbox) (start_batch s) b
      → Fate w s (end_batch e s b) k row
  unfolding end_batch counted count_moved mover_error
  selected-Fate committed b l = committed-Fate b l
  selected-Fate commit_fails b l = inl waits
  selected-Fate statement_fails b l = inl waits

pub delete_none : (d : Dict OutboxRow) → delete_ids [] d ≡ d
unfolding delete_ids among
delete_none [] = refl
delete_none (e ∷ d) = ground (arith, delete_none d)

-- Total rows: the ends of a batch.
end_batch-total :
    (e : End) (s : Outbox) (b : Batch)
    → Balanced s.outbox (start_batch s) b
    → total (end_batch e s b) ≡ total s
unfolding end_batch counted count_moved mover_error start_batch
end_batch-total commit_fails s b c = refl
end_batch-total statement_fails s b c = refl
end_batch-total committed s b c = omega (
  arith,
  length-mark_processed b.poison_ids (delete_ids b.success_ids s.outbox),
  c.left,
  c.entered,
  ap length (delete_none s.outbox),
)

pub Ahead-start :
    (w : World) (s : Outbox) → Ahead (select_rows w s.outbox) s.outbox (start_batch s).success_ids
unfolding start_batch
Ahead-start w s = λ k h. (has-select_rows w k s.outbox h, among_nil k)

end_empty-Fate :
    (e : End) (w : World) (s : Outbox) (k : Text) (row : OutboxRow)
    → lookup k s.outbox ≡ some row
    → Fate w s (end_empty e s) k row × (total (end_empty e s) ≡ total s)
unfolding end_empty mover_error
end_empty-Fate committed w s k row waits = (inl waits, refl)
end_empty-Fate commit_fails w s k row waits = (inl waits, refl)
end_empty-Fate statement_fails w s k row waits = (inl waits, refl)

move_selected-Fate :
    (w : World) (s : Outbox) (k : Text) (row : OutboxRow)
    → IsUnique s.outbox
    → IsValid s.retry_cache
    → lookup k s.outbox ≡ some row
    → (rows : Dict OutboxRow) → select_rows w s.outbox ≡ rows
    → let s' = (move_selected w s rows).0 in Fate w s s' k row × (total s' ≡ total s)
unfolding move_selected
move_selected-Fate w s k row unique valid waits [] e = end_empty-Fate w.ending w s k row waits
move_selected-Fate w s k row unique valid waits (r ∷ rows) e =
    let u : IsUnique (r ∷ rows) = subst IsUnique e (select_rows-IsUnique w s.outbox unique) in
    let a = subst (λ q. Ahead q s.outbox (start_batch s).success_ids) e (Ahead-start w s) in
    let b = move_rows w (start_batch s) (r ∷ rows) in
    (
      selected-Fate w s k row unique valid waits w.ending b (
          subst (λ q. Looped w k q (start_batch s) b) (sym e)
            (move_rows-Looped w k (r ∷ rows) (start_batch s) u (unfold start_batch in valid))),
      end_batch-total w.ending s b
          (move_rows-Balanced w (r ∷ rows) s.outbox (start_batch s) unique u a),
    )

-- A batch loses no audit record and writes none twice, whatever the database answers for its rows and
-- wherever its transaction fails: in an outbox with unique ids, each row waits as before, or is set
-- aside as processed after at least three counted failures, or is gone with its record in the audit
-- logs; and the two tables together hold as many rows as before.
pub move_batch-Fate :
    (w : World) (s : Outbox) (k : Text) (row : OutboxRow)
    → IsUnique s.outbox
    → IsValid s.retry_cache
    → lookup k s.outbox ≡ some row
    → let s' = (move_batch w s).0 in Fate w s s' k row × (total s' ≡ total s)
unfolding move_batch mover_error
move_batch-Fate w s k row unique valid waits = elim (Bool-cases w.opens) [
  | inr p ↦ rw p (inl waits, refl)
  | inl p ↦ rw p (move_selected-Fate w s k row unique valid waits (select_rows w s.outbox) refl)
]
