-- ===== src/AuditOutbox/Batch.antt =====
-- The loop of `_move_batch`: what a row that it calls moved or poisoned went through.
use open_langgraph_platform.Prelude.{
  ◌+◌, ◌≤◌, ◌≡◌, ◌⊎◌, true, false, ◌||◌, List, [], ◌∷◌, ◌++◌, Text, text_eq, text_eq_iff, leb, inl,
  inr, Occurs, Occurs-append, Occurs-last, arith, Bool-cases, any-append, sym, ap,
}
use mathlib.Core.Path.{subst}
use open_langgraph_platform.Dict.{Dict, lookup, has, IsUnique}
use open_langgraph_platform.AuditOutbox.{OutboxRow, AuditLog, audit_log_of}
use open_langgraph_platform.AuditOutbox.Retries.{
  IsValid, get, clear, increment, increment-IsValid, clear-IsValid, get-increment_other, get-clear,
}
use open_langgraph_platform.AuditOutbox.Mover.{
  World, Batch, lands, succeed, move_row, move_rows, among,
}

-- the record that the mover makes of a row
abbrev pub log_of : World → Text → OutboxRow → AuditLog
log_of w k row = audit_log_of w.fromisoformat w.now (w.answers k).uuid row.payload

pub among-append :
    (k id : Text) (ids : List Text) → among k (ids ++ id ∷ []) ≡ (among k ids || text_eq k id)
unfolding among
among-append k id ids = ground (arith, any-append (text_eq k) ids (id ∷ []))

among_last :
    (k id : Text) (ids : List Text)
    → among k (ids ++ id ∷ []) ≡ true
    → (among k ids ≡ true) ⊎ (k ≡ id)
among_last k id ids h = ground (arith, among-append k id ids, text_eq_iff k id)

-- One row, as another id `k` or the row's own sees it.
record Stepped (w : World) (k id : Text) (row : OutboxRow) (b b' : Batch) : Type 0 where
  valid : IsValid b'.retry_cache
  logs : (x : AuditLog) → Occurs x b.logs → Occurs x b'.logs
  success :
      among k b'.success_ids ≡ true
      → (among k b.success_ids ≡ true) ⊎ ((k ≡ id) × Occurs (log_of w id row) b'.logs)
  poison :
      among k b'.poison_ids ≡ true
      → (among k b.poison_ids ≡ true) ⊎ ((k ≡ id) × (3 ≤ get id b.retry_cache))
  others : text_eq id k ≡ false → get k b'.retry_cache ≤ get k b.retry_cache

module _ (w : World) (k id : Text) (row : OutboxRow) (b : Batch) (v : IsValid b.retry_cache) where
  poison-Stepped :
      3 ≤ get id b.retry_cache
      → Stepped w k id row b (record b {
        poison_ids = b.poison_ids ++ id ∷ [];
        poison_pills = b.poison_pills + 1;
        retry_cache = clear id b.retry_cache;
      })
  poison-Stepped h = record {
    valid = clear-IsValid id b.retry_cache v;
    logs = λ x o. o;
    success = inl;
    poison = λ p. elim (among_last k id b.poison_ids p) [ inl q ↦ inl q | inr e ↦ inr (e, h) ];
    others = λ _. get-clear k id b.retry_cache;
  }

  succeed-Stepped : Stepped w k id row b (succeed w b id row)
  unfolding succeed
  succeed-Stepped = record {
    valid = clear-IsValid id b.retry_cache v;
    logs = λ x o. Occurs-append x b.logs (log_of w id row ∷ []) o;
    success = λ p. elim (among_last k id b.success_ids p) [
      | inl q ↦ inl q
      | inr e ↦ inr (e, Occurs-last (log_of w id row) b.logs)
    ];
    poison = inl;
    others = λ _. get-clear k id b.retry_cache;
  }

  failed-Stepped : Stepped w k id row b (record b { retry_cache = (increment id b.retry_cache).1 })
  failed-Stepped = record {
    valid = increment-IsValid id b.retry_cache v;
    logs = λ x o. o;
    success = inl;
    poison = inl;
    others = get-increment_other k id b.retry_cache v;
  }

  move_row-Stepped : Stepped w k id row b (move_row w b id row)
  unfolding move_row
  move_row-Stepped = elim (Bool-cases (leb 3 (get id b.retry_cache))) [
    | inl p ↦ rw p (poison-Stepped (ground arith))
    | inr p ↦ elim (Bool-cases (lands (w.answers id))) [
      | inl q ↦ rw (p, q) succeed-Stepped
      | inr q ↦ rw (p, q) failed-Stepped
    ]
  ]

pub record Looped (w : World) (k : Text) (rows : Dict OutboxRow) (b b' : Batch) : Type 0 where
  pub valid : IsValid b'.retry_cache
  pub logs : (x : AuditLog) → Occurs x b.logs → Occurs x b'.logs
  pub success :
      among k b'.success_ids ≡ true
      → (among k b.success_ids ≡ true)
        ⊎ ((row : OutboxRow) × Occurs (k, row) rows × Occurs (log_of w k row) b'.logs)
  pub poison :
      among k b'.poison_ids ≡ true
      → (among k b.poison_ids ≡ true) ⊎ ((has k rows ≡ true) × (3 ≤ get k b.retry_cache))

module _ {w : World} {k id : Text} {row : OutboxRow} {rows : Dict OutboxRow} {b b1 b2 : Batch} where
  success_cons :
      Stepped w k id row b b1
      → Looped w k rows b1 b2
      → among k b2.success_ids ≡ true
      → (among k b.success_ids ≡ true)
        ⊎ ((row' : OutboxRow) × Occurs (k, row') ((id, row) ∷ rows)
            × Occurs (log_of w k row') b2.logs)
  success_cons s l h =
      elim (l.success h)
        as (λ _.
          (among k b.success_ids ≡ true)
          ⊎ ((row' : OutboxRow) × Occurs (k, row') ((id, row) ∷ rows)
              × Occurs (log_of w k row') b2.logs)) [
                | inr (row', o, q) ↦ inr (row', inr o, q)
                | inl a ↦
                    elim (s.success a)
                      as (λ _.
                        (among k b.success_ids ≡ true)
                        ⊎ ((row' : OutboxRow) × Occurs (k, row') ((id, row) ∷ rows)
                            × Occurs (log_of w k row') b2.logs)) [
                              | inl q ↦ inl q
                              | inr (e, q) ↦ inr (
                                row,
                                inl (ap (λ i. (i, row)) e),
                                subst (λ i. Occurs (log_of w i row) b2.logs) (sym e)
                                    (l.logs (log_of w id row) q),
                              )
                            ]
              ]

  poison_cons :
      has id rows ≡ false
      → Stepped w k id row b b1
      → Looped w k rows b1 b2
      → among k b2.poison_ids ≡ true
      → (among k b.poison_ids ≡ true)
        ⊎ ((has k ((id, row) ∷ rows) ≡ true) × (3 ≤ get k b.retry_cache))
  unfolding lookup
  poison_cons fresh s l h = elim (l.poison h) [
    | inr (in_rows, many) ↦ elim (Bool-cases (text_eq id k)) [
      | inl e ↦ cc (in_rows, fresh, (text_eq_iff id k).0 e)
      | inr e ↦ inr (ground (arith, in_rows), omega (arith, s.others e, many))
    ]
    | inl a ↦ elim (s.poison a) [
      | inl q ↦ inl q
      | inr (e, many) ↦ inr (
        ground (arith, text_eq_iff id k, sym e),
        subst (λ i. 3 ≤ get i b.retry_cache) (sym e) many,
      )
    ]
  ]

pub move_rows-Looped :
    (w : World) (k : Text) (rows : Dict OutboxRow) (b : Batch)
    → IsUnique rows
    → IsValid b.retry_cache
    → Looped w k rows b (move_rows w b rows)
unfolding move_rows
move_rows-Looped w k [] b u v = record { valid = v; logs = λ x o. o; success = inl; poison = inl }
move_rows-Looped w k ((id, row) ∷ rows) b u v =
    let s = move_row-Stepped w k id row b v in
    let l = move_rows-Looped w k rows (move_row w b id row) u.1 s.valid in
    record {
      valid = l.valid;
      logs = λ x o. l.logs x (s.logs x o);
      success = success_cons s l;
      poison = poison_cons u.0 s l;
    }
