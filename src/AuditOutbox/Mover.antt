-- ===== src/AuditOutbox/Mover.antt =====
-- `AuditOutboxService`: `insert` and `_move_batch`. A transaction is opened, selects rows (or skips
-- those that another mover has locked), takes each row in a savepoint, and at the end deletes, marks
-- and commits; each of these may raise.
use open_langgraph_platform.Prelude.{
  ℕ, ◌+◌, Bool, true, false, ◌&&◌, not, Option, none, some, List, [], ◌∷◌, ◌++◌, Text, text_eq,
  if◌then◌else◌, leb, take, filter, any,
}
use open_langgraph_platform.Dict.{Dict}
use open_langgraph_platform.Value.{Fields}
use open_langgraph_platform.AuditOutbox.{
  OutboxRow, AuditLog, AuditMetrics, audit_log_of, is_partition_error,
}
use open_langgraph_platform.AuditOutbox.Retries
use open_langgraph_platform.AuditOutbox.Retries.{LruRetryCache, get, clear, increment}

-- The service's own state (`metrics`, `retry_cache`) and the two tables.
pub record Outbox : Type 0 where
  pub metrics : AuditMetrics
  pub retry_cache : LruRetryCache
  pub outbox : Dict OutboxRow
  pub logs : List AuditLog

abbrev pub batch_size : ℕ
batch_size = 500

abbrev pub max_retry_count : ℕ
max_retry_count = 3

unfoldable pub init : Outbox
unfolding Retries.init
init = record {
  metrics = record { inserted = 0; moved = 0; dropped = 0; mover_errors = 0; poison_pills = 0 };
  retry_cache = Retries.init 1000;
  outbox = [];
  logs = [];
}

-- what the database and `create_partition_for_date` answer for one row: `first` is the message of
-- the exception of the first insert, if there is one
pub record Answers : Type 0 where
  pub uuid : Text
  pub first : Option Text
  pub partition_made : Bool
  pub retried : Bool

-- where the transaction ends
pub data End : Type 0 where
  committed commit_fails statement_fails : End

pub record World : Type 0 where
  pub now : ℕ
  pub fromisoformat : Text → Option ℕ
  pub opens : Bool
  pub locked : Text → Bool
  pub answers : Text → Answers
  pub ending : End

-- `insert`: the row's id, its time by the server, and whether the statement returned in time
unfoldable pub insert : Outbox → Text → ℕ → Fields → Bool → Outbox × Option Text
insert s entry_id created_at payload inserted =
    let m = s.metrics in
    if inserted
    then (
      record s {
        outbox =
            s.outbox
            ++ (entry_id, record { payload = payload; created_at = created_at; processed = false })
              ∷ [];
        metrics = record m { inserted = m.inserted + 1 };
      },
      some entry_id,
    )
    else (record s { metrics = record m { dropped = m.dropped + 1 } }, none)

-- `ORDER BY created_at ASC`
unfoldable pub insert_sorted : Text × OutboxRow → Dict OutboxRow → Dict OutboxRow
insert_sorted r [] = r ∷ []
insert_sorted r (s ∷ rows) =
    if leb r.1.created_at s.1.created_at then r ∷ s ∷ rows else s ∷ insert_sorted r rows

unfoldable pub order_by_created_at : Dict OutboxRow → Dict OutboxRow
unfolding insert_sorted
order_by_created_at [] = []
order_by_created_at (r ∷ rows) = insert_sorted r (order_by_created_at rows)

-- `select_stmt`
unfoldable pub select_rows : World → Dict OutboxRow → Dict OutboxRow
unfolding order_by_created_at
select_rows w outbox =
    take batch_size
      (order_by_created_at (filter (λ r. not r.1.processed && not (w.locked r.0)) outbox))

-- the locals of `_move_batch`, with the transaction's view of audit_logs
pub record Batch : Type 0 where
  pub logs : List AuditLog
  pub retry_cache : LruRetryCache
  pub poison_pills : ℕ
  pub success_ids : List Text
  pub poison_ids : List Text
  pub moved_count : ℕ

-- Whether the row's record stands in audit_logs after its savepoints.
unfoldable pub lands : Answers → Bool
unfolding is_partition_error
lands a = elim a.first [
  | none ↦ true
  | some error ↦ is_partition_error error && a.partition_made && a.retried
]

unfoldable pub succeed : World → Batch → Text → OutboxRow → Batch
unfolding audit_log_of clear
succeed w b outbox_id row = record b {
  logs = b.logs ++ audit_log_of w.fromisoformat w.now (w.answers outbox_id).uuid row.payload ∷ [];
  success_ids = b.success_ids ++ outbox_id ∷ [];
  retry_cache = clear outbox_id b.retry_cache;
  moved_count = b.moved_count + 1;
}

-- The body of the loop. The count that `increment` answers is only logged.
unfoldable pub move_row : World → Batch → Text → OutboxRow → Batch
unfolding get clear increment lands succeed
move_row w b outbox_id row =
    if leb max_retry_count (get outbox_id b.retry_cache)
    then record b {
      poison_ids = b.poison_ids ++ outbox_id ∷ [];
      poison_pills = b.poison_pills + 1;
      retry_cache = clear outbox_id b.retry_cache;
    }
    else if lands (w.answers outbox_id)
    then succeed w b outbox_id row
    else record b { retry_cache = (increment outbox_id b.retry_cache).1 }

unfoldable pub move_rows : World → Batch → Dict OutboxRow → Batch
unfolding move_row
move_rows w b [] = b
move_rows w b ((outbox_id, row) ∷ rows) = move_rows w (move_row w b outbox_id row) rows

-- `id IN ids`
unfoldable pub among : Text → List Text → Bool
among id ids = any (text_eq id) ids

unfoldable pub delete_ids : List Text → Dict OutboxRow → Dict OutboxRow
unfolding among
delete_ids ids outbox = filter (λ r. not (among r.0 ids)) outbox

unfoldable pub mark_processed : List Text → Dict OutboxRow → Dict OutboxRow
unfolding among
mark_processed ids [] = []
mark_processed ids ((id, row) ∷ outbox) =
    (id, if among id ids then record row { processed = true } else row) ∷ mark_processed ids outbox

unfoldable pub start_batch : Outbox → Batch
start_batch s = record {
  logs = s.logs;
  retry_cache = s.retry_cache;
  poison_pills = s.metrics.poison_pills;
  success_ids = [];
  poison_ids = [];
  moved_count = 0;
}

-- What the service keeps of the batch whether or not the transaction commits.
unfoldable pub counted : Outbox → Batch → Outbox
counted s b =
    let m = s.metrics in
    record s { retry_cache = b.retry_cache; metrics = record m { poison_pills = b.poison_pills } }

-- the `except` of `_move_batch`
unfoldable pub mover_error : Outbox → Outbox
mover_error s =
    let m = s.metrics in record s { metrics = record m { mover_errors = m.mover_errors + 1 } }

-- `self.metrics.moved += moved_count`, which comes before the commit
unfoldable pub count_moved : Outbox → ℕ → Outbox
count_moved s n = let m = s.metrics in record s { metrics = record m { moved = m.moved + n } }

unfoldable pub end_batch : End → Outbox → Batch → Outbox
unfolding counted mover_error count_moved delete_ids mark_processed
end_batch committed s b = record (count_moved (counted s b) b.moved_count) {
  outbox = mark_processed b.poison_ids (delete_ids b.success_ids s.outbox);
  logs = b.logs;
}
end_batch commit_fails s b = mover_error (count_moved (counted s b) b.moved_count)
end_batch statement_fails s b = mover_error (counted s b)

-- An empty selection returns 0 out of the transaction, which commits.
unfoldable pub end_empty : End → Outbox → Outbox
unfolding mover_error
end_empty committed s = s
end_empty _ s = mover_error s

unfoldable pub move_selected : World → Outbox → Dict OutboxRow → Outbox × ℕ
unfolding move_rows start_batch end_batch end_empty
move_selected w s [] = (end_empty w.ending s, 0)
move_selected w s (r ∷ rows) =
    let b = move_rows w (start_batch s) (r ∷ rows) in (end_batch w.ending s b, b.moved_count)

unfoldable pub move_batch : World → Outbox → Outbox × ℕ
unfolding move_selected select_rows mover_error
move_batch w s = if w.opens then move_selected w s (select_rows w s.outbox) else (mover_error s, 0)
