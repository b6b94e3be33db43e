-- ===== src/AuditOutbox/Examples.antt =====
-- An outbox of two records, one of which no insert takes.
use open_langgraph_platform.Prelude.{
  ℕ, ◌≤◌, ◌≡◌, refl, true, false, none, some, [], ◌∷◌, Text, codes, text_eq, if◌then◌else◌,
  starts_with, ends_with, length, arith,
}
use open_langgraph_platform.Dict.{Dict, lookup, insert, IsUnique}
use open_langgraph_platform.Value.{Fields, field, end, str}
use open_langgraph_platform.AuditOutbox.{OutboxRow, is_partition_error, with_offset}
use open_langgraph_platform.AuditOutbox.Retries.{LruRetryCache, IsValid, increment, evict, touched}
use open_langgraph_platform.AuditOutbox.Mover.{
  Outbox, World, Answers, committed, commit_fails, move_batch, select_rows, insert_sorted,
  order_by_created_at, lands,
}
use open_langgraph_platform.AuditOutbox.Kept.{Fate, total, move_batch-Fate}
use open_langgraph_platform.AuditOutbox.Drain.{drain, drain_ends, drain_spins}

abbrev two_counts : LruRetryCache
two_counts = record { cache = (codes "a", 2) ∷ (codes "b", 1) ∷ []; max_size = 2 }

two_counts-IsValid : IsValid two_counts
unfolding lookup text_eq
two_counts-IsValid = record { bounded = omega arith; unique = (refl, (refl, tt)) }

differ : text_eq (codes "c") (codes "b") ≡ false
unfolding text_eq
differ = refl

-- the least recent one is evicted
evict_test : (increment (codes "c") two_counts).1.cache ≡ (codes "b", 1) ∷ (codes "c", 1) ∷ []
unfolding increment touched lookup insert evict text_eq
evict_test = refl

partition_test : is_partition_error (codes "No partition of relation found") ≡ true
unfolding is_partition_error starts_with
partition_test = refl

offset_test : with_offset (codes "2024-01-01T00:00:00Z") ≡ codes "2024-01-01T00:00:00+00:00"
unfolding with_offset ends_with text_eq
offset_test = refl

abbrev payload : Fields
payload = field (codes "action") (str (codes "CREATE")) end

abbrev waiting_row : ℕ → OutboxRow
waiting_row at = record { payload = payload; created_at = at; processed = false }

abbrev two_rows : Dict OutboxRow
two_rows = (codes "bad", waiting_row 2) ∷ (codes "good", waiting_row 1) ∷ []

two_rows-IsUnique : IsUnique two_rows
unfolding lookup text_eq
two_rows-IsUnique = (refl, (refl, tt))

abbrev start : Outbox
start = record {
  metrics = record { inserted = 2; moved = 0; dropped = 0; mover_errors = 0; poison_pills = 0 };
  retry_cache = record { cache = []; max_size = 1000 };
  outbox = two_rows;
  logs = [];
}

start-IsValid : IsValid start.retry_cache
start-IsValid = record { bounded = omega arith; unique = tt }

abbrev answers : Text → Answers
answers id = record {
  uuid = codes "u";
  first = if starts_with id (codes "bad") then some (codes "check failed") else none;
  partition_made = true;
  retried = true;
}

abbrev world : World
world = record {
  now = 9;
  fromisoformat = λ _. none;
  opens = true;
  locked = λ _. false;
  answers = answers;
  ending = committed;
}

good_waits : lookup (codes "good") start.outbox ≡ some (waiting_row 1)
unfolding lookup text_eq
good_waits = refl

move_batch-Fate_example :
    let s' = (move_batch world start).0 in
    Fate world start s' (codes "good") (waiting_row 1) × (total s' ≡ total start)
move_batch-Fate_example =
    move_batch-Fate world start (codes "good") (waiting_row 1) two_rows-IsUnique start-IsValid
      good_waits

drain_ends_example :
    (s' : Outbox) × (drain 3 (λ _. world) (λ _. true) 0 start ≡ some s')
    × IsUnique s'.outbox
    × (length s'.outbox ≤ length start.outbox)
drain_ends_example =
    drain_ends 3 (λ _. world) (λ _. true) 0 start (λ _. refl) two_rows-IsUnique (omega arith)

-- every insert succeeds, and no commit does
abbrev stuck : World
stuck = record world {
  answers = λ _. record { uuid = codes "u"; first = none; partition_made = true; retried = true };
  ending = commit_fails;
}

stuck_selects :
    select_rows stuck start.outbox
    ≡ (codes "good", waiting_row 1) ∷ (codes "bad", waiting_row 2) ∷ []
unfolding select_rows order_by_created_at insert_sorted
stuck_selects = refl

stuck_lands : (k : Text) → lands (stuck.answers k) ≡ true
unfolding lands
stuck_lands k = refl

drain_spins_example : drain 7 (λ _. stuck) (λ _. true) 0 start ≡ none
drain_spins_example =
    drain_spins 7 (λ _. stuck) 0 start (codes "good", waiting_row 1)
      ((codes "bad", waiting_row 2) ∷ []) (λ _. refl) (λ _. refl) (λ _. stuck_lands)
      (λ _. stuck_selects) refl
