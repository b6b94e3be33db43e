-- ===== src/AuditOutbox/Rows.antt =====
-- The selection of a batch and the statements at its end, on a table whose ids are unique.
use open_langgraph_platform.Prelude.{
  ℕ, zero, suc, ◌≡◌, refl, ◌⊎◌, Bool, true, false, ◌&&◌, ◌||◌, not, some, [], ◌∷◌, Text, text_eq,
  text_eq_iff, text_eq_refl, leb, take, filter, inl, inr, Occurs, Occurs-filter, Occurs-take, arith,
  Bool-cases,
}
use open_langgraph_platform.Dict.{Dict, lookup, has, IsUnique}
use open_langgraph_platform.AuditOutbox.{OutboxRow}
use open_langgraph_platform.AuditOutbox.Mover.{
  World, insert_sorted, order_by_created_at, select_rows,
}

Occurs-insert_sorted :
    (e r : Text × OutboxRow) (rows : Dict OutboxRow)
    → Occurs e (insert_sorted r rows)
    → (e ≡ r) ⊎ Occurs e rows
unfolding insert_sorted
Occurs-insert_sorted e r [] (inl p) = inl p
Occurs-insert_sorted e r [] (inr o) = elim o [ ]
Occurs-insert_sorted e r (s ∷ rows) o = elim (Bool-cases (leb r.1.created_at s.1.created_at)) [
  | inl t ↦ elim (rw t at o) as (λ _. (e ≡ r) ⊎ Occurs e (s ∷ rows)) [
    | inl p ↦ inl p
    | inr q ↦ inr q
  ]
  | inr t ↦ elim (rw t at o) as (λ _. (e ≡ r) ⊎ Occurs e (s ∷ rows)) [
    | inl p ↦ inr (inl p)
    | inr q ↦ elim (Occurs-insert_sorted e r rows q) as (λ _. (e ≡ r) ⊎ Occurs e (s ∷ rows)) [
      | inl p ↦ inl p
      | inr o' ↦ inr (inr o')
    ]
  ]
]

Occurs-order :
    (e : Text × OutboxRow) (rows : Dict OutboxRow)
    → Occurs e (order_by_created_at rows)
    → Occurs e rows
unfolding order_by_created_at
Occurs-order e [] o = elim o [ ]
Occurs-order e (r ∷ rows) o = elim (Occurs-insert_sorted e r (order_by_created_at rows) o) [
  | inl p ↦ inl p
  | inr q ↦ inr (Occurs-order e rows q)
]

-- A selected row stands in the table.
pub Occurs-select_rows :
    (w : World) (e : Text × OutboxRow) (outbox : Dict OutboxRow)
    → Occurs e (select_rows w outbox)
    → Occurs e outbox
unfolding select_rows
Occurs-select_rows w e outbox o =
    let wanted : Text × OutboxRow → Bool = λ r. not r.1.processed && not (w.locked r.0) in
    Occurs-filter wanted e outbox (
      Occurs-order e (filter wanted outbox)
        (Occurs-take 500 e (order_by_created_at (filter wanted outbox)) o))

has-filter :
    (p : Text × OutboxRow → Bool) (k : Text) (d : Dict OutboxRow)
    → has k d ≡ false
    → has k (filter p d) ≡ false
unfolding lookup
has-filter p k [] h = refl
has-filter p k (r ∷ d) h = ground (arith, has-filter p k d)

pub filter-IsUnique :
    (p : Text × OutboxRow → Bool) (d : Dict OutboxRow) → IsUnique d → IsUnique (filter p d)
filter-IsUnique p [] u = tt
filter-IsUnique p (r ∷ d) u = ground (arith, has-filter p r.0 d, filter-IsUnique p d u.1)

has-insert_sorted :
    (k : Text) (r : Text × OutboxRow) (d : Dict OutboxRow)
    → has k (insert_sorted r d) ≡ (text_eq r.0 k || has k d)
unfolding insert_sorted lookup
has-insert_sorted k r [] = ground arith
has-insert_sorted k r (s ∷ d) = ground (arith, has-insert_sorted k r d)

insert_sorted-IsUnique :
    (r : Text × OutboxRow) (d : Dict OutboxRow)
    → has r.0 d ≡ false
    → IsUnique d
    → IsUnique (insert_sorted r d)
unfolding insert_sorted lookup
insert_sorted-IsUnique r [] h u = (refl, tt)
insert_sorted-IsUnique r (s ∷ d) h u = ground (
  arith,
  insert_sorted-IsUnique r d,
  has-insert_sorted s.0 r d,
  text_eq_iff r.0 s.0,
  text_eq_iff s.0 r.0,
)

has-order : (k : Text) (d : Dict OutboxRow) → has k (order_by_created_at d) ≡ has k d
unfolding order_by_created_at lookup
has-order k [] = refl
has-order k (r ∷ d) = ground (arith, has-insert_sorted k r (order_by_created_at d), has-order k d)

order-IsUnique : (d : Dict OutboxRow) → IsUnique d → IsUnique (order_by_created_at d)
unfolding order_by_created_at
order-IsUnique [] u = tt
order-IsUnique (r ∷ d) u =
    ground (
      arith,
      insert_sorted-IsUnique r (order_by_created_at d),
      has-order r.0 d,
      order-IsUnique d u.1,
    )

has-take : (n : ℕ) (k : Text) (d : Dict OutboxRow) → has k d ≡ false → has k (take n d) ≡ false
unfolding lookup
has-take zero k d h = refl
has-take (suc n) k [] h = refl
has-take (suc n) k (r ∷ d) h = ground (arith, has-take n k d)

take-IsUnique : (n : ℕ) (d : Dict OutboxRow) → IsUnique d → IsUnique (take n d)
take-IsUnique zero d u = tt
take-IsUnique (suc n) [] u = tt
take-IsUnique (suc n) (r ∷ d) u = (has-take n r.0 d u.0, take-IsUnique n d u.1)

pub select_rows-IsUnique :
    (w : World) (outbox : Dict OutboxRow) → IsUnique outbox → IsUnique (select_rows w outbox)
unfolding select_rows
select_rows-IsUnique w outbox u =
    let wanted : Text × OutboxRow → Bool = λ r. not r.1.processed && not (w.locked r.0) in
    take-IsUnique 500 (order_by_created_at (filter wanted outbox))
      (order-IsUnique (filter wanted outbox) (filter-IsUnique wanted outbox u))

-- With unique ids, a row is what its id finds.
pub lookup_of_Occurs :
    (k : Text) (row : OutboxRow) (d : Dict OutboxRow)
    → IsUnique d
    → Occurs (k, row) d
    → lookup k d ≡ some row
unfolding lookup
lookup_of_Occurs k row [] u o = elim o [ ]
lookup_of_Occurs k row ((j, r) ∷ d) u (inl e) = ground (arith, text_eq_refl k)
lookup_of_Occurs k row ((j, r) ∷ d) u (inr o) =
    ground (arith, lookup_of_Occurs k row d u.1 o, text_eq_iff j k)

-- A selected id stands in the table.
pub has-select_rows :
    (w : World) (k : Text) (outbox : Dict OutboxRow)
    → has k (select_rows w outbox) ≡ true
    → has k outbox ≡ true
unfolding select_rows
has-select_rows w k outbox h =
    let wanted : Text × OutboxRow → Bool = λ r. not r.1.processed && not (w.locked r.0) in
    ground (
      arith,
      has-filter wanted k outbox,
      has-order k (filter wanted outbox),
      has-take 500 k (order_by_created_at (filter wanted outbox)),
    )
