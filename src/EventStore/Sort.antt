-- ===== src/EventStore/Sort.antt =====
-- Ordering by sequence number: the result is sorted, and filtering commutes with it.
use open_langgraph_platform.Prelude.{
  ◌+◌, ◌≤◌, ◌≡◌, refl, Bool, List, [], ◌∷◌, arith, filter, All, if◌then◌else◌, Bool-cases, inl, inr,
  ◌∙◌,
}
use open_langgraph_platform.Prelude.Int.{ℤ, pos_part, neg_part, leb_ℤ}
use open_langgraph_platform.EventStore.{Row, insert_sorted, order_by_seq}

abbrev pub ◌≤ℤ◌ : ℤ → ℤ → Type 0
a ≤ℤ b = pos_part a + neg_part b ≤ pos_part b + neg_part a

infix 50 ◌≤ℤ◌
-- Each row comes before the rows behind it.
abbrev pub IsSorted : List Row → Type 0
IsSorted [] = Unit
IsSorted (r ∷ rows) = All (λ s. r.seq ≤ℤ s.seq) rows × IsSorted rows

All-weaken :
    (a b : ℤ) (rows : List Row) → a ≤ℤ b → All (λ s. b ≤ℤ s.seq) rows → All (λ s. a ≤ℤ s.seq) rows
All-weaken a b [] h v = tt
All-weaken a b (r ∷ rows) h v = (omega arith, All-weaken a b rows h v.1)

All-insert_sorted :
    (a : ℤ) (r : Row) (rows : List Row)
    → a ≤ℤ r.seq
    → All (λ s. a ≤ℤ s.seq) rows
    → All (λ s. a ≤ℤ s.seq) (insert_sorted r rows)
unfolding insert_sorted
All-insert_sorted a r [] h v = (h, tt)
All-insert_sorted a r (s ∷ rows) h v = elim (Bool-cases (leb_ℤ r.seq s.seq)) [
  | inl p ↦ rw p (h, v)
  | inr p ↦ rw p (v.0, All-insert_sorted a r rows h v.1)
]

insert_sorted-IsSorted :
    (r : Row) (rows : List Row) → IsSorted rows → IsSorted (insert_sorted r rows)
unfolding insert_sorted
insert_sorted-IsSorted r [] v = (tt, tt)
insert_sorted-IsSorted r (s ∷ rows) v = elim (Bool-cases (leb_ℤ r.seq s.seq)) [
  | inl p ↦
      let below : r.seq ≤ℤ s.seq = ground arith in
      rw p ((below, All-weaken r.seq s.seq rows below v.0), v)
  | inr p ↦
      rw p (All-insert_sorted s.seq r rows (ground arith) v.0, insert_sorted-IsSorted r rows v.1)
]

pub order_by_seq-IsSorted : (rows : List Row) → IsSorted (order_by_seq rows)
unfolding order_by_seq
order_by_seq-IsSorted [] = tt
order_by_seq-IsSorted (r ∷ rows) =
    insert_sorted-IsSorted r (order_by_seq rows) (order_by_seq-IsSorted rows)

-- A row in front of all others is inserted in front.
insert_sorted_front :
    (r : Row) (rows : List Row) → All (λ s. r.seq ≤ℤ s.seq) rows → insert_sorted r rows ≡ r ∷ rows
unfolding insert_sorted
insert_sorted_front r [] v = refl
insert_sorted_front r (s ∷ rows) v = ground arith

All-filter :
    (p : Row → Bool) (a : ℤ) (rows : List Row)
    → All (λ s. a ≤ℤ s.seq) rows
    → All (λ s. a ≤ℤ s.seq) (filter p rows)
All-filter p a [] v = tt
All-filter p a (r ∷ rows) v = elim (Bool-cases (p r)) [
  | inl t ↦ rw t (v.0, All-filter p a rows v.1)
  | inr t ↦ rw t (All-filter p a rows v.1)
]

filter-insert_sorted :
    (p : Row → Bool) (r : Row) (rows : List Row)
    → IsSorted rows
    → filter p (insert_sorted r rows)
      ≡ (if p r then insert_sorted r (filter p rows) else filter p rows)
unfolding insert_sorted
filter-insert_sorted p r [] v = refl
filter-insert_sorted p r (s ∷ rows) v = ground (
  arith,
  filter-insert_sorted p r rows v.1,
  λ (below : r.seq ≤ℤ s.seq).
      insert_sorted_front r (filter p rows)
        (All-filter p r.seq rows (All-weaken r.seq s.seq rows below v.0)),
)

-- Filtering before or after the ordering gives the same rows in the same order.
pub filter-order_by_seq :
    (p : Row → Bool) (rows : List Row) → filter p (order_by_seq rows) ≡ order_by_seq (filter p rows)
unfolding order_by_seq
filter-order_by_seq p [] = refl
filter-order_by_seq p (r ∷ rows) =
    filter-insert_sorted p r (order_by_seq rows) (order_by_seq-IsSorted rows)
    ∙ ground (arith, filter-order_by_seq p rows)
