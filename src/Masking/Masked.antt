-- ===== src/Masking/Masked.antt =====
-- What masking leaves of sensitive fields.
use open_langgraph_platform.Prelude.{
  ℕ, zero, suc, ◌≡◌, refl, Bool, true, false, ◌&&◌, not, Text, codes, text_eq, lower, occurs,
  starts_with, and_left, and_right, not-true, if◌then◌else◌, Bool-cases, inl, inr, Option, none,
  some, ◌<◌, arith,
}
use open_langgraph_platform.Value.{
  Value, none_value, bool, num, str, list, tuple, dict, Items, nil, cons, Fields, end, field, count,
}
use open_langgraph_platform.Masking.{
  is_sensitive_key, truncated_marker, is_marker, mask_value, mask, mask_fields, mask_items,
  mask_sensitive_data, max_list_items,
}

unfoldable pub is_mask : Value → Bool
unfolding text_eq
is_mask (str s) = text_eq s (codes "***REDACTED***")
is_mask v = false

-- Every field with a sensitive key, at any depth, holds the mask.
unfoldable mutual
  unfolding is_sensitive_key is_mask

  pub is_clean : Value → Bool
  is_clean (dict fields) = clean_fields fields
  is_clean (list items) = clean_items items
  is_clean (tuple items) = clean_items items
  is_clean v = true

  clean_fields : Fields → Bool
  clean_fields end = true
  clean_fields (field key value fields) =
      let inside = is_clean value in
      (if is_sensitive_key key then is_mask value else inside) && clean_fields fields

  clean_items : Items → Bool
  clean_items nil = true
  clean_items (cons item items) = is_clean item && clean_items items

-- No list, at any depth, has an item that looks like the marker of a long list.
unfoldable mutual
  unfolding is_marker

  pub is_unmarked : Value → Bool
  is_unmarked (dict fields) = unmarked_fields fields
  is_unmarked (list items) = unmarked_items items
  is_unmarked (tuple items) = unmarked_items items
  is_unmarked v = true

  unmarked_fields : Fields → Bool
  unmarked_fields end = true
  unmarked_fields (field key value fields) = is_unmarked value && unmarked_fields fields

  unmarked_items : Items → Bool
  unmarked_items nil = true
  unmarked_items (cons item items) =
      not (is_marker item) && (is_unmarked item && unmarked_items items)

depth_marker_clean : is_clean (dict (field (codes "_depth_exceeded") (bool true) end)) ≡ true
unfolding is_clean lower occurs text_eq starts_with
depth_marker_clean = refl

list_marker_clean : (total : ℕ) → is_clean (truncated_marker total) ≡ true
unfolding is_clean truncated_marker lower occurs text_eq starts_with
list_marker_clean total = refl

mask_is_mask : is_mask mask_value ≡ true
unfolding is_mask text_eq
mask_is_mask = refl

mutual
  unfolding mask is_clean is_unmarked

  mask-clean :
      (to_text : Value → Text) (depth : ℕ) (v : Value)
      → is_unmarked v ≡ true
      → is_clean (mask to_text depth v) ≡ true
  mask-clean to_text zero v h = depth_marker_clean
  mask-clean to_text (suc depth) (dict fields) h = mask_fields-clean to_text depth fields h
  mask-clean to_text (suc depth) (list items) h =
      mask_items-clean to_text depth 100 (count items) items h
  mask-clean to_text (suc depth) (tuple items) h = refl
  mask-clean to_text (suc depth) (str s) h = refl
  mask-clean to_text (suc depth) (num n) h = refl
  mask-clean to_text (suc depth) (bool b) h = refl
  mask-clean to_text (suc depth) none_value h = refl

  mask_fields-clean :
      (to_text : Value → Text) (depth : ℕ) (fields : Fields)
      → unmarked_fields fields ≡ true
      → clean_fields (mask_fields to_text depth fields) ≡ true
  mask_fields-clean to_text depth end h = refl
  mask_fields-clean to_text depth (field key value fields) h =
      let rest =
        mask_fields-clean to_text depth fields
          (and_right (is_unmarked value) (unmarked_fields fields) h) in
      let inside =
        mask-clean to_text depth value (and_left (is_unmarked value) (unmarked_fields fields) h) in
      elim (Bool-cases (is_sensitive_key key)) [
        | inl p ↦ rw (p, rest) mask_is_mask
        | inr p ↦ rw (p, rest, inside) refl
      ]

  mask_items-clean :
      (to_text : Value → Text) (depth left total : ℕ) (items : Items)
      → unmarked_items items ≡ true
      → clean_items (mask_items to_text depth left total items) ≡ true
  mask_items-clean to_text depth left total nil h = refl
  mask_items-clean to_text depth zero total (cons item items) h = rw (list_marker_clean total) refl
  mask_items-clean to_text depth (suc left) total (cons item items) h =
      let both = and_right (not (is_marker item)) (is_unmarked item && unmarked_items items) h in
      let rest =
        mask_items-clean to_text depth left total items
          (and_right (is_unmarked item) (unmarked_items items) both) in
      let inside =
        mask-clean to_text depth item (and_left (is_unmarked item) (unmarked_items items) both) in
      let plain : is_marker item ≡ false =
        not-true (is_marker item)
          (and_left (not (is_marker item)) (is_unmarked item && unmarked_items items) h) in
      rw (plain, inside, rest) refl

-- Masking leaves no sensitive value: if no list of the data holds an item that looks like the marker of
-- a shortened list, then in what is written every field with a sensitive key, at any depth, holds the
-- mask.
pub mask_sensitive_data-clean :
    (to_text : Value → Text) (v : Value)
    → is_unmarked v ≡ true
    → is_clean (mask_sensitive_data to_text v) ≡ true
unfolding mask_sensitive_data
mask_sensitive_data-clean to_text v h = mask-clean to_text 10 v h

-- `xs[i]`
abbrev pub item_at : ℕ → Items → Option Value
item_at i nil = none
item_at zero (cons v items) = some v
item_at (suc i) (cons v items) = item_at i items

leaks :
    (to_text : Value → Text) (depth left total i : ℕ) (items : Items) (fields : Fields)
    → is_marker (dict fields) ≡ true
    → i < left
    → item_at i items ≡ some (dict fields)
    → item_at i (mask_items to_text depth left total items) ≡ some (dict fields)
unfolding mask
leaks to_text depth left total i nil fields h l e = cc
leaks to_text depth zero total i (cons v items) fields h l e = absurd (omega (arith, l))
leaks to_text depth (suc left) total zero (cons v items) fields h l e =
    let same : v ≡ dict fields = cc in rw (same, h) refl
leaks to_text depth (suc left) total (suc i) (cons v items) fields h l e =
    leaks to_text depth left total i items fields h (omega (arith, l)) e

-- the items of a list that was masked
abbrev pub masked_items : Value → Items
masked_items (list items) = items
masked_items v = nil

-- In a list that `mask` meets, at whatever depth above the greatest, each of the first 100 items that
-- carries a true `_truncated` field of its own is written as it came, whatever its other fields are
-- and whatever stands beside it: nothing in it is masked.
pub mask_sensitive_data_leaks :
    (to_text : Value → Text) (depth i : ℕ) (items : Items) (fields : Fields)
    → is_marker (dict fields) ≡ true
    → i < max_list_items
    → item_at i items ≡ some (dict fields)
    → item_at i (masked_items (mask to_text (suc depth) (list items))) ≡ some (dict fields)
unfolding mask
mask_sensitive_data_leaks to_text depth i items fields h l e =
    leaks to_text depth max_list_items (count items) i items fields h l e
