-- ===== src/Masking/Examples.antt =====
-- Passwords in a request body.
use open_langgraph_platform.Prelude.{
  ◌≡◌, arith, refl, some, [], true, false, codes, text_eq, lower, occurs, starts_with,
}
use open_langgraph_platform.Value.{
  Value, bool, str, list, dict, nil, cons, Fields, end, field, get_field, is_truthy,
}
use open_langgraph_platform.Masking.{
  is_sensitive_key, truncate_string, is_marker, mask, mask_sensitive_data,
}
use open_langgraph_platform.Masking.Masked.{
  is_clean, is_unmarked, item_at, masked_items, mask_sensitive_data-clean,
  mask_sensitive_data_leaks,
}

abbrev login : Value
login = dict (
    field (codes "user_id") (str (codes "u"))
      (field (codes "Password") (str (codes "hunter2")) end))

login_unmarked : is_unmarked login ≡ true
unfolding is_unmarked
login_unmarked = refl

mask_sensitive_data-clean_example : is_clean (mask_sensitive_data (λ _. []) login) ≡ true
mask_sensitive_data-clean_example = mask_sensitive_data-clean (λ _. []) login login_unmarked

login_test :
    mask_sensitive_data (λ _. []) login
    ≡ dict (
        field
          (codes "user_id")
          (str (codes "u"))
          (field (codes "Password") (str (codes "***REDACTED***")) end))
unfolding mask_sensitive_data mask is_sensitive_key truncate_string lower occurs starts_with text_eq
login_test = refl

abbrev marked : Fields
marked =
    field (codes "_truncated") (bool true) (field (codes "password") (str (codes "hunter2")) end)

marked-is_marker : is_marker (dict marked) ≡ true
unfolding is_marker get_field is_truthy text_eq
marked-is_marker = refl

mask_sensitive_data_leaks_example :
    item_at 1 (masked_items (mask (λ _. []) 10 (list (cons login (cons (dict marked) nil)))))
    ≡ some (dict marked)
mask_sensitive_data_leaks_example =
    mask_sensitive_data_leaks (λ _. []) 9 1 (cons login (cons (dict marked) nil)) marked
      marked-is_marker (omega arith) refl

-- what was written is not clean
leak_test : is_clean (list (cons (dict marked) nil)) ≡ false
unfolding is_clean is_sensitive_key lower occurs starts_with text_eq
leak_test = refl
