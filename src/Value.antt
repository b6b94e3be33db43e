-- ===== src/Value.antt =====
-- The dynamic values that the run loop passes on: what a graph yields, and what clients read. A
-- list, a tuple and a dict hold values, in a block of three types.
use open_langgraph_platform.Prelude.{
  [], ℕ, zero, suc, ◌≡◌, refl, Bool, true, false, Option, none, some, Text, text_eq, if◌then◌else◌,
  is_some,
}
use open_langgraph_platform.Prelude.Int.{ℤ, pos}

mutual
  pub data Value : Type 0 where
    none_value : Value
    bool : Bool → Value
    num : ℤ → Value
    str : Text → Value
    list : Items → Value
    tuple : Items → Value
    dict : Fields → Value

  pub data Items : Type 0 where
    nil : Items
    cons : Value → Items → Items

  pub data Fields : Type 0 where
    end : Fields
    field : Text → Value → Fields → Fields

-- `d.get(key)` where absence counts
unfoldable pub get_field : Text → Fields → Option Value
get_field key end = none
get_field key (field k v rest) = if text_eq k key then some v else get_field key rest

abbrev pub count : Items → ℕ
count nil = 0
count (cons v rest) = suc (count rest)

abbrev pub count_fields : Fields → ℕ
count_fields end = 0
count_fields (field k v rest) = suc (count_fields rest)

abbrev length_text : Text → ℕ
length_text t = open_langgraph_platform.Prelude.length t

-- `len(v)`; `none` where Python raises `TypeError`
unfoldable pub len : Value → Option ℕ
len (str s) = some (length_text s)
len (list xs) = some (count xs)
len (tuple xs) = some (count xs)
len (dict fs) = some (count_fields fs)
len _ = none

-- `isinstance(v, tuple) and v and v[0] == label`
unfoldable pub has_label : Text → Value → Bool
has_label label (tuple (cons (str s) rest)) = text_eq s label
has_label label _ = false

-- `d[key] = v`
unfoldable pub set_field : Text → Value → Fields → Fields
set_field key v end = field key v end
set_field key v (field k w rest) =
    if text_eq k key then field k v rest else field k w (set_field key v rest)

-- `bool(v)`
unfoldable pub is_truthy : Value → Bool
is_truthy none_value = false
is_truthy (bool b) = b
is_truthy (num (pos zero)) = false
is_truthy (str []) = false
is_truthy (list nil) = false
is_truthy (tuple nil) = false
is_truthy (dict end) = false
is_truthy v = true
