-- ===== src/Serializer.antt =====
-- core/serializers/general.py, `GeneralSerializer`, on the values that a graph yields: a tuple
-- becomes a list, at every depth. `json.dumps` reads a value in the same way. Objects with a
-- `model_dump`, a `dict` or an `_asdict` method, sets and interrupts stand outside of `Value`.
use open_langgraph_platform.Prelude.{◌≡◌, ◌≢◌, refl, ap}
use open_langgraph_platform.Value.{
  Value, none_value, bool, num, str, list, tuple, dict, Items, nil, cons, Fields, end, field,
}

unfoldable mutual
  pub serialize : Value → Value
  serialize (tuple items) = list (serialize_items items)
  serialize (list items) = list (serialize_items items)
  serialize (dict fields) = dict (serialize_fields fields)
  serialize v = v

  pub serialize_items : Items → Items
  serialize_items nil = nil
  serialize_items (cons v items) = cons (serialize v) (serialize_items items)

  pub serialize_fields : Fields → Fields
  serialize_fields end = end
  serialize_fields (field k v fields) = field k (serialize v) (serialize_fields fields)

mutual
  unfolding serialize

  -- A value that was serialized is not changed by serializing it again.
  pub serialize-serialize : (v : Value) → serialize (serialize v) ≡ serialize v
  serialize-serialize none_value = refl
  serialize-serialize (bool b) = refl
  serialize-serialize (num n) = refl
  serialize-serialize (str s) = refl
  serialize-serialize (list items) = ap list (serialize_items_twice items)
  serialize-serialize (tuple items) = ap list (serialize_items_twice items)
  serialize-serialize (dict fields) = ap dict (serialize_fields_twice fields)

  serialize_items_twice :
      (items : Items) → serialize_items (serialize_items items) ≡ serialize_items items
  serialize_items_twice nil = refl
  serialize_items_twice (cons v items) = rw (serialize-serialize v, serialize_items_twice items)

  serialize_fields_twice :
      (fields : Fields) → serialize_fields (serialize_fields fields) ≡ serialize_fields fields
  serialize_fields_twice end = refl
  serialize_fields_twice (field k v fields) =
      rw (serialize-serialize v, serialize_fields_twice fields)

pub serialize_some : (v : Value) → v ≢ none_value → serialize v ≢ none_value
unfolding serialize
serialize_some none_value h = h
serialize_some (bool b) h = h
serialize_some (num n) h = h
serialize_some (str s) h = h
serialize_some (list items) h = λ e. cc
serialize_some (tuple items) h = λ e. cc
serialize_some (dict fields) h = λ e. cc
