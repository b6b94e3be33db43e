-- ===== src/Assistants/Unreadable.antt =====
-- An assistant that is created with `context: null`.
use open_langgraph_platform.Prelude.{Bool, true, false, Option, some}
use open_langgraph_platform.Value.{Value, dict}

-- `isinstance(section, dict)`
abbrev pub is_dict : Option Value → Bool
is_dict (some (dict d)) = true
is_dict section = false
