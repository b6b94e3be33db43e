-- ===== src/EventId/Examples.antt =====
-- Event ids on concrete texts.
use open_langgraph_platform.Prelude.{◌≡◌, refl, some, arith, codes, starts_with}
use open_langgraph_platform.Prelude.Int.{pos, negsuc}
use open_langgraph_platform.EventId.{int, generate_event_id, extract_event_sequence}
use open_langgraph_platform.EventId.RoundTrip.{extract-generate}

int_test : int (codes " -1_0 ") ≡ some (negsuc 9)
unfolding int
int_test = refl

generate_test : generate_event_id (codes "r-7") 120 ≡ codes "r-7_event_120"
unfolding generate_event_id
generate_test = refl

-- a run id that ends in "_event" is not one of those that can be read back
extract_test : extract_event_sequence (codes "a_event_event_3") ≡ pos 0
unfolding extract_event_sequence starts_with
extract_test = refl

extract-generate_example : extract_event_sequence (generate_event_id (codes "9f-0a") 42) ≡ pos 42
extract-generate_example = extract-generate (codes "9f-0a") 42 (ground arith)
