-- ===== src/Broker/Examples.antt =====
-- A broker under concrete schedules.
use open_langgraph_platform.Prelude.{◌≡◌, refl, true, false, List, [], ◌∷◌, Text, codes, text_eq}
use open_langgraph_platform.Value.{str, tuple, nil, cons, has_label}
use open_langgraph_platform.Broker.{
  RunBroker, block, drop_oldest, Entry, put, poll, is_terminal_event,
}
use open_langgraph_platform.Broker.System.{
  finish, System, Action, produce, wake, consume, start, step, run,
}
use open_langgraph_platform.Broker.Delivery.{IsValid, delivery-IsValid}
use open_langgraph_platform.Broker.Consumer.{Drained, finished_drains}

abbrev values_event : Text → Entry
values_event id = (id, tuple (cons (str (codes "values")) (cons (str id) nil)))

abbrev end_event : Entry
end_event = (codes "end", tuple (cons (str (codes "end")) nil))

-- room for two events, the oldest of which are dropped
abbrev small : RunBroker
small = record {
  run_id = codes "r";
  maxsize = 2;
  policy = drop_oldest;
  queue = [];
  finished = false;
  created_at = 0;
}

abbrev schedule : List Action
schedule =
    produce (values_event (codes "1"))
    ∷ produce (values_event (codes "2"))
    ∷ produce (values_event (codes "3"))
    ∷ consume
    ∷ produce end_event
    ∷ produce (values_event (codes "4"))
    ∷ consume
    ∷ consume
    ∷ []

schedule_test :
    (run (start small) schedule).delivered
    ≡ values_event (codes "2") ∷ values_event (codes "3") ∷ end_event ∷ []
unfolding run step put poll has_label text_eq is_terminal_event
schedule_test = refl

-- under `block` the third event waits until there is room
waiting_test :
    (run (start (record small { policy = block })) (
      produce (values_event (codes "1"))
      ∷ produce (values_event (codes "2"))
      ∷ produce (values_event (codes "3"))
      ∷ wake
      ∷ consume
      ∷ wake
      ∷ [])).broker.queue
    ≡ values_event (codes "2") ∷ values_event (codes "3") ∷ []
unfolding run step put poll has_label text_eq
waiting_test = refl

delivery-IsValid_example : IsValid (run (start small) schedule)
delivery-IsValid_example = delivery-IsValid small schedule refl

-- two events are queued when the run is marked finished
abbrev done : System
done = start (record small {
  queue = values_event (codes "1") ∷ values_event (codes "2") ∷ [];
  finished = true;
})

finished_drains_example :
    Drained
      (run done
        (consume ∷ produce (values_event (codes "3")) ∷ consume ∷ wake ∷ finish ∷ consume ∷ []))
      []
      (values_event (codes "1") ∷ values_event (codes "2") ∷ [])
finished_drains_example =
    finished_drains done
      (consume ∷ produce (values_event (codes "3")) ∷ consume ∷ wake ∷ finish ∷ consume ∷ []) refl
      refl refl refl
