-- ===== src/Events/Structs.antt =====
-- event/events.go, deprecated_events.go, types.go and parser.go: the events of a build, and the table of
-- their parsers.
use atc.Prelude.{ℕ, List, [], ◌∷◌}
use atc.Pipeline.Config.{Name}
use atc.Events.EventTypes

-- The structs that are events, current and deprecated.
pub data Struct : Type 0 where
  initialize_task start_task finish_task finish_get finish_put status log error : Struct
  initialize_v10 finish_v10 start_v10 input_v10 input_v20 output_v10 output_v20 : Struct
  error_v10 error_v20 error_v30 finish_task_v10 finish_task_v20 finish_task_v30 : Struct
  initialize_task_v10 initialize_task_v20 initialize_task_v30 start_task_v10 : Struct
  start_task_v20 start_task_v30 start_task_v40 log_v10 log_v20 log_v30 log_v40 : Struct
  log_v50 finish_get_v10 finish_get_v20 finish_get_v30 finish_put_v10 : Struct
  finish_put_v20 finish_put_v30 initialize_get_v10 initialize_put_v10 : Struct

-- The methods EventType.
unfoldable pub event_type : Struct → Name
event_type initialize_task = EventTypes.initialize_task
event_type start_task = EventTypes.start_task
event_type finish_task = EventTypes.finish_task
event_type finish_get = EventTypes.finish_get
event_type finish_put = EventTypes.finish_put
event_type status = EventTypes.status
event_type log = EventTypes.log
event_type error = EventTypes.error
event_type initialize_v10 = EventTypes.initialize
event_type finish_v10 = EventTypes.finish
event_type start_v10 = EventTypes.start
event_type input_v10 = EventTypes.input
event_type input_v20 = EventTypes.input
event_type output_v10 = EventTypes.output
event_type output_v20 = EventTypes.output
event_type error_v10 = EventTypes.error
event_type error_v20 = EventTypes.error
event_type error_v30 = EventTypes.error
event_type finish_task_v10 = EventTypes.finish_task
event_type finish_task_v20 = EventTypes.finish_task
event_type finish_task_v30 = EventTypes.finish_task
event_type initialize_task_v10 = EventTypes.initialize_task
event_type initialize_task_v20 = EventTypes.initialize_task
event_type initialize_task_v30 = EventTypes.initialize_task
event_type start_task_v10 = EventTypes.start_task
event_type start_task_v20 = EventTypes.start_task
event_type start_task_v30 = EventTypes.start_task
event_type start_task_v40 = EventTypes.start_task
event_type log_v10 = EventTypes.log
event_type log_v20 = EventTypes.log
event_type log_v30 = EventTypes.log
event_type log_v40 = EventTypes.log
event_type log_v50 = EventTypes.log
event_type finish_get_v10 = EventTypes.finish_get
event_type finish_get_v20 = EventTypes.finish_get
event_type finish_get_v30 = EventTypes.finish_get
event_type finish_put_v10 = EventTypes.finish_put
event_type finish_put_v20 = EventTypes.finish_put
event_type finish_put_v30 = EventTypes.finish_put
event_type initialize_get_v10 = EventTypes.initialize_get
event_type initialize_put_v10 = EventTypes.initialize_put

-- The methods Version, with 51 for the version "5.1".
unfoldable pub version : Struct → ℕ
version initialize_task = 40
version start_task = 50
version finish_task = 40
version finish_get = 40
version finish_put = 40
version status = 10
version log = 51
version error = 40
version initialize_v10 = 10
version finish_v10 = 10
version start_v10 = 10
version input_v10 = 10
version input_v20 = 20
version output_v10 = 10
version output_v20 = 20
version error_v10 = 10
version error_v20 = 20
version error_v30 = 30
version finish_task_v10 = 10
version finish_task_v20 = 20
version finish_task_v30 = 30
version initialize_task_v10 = 10
version initialize_task_v20 = 20
version initialize_task_v30 = 30
version start_task_v10 = 10
version start_task_v20 = 20
version start_task_v30 = 30
version start_task_v40 = 40
version log_v10 = 10
version log_v20 = 20
version log_v30 = 30
version log_v40 = 40
version log_v50 = 50
version finish_get_v10 = 10
version finish_get_v20 = 20
version finish_get_v30 = 30
version finish_put_v10 = 10
version finish_put_v20 = 20
version finish_put_v30 = 30
version initialize_get_v10 = 10
version initialize_put_v10 = 10

-- The structs that init registers, in order.
abbrev pub registered : List Struct
registered =
    initialize_task ∷ start_task ∷ finish_task ∷ finish_get ∷ finish_put ∷ status ∷ log ∷ error
    ∷ initialize_v10 ∷ finish_v10 ∷ start_v10 ∷ input_v10 ∷ input_v20 ∷ output_v10 ∷ output_v20
    ∷ error_v10 ∷ error_v20 ∷ error_v30 ∷ finish_task_v10 ∷ finish_task_v20 ∷ finish_task_v30
    ∷ initialize_task_v10 ∷ initialize_task_v20 ∷ initialize_task_v30 ∷ start_task_v10
    ∷ start_task_v20 ∷ start_task_v30 ∷ start_task_v40 ∷ log_v10 ∷ log_v20 ∷ log_v30 ∷ log_v40
    ∷ log_v50 ∷ finish_get_v10 ∷ finish_get_v20 ∷ finish_get_v30 ∷ finish_put_v10 ∷ finish_put_v20
    ∷ finish_put_v30 ∷ initialize_get_v10 ∷ initialize_put_v10 ∷ []
