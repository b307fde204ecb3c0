-- ===== src/Events/EventTypes.antt =====
-- event/types.go and deprecated_events.go: the types of events.
use atc.Pipeline.Config.{Name}

abbrev pub initialize_task : Name
initialize_task = 1

abbrev pub start_task : Name
start_task = 2

abbrev pub finish_task : Name
finish_task = 3

abbrev pub finish_get : Name
finish_get = 4

abbrev pub finish_put : Name
finish_put = 5

abbrev pub status : Name
status = 6

abbrev pub log : Name
log = 7

abbrev pub error : Name
error = 8

abbrev pub initialize : Name
initialize = 9

abbrev pub finish : Name
finish = 10

abbrev pub start : Name
start = 11

abbrev pub input : Name
input = 12

abbrev pub output : Name
output = 13

abbrev pub initialize_get : Name
initialize_get = 14

abbrev pub initialize_put : Name
initialize_put = 15
