-- ===== src/Events/Tests.antt =====
-- A message of an event, and the theorems at it.
use atc.Prelude.{ℕ, ◌≡◌, refl, Option, none, some, List, [], ◌∷◌, arith}
use atc.Events.Structs.{log_v10, event_type, version}
use atc.Events.Parser.{
  Envelope, Json, Event, Parsed, parsed, unknown_type, unknown_version, panicked, put, or_empty,
  register_event, register_all, events, in_envelope, marshal_message, filled, parse_with,
  parse_version, parse_event, parse_data, parse_envelope, unmarshal_message,
}
use atc.Events.RoundTrip.{unmarshal-marshal_message, IsRead, unmarshal_message-IsRead}

-- Every struct has a number, written as one byte; an envelope is its type, its version and its data.
abbrev read_number : List ℕ → Option ℕ
read_number (n ∷ []) = some n
read_number _ = none

abbrev write_envelope : Envelope → Option (List ℕ)
write_envelope envelope = elim (Envelope.data_ envelope) [
  | none ↦ some (Envelope.event envelope ∷ Envelope.version envelope ∷ [])
  | some bytes ↦ some (Envelope.event envelope ∷ Envelope.version envelope ∷ bytes)
]

abbrev read_envelope : List ℕ → Option Envelope
read_envelope (t ∷ v ∷ []) = some (record { data_ = none; event = t; version = v })
read_envelope (t ∷ v ∷ b ∷ bytes) =
    some (record { data_ = some (b ∷ bytes); event = t; version = v })
read_envelope _ = none

written :
    (p : ℕ) (bytes out : List ℕ) (t v : ℕ)
    → some (p ∷ []) ≡ some bytes
    → write_envelope (record { data_ = some bytes; event = t; version = v }) ≡ some out
    → read_envelope out ≡ some (record { data_ = some bytes; event = t; version = v })
written p bytes out t v h e = ground (arith, h, e)

abbrev json : Json
json = record {
  Payload = λ e. ℕ;
  marshal = λ e p. some (p ∷ []);
  unmarshal = λ e bytes. read_number bytes;
  marshal_envelope = write_envelope;
  unmarshal_envelope = read_envelope;
  envelope_read = λ e p bytes out t v. written p bytes out t v;
}

-- The deprecated log event of version 1.0.
abbrev old_log : Event json
old_log = (log_v10, 99)

abbrev message : List ℕ
message = 7 ∷ 10 ∷ 99 ∷ []

written_message : marshal_message json old_log ≡ some message
unfolding marshal_message in_envelope event_type version
written_message = refl

read_message : List ℕ → Parsed json
unfolding unmarshal_message parse_envelope parse_data parse_event parse_version parse_with filled
    events register_all register_event put or_empty event_type version
read_message = unmarshal_message json

messages :
    (read_message message ≡ parsed old_log)
    × (read_message (7 ∷ 11 ∷ 99 ∷ []) ≡ unknown_version)
    × (read_message (70 ∷ 10 ∷ 99 ∷ []) ≡ unknown_type)
unfolding read_message
messages = (refl, refl, refl)

no_data_panics : read_message (7 ∷ 10 ∷ []) ≡ panicked
unfolding read_message
no_data_panics = refl

old_log_reads : (bytes : List ℕ) → some (99 ∷ []) ≡ some bytes → read_number bytes ≡ some 99
old_log_reads bytes h = ground (arith, h)

unmarshal-marshal_message_example : unmarshal_message json message ≡ parsed old_log
unmarshal-marshal_message_example =
    unmarshal-marshal_message json old_log message old_log_reads written_message

unmarshal_message-IsRead_example :
    (envelope : Envelope) × (payload : List ℕ) × (read_envelope message ≡ some envelope)
    × (Envelope.data_ envelope ≡ some payload)
    × (IsRead json old_log envelope payload)
unmarshal_message-IsRead_example =
    unmarshal_message-IsRead json message old_log
      (unmarshal-marshal_message json old_log message old_log_reads written_message)
