-- ===== src/Events/Parser.antt =====
-- event/parser.go: the table of parsers, and messages in JSON.
use atc.Prelude.{ℕ, Option, none, some, List, [], ◌∷◌, ◌==◌, ◌≡◌, if◌then◌else◌}
use atc.Pipeline.Config.{Name}
use atc.Events.Structs.{Struct, event_type, version, registered}

-- eventVersions and eventTable: a parser is given by the struct that it fills.
abbrev pub Versions : Type 0
Versions = ℕ → Option Struct

abbrev pub EventTable : Type 0
EventTable = Name → Option Versions

unfoldable pub put : {A : Type 0} → (ℕ → Option A) → ℕ → A → ℕ → Option A
put m k a j = if k == j then some a else m j

unfoldable pub or_empty : Option Versions → Versions
or_empty none = λ v. none
or_empty (some versions) = versions

unfoldable pub register_event : Struct → EventTable → EventTable
register_event e events =
    put events (event_type e) (put (or_empty (events (event_type e))) (version e) e)

unfoldable pub register_all : List Struct → EventTable → EventTable
register_all [] events = events
register_all (e ∷ es) events = register_all es (register_event e events)

unfoldable pub events : EventTable
events = register_all registered (λ t. none)

pub record Envelope : Type 0 where
  pub data_ : Option (List ℕ)
  pub event : Name
  pub version : ℕ

-- encoding/json: what it does with the structs, whose fields are `Payload`, and with envelopes, in bytes.
-- An envelope with data that json.Marshal made is read back.
pub record Json : Type 1 where
  pub Payload : Struct → Type 0
  pub marshal : (e : Struct) → Payload e → Option (List ℕ)
  pub unmarshal : (e : Struct) → List ℕ → Option (Payload e)
  pub marshal_envelope : Envelope → Option (List ℕ)
  pub unmarshal_envelope : List ℕ → Option Envelope
  pub envelope_read :
      (e : Struct) (p : Payload e) (bytes out : List ℕ) (type v : ℕ)
      → marshal e p ≡ some bytes
      → marshal_envelope (record { data_ = some bytes; event = type; version = v }) ≡ some out
      → unmarshal_envelope out ≡ some (record { data_ = some bytes; event = type; version = v })

module _ (json : Json) where
  open json use {Payload, marshal, unmarshal, marshal_envelope, unmarshal_envelope}

  -- An atc.Event is a struct and its fields.
  abbrev pub Event : Type 0
  Event = (e : Struct) × Payload e

  -- `panicked` is the dereference of a nil pointer, for an envelope without data.
  pub data Parsed : Type 0 where
    parsed : Event → Parsed
    not_json unknown_type unknown_version panicked : Parsed

  unfoldable pub in_envelope : Struct → Option (List ℕ) → Option (List ℕ)
  in_envelope e none = none
  in_envelope e (some bytes) =
      marshal_envelope (record { data_ = some bytes; event = event_type e; version = version e })

  -- Message.MarshalJSON, with `none` for an error.
  unfoldable pub marshal_message : Event → Option (List ℕ)
  marshal_message m = in_envelope m.0 (marshal m.0 m.1)

  unfoldable pub filled : (e : Struct) → Option (Payload e) → Parsed
  filled e none = not_json
  filled e (some p) = parsed (e, p)

  unfoldable pub parse_with : Option Struct → List ℕ → Parsed
  parse_with none payload = unknown_version
  parse_with (some e) payload = filled e (unmarshal e payload)

  unfoldable pub parse_version : Option Versions → ℕ → List ℕ → Parsed
  parse_version none v payload = unknown_type
  parse_version (some versions) v payload = parse_with (versions v) payload

  unfoldable pub parse_event : ℕ → Name → List ℕ → Parsed
  parse_event v type payload = parse_version (events type) v payload

  unfoldable pub parse_data : Envelope → Option (List ℕ) → Parsed
  parse_data envelope none = panicked
  parse_data envelope (some bytes) =
      parse_event (Envelope.version envelope) (Envelope.event envelope) bytes

  unfoldable pub parse_envelope : Option Envelope → Parsed
  parse_envelope none = not_json
  parse_envelope (some envelope) = parse_data envelope (Envelope.data_ envelope)

  -- Message.UnmarshalJSON
  unfoldable pub unmarshal_message : List ℕ → Parsed
  unmarshal_message bytes = parse_envelope (unmarshal_envelope bytes)
