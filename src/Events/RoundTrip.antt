-- ===== src/Events/RoundTrip.antt =====
-- event/parser.go: messages that are written are read back.
use atc.Prelude.{
  ℕ, ◌≡◌, refl, sym, ap, ◌∙◌, subst, inl, inr, ◌⊎◌, Option, none, some, List, [], ◌∷◌, ◌==◌, arith,
  Option-cases, Bool-cases,
}
use atc.Pipeline.Config.{Name}
use atc.Events.Structs.{Struct, initialize_task, event_type, version, registered}
use atc.Events.Parser.{
  Versions, EventTable, put, or_empty, register_event, register_all, events, Envelope, Json, Event,
  Parsed, parsed, in_envelope, marshal_message, filled, parse_with, parse_version, parse_event,
  parse_data, parse_envelope, unmarshal_message,
}

abbrev parser_of : EventTable → Name → ℕ → Option Struct
parser_of table type v = or_empty (table type) v

events-registered :
    (e : Struct)
    → (versions : Versions) × (events (event_type e) ≡ some versions)
      × (versions (version e) ≡ some e)
unfolding events register_all register_event put or_empty event_type version
events-registered initialize_task = (_, refl, refl)
events-registered _ = (_, refl, refl)

IsTyped : EventTable → Type 0
IsTyped table =
    (t : Name) (v : ℕ) (e : Struct)
    → parser_of table t v ≡ some e
    → (event_type e ≡ t) × (version e ≡ v)

register_event-parser :
    (table : EventTable) (d : Struct) (t : Name) (v : ℕ)
    → (parser_of (register_event d table) t v ≡ parser_of table t v)
      ⊎ ((parser_of (register_event d table) t v ≡ some d) × ((event_type d ≡ t) × (version d ≡ v)))
unfolding register_event put or_empty
register_event-parser table d t v = elim (Bool-cases (event_type d == t)) [
  | inr other ↦ inl (ground (arith, other))
  | inl same_type ↦ elim (Bool-cases (version d == v)) [
    | inr other ↦
        inl (rw same_type (rw other (ap (λ k. parser_of table k v) (ground (arith, same_type)))))
    | inl same ↦
        inr (ground (arith, same_type, same), (ground (arith, same_type), ground (arith, same)))
  ]
]

register_event-IsTyped :
    (table : EventTable) (d : Struct) → IsTyped table → IsTyped (register_event d table)
unfolding IsTyped
register_event-IsTyped table d h t v e q = elim (register_event-parser table d t v) [
  | inl old ↦ h t v e (sym old ∙ q)
  | inr new ↦ ground (arith, q, new.0, new.1.0, new.1.1)
]

register_all-IsTyped :
    (ds : List Struct) (table : EventTable) → IsTyped table → IsTyped (register_all ds table)
unfolding register_all
register_all-IsTyped [] table h = h
register_all-IsTyped (d ∷ ds) table h =
    register_all-IsTyped ds (register_event d table) (register_event-IsTyped table d h)

events-IsTyped : IsTyped events
unfolding events IsTyped or_empty
events-IsTyped = register_all-IsTyped registered (λ t. none) (λ t v e q. absurd (ground (arith, q)))

module _ (json : Json) where
  open json use {Payload, marshal, unmarshal, unmarshal_envelope}

  -- The message of an event, registered or deprecated, is read back as the event, if its fields are:
  -- no two of the structs that init registers share a type and a version.
  pub unmarshal-marshal_message :
      (m : Event json) (out : List ℕ)
      → ((bytes : List ℕ) → marshal m.0 m.1 ≡ some bytes → unmarshal m.0 bytes ≡ some m.1)
      → marshal_message json m ≡ some out
      → unmarshal_message json out ≡ parsed m
  unfolding marshal_message in_envelope unmarshal_message parse_envelope parse_data parse_event
      parse_version parse_with filled
  unmarshal-marshal_message (e, p) out reads h = elim (Option-cases (marshal e p)) [
    | inl n ↦ absurd (ground (arith, n, h))
    | inr (bytes, n) ↦
        let wrote = ap (in_envelope json e) (sym n) ∙ h in
        let found = events-registered e in
        rw
          (
            Json.envelope_read json e p bytes out (event_type e) (version e) n wrote,
            found.1,
            found.2,
            reads bytes n,
          )
          refl
  ]

  event_or : Event json → Parsed json → Event json
  event_or d (parsed m) = m
  event_or d _ = d

  filled-parsed :
      (e : Struct) (o : Option (Payload e)) (m : Event json)
      → filled json e o ≡ parsed m
      → (p : Payload e) × (o ≡ some p) × (Path (Event json) (e, p) m)
  unfolding filled event_or
  filled-parsed e none m h = absurd (cc)
  filled-parsed e (some p) m h = (p, refl, ap (event_or m) h)

  -- What is read from the data of an envelope.
  abbrev pub IsRead : Event json → Envelope → List ℕ → Type 0
  IsRead m envelope payload =
      (event_type m.0 ≡ Envelope.event envelope)
      × (version m.0 ≡ Envelope.version envelope)
      × (unmarshal m.0 payload ≡ some m.1)

  parse_event-IsRead :
      (m : Event json) (envelope : Envelope) (payload : List ℕ)
      → parse_event json (Envelope.version envelope) (Envelope.event envelope) payload ≡ parsed m
      → IsRead m envelope payload
  unfolding parse_event parse_version parse_with IsTyped or_empty
  parse_event-IsRead m envelope payload h =
      let type = Envelope.event envelope in
      let v = Envelope.version envelope in
      elim (Option-cases (events type)) [
        | inl n ↦ absurd (ground (arith, n, h))
        | inr (versions, t) ↦ elim (Option-cases (versions v)) [
          | inl n ↦ absurd (ground (arith, n, t, h))
          | inr (e, w) ↦
              let typed = events-IsTyped type v e (ap (λ o. or_empty o v) t ∙ w) in
              let f = filled-parsed e (unmarshal e payload) m (
                sym (
                  ap (λ o. parse_version json o v payload) t
                  ∙ ap (λ o. parse_with json o payload) w)
                ∙ h) in
              subst (λ x. IsRead x envelope payload) f.2 (typed.0, typed.1, f.1)
        ]
      ]

  -- What is read from a message has the type and version that the envelope says, and its fields are
  -- those that the data of the envelope fill.
  pub unmarshal_message-IsRead :
      (bytes : List ℕ) (m : Event json)
      → unmarshal_message json bytes ≡ parsed m
      → (envelope : Envelope) × (payload : List ℕ) × (unmarshal_envelope bytes ≡ some envelope)
        × (Envelope.data_ envelope ≡ some payload)
        × (IsRead m envelope payload)
  unfolding unmarshal_message parse_envelope parse_data
  unmarshal_message-IsRead bytes m h = elim (Option-cases (unmarshal_envelope bytes)) [
    | inl n ↦ absurd (ground (arith, n, h))
    | inr (envelope, n) ↦ elim (Option-cases (Envelope.data_ envelope)) [
      | inl d ↦ absurd (ground (arith, n, d, h))
      | inr (payload, d) ↦ (
        envelope,
        payload,
        n,
        d,
        parse_event-IsRead m envelope payload
            (sym (ap (parse_envelope json) n ∙ ap (parse_data json envelope) d) ∙ h),
      )
    ]
  ]
