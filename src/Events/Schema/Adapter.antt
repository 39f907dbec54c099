-- ===== src/Events/Schema/Adapter.antt =====
-- app/events.py: the adapter gives back what was dumped, and nothing outside the limits.
use longshot.Common.{ℕ, ◌≡◌, refl, ap, ◌∙◌, Text, Option, some, none, if◌then◌else◌, none, text_eq}
use longshot.Events.Codec.{Codec}
use longshot.Events.{EventType, ErrorReason, CancelledBy, Body, Event, body_type, valid}
use longshot.Events.Schema.{
  Conversions, Fields, text, fields_of, own_fields, validate_fields, within_limits, read_body,
  and_then, required, place, lookup, member, type_value, reason_value, by_value, types, reasons,
  read_member, read_envelope,
}

same_type : (t : EventType) → read_member type_value types (text (type_value t)) ≡ some t
unfolding read_member member types type_value text_eq
same_type EventType.queued = refl
same_type EventType.started = refl
same_type EventType.fetch_started = refl
same_type EventType.fetch_done = refl
same_type EventType.chunk_summarized = refl
same_type EventType.final_started = refl
same_type EventType.final_done = refl
same_type EventType.answer_started = refl
same_type EventType.token = refl
same_type EventType.answer_done = refl
same_type EventType.heartbeat = refl
same_type EventType.cancelled = refl
same_type EventType.error = refl
same_type EventType.done = refl

-- The JSON text of an object with fields, which Pydantic writes and reads.
pub record Json : Type 0 where
  pub write : Fields → Text
  pub read : Text → Option Fields
  pub read-write : (fs : Fields) → read (write fs) ≡ some fs

module _ (conversions : Conversions) (now : ℕ) where
  same_body :
      (n : ℕ) (s : Text) (t : ℕ) (body : Body)
      → let e : Event = record { seq = n; session_id = s; ts = t; body = body } in
        read_body conversions now (body_type body) (fields_of e) ≡ some body
  unfolding fields_of read_body body_type text_eq place member reasons by_value reason_value
  same_body n s t Body.queued = refl
  same_body n s t (Body.started x) = refl
  same_body n s t (Body.fetch_started x) = refl
  same_body n s t (Body.fetch_done k) = refl
  same_body n s t (Body.chunk_summarized i k x) = refl
  same_body n s t (Body.final_started k) = refl
  same_body n s t (Body.final_done k) = refl
  same_body n s t Body.answer_started = refl
  same_body n s t (Body.token x) = refl
  same_body n s t (Body.answer_done k) = refl
  same_body n s t Body.heartbeat = refl
  same_body n s t (Body.cancelled CancelledBy.client) = refl
  same_body n s t (Body.cancelled CancelledBy.user) = refl
  same_body n s t (Body.cancelled CancelledBy.timeout) = refl
  same_body n s t (Body.error ErrorReason.fetch m) = refl
  same_body n s t (Body.error ErrorReason.chunk m) = refl
  same_body n s t (Body.error ErrorReason.summarize m) = refl
  same_body n s t (Body.error ErrorReason.synthesize m) = refl
  same_body n s t (Body.error ErrorReason.timeout m) = refl
  same_body n s t (Body.error ErrorReason.unknown m) = refl
  same_body n s t (Body.done x k) = refl

  -- The adapter gives an event back from the fields that were dumped of it, whatever its class, if
  -- it is within the limits of that class; else it returns nothing.
  pub validate_fields-fields_of :
      (e : Event)
      → validate_fields conversions now (fields_of e) ≡ (if valid e then some e else none)
  unfolding validate_fields fields_of place required and_then within_limits read_envelope own_fields
      lookup
  validate_fields-fields_of e =
      let fs = fields_of e in
      let checked =
        λ (body : Body). and_then (read_envelope conversions now fs body) within_limits in
      ap (λ o. and_then o (λ t. and_then (read_body conversions now t fs) checked))
        (same_type (body_type e.body))
      ∙ ap (λ o. and_then o checked) (same_body e.seq e.session_id e.ts e.body)

  -- The codec of the program.
  unfoldable pub codec_of : Json → Codec
  unfolding and_then
  codec_of json = record {
    dump = λ e. json.write (fields_of e);
    validate = λ s. and_then (json.read s) (validate_fields conversions now);
    validate-dump = λ e fits.
        ap (λ o. and_then o (validate_fields conversions now)) (json.read-write (fields_of e))
        ∙ validate_fields-fields_of e
        ∙ rw fits;
  }
