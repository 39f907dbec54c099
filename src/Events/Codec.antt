-- ===== src/Events/Codec.antt =====
-- `model_dump_json` and `EVENT_ADAPTER.validate_json` of Pydantic, which the program calls.
use longshot.Common.{Text, ◌≡◌, true, Option, some}
use longshot.Events.{Event, valid}

-- What the program relies on: an event that meets the constraints of its class parses back to
-- itself from its own JSON text.
pub record Codec : Type 0 where
  pub dump : Event → Text
  pub validate : Text → Option Event
  pub validate-dump : (e : Event) → valid e ≡ true → validate (dump e) ≡ some e
