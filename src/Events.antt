-- ===== src/Events.antt =====
-- app/events.py: the typed events, their envelope and the constraints on their fields.
-- `ts` is a float that the program only copies: it stands here as a number that nothing computes
-- with. The classes are the constructors of `Body`; the fields of `BaseEvent` are those of `Event`.
pub mod Codec
pub mod Stamp
pub mod Schema
use longshot.Common.{ℕ, Text, Bool, true, false, leb, List, map, [], ◌∷◌}

pub data EventType : Type 0 where
  queued started fetch_started fetch_done chunk_summarized final_started final_done : EventType
  answer_started token answer_done heartbeat cancelled error done : EventType

-- `type in TERMINAL_TYPES`
unfoldable pub in_terminal_types : EventType → Bool
in_terminal_types done = true
in_terminal_types error = true
in_terminal_types cancelled = true
in_terminal_types _ = false

pub data ErrorReason : Type 0 where
  fetch chunk summarize synthesize timeout unknown : ErrorReason

-- `by` of a CancelledEvent.
pub data CancelledBy : Type 0 where
  client user timeout : CancelledBy

pub data Body : Type 0 where
  queued : Body
  started : (input : Text) → Body
  fetch_started : (url : Text) → Body
  fetch_done : (chars : ℕ) → Body
  chunk_summarized : (index total : ℕ) (summary : Text) → Body
  final_started : (chunks : ℕ) → Body
  final_done : (length : ℕ) → Body
  heartbeat : Body
  answer_started : Body
  token : (delta : Text) → Body
  answer_done : (length : ℕ) → Body
  cancelled : CancelledBy → Body
  error : ErrorReason → (message : Text) → Body
  done : (summary : Text) (chunks : ℕ) → Body

pub record Event : Type 0 where
  pub seq : ℕ
  pub session_id : Text
  pub ts : ℕ
  pub body : Body

-- The value that each class pins in its field `type`.
unfoldable pub body_type : Body → EventType
body_type Body.queued = EventType.queued
body_type (Body.started _) = EventType.started
body_type (Body.fetch_started _) = EventType.fetch_started
body_type (Body.fetch_done _) = EventType.fetch_done
body_type (Body.chunk_summarized _ _ _) = EventType.chunk_summarized
body_type (Body.final_started _) = EventType.final_started
body_type (Body.final_done _) = EventType.final_done
body_type Body.heartbeat = EventType.heartbeat
body_type Body.answer_started = EventType.answer_started
body_type (Body.token _) = EventType.token
body_type (Body.answer_done _) = EventType.answer_done
body_type (Body.cancelled _) = EventType.cancelled
body_type (Body.error _ _) = EventType.error
body_type (Body.done _ _) = EventType.done

unfoldable pub is_terminal : Event → Bool
unfolding body_type in_terminal_types
is_terminal e = in_terminal_types (body_type e.body)

-- The `Field` constraints that a natural number can break: `total` and `chunks` have `ge=1`.
unfoldable pub valid_body : Body → Bool
valid_body (Body.chunk_summarized _ total _) = leb 1 total
valid_body (Body.final_started chunks) = leb 1 chunks
valid_body _ = true

unfoldable pub valid : Event → Bool
unfolding valid_body
valid e = valid_body e.body

-- `event.model_copy(update={"seq": seq})`
unfoldable pub with_seq : ℕ → Event → Event
with_seq n e = record e { seq = n }
