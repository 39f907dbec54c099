-- ===== src/Events/Schema.antt =====
-- app/events.py: the union `AnyEvent` and its adapter, between events and JSON objects that have
-- been parsed. What Pydantic converts to a number is a parameter.
pub mod Adapter
pub mod Returns
pub mod Stands
pub mod Types
use longshot.Common.{
  ℕ, Text, codes, text_eq, Bool, true, false, Option, none, some, List, [], ◌∷◌, ◌++◌, ◌==◌,
  if◌then◌else◌,
}
use longshot.Events.{EventType, ErrorReason, CancelledBy, Body, Event, body_type, valid}

-- The names of the fields.
pub data Key : Type 0 where
  type seq session_id ts input url chars index total summary chunks length delta by reason : Key
  message : Key

-- An integer: `negsuc n` is n + 1 below zero.
pub data ℤ : Type 0 where
  pos negsuc : ℕ → ℤ

-- A JSON value: an integer, a text, or any other by its JSON text: a fraction, true, false, null, a
-- list or an object.
pub data Value : Type 0 where
  number : ℤ → Value
  text : Text → Value
  other : (json : Text) → Value

abbrev pub Fields : Type 0
Fields = List (Key × Value)

-- Another number for each name.
place : Key → ℕ
place type = 0
place seq = 1
place session_id = 2
place ts = 3
place input = 4
place url = 5
place chars = 6
place index = 7
place total = 8
place summary = 9
place chunks = 10
place length = 11
place delta = 12
place by = 13
place reason = 14
place message = 15

pub lookup : Key → Fields → Option Value
unfolding place
lookup k [] = none
lookup k ((l, v) ∷ fs) = let later = lookup k fs in if place k == place l then some v else later

-- The values of the enumerations.
pub type_value : EventType → Text
type_value EventType.queued = codes "queued"
type_value EventType.started = codes "started"
type_value EventType.fetch_started = codes "fetch_started"
type_value EventType.fetch_done = codes "fetch_done"
type_value EventType.chunk_summarized = codes "chunk_summarized"
type_value EventType.final_started = codes "final_started"
type_value EventType.final_done = codes "final_done"
type_value EventType.answer_started = codes "answer_started"
type_value EventType.token = codes "token"
type_value EventType.answer_done = codes "answer_done"
type_value EventType.heartbeat = codes "heartbeat"
type_value EventType.cancelled = codes "cancelled"
type_value EventType.error = codes "error"
type_value EventType.done = codes "done"

reason_value : ErrorReason → Text
reason_value ErrorReason.fetch = codes "fetch"
reason_value ErrorReason.chunk = codes "chunk"
reason_value ErrorReason.summarize = codes "summarize"
reason_value ErrorReason.synthesize = codes "synthesize"
reason_value ErrorReason.timeout = codes "timeout"
reason_value ErrorReason.unknown = codes "unknown"

by_value : CancelledBy → Text
by_value CancelledBy.client = codes "client"
by_value CancelledBy.user = codes "user"
by_value CancelledBy.timeout = codes "timeout"

-- The member of an enumeration with a value.
pub member : {A : Type 0} → (A → Text) → List A → Text → Option A
member value [] s = none
member value (a ∷ rest) s =
    let later = member value rest s in if text_eq (value a) s then some a else later

types : List EventType
types =
    EventType.queued ∷ EventType.started ∷ EventType.fetch_started ∷ EventType.fetch_done
    ∷ EventType.chunk_summarized ∷ EventType.final_started ∷ EventType.final_done
    ∷ EventType.answer_started ∷ EventType.token ∷ EventType.answer_done ∷ EventType.heartbeat
    ∷ EventType.cancelled ∷ EventType.error ∷ EventType.done ∷ []

reasons : List ErrorReason
reasons =
    ErrorReason.fetch ∷ ErrorReason.chunk ∷ ErrorReason.summarize ∷ ErrorReason.synthesize
    ∷ ErrorReason.timeout ∷ ErrorReason.unknown ∷ []

bys : List CancelledBy
bys = CancelledBy.client ∷ CancelledBy.user ∷ CancelledBy.timeout ∷ []

-- `model_dump(mode="json")`: the fields of a class behind those of the envelope.
pub own_fields : Body → Fields
unfolding reason_value by_value
own_fields Body.queued = []
own_fields (Body.started s) = (input, text s) ∷ []
own_fields (Body.fetch_started s) = (url, text s) ∷ []
own_fields (Body.fetch_done n) = (chars, number (pos n)) ∷ []
own_fields (Body.chunk_summarized i n s) =
    (index, number (pos i)) ∷ (total, number (pos n)) ∷ (summary, text s) ∷ []
own_fields (Body.final_started n) = (chunks, number (pos n)) ∷ []
own_fields (Body.final_done n) = (length, number (pos n)) ∷ []
own_fields Body.answer_started = []
own_fields (Body.token s) = (delta, text s) ∷ []
own_fields (Body.answer_done n) = (length, number (pos n)) ∷ []
own_fields Body.heartbeat = []
own_fields (Body.cancelled who) = (by, text (by_value who)) ∷ []
own_fields (Body.error why s) = (reason, text (reason_value why)) ∷ (message, text s) ∷ []
own_fields (Body.done s n) = (summary, text s) ∷ (chunks, number (pos n)) ∷ []

unfoldable pub fields_of : Event → Fields
unfolding own_fields type_value
fields_of e =
    (type, text (type_value (body_type e.body)))
    ∷ (seq, number (pos e.seq))
    ∷ (session_id, text e.session_id)
    ∷ (ts, number (pos e.ts))
    ∷ own_fields e.body

pub and_then : {A B : Type 0} → Option A → (A → Option B) → Option B
and_then none f = none
and_then (some a) f = f a

-- A field that is not there, where the class has a default.
or_default : {A : Type 0} → A → (Value → Option A) → Option Value → Option A
or_default a read none = some a
or_default a read (some v) = read v

-- A required field.
required : {A : Type 0} → (Value → Option A) → Option Value → Option A
required read none = none
required read (some v) = read v

read_text : Value → Option Text
read_text (text s) = some s
read_text _ = none

read_member : {A : Type 0} → (A → Text) → List A → Value → Option A
unfolding member
read_member value all (text s) = member value all s
read_member value all _ = none

within_limits : Event → Option Event
within_limits e = if valid e then some e else none

-- What Pydantic converts, in its lax mode: to an integer a value that is none, and to the float `ts`
-- a value that is no integer from zero on.
pub record Conversions : Type 0 where
  pub to_integer : Value → Option ℤ
  pub to_ts : Value → Option ℕ

-- `ge=0`
at_least_zero : ℤ → Option ℕ
at_least_zero (pos n) = some n
at_least_zero (negsuc n) = none

-- `now` is what `time.time` returns.
module _ (conversions : Conversions) (now : ℕ) where
  read_integer : Value → Option ℤ
  read_integer (number z) = some z
  read_integer v = conversions.to_integer v

  -- A field with `ge=0` or `ge=1`; the latter is checked with the whole event.
  read_count : Value → Option ℕ
  unfolding read_integer at_least_zero and_then
  read_count v = and_then (read_integer v) at_least_zero

  -- `seq` has no limit, but a negative one, which INCR does not give, is left out here: `Event` has
  -- no place for it.
  read_seq : Value → Option ℕ
  unfolding read_integer at_least_zero and_then
  read_seq v = and_then (read_integer v) at_least_zero

  read_ts : Value → Option ℕ
  read_ts (number (pos n)) = some n
  read_ts v = conversions.to_ts v

  -- The fields of the class that `type` names.
  pub read_body : EventType → Fields → Option Body
  unfolding read_count read_text required or_default read_member and_then lookup reasons bys
  read_body EventType.queued fs = some Body.queued
  read_body EventType.started fs =
      and_then (required read_text (lookup input fs)) (λ s. some (Body.started s))
  read_body EventType.fetch_started fs =
      and_then (required read_text (lookup url fs)) (λ s. some (Body.fetch_started s))
  read_body EventType.fetch_done fs =
      and_then (required read_count (lookup chars fs)) (λ n. some (Body.fetch_done n))
  read_body EventType.chunk_summarized fs = and_then (required read_count (lookup index fs)) (λ i.
      and_then (required read_count (lookup total fs)) (λ n.
        and_then (required read_text (lookup summary fs))
          (λ s. some (Body.chunk_summarized i n s))))
  read_body EventType.final_started fs =
      and_then (required read_count (lookup chunks fs)) (λ n. some (Body.final_started n))
  read_body EventType.final_done fs =
      and_then (required read_count (lookup length fs)) (λ n. some (Body.final_done n))
  read_body EventType.answer_started fs = some Body.answer_started
  read_body EventType.token fs =
      and_then (required read_text (lookup delta fs)) (λ s. some (Body.token s))
  read_body EventType.answer_done fs =
      and_then (required read_count (lookup length fs)) (λ n. some (Body.answer_done n))
  read_body EventType.heartbeat fs = some Body.heartbeat
  read_body EventType.cancelled fs =
      and_then (or_default CancelledBy.client (read_member by_value bys) (lookup by fs))
        (λ who. some (Body.cancelled who))
  read_body EventType.error fs =
      and_then
        (or_default ErrorReason.unknown (read_member reason_value reasons) (lookup reason fs))
        (λ why.
          and_then (or_default [] read_text (lookup message fs)) (λ s. some (Body.error why s)))
  read_body EventType.done fs =
      and_then (required read_text (lookup summary fs))
        (λ s. and_then (required read_count (lookup chunks fs)) (λ n. some (Body.done s n)))

  read_envelope : Fields → Body → Option Event
  unfolding read_seq read_ts read_text required or_default and_then lookup
  read_envelope fs body = and_then (or_default 0 read_seq (lookup seq fs)) (λ n.
      and_then (required read_text (lookup session_id fs)) (λ s.
        and_then (or_default now read_ts (lookup ts fs))
          (λ t. some (record { seq = n; session_id = s; ts = t; body = body }))))

  -- `EVENT_ADAPTER`: the field `type` tells the class, whose fields and limits are then checked.
  unfoldable pub validate_fields : Fields → Option Event
  unfolding types read_member type_value read_body read_envelope within_limits required and_then
      lookup by_value reason_value
  validate_fields fs =
      and_then (required (read_member type_value types) (lookup type fs))
        (λ t. and_then (read_body t fs) (λ body. and_then (read_envelope fs body) within_limits))
