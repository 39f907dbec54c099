-- ===== src/Samples/ApiTests.antt =====
-- The theorems about requests, the API's handlers and the publisher's dict, at one input each.
use longshot.Common.{
  ◌≡◌, ◌≢◌, ◌↔◌, ◌⊎◌, inl, inr, refl, Text, codes, Option, none, some, List, [], ◌∷◌, ◌++◌, arith,
}
use longshot.Api.{Message, Broker, create_job, cancel_job, is_some}
use longshot.Api.Handlers.{Told, create_job-Told, cancel_job-value}
use longshot.Contract.{JobRequest, chat, validate_request}
use longshot.Contract.Requests.{Validated, validate_request-Validated}
use longshot.Events.{Event, Body}
use longshot.Keys.{worker_heartbeat, cancel_flag}
use longshot.Keys.Distinct.{Key, name}
use longshot.Publish.Sessions.{Sessions}
use longshot.Publish.Traces.{Trace, emit_trace, emit_trace-faithful}
use longshot.Redis.{set}
use mathlib.Core.Quot
use longshot.Samples.Services.{memory, empty, Memory}

abbrev pub request : JobRequest
request = record { input = codes "hi"; mode = none; chunk_size_chars = 1500; max_chunks = 8 }

abbrev pub accepted_request : JobRequest
accepted_request = record request { mode = some chat }

pub validated : validate_request (λ c. c ∷ []) request ≡ some accepted_request
unfolding validate_request
validated = refl

validate_request-Validated_example :
    Validated (λ c. c ∷ []) request (validate_request (λ c. c ∷ []) request)
validate_request-Validated_example = validate_request-Validated (λ c. c ∷ []) request

pub never_fails :
    (m : Message) (s : List Message) (why : Text)
    → none ≡ some why
    → (s ++ m ∷ [] ≡ s) ⊎ (s ++ m ∷ [] ≡ s ++ m ∷ [])
never_fails m s why e = cc e

-- A broker that always takes the message.
abbrev pub list_broker : Broker
list_broker = record {
  State = List Message;
  queued = λ s. s;
  kiq = λ m s. (none, s ++ m ∷ []);
  kiq_done = λ m s e. refl;
  kiq_failed = never_fails;
}

abbrev pub alive : Memory
alive = memory.exec (set worker_heartbeat (codes "1") 10) empty

-- A broker that queues the first message, but whose reply is lost, and refuses any other.
abbrev lost_reply : Message → List Message → Option Text × List Message
lost_reply m [] = (some (codes "timed out"), m ∷ [])
lost_reply m (n ∷ s) = (some (codes "connection refused"), n ∷ s)

lost_reply_done :
    (m : Message) (s : List Message) → (lost_reply m s).0 ≡ none → (lost_reply m s).1 ≡ s ++ m ∷ []
lost_reply_done m [] e = refl
lost_reply_done m (n ∷ s) e = cc e

lost_reply_failed :
    (m : Message) (s : List Message) (why : Text)
    → (lost_reply m s).0 ≡ some why
    → ((lost_reply m s).1 ≡ s) ⊎ ((lost_reply m s).1 ≡ s ++ m ∷ [])
lost_reply_failed m [] why e = inr refl
lost_reply_failed m (n ∷ s) why e = inl refl

abbrev failing_broker : Broker
failing_broker = record {
  State = List Message;
  queued = λ s. s;
  kiq = lost_reply;
  kiq_done = lost_reply_done;
  kiq_failed = lost_reply_failed;
}

create_job-Told_example :
    Told failing_broker
      (is_some (memory.value alive worker_heartbeat))
      (codes "s1")
      (some chat)
      (create_job memory failing_broker
        (codes "s1")
        (codes "http://h/")
        accepted_request
        alive
        []).0
      []
      (create_job memory failing_broker
        (codes "s1")
        (codes "http://h/")
        accepted_request
        alive
        []).1
create_job-Told_example =
    create_job-Told memory failing_broker (codes "s1") (codes "http://h/") accepted_request alive []

differ : Key.lock (codes "s1") ≢ Key.cancel (codes "s1")
differ e = ground arith

abbrev cancelled : Memory
cancelled = (cancel_job memory (codes "s1") alive).1

cancel_job-value_example :
    (memory.value cancelled (cancel_flag (codes "s1")) ≡ some (codes "1"))
    × (memory.value cancelled (name (Key.lock (codes "s1")))
        ≡ memory.value alive (name (Key.lock (codes "s1"))))
    × (memory.counter cancelled [] ≡ 0)
    × (memory.items cancelled [] ≡ [])
    × (memory.messages cancelled [] ≡ [])
cancel_job-value_example = cancel_job-value memory (codes "s1") alive [] differ

abbrev event_of : Text → Event
event_of s = record { seq = 0; session_id = s; ts = 7; body = Body.queued }

abbrev events : List Event
events = event_of (codes "s1") ∷ event_of (codes "s2") ∷ event_of (codes "s1") ∷ []

abbrev no_sessions : Sessions
no_sessions s = none

abbrev reordered : List Event
reordered = event_of (codes "s2") ∷ event_of (codes "s1") ∷ event_of (codes "s1") ∷ []

emit_trace-faithful_example :
    (emit_trace no_sessions (Quot.mk events) ≡ emit_trace no_sessions (Quot.mk reordered))
    ↔ (◌≡◌ {A = Trace} (Quot.mk events) (Quot.mk reordered))
emit_trace-faithful_example = emit_trace-faithful no_sessions (Quot.mk events) (Quot.mk reordered)
