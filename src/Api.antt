-- ===== src/Api.antt =====
-- app/api.py: `health`, `create_job` and `cancel_job`. (`stream_job` is in Stream.)
pub mod Handlers
pub mod Routes
use longshot.Common.{
  rstrip_slash, ℕ, Text, codes, ◌≡◌, ◌⊎◌, ◌++◌, Bool, true, false, Option, none, some, List, [],
  ◌∷◌, if◌then◌else◌, ◌==◌,
}
use longshot.Contract.{JobMode, JobRequest}
use longshot.Keys.{worker_heartbeat, cancel_flag}
use longshot.Redis.{Redis, set}

-- `JobAccepted`, `CancelResponse`, `HealthResponse`
pub record JobAccepted : Type 0 where
  pub session_id : Text
  pub mode : JobMode
  pub stream_url : Text

pub record CancelResponse : Type 0 where
  pub session_id : Text
  pub cancelled : Bool

pub record HealthResponse : Type 0 where
  pub redis : Bool
  pub worker_alive : Bool
  pub llm_mode : Text

-- The answer of `create_job`; `failed` is its `assert`.
pub data Reply : Type 0 where
  accepted : JobAccepted → Reply
  unavailable : (detail : Text) → Reply
  failed : Reply

-- The message that `run_job.kiq` puts on the stream.
pub record Message : Type 0 where
  pub session_id : Text
  pub input : Text
  pub mode : JobMode
  pub chunk_size_chars : ℕ
  pub max_chunks : ℕ

-- The broker, a library: what it has queued, and an attempt to queue one more, which reports the
-- text of its exception if it fails. It queues nothing but the message; an exception does not tell
-- whether it did, as the connection can be lost before the reply.
pub record Broker : Type 1 where
  pub State : Type 0
  pub queued : State → List Message
  pub kiq : Message → State → Option Text × State
  pub kiq_done :
      (m : Message) (s : State) → (kiq m s).0 ≡ none → queued (kiq m s).1 ≡ queued s ++ m ∷ []
  pub kiq_failed :
      (m : Message) (s : State) (why : Text)
      → (kiq m s).0 ≡ some why
      → (queued (kiq m s).1 ≡ queued s) ⊎ (queued (kiq m s).1 ≡ queued s ++ m ∷ [])

-- `exists` of a key that holds a string
unfoldable pub is_some : Option Text → Bool
is_some none = false
is_some (some v) = true

stream_url : Text → Text → Text
unfolding rstrip_slash
stream_url base_url session_id =
    rstrip_slash base_url ++ codes "/jobs/" ++ session_id ++ codes "/stream"

-- `session_id` is what `uuid4` returned, `base_url` that of the request.
module _ (r : Redis) (b : Broker) (session_id base_url : Text) where
  abbrev pub message : JobRequest → JobMode → Message
  message payload mode = record {
    session_id = session_id;
    input = payload.input;
    mode = mode;
    chunk_size_chars = payload.chunk_size_chars;
    max_chunks = payload.max_chunks;
  }

  answer : JobMode → Option Text × b.State → Reply × b.State
  unfolding stream_url
  answer mode (some why, s) = (unavailable (codes "Failed to enqueue task: " ++ why), s)
  answer mode (none, s) = (
    accepted (record {
      session_id = session_id;
      mode = mode;
      stream_url = stream_url base_url session_id;
    }),
    s,
  )

  enqueue : JobRequest → Option JobMode → b.State → Reply × b.State
  unfolding answer
  enqueue payload none s = (failed, s)
  enqueue payload (some mode) s = answer mode (b.kiq (message payload mode) s)

  -- The handler: the check of the heartbeat, then the message.
  unfoldable pub create_job : JobRequest → r.State → b.State → Reply × b.State
  unfolding enqueue is_some
  create_job payload redis s =
      if is_some (r.value redis worker_heartbeat)
      then enqueue payload payload.mode s
      else (unavailable (codes "No worker is currently running."), s)

unfoldable pub cancel_job : (r : Redis) → Text → r.State → CancelResponse × r.State
cancel_job r session_id s = (
  record { session_id = session_id; cancelled = true },
  r.exec (set (cancel_flag session_id) (codes "1") 300) s,
)

-- `ping` and `exists` answer, or raise; `worker_alive` is asked only where the ping came back.
unfoldable pub health : (ping : Bool) (heartbeat : Option Bool) (llm_mode : Text) → HealthResponse
health false heartbeat llm_mode = record {
  redis = false;
  worker_alive = false;
  llm_mode = llm_mode;
}
health true none llm_mode = record { redis = true; worker_alive = false; llm_mode = llm_mode }
health true (some found) llm_mode = record {
  redis = true;
  worker_alive = found;
  llm_mode = llm_mode;
}

-- `lifespan` around all that the app serves, on the broker that it starts and stops; in a worker
-- the broker is the worker's.
module _ {State : Type 0} (startup shutdown : State → State) where
  unfoldable pub lifespan : (is_worker_process : Bool) → (State → State) → State → State
  lifespan true served s = served s
  lifespan false served s = shutdown (served (startup s))

-- What `index` returns.
pub data Page : Type 0 where
  file : (path : Text) → Page
  greeting : List (Text × Text) → Page

unfoldable pub index : (static_dir : Text) (exists : Bool) → Page
index static_dir true = file (static_dir ++ codes "/index.html")
index static_dir false = greeting (
    (codes "hello", codes "longshot")
    ∷ (codes "docs", codes "/docs")
    ∷ (codes "ui", codes "/ui/index.html")
    ∷ [])
