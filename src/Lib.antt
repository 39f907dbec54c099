-- ===== src/Lib.antt =====
-- A model of longshot, a job runner: a web API that hands jobs to a worker through Redis, and a
-- worker that fetches, summarises or answers, and streams its progress to the browser as events.
--
-- The parts and their files:
--   Common         lists, texts and Boolean tests that the other files share; Python's `str` is the
--                  list of its code points.
--   Keys           app/keys.py: the names of the Redis keys, a function each.
--   Contract       app/contract.py: JobRequest with its limits and the choice of its mode, TaskResult.
--                  Common.Unicode has `strip` and `lower`.
--   Events         app/events.py: the event classes as the constructors of `Body`, the envelope as
--                  `Event`; Events.Codec is the interface of Pydantic's JSON, Events.Stamp numbers
--                  a list of events. Events.Schema has the adapter of the union, on objects
--                  that are parsed; with a reader and a writer of JSON it is a Codec.
--   Redis          the commands that the program sends, and the interface of the service: for each
--                  command what it leaves at a key, as Redis documents it.
--   Publish        app/publish.py: the queue of a session and its drainer. `Drainer` is the place
--                  where `_drain` waits; INCR, RPUSH, EXPIRE, SET and PUBLISH are a step each.
--                  Publish.Sessions has the dict of sessions, `emit` and `close`; Publish.Flush
--                  runs a drainer alone, turn by turn; Publish.Traces is about the order of
--                  the calls of `emit`, as a quotient.
--   Api            app/api.py: `create_job`, `cancel_job`, `health`, `index` and the lifespan;
--                  Api.Routes has the paths and methods of the decorators.
--   Broker         app/broker.py: the options of the broker, and its serializer, with the JSON of
--                  Python for the objects that it tells apart.
--   Stream         app/api.py, `event_source`: SUBSCRIBE, replay, live tail. `Phase` is the place
--                  where the generator waits. Stream.System joins it with the drainer and with
--                  other clients of Redis: a run is a list of actions, in any order. The files
--                  below it have the invariant: Writer and Environment for what Redis holds,
--                  Backlog, Reader, Tailing and Receiving for what the reader has been sent;
--                  Cancelled is about a drainer that `close` cancels, Late about a reader that
--                  comes when the job is over. Stream.Keepalive is the live tail with its clock.
--   Pipeline       app/pipeline.py: `chunk_text` in Pipeline.Chunk, `_strip_thinking_streaming`
--                  in Pipeline.Thinking, whose Scanner has the reference that it is compared
--                  with; `_iter_openai_stream` in Pipeline.OpenAi; `fetch_text` in
--                  Pipeline.Fetch; `summarize_chunk` and the LLM modes in Pipeline.Summarize,
--                  below which Thoughts is about the removal of think blocks and Outcomes
--                  about what each failure becomes; `chat_stream` and its sources in
--                  Pipeline.Chat, whose Ending puts the pipeline of a run together, whose
--                  Outcomes is about how a stream ends and whose Mock about the words of the mock.
--   Tasks          app/tasks.py: Tasks.Monad has the state and the exceptions of a run, Tasks the
--                  two pipelines, Tasks.RunJob `run_job`. Triples has the rules for what an
--                  action leaves in the log, Rules and Stages use them for the terminal event.
--                  Tasks.Protocol is a specification: the diagram of the stages of a job, whose
--                  moves are events; the files below it say that the code follows it.
--                  Tasks.Success is about runs that nothing stops, Tasks.Cut about runs that a
--                  client cancels, each beside the same run without the flag, Tasks.Deliveries
--                  about all deliveries of the broker, Tasks.Exclusion about the lock and the
--                  time limit of runs, in real time.
--   Jobs           the job runner, the publisher and the stream together; Jobs.Posted follows a
--                  job from its request to the end of its stream; Jobs.Snapshot is about the
--                  moment at which all events of a job are written, Jobs.MockRuns about whole
--                  jobs with the mock in the place of an LLM, Jobs.Accepted about the chunks of a
--                  job whose request was accepted.
--   Worker         `_heartbeat_loop` of app/tasks.py and the events of app/worker.py, as a relation
--                  of steps in real time, with Redis.Expiring for keys that expire. Worker.Invariant
--                  has what Redis holds in every state, Worker.Heartbeat what `create_job` sees.
--   Settings       app/settings.py: the settings, their limits, and the cache of `get_settings`;
--                  Settings.Payloads builds the requests of app/pipeline.py from them, and what
--                  Pipeline.Summarize and Pipeline.Chat take of them.
--   Process        `get_redis` of app/broker.py and `get_publisher` of app/publish.py.
--   Samples        concrete services, runs, and the theorems applied to them.
--
-- What stands outside the source is a parameter: Redis (Redis.Redis), the JSON of Pydantic
-- (Events.Codec, what it converts to a number in Events.Schema, and the fields and arguments
-- `validate` in Pipeline), the Unicode table of small letters that are not ASCII (Common.Unicode),
-- TaskIQ's queue (Api.Broker), the routing of Starlette (Api.Routes.Router), and httpx, selectolax
-- and the client of Anthropic, as what each call comes to; the table of Unicode for the printable
-- characters that are not ASCII (Pipeline.Chat); Python's floating-point numbers and what
-- `os.getenv` returns (Settings). The functions of app/pipeline.py that a run awaits are the
-- interface Tasks.Monad.Pipeline, with the exceptions that they can raise. What Redis answers to
-- each poll of the cancel flag, the clock, and the await at which a run is interrupted, by its
-- time limit or by a worker that stops, are free: the theorems hold for all of them.
--
-- Bounds: `chunk_text` runs its `range` on fuel, the length of the text, which is enough since each
-- step is at least one; a number in decimal takes one digit for each unit of its fuel, and has fewer
-- digits than its value has units. The loop of `_strip_thinking_streaming` has one unit of fuel more
-- than the delta has characters, and each turn moves on by at least the length of a tag. The turns
-- of a drainer that runs alone are counted, and enough of them are given. All other loops are
-- structural.
--
-- Not modelled: the passing of time in Redis but for the heartbeat and the lock, so that no other
-- key of a job expires during a run; the time that the code of the live tail takes between two
-- `get_message`, whose milliseconds are whole numbers here; the loss of messages of a subscriber
-- that Redis cuts off; the length of the limit of `close`, which here can be over at any moment, a
-- pipeline that was sent being taken for done; the sending of responses; a negative `seq` in a
-- JSON object, which INCR does not give and Event has no place for; workers beside the one whose
-- heartbeat is followed; what TaskIQ does with its options.
pub mod Common
pub mod Keys
pub mod Contract
pub mod Events
pub mod Redis
pub mod Publish
pub mod Api
pub mod Stream
pub mod Pipeline
pub mod Tasks
pub mod Broker
pub mod Jobs
pub mod Process
pub mod Samples
pub mod Settings
pub mod Worker
