-- ===== src/Jobs/Posted.antt =====
-- A job from POST /jobs to the end of its stream: app/api.py, app/tasks.py and app/publish.py.
use longshot.Common.{true, ℕ, ◌≡◌, ◌≢◌, ap, sym, ◌∙◌, Text, Bool, none, some, List, [], map}
use mathlib.Core.Path.{subst}
use longshot.Api.{Reply, Message, Broker, message, create_job}
use longshot.Api.Handlers.{Taken, create_job-Taken}
use longshot.Contract.{JobMode, JobRequest}
use longshot.Events.{is_terminal, Event, Body}
use longshot.Events.Codec.{Codec}
use longshot.Events.Stamp.{stamp}
use longshot.Keys.{progress_snapshot, worker_heartbeat, idempotency_lock, events_list, channel}
use longshot.Publish.{waiting, stopped}
use longshot.Publish.Flush.{drain_times}
use longshot.Redis.{Redis}
use longshot.Stream.{closed, frame_of}
use longshot.Stream.Invariant.{Fresh}
use longshot.Stream.Late.{open_stream, open_stream-closed}
use longshot.Stream.Writer.{queued}
use longshot.Tasks.Monad.{Exn, err, Pipeline, Job}
use longshot.Tasks.Monad
use longshot.Tasks.RunJob.{Params, JobOutcome, run_job, after_lock}
use longshot.Tasks.Rules.{Ended}
use longshot.Tasks.Terminal.{Settles, run_terminal}
use longshot.Jobs.{Settles-Ended, outcome-body}
use longshot.Jobs.Snapshot.{job_snapshot}

-- The worker that takes the message from the stream, and what it meets while it works on it.
pub record Workplace : Type 0 where
  pub pipeline : Pipeline
  pub poll : ℕ → Monad.Reply
  pub time : ℕ → ℕ
  pub interrupt : Bool
  pub awaits : ℕ
  pub task_hard_timeout_seconds : ℕ
  pub idempotency_lock_ttl_seconds : ℕ
  pub progress_snapshot_ttl_seconds : ℕ

-- The call of `run_job` that a message stands for.
abbrev pub job_of : Workplace → Message → Job
job_of w m = record {
  session_id = m.session_id;
  pipeline = w.pipeline;
  poll = w.poll;
  time = w.time;
  interrupt = w.interrupt;
}

abbrev pub params_of : Workplace → Message → Params
params_of w m = record {
  input = m.input;
  mode = m.mode;
  chunk_size_chars = m.chunk_size_chars;
  max_chunks = m.max_chunks;
  task_hard_timeout_seconds = w.task_hard_timeout_seconds;
  idempotency_lock_ttl_seconds = w.idempotency_lock_ttl_seconds;
}

module _ (r : Redis) (b : Broker) (c : Codec) (session_id base_url : Text) (payload : JobRequest)
    (mode : JobMode) (w : Workplace) (s : r.State) (q : b.State) where
  abbrev pub posted : Reply × b.State
  posted = create_job r b session_id base_url payload s q

  abbrev pub sent : Message
  sent = message r b session_id base_url payload mode

  abbrev pub worked : JobOutcome r
  worked = run_job (job_of w sent) (params_of w sent) r w.awaits s

  module _ (v : Text) (present : r.value s worker_heartbeat ≡ some v)
      (fits : payload.mode ≡ some mode) (takes : (b.kiq sent q).0 ≡ none)
      (free : r.value s (idempotency_lock session_id) ≡ none)
      (completes : worked.result ≢ err Exn.shutdown) (fresh : Fresh r session_id s) where
    -- The keys that the run of a fresh session finds and leaves.
    worked-Fresh : Fresh r session_id worked.redis
    unfolding run_job after_lock
    worked-Fresh = rw free (record {
      no_counter = r.counter-exec _ s _ ∙ fresh.no_counter;
      no_items = r.items-exec _ s _ ∙ fresh.no_items;
      no_messages = r.messages-exec _ s _ ∙ fresh.no_messages;
    })

    -- The late reader of what a finished run has left.
    closed-Ended :
        {body : Body} {events : List Event} (messages : List Text)
        → Ended body events
        → open_stream c (map c.dump (stamp 0 events)) messages
          ≡ record { phase = closed; out = map (frame_of c) (stamp 0 events) }
    closed-Ended messages e =
        subst
          (λ es.
            open_stream c (map c.dump (stamp 0 es)) messages
            ≡ record { phase = closed; out = map (frame_of c) (stamp 0 es) })
          (sym e.split)
          (open_stream-closed c e.before e.last messages e.live.open_ended e.live.all_valid
            e.terminal e.last_valid)

    abbrev events : List Event
    events = queued worked.items

    -- A whole job. A request with a mode is posted while a worker is heard and the stream takes the
    -- message; the session is new to Redis. Then the client is told 202 with the session, and one
    -- message is on the stream. Let a worker work on that message, with any pipeline and any answers
    -- of Redis, without being shut down, and let the drainer of the session write what came of it.
    -- After a number of turns the drainer has ended with its queue empty, and a client that opens the
    -- stream of the session it was told is sent every event of the run, in order, numbered from 1;
    -- the last of them is the terminal event that agrees with the result of the run, and with it
    -- the stream is closed. The snapshot of the session is a terminal event.
    pub posted-closed :
        Taken r b session_id base_url payload mode q posted
        × (n : ℕ) × (u : r.State) × (drain_times r c w.progress_snapshot_ttl_seconds session_id n
              (worked.redis, record { queue = worked.items; drainer = waiting })
            ≡ (u, record { queue = []; drainer = stopped }))
        × (open_stream c (r.items u (events_list session_id)) (r.messages u (channel session_id))
            ≡ record { phase = closed; out = map (frame_of c) (stamp 0 events) })
        × Settles (job_of w sent) (params_of w sent) worked.result events
        × (last : Event) × (r.value u (progress_snapshot session_id) ≡ some (c.dump last))
        × (is_terminal last ≡ true)
    posted-closed =
        let j = job_of w sent in
        let p = params_of w sent in
        let ttl = w.progress_snapshot_ttl_seconds in
        let (result, same) = outcome-body r c ttl j p w.awaits s worked.redis [] free in
        let settled : Settles j p worked.result events =
          rw (result, same) (run_terminal j p w.awaits) in
        let (n, u, last, steps, listed, snapshot, ends) =
          job_snapshot r c ttl j p w.awaits s worked.redis free completes worked-Fresh in
        let (ending, ended) = Settles-Ended j p worked.result events settled completes in
        (
          create_job-Taken r b session_id base_url payload mode q s v present fits takes,
          n,
          u,
          steps,
          ap (λ items. open_stream c items (r.messages u (channel session_id))) listed
              ∙ closed-Ended (r.messages u (channel session_id)) ended,
          settled,
          last,
          snapshot,
          ends,
        )
