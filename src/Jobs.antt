-- ===== src/Jobs.antt =====
-- app/tasks.py, app/publish.py and app/api.py together: a job as its client sees it.
pub mod Snapshot
pub mod Posted
pub mod Accepted
pub mod MockRuns
use longshot.Common.{
  ℕ, ◌+◌, ◌≤◌, ◌≡◌, ◌≢◌, refl, ap, ◌∙◌, none, true, List, [], ◌∷◌, ◌++◌, map, length, take,
}
use longshot.Contract.{TaskStatus, TaskResult}
use longshot.Events.{Event, Body, with_seq, is_terminal}
use longshot.Events.Codec.{Codec}
use longshot.Events.Stamp.{stamp, stamp-append, AllValid, AllValid-append}
use longshot.Keys.{channel, idempotency_lock}
use longshot.Publish.{event, stop}
use longshot.Redis.{Redis}
use longshot.Stream.{tailing, frame_of}
use longshot.Stream.Backlog.{AllLive}
use longshot.Stream.Invariant.{Fresh}
use longshot.Stream.System.{Action, start, run, enqueued, OthersForeign, delivered}
use longshot.Stream.Writer.{queued}
use longshot.Stream.Delivery.{AtRest, delivery_prefix, delivery_complete}
use longshot.Tasks.Monad.{Exn, Result, ok, err, Job}
use longshot.Tasks.Rules.{Ended}
use longshot.Tasks.RunJob.{Params, JobOutcome, body, after_lock, run_job}
use longshot.Tasks.Terminal.{Settled, Settles, run_terminal}

module _ (j : Job) (p : Params) where
  Settled-Ended :
      (status : TaskStatus) (result : TaskResult) (events : List Event)
      → Settled j p status result events
      → (b : Body) × Ended b events
  Settled-Ended TaskStatus.ok result events h = (_, h.ended)
  Settled-Ended TaskStatus.timeout result events h = (_, h.0)
  Settled-Ended TaskStatus.cancelled result events h = (_, h)
  Settled-Ended TaskStatus.error result events h = (_, h.1.ended)
  Settled-Ended TaskStatus.duplicate_delivery result events h = absurd h

  Settles-Ended :
      (r : Result TaskResult) (events : List Event)
      → Settles j p r events
      → r ≢ err Exn.shutdown
      → (b : Body) × Ended b events
  Settles-Ended (ok result) events h n = Settled-Ended result.status result events h
  Settles-Ended (err (Exn.other name m)) events h n = (_, h)
  Settles-Ended (err Exn.shutdown) events h n = absurd (n refl)
  Settles-Ended (err (Exn.fetch_error m)) events h n = absurd h
  Settles-Ended (err (Exn.summarize_error m)) events h n = absurd h
  Settles-Ended (err Exn.task_cancelled) events h n = absurd h
  Settles-Ended (err Exn.timeout_error) events h n = absurd h

Ended-AllValid : {b : Body} {events : List Event} → Ended b events → AllValid events
Ended-AllValid e =
    rw e.split (AllValid-append e.before (e.last ∷ []) e.live.all_valid (e.last_valid, tt))

last_not_live : (xs : List Event) (x : Event) → is_terminal x ≡ true → AllLive (xs ++ x ∷ []) → ⊥
last_not_live [] x t h = cc
last_not_live (y ∷ ys) x t h = last_not_live ys x t h.1

Ended-not-live : {b : Body} {events : List Event} → Ended b events → AllLive (stamp 0 events) → ⊥
unfolding stamp with_seq is_terminal
Ended-not-live e live =
    last_not_live (stamp 0 e.before) (with_seq (0 + length e.before + 1) e.last) e.terminal
      (rw (e.split, stamp-append) at live)

queued-events : (es : List Event) → queued (map event es ++ stop ∷ []) ≡ es
queued-events [] = refl
queued-events (e ∷ es) = ap (λ l. e ∷ l) (queued-events es)

module _ (r : Redis) (c : Codec) (ttl : ℕ) (j : Job) (p : Params) (awaits : ℕ) (s t : r.State)
    (acts : List Action) where
  abbrev pub outcome : JobOutcome r
  outcome = run_job j p r awaits s

  outcome-body :
      r.value s (idempotency_lock j.session_id) ≡ none
      → (outcome.result ≡ (body j p awaits).0) × (queued outcome.items ≡ (body j p awaits).1.events)
  unfolding run_job after_lock
  outcome-body free = rw free (refl, queued-events (body j p awaits).1.events)

  module _ (free : r.value s (idempotency_lock j.session_id) ≡ none)
      (completes : outcome.result ≢ err Exn.shutdown) (fresh : Fresh r j.session_id t)
      (foreign : OthersForeign j.session_id acts)
      (sent : enqueued acts ≡ queued outcome.items) where
    job-Ended : (b : Body) × Ended b (enqueued acts)
    job-Ended =
        let (same_result, same_events) = outcome-body free in
        rw (sent, same_events)
          (Settles-Ended j p (body j p awaits).0 (body j p awaits).1.events
            (run_terminal j p awaits) (λ e. completes (same_result ∙ e)))

    job-AllValid : AllValid (enqueued acts)
    job-AllValid = Ended-AllValid job-Ended.1

    -- Take a delivery that got the lock and was not ended by a shutdown, and a schedule in which
    -- its events go into the queue of its fresh session and the other clients leave the session's
    -- keys alone. At every moment a reader has been sent a prefix of the events of the job, in the
    -- order in which the job emitted them, numbered 1, 2, 3 and so on, each once.
    pub job_delivery :
        (m : ℕ) × (m ≤ length (queued outcome.items))
        × (delivered (run r c ttl j.session_id acts (start r t)).client.out
            ≡ map (frame_of c) (take m (stamp 0 (queued outcome.items))))
    job_delivery =
        rw sent at (delivery_prefix r c ttl j.session_id t acts fresh job-AllValid foreign)

    -- In such a run no reader waits for ever: once the queue is empty, the drainer has no event in
    -- its hands that is not published and the reader has received every message of the channel, the
    -- reader is not in the live tail any more.
    pub job_closed :
        (run r c ttl j.session_id acts (start r t)).publisher.queue ≡ []
        → AtRest (run r c ttl j.session_id acts (start r t)).publisher.drainer
        → (cursor : ℕ) (seqs : List ℕ)
        → length
            (r.messages (run r c ttl j.session_id acts (start r t)).redis (channel j.session_id))
          ≤ cursor
        → (run r c ttl j.session_id acts (start r t)).client.phase ≢ tailing cursor seqs
    job_closed empty rests cursor seqs heard e =
        Ended-not-live job-Ended.1
          (delivery_complete r c ttl j.session_id t acts fresh job-AllValid foreign empty rests
            cursor seqs e heard).1
