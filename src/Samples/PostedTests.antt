-- ===== src/Samples/PostedTests.antt =====
-- A chat from its request to the end of its stream, and the theorem about it at such a chat.
use longshot.Common.{some, ℕ, ◌≡◌, ◌≢◌, refl, codes, text_eq, true, false, [], map}
use longshot.Api.Handlers.{Taken}
use longshot.Contract.{chat}
use longshot.Events.{Event, is_terminal, valid}
use longshot.Events.Stamp.{stamp}
use longshot.Keys.{progress_snapshot, events_list, channel, idempotency_lock, worker_heartbeat}
use longshot.Jobs.Posted.{Workplace, job_of, params_of, posted, sent, worked, posted-closed}
use longshot.Publish.{waiting, stopped}
use longshot.Publish.Flush.{drain_times}
use longshot.Stream.{closed, frame_of}
use longshot.Stream.Invariant.{Fresh}
use longshot.Stream.Late.{open_stream}
use longshot.Stream.Writer.{queued}
use longshot.Tasks.Monad.{Exn, err, answer}
use longshot.Tasks.RunJob.{JobOutcome, run_job}
use longshot.Tasks.Terminal.{Settles}
use longshot.Samples.ApiTests.{accepted_request, list_broker, alive}
use longshot.Samples.Codec.{sample_codec}
use longshot.Samples.Services.{memory, sample_pipeline}

abbrev worker : Workplace
worker = record {
  pipeline = sample_pipeline;
  poll = λ n. answer false;
  time = λ n. n;
  interrupt = true;
  awaits = 100;
  task_hard_timeout_seconds = 120;
  idempotency_lock_ttl_seconds = 600;
  progress_snapshot_ttl_seconds = 3600;
}

abbrev outcome : JobOutcome memory
outcome =
    worked memory list_broker sample_codec (codes "s1") (codes "http://h/") accepted_request chat
      worker alive []

completes : outcome.result ≢ err Exn.shutdown
unfolding run_job valid text_eq idempotency_lock worker_heartbeat
completes e = cc e

alive-Fresh : Fresh memory (codes "s1") alive
alive-Fresh = record { no_counter = refl; no_items = refl; no_messages = refl }

posted-closed_example :
    Taken memory list_broker (codes "s1") (codes "http://h/") accepted_request chat [] (
      posted memory list_broker sample_codec
        (codes "s1")
        (codes "http://h/")
        accepted_request
        chat
        worker
        alive
        [])
    × (n : ℕ) × (u : memory.State) × (drain_times memory sample_codec 3600
          (codes "s1")
          n
          (outcome.redis, record { queue = outcome.items; drainer = waiting })
        ≡ (u, record { queue = []; drainer = stopped }))
    × (open_stream sample_codec
          (memory.items u (events_list (codes "s1")))
          (memory.messages u (channel (codes "s1")))
        ≡ record {
          phase = closed;
          out = map (frame_of sample_codec) (stamp 0 (queued outcome.items));
        })
    × Settles
        (job_of worker (
          sent memory list_broker sample_codec
            (codes "s1")
            (codes "http://h/")
            accepted_request
            chat
            worker
            alive
            []))
        (params_of worker (
          sent memory list_broker sample_codec
            (codes "s1")
            (codes "http://h/")
            accepted_request
            chat
            worker
            alive
            []))
        outcome.result
        (queued outcome.items)
    × (last : Event) × (memory.value u (progress_snapshot (codes "s1"))
        ≡ some (sample_codec.dump last))
    × (is_terminal last ≡ true)
unfolding text_eq idempotency_lock worker_heartbeat
posted-closed_example =
    posted-closed memory list_broker sample_codec (codes "s1") (codes "http://h/") accepted_request
      chat worker alive [] (codes "1") refl refl refl refl completes alive-Fresh
