-- ===== src/Samples/JobTests.antt =====
-- A job from the lock to its last event, and the theorems about it at such a job.
use longshot.Common.{
  ℕ, ◌≡◌, ◌≢◌, ◌≤◌, refl, codes, text_eq, none, List, [], ◌∷◌, map, length, take, arith,
}
use longshot.Contract.{chat, TaskStatus}
use longshot.Events.{valid}
use longshot.Events.Stamp.{stamp}
use longshot.Jobs.{job_delivery, job_closed}
use longshot.Keys.{events_list, channel, sequence, idempotency_lock}
use longshot.Publish.{Item}
use longshot.Stream.{frame_of, tailing, contains}
use longshot.Stream.System.{
  Action, enqueue, drain_next, reader_subscribe, reader_backlog, System, start, run, step,
  OthersForeign, delivered,
}
use longshot.Stream.Writer.{queued}
use longshot.Tasks.Lock.{redelivery}
use longshot.Redis.{incr}
use longshot.Tasks.Deliveries.{
  Arrival, delivery, command, first_items, delivered_items, delivered_items-first,
}
use longshot.Tasks.Monad.{Exn, ok, err, Job}
use longshot.Tasks.RunJob.{Params, JobOutcome, bare_result, body, run_job}
use longshot.Tasks.Terminal.{Settles, run_terminal}
use longshot.Samples.Codec.{sample_codec}
use longshot.Samples.Services.{memory, empty, sample_job}
use longshot.Samples.WorkerTests.{expiring}
use longshot.Samples.StreamTests.{empty-Fresh}

abbrev pub params : Params
params = record {
  input = codes "hello";
  mode = chat;
  chunk_size_chars = 1500;
  max_chunks = 3;
  task_hard_timeout_seconds = 120;
  idempotency_lock_ttl_seconds = 600;
}

abbrev first : JobOutcome memory
first = run_job sample_job params memory 100 empty

run_terminal_example :
    Settles sample_job params (body sample_job params 4).0 (body sample_job params 4).1.events
run_terminal_example = run_terminal sample_job params 4

redelivery_example :
    ((run_job sample_job params memory 100 first.redis).result
      ≡ ok (bare_result sample_job params TaskStatus.duplicate_delivery))
    × ((run_job sample_job params memory 100 first.redis).items ≡ [])
redelivery_example =
    redelivery memory sample_job sample_job params params 100 100 empty first.redis refl refl

abbrev other_job : Job
other_job = record sample_job { session_id = codes "s2" }

-- Two sessions in turn, and a command in between; the lock lasts 600 seconds.
abbrev arrivals : List Arrival
arrivals =
    delivery 10 other_job params 100
    ∷ delivery 20 sample_job params 3
    ∷ command 30 (incr (codes "task_seq:s1"))
    ∷ delivery 130000 other_job params 100
    ∷ delivery 600019 sample_job params 100
    ∷ []

delivered_items-first_example :
    delivered_items memory expiring (codes "s1") arrivals (λ k. none)
    ≡ first_items (codes "s1") arrivals
unfolding text_eq idempotency_lock
delivered_items-first_example =
    delivered_items-first memory expiring (codes "s1") 5 arrivals (λ k. none)
      (omega arith, (omega arith, (omega arith, (omega arith, (omega arith, tt))))) (refl, tt)
      (omega arith, (omega arith, (omega arith, tt))) (λ t le. refl)

-- Seven events: started, answer_started, two tokens, answer_done and done.
first_events : length (queued first.items) ≡ 6
unfolding run_job valid text_eq idempotency_lock
first_events = refl

abbrev put_all : List Item → List Action → List Action
put_all [] acts = acts
put_all (i ∷ is) acts = enqueue i ∷ put_all is acts

abbrev repeat : ℕ → List Action → List Action
repeat ℕ.zero acts = acts
repeat (ℕ.suc n) acts = drain_next ∷ repeat n acts

abbrev schedule : List Action
schedule = put_all first.items (reader_subscribe ∷ repeat 39 (reader_backlog ∷ []))

schedule-OthersForeign : OthersForeign sample_job.session_id schedule
unfolding run_job valid text_eq idempotency_lock
schedule-OthersForeign = omega arith

pub completes : first.result ≢ err Exn.shutdown
unfolding run_job valid text_eq idempotency_lock
completes e = cc e

abbrev final : System memory
final = run memory sample_codec 3600 sample_job.session_id schedule (start memory empty)

job_delivery_example :
    (m : ℕ) × (m ≤ length (queued first.items))
    × (delivered final.client.out
        ≡ map (frame_of sample_codec) (take m (stamp 0 (queued first.items))))
unfolding run_job valid text_eq idempotency_lock
job_delivery_example =
    job_delivery memory sample_codec 3600 sample_job params 100 empty empty schedule refl completes
      empty-Fresh schedule-OthersForeign refl

job_closed_example : final.client.phase ≢ tailing 6 []
unfolding run step sample_codec contains run_job valid text_eq events_list channel sequence
    idempotency_lock
job_closed_example =
    job_closed memory sample_codec 3600 sample_job params 100 empty empty schedule refl completes
      empty-Fresh schedule-OthersForeign refl refl tt 6 [] (omega arith)
