-- ===== src/Tasks/RunJob.antt =====
-- app/tasks.py, `run_job`: the lock, the time limit, the handlers and `finally`.
use longshot.Common.{ℕ, Text, codes, decimal, Option, none, some, List, [], ◌∷◌, ◌++◌, map}
use longshot.Contract.{JobMode, url, chat, TaskStatus, TaskResult}
use longshot.Events.{Body, ErrorReason, CancelledBy}
use longshot.Keys.{idempotency_lock}
use longshot.Redis.{Redis, set_nx}
use longshot.Publish.{Item, event, stop}
use longshot.Tasks.{run_chat, run_url_pipeline}
use longshot.Tasks.Monad.{Exn, Result, ok, Job, Run, Exec, pure, raise, ◌>>=◌, ◌>>◌, emit, attempt}

-- The arguments of the task, and the settings that it reads.
pub record Params : Type 0 where
  pub input : Text
  pub mode : JobMode
  pub chunk_size_chars : ℕ
  pub max_chunks : ℕ
  pub task_hard_timeout_seconds : ℕ
  pub idempotency_lock_ttl_seconds : ℕ

-- What the message brings about: the result or the exception, and what went into the queue of the
-- session, the sentinel of `publisher.close` included.
pub record JobOutcome (r : Redis) : Type 0 where
  pub result : Result TaskResult
  pub items : List Item
  pub redis : r.State

module _ (j : Job) (p : Params) where
  open j use {session_id}

  abbrev pub bare_result : TaskStatus → TaskResult
  bare_result status = record {
    status = status;
    session_id = session_id;
    mode = some p.mode;
    summary = none;
    chunks = none;
    error = none;
  }

  abbrev pub ok_result : Text → Option ℕ → TaskResult
  ok_result summary chunks = record (bare_result TaskStatus.ok) {
    summary = some summary;
    chunks = chunks;
  }

  abbrev pub error_result : TaskStatus → Text → TaskResult
  error_result status message = record (bare_result status) { error = some message }

  -- The two branches of the `try`.
  unfoldable pub dispatch : JobMode → Exec TaskResult
  unfolding run_chat run_url_pipeline pure ◌>>=◌
  dispatch chat = do answer ← run_chat j p.input; pure (ok_result answer none)
  dispatch url = do
    (summary, chunks) ← run_url_pipeline j p.input p.chunk_size_chars p.max_chunks
    pure (ok_result summary (some chunks))

  abbrev pub timeout_message : Text
  timeout_message = codes "hard timeout after " ++ decimal p.task_hard_timeout_seconds ++ codes "s"

  -- The `except` clauses. A `shutdown` is no `Exception`, and passes them.
  unfoldable pub handlers : Exn → Exec TaskResult
  unfolding emit pure raise ◌>>=◌
  handlers Exn.timeout_error = do
    emit j (Body.error ErrorReason.timeout timeout_message)
    pure (error_result TaskStatus.timeout (codes "timeout"))
  handlers Exn.task_cancelled = do
    emit j (Body.cancelled CancelledBy.client)
    pure (bare_result TaskStatus.cancelled)
  handlers (Exn.fetch_error m) = pure (error_result TaskStatus.error m)
  handlers (Exn.summarize_error m) = pure (error_result TaskStatus.error m)
  handlers (Exn.other name m) = do
    emit j (Body.error ErrorReason.unknown (name ++ codes ": " ++ m))
    raise (Exn.other name m)
  handlers Exn.shutdown = raise Exn.shutdown

  unfoldable pub guarded : Exec TaskResult
  unfolding dispatch handlers attempt
  guarded = attempt (dispatch p.mode) handlers

  abbrev pub first_run : ℕ → Run
  first_run awaits = record { events = []; polls = 0; awaits = awaits }

  -- A run that got the lock, `awaits` awaits long at most.
  abbrev pub body : ℕ → Result TaskResult × Run
  body awaits = guarded (first_run awaits)

  module _ (r : Redis) (awaits : ℕ) where
    unfoldable pub after_lock : Option Text → r.State → JobOutcome r
    unfolding guarded
    after_lock (some holder) s = record {
      result = ok (bare_result TaskStatus.duplicate_delivery);
      items = [];
      redis = s;
    }
    after_lock none s = record {
      result = (body awaits).0;
      items = map event (body awaits).1.events ++ stop ∷ [];
      redis = s;
    }

    -- `SET NX EX` sets the key only where it is not there, and says whether it did.
    unfoldable pub run_job : r.State → JobOutcome r
    unfolding after_lock
    run_job s =
        after_lock (r.value s (idempotency_lock session_id)) (
          r.exec (set_nx (idempotency_lock session_id) (codes "1") p.idempotency_lock_ttl_seconds)
            s)
