-- ===== src/Tasks/Protocol/Refines.antt =====
-- app/tasks.py, `run_job`: a run implements the state machine of a job.
use longshot.Common.{none, true, ℕ, codes, ◌++◌, ◌≡◌, refl}
use longshot.Contract.{JobMode, url, chat, TaskResult, TaskStatus}
use longshot.Events.{Body, ErrorReason, CancelledBy, valid_body}
use longshot.Tasks.Monad.{Exn, Job, Exec, ◌>>=◌, emit, pure, raise}
use longshot.Tasks.Triples.{
  Logs, Exits, After, Triple, pure-Triple, raise-Triple, bind-Triple, then-Triple, attempt-Triple,
}
use longshot.Tasks.RunJob.{
  Params, bare_result, error_result, ok_result, dispatch, handlers, guarded, first_run, body,
  timeout_message,
}
use longshot.Tasks.Protocol.{Stage, idle, over, IsOpen, Next, Walk}
use longshot.Tasks.Protocol.Moves.{At, Unfinished, Raised, emit-sure}
use longshot.Tasks.Protocol.Pipelines.{run_chat-Triple, run_url_pipeline-Triple}

module _ (p : Params) (j : Job) where
  -- A shutdown may leave the job at any open stage; no other exception than these leaves a run.
  abbrev pub Leaves : Exits
  Leaves (Exn.other name m) = At p over
  Leaves Exn.shutdown = Unfinished p
  Leaves _ = λ events. ⊥

  dispatch-Triple :
      (mode : JobMode)
      → p.mode ≡ mode
      → Triple (At p idle) (Raised p) (λ result. At p over) (dispatch j p mode)
  unfolding dispatch
  dispatch-Triple chat e =
      bind-Triple _ _ (run_chat-Triple p j e)
        (λ answer. pure-Triple (ok_result j p answer none) (λ events w. w))
  dispatch-Triple url e =
      bind-Triple _ _ (run_url_pipeline-Triple p j e p.chunk_size_chars p.max_chunks)
        (λ r. pure-Triple _ (λ events w. w))

  -- From an open stage a terminal event ends the job.
  ending :
      {E : Exits} {Q : TaskResult → Logs} (b : Body) (m : Exec TaskResult)
      → valid_body b ≡ true
      → ((stage : Stage) → IsOpen stage → Next p stage b over)
      → Triple (At p over) E Q m
      → Triple (Unfinished p) E Q (emit j b >>= λ _. m)
  ending b m fits next km = record {
    at = λ s h. (then-Triple (emit-sure p j b fits (next h.0 h.2)) km).at s h.1;
  }

  handlers-Triple : (e : Exn) → Triple (Raised p e) Leaves (λ result. At p over) (handlers j p e)
  unfolding handlers pure raise valid_body
  handlers-Triple (Exn.fetch_error m) = pure-Triple _ (λ events w. w)
  handlers-Triple (Exn.summarize_error m) = pure-Triple _ (λ events w. w)
  handlers-Triple Exn.task_cancelled =
      ending (Body.cancelled CancelledBy.client) _ refl (λ stage o. Next.cancel o)
        (pure-Triple (bare_result j p TaskStatus.cancelled) (λ events w. w))
  handlers-Triple Exn.timeout_error =
      ending (Body.error ErrorReason.timeout (timeout_message j p)) _ refl
        (λ stage o. Next.fail ErrorReason.timeout _ o)
        (pure-Triple (error_result j p TaskStatus.timeout (codes "timeout")) (λ events w. w))
  handlers-Triple Exn.shutdown = raise-Triple Exn.shutdown (λ events w. w)
  handlers-Triple (Exn.other name m) =
      ending (Body.error ErrorReason.unknown (name ++ codes ": " ++ m)) _ refl
        (λ stage o. Next.fail ErrorReason.unknown _ o)
        (raise-Triple (Exn.other name m) (λ events w. w))

  -- Whatever the pipeline, Redis and the clock do, and wherever a run is interrupted, the events
  -- of a run that got the lock are a walk of the state machine of its job: those of the mode of the
  -- job, in order, with the chunks counted from 0 up to the total, the lengths and the summary of
  -- the text that the tokens make, and each error at a stage that can fail for its reason. A run
  -- that returns a result or raises an unknown exception has come to the end of the machine; only
  -- a shutdown of the worker leaves it at an open stage.
  pub body-Walk :
      (awaits : ℕ)
      → After Leaves (λ result. At p over) (body j p awaits).0 (body j p awaits).1.events
  unfolding guarded
  body-Walk awaits =
      (attempt-Triple _ (handlers j p) (dispatch-Triple p.mode refl) handlers-Triple).at
        (first_run j p awaits) Walk.nothing
