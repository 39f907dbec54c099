-- ===== src/Tasks/Terminal.antt =====
-- app/tasks.py, `run_job`: how each run ends, in its result and in its events.
use longshot.Common.{ℕ, Text, codes, ◌++◌, ◌≡◌, refl, ◌⊎◌, inl, inr, none, some, List}
use longshot.Contract.{JobMode, url, chat, TaskStatus, TaskResult}
use longshot.Events.{
  Event, Body, ErrorReason, CancelledBy, body_type, in_terminal_types, valid_body,
}
use longshot.Tasks.{run_chat, run_url_pipeline}
use longshot.Tasks.Monad.{Exn, Result, ok, err, Job, Run, pure, raise, handle, attempt}
use longshot.Tasks.Triples.{After, bind-Triple, pure-Triple}
use longshot.Tasks.Rules.{Live, Ended, Reported, Left, Ensures, emit-last}
use longshot.Tasks.Stages.{run_chat-Ensures, run_url_pipeline-Ensures}
use longshot.Tasks.RunJob.{
  Params, ok_result, dispatch, handlers, guarded, first_run, body, timeout_message,
}

-- The DoneEvent of a result: its summary is the answer, and it counts the chunks, if there are any.
pub record Answered (result : TaskResult) (events : List Event) : Type 0 where
  pub answer : Text
  pub count : ℕ
  pub summary : result.summary ≡ some answer
  pub chunks : (result.chunks ≡ some count) ⊎ ((result.chunks ≡ none) × (count ≡ 0))
  pub ended : Ended (Body.done answer count) events

module _ (j : Job) (p : Params) where
  -- What the events of a run say where it returns a result of a status.
  abbrev pub Settled : TaskStatus → TaskResult → List Event → Type 0
  Settled TaskStatus.ok result events = Answered result events
  Settled TaskStatus.timeout result events =
      Ended (Body.error ErrorReason.timeout (timeout_message j p)) events
      × (result.error ≡ some (codes "timeout"))
  Settled TaskStatus.cancelled result events = Ended (Body.cancelled CancelledBy.client) events
  Settled TaskStatus.error result events = (m : Text) × Reported m events × (result.error ≡ some m)
  Settled TaskStatus.duplicate_delivery result events = ⊥

  -- Any other exception than these leaves no run.
  abbrev pub SettledExn : Exn → List Event → Type 0
  SettledExn (Exn.other name m) events =
      Ended (Body.error ErrorReason.unknown (name ++ codes ": " ++ m)) events
  SettledExn Exn.shutdown events = Live events
  SettledExn e events = ⊥

  abbrev pub Settles : Result TaskResult → List Event → Type 0
  Settles r events = After SettledExn (λ result evs. Settled result.status result evs) r events

  dispatch-Ensures :
      (mode : JobMode)
      → Ensures Left (λ result events. Settled result.status result events) (dispatch j p mode)
  unfolding dispatch
  dispatch-Ensures chat = bind-Triple (run_chat j p.input) _ (run_chat-Ensures j p.input) (λ answer.
      pure-Triple (ok_result j p answer none) (λ events h. record {
        answer = answer;
        count = 0;
        summary = refl;
        chunks = inr (refl, refl);
        ended = h;
      }))
  dispatch-Ensures url =
      bind-Triple (run_url_pipeline j p.input p.chunk_size_chars p.max_chunks) _
        (run_url_pipeline-Ensures j p.input p.chunk_size_chars p.max_chunks)
        (λ r. pure-Triple (ok_result j p r.0 (some r.1)) (λ events h. record {
          answer = r.0;
          count = r.1;
          summary = refl;
          chunks = inl refl;
          ended = h;
        }))

  handlers-Settles :
      (e : Exn) (s : Run)
      → Left e s.events
      → Settles (handlers j p e s).0 (handlers j p e s).1.events
  unfolding handlers pure raise body_type in_terminal_types valid_body
  handlers-Settles (Exn.fetch_error m) s h = (m, h, refl)
  handlers-Settles (Exn.summarize_error m) s h = (m, h, refl)
  handlers-Settles Exn.task_cancelled s h =
      (emit-last j (Body.cancelled CancelledBy.client) refl refl _ (λ s e. e)).at s h
  handlers-Settles Exn.timeout_error s h =
      (emit-last j (Body.error ErrorReason.timeout (timeout_message j p)) refl refl _
          (λ s e. (e, refl))).at
        s h
  handlers-Settles Exn.shutdown s h = h
  handlers-Settles (Exn.other name m) s h =
      (emit-last j (Body.error ErrorReason.unknown (name ++ codes ": " ++ m)) refl refl _
          (λ s e. e)).at
        s h

  settled :
      (r : Result TaskResult) (s : Run)
      → After Left (λ result events. Settled result.status result events) r s.events
      → Settles (handle r (handlers j p) s).0 (handle r (handlers j p) s).1.events
  settled (ok result) s h = h
  settled (err e) s h = handlers-Settles e s h

  -- A run that got the lock, interrupted after any number of awaits or not at all, ends with
  -- exactly one terminal event, behind events that are not terminal, all of them valid, and its
  -- result says the same as that event: OK with a DoneEvent that has the summary and the number of
  -- chunks, TIMEOUT and CANCELLED with theirs, ERROR with the ErrorEvent of the stage that failed
  -- and its message, and an unknown exception, which is raised again, with an ErrorEvent of its
  -- name and text. Only a shutdown of the worker ends a run with no terminal event, and
  -- DUPLICATE_DELIVERY is the result of no such run.
  pub run_terminal : (awaits : ℕ) → Settles (body j p awaits).0 (body j p awaits).1.events
  unfolding guarded attempt
  run_terminal awaits =
      settled (dispatch j p p.mode (first_run j p awaits)).0
        (dispatch j p p.mode (first_run j p awaits)).1
        ((dispatch-Ensures p.mode).at (first_run j p awaits)
          (record { open_ended = tt; all_valid = tt }))
