-- ===== src/Tasks/Cut/Cancelled.antt =====
-- app/tasks.py, `run_job`: what a client that cancels a job brings about.
use longshot.Common.{
  ℕ, ◌≡◌, ◌≤◌, ◌⊎◌, inl, inr, refl, sym, true, none, some, arith, List, [], ◌∷◌, ◌++◌, length,
}
use mathlib.Core.Path.{subst}
use longshot.Contract.{JobMode, url, chat, TaskStatus, TaskResult}
use longshot.Events.{Event, Body, CancelledBy, valid, valid_body}
use longshot.Tasks.Cut.{Prefix, Prefix-refl, Prefix-trans, spared, Related, Cut, pure-Cut, bind-Cut}
use longshot.Tasks.Cut.Stages.{run_chat-Cut, run_url_pipeline-Cut}
use longshot.Tasks.Monad.{
  Exn, Result, ok, err, Job, Run, answer, pure, raise, ◌>>=◌, attempt, handle, emit, new_event,
}
use longshot.Tasks.RunJob.{
  Params, bare_result, ok_result, dispatch, handlers, guarded, first_run, body,
}

module _ (k : ℕ) (j : Job) (p : Params) where
  -- The handlers do not poll, and emit more at most.
  record Still (e : Exn) (s : Run) : Type 0 where
    same : handlers j p e s ≡ handlers (spared k j) p e s
    polls : (handlers j p e s).1.polls ≡ s.polls
    grows : Prefix s.events (handlers (spared k j) p e s).1.events

  handlers-Still : (e : Exn) (s : Run) → Still e s
  unfolding handlers emit new_event valid valid_body pure raise ◌>>=◌
  handlers-Still Exn.timeout_error s = record {
    same = refl;
    polls = refl;
    grows = record { more = _; split = refl };
  }
  handlers-Still Exn.task_cancelled s = record {
    same = refl;
    polls = refl;
    grows = record { more = _; split = refl };
  }
  handlers-Still (Exn.fetch_error m) s = record {
    same = refl;
    polls = refl;
    grows = Prefix-refl s.events;
  }
  handlers-Still (Exn.summarize_error m) s = record {
    same = refl;
    polls = refl;
    grows = Prefix-refl s.events;
  }
  handlers-Still (Exn.other name m) s = record {
    same = refl;
    polls = refl;
    grows = record { more = _; split = refl };
  }
  handlers-Still Exn.shutdown s = record { same = refl; polls = refl; grows = Prefix-refl s.events }

  module _ (found : j.poll k ≡ answer true) where
    dispatch-Cut : (mode : JobMode) → Cut k (dispatch j p mode) (dispatch (spared k j) p mode)
    unfolding dispatch
    dispatch-Cut chat =
        bind-Cut k _ _ _ _ (run_chat-Cut k j found p.input)
          (λ answer. pure-Cut k (ok_result j p answer none))
    dispatch-Cut url =
        bind-Cut k _ _ _ _ (run_url_pipeline-Cut k j found p.input p.chunk_size_chars p.max_chunks)
          (λ r. pure-Cut k (ok_result j p r.0 (some r.1)))

    -- The end of a run whose poll `k` found the flag: what it had emitted, and the CancelledEvent.
    pub record CutShort (r : Result TaskResult × Run) (whole : List Event) : Type 0 where
      pub result : r.0 ≡ ok (bare_result j p TaskStatus.cancelled)
      pub before : List Event
      pub last : Event
      pub emitted : r.1.events ≡ before ++ last ∷ []
      pub tells : last.body ≡ Body.cancelled CancelledBy.client
      pub begins : Prefix before whole

    abbrev Outcome : (x y : Result TaskResult × Run) → Type 0
    Outcome x y = ((x ≡ y) × (x.1.polls ≤ k)) ⊎ CutShort x y.1.events

    handled_same :
        (r : Result TaskResult) (s : Run)
        → s.polls ≤ k
        → Outcome (handle r (handlers j p) s) (handle r (handlers (spared k j) p) s)
    handled_same (ok a) s le = inl (refl, le)
    handled_same (err e) s le =
        let still = handlers-Still e s in inl (still.same, omega (arith, still.polls))

    handled_grows :
        (r : Result TaskResult) (s : Run)
        → Prefix s.events (handle r (handlers (spared k j) p) s).1.events
    handled_grows (ok a) s = Prefix-refl s.events
    handled_grows (err e) s = (handlers-Still e s).grows

    cancelled-CutShort :
        (s : Run) (whole : List Event)
        → Prefix s.events whole
        → CutShort (handlers j p Exn.task_cancelled s) whole
    unfolding handlers emit new_event valid valid_body pure ◌>>=◌
    cancelled-CutShort s whole h = record {
      result = refl;
      before = s.events;
      last = new_event j (length s.events) (Body.cancelled CancelledBy.client);
      emitted = refl;
      tells = refl;
      begins = h;
    }

    handled :
        (x y : Result TaskResult × Run)
        → Related k x y
        → Outcome (handle x.0 (handlers j p) x.1) (handle y.0 (handlers (spared k j) p) y.1)
    handled x y (inl (same, le)) =
        subst
          (λ z. Outcome (handle x.0 (handlers j p) x.1) (handle z.0 (handlers (spared k j) p) z.1))
          same (handled_same x.0 x.1 le)
    handled x y (inr (cancelled, before)) = inr (
        subst
          (λ r.
            CutShort (handle r (handlers j p) x.1)
              (handle y.0 (handlers (spared k j) p) y.1).1.events)
          (sym cancelled) (cancelled-CutShort x.1 _ (Prefix-trans before (handled_grows y.0 y.1))))

    -- Let the flag be there at poll `k` of a run, and set beside it the same run with no flag from
    -- that poll on. Either the run is over before that poll, and the two are the same. Or the poll
    -- ends it: it returns CANCELLED, its last event is the CancelledEvent, and all that it emitted
    -- before that the other run emits first as well.
    pub body-CutShort :
        (awaits : ℕ)
        → ((body j p awaits ≡ body (spared k j) p awaits) × ((body j p awaits).1.polls ≤ k))
          ⊎ CutShort (body j p awaits) (body (spared k j) p awaits).1.events
    unfolding guarded attempt
    body-CutShort awaits =
        handled (dispatch j p p.mode (first_run j p awaits))
          (dispatch (spared k j) p p.mode (first_run j p awaits))
          ((dispatch-Cut p.mode).at (first_run j p awaits) (omega arith))
