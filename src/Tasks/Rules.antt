-- ===== src/Tasks/Rules.antt =====
-- app/tasks.py: which parts of a run emit no terminal event, one rule for each way to build a run.
use longshot.Tasks.{stop_if, check_cancel}
use longshot.Common.{
  zero, suc, codes, ℕ, Text, ◌≡◌, refl, Bool, true, false, Bool-cases, inl, inr, List, [], ◌∷◌,
  ◌++◌, length,
}
use longshot.Events.{
  Event, Body, ErrorReason, body_type, in_terminal_types, is_terminal, valid, valid_body,
}
use longshot.Events.Stamp.{AllValid, AllValid-append}
use longshot.Stream.Backlog.{AllLive, AllLive-append}
use longshot.Tasks.Triples.{
  Logs, Exits, After, Triple, Keeps, pure-Keeps, raise-Triple, bind-Triple,
}
use longshot.Tasks.Monad.{
  ModelExn, FetchExn, Exn, Job, Run, Exec, ◌>>=◌, emit, new_event, suspend, suspend_at, Reply,
  answer, failed, replied, poll_flag, cancel_set,
}

-- Events that meet their constraints, none of them terminal.
pub record Live (events : List Event) : Type 0 where
  pub open_ended : AllLive events
  pub all_valid : AllValid events

-- Such events, and one terminal event behind them.
pub record Ended (body : Body) (events : List Event) : Type 0 where
  pub before : List Event
  pub last : Event
  pub split : events ≡ before ++ last ∷ []
  pub live : Live before
  pub last_body : last.body ≡ body
  pub terminal : is_terminal last ≡ true
  pub last_valid : valid last ≡ true

-- The stages that report their own failure.
abbrev pub StageReason : ErrorReason → Type 0
StageReason ErrorReason.fetch = Unit
StageReason ErrorReason.chunk = Unit
StageReason ErrorReason.summarize = Unit
StageReason ErrorReason.synthesize = Unit
StageReason _ = ⊥

pub record Reported (message : Text) (events : List Event) : Type 0 where
  pub reason : ErrorReason
  pub stage : StageReason reason
  pub ended : Ended (Body.error reason message) events

-- What stands in the log where an exception leaves the pipeline: an error of a stage has been
-- reported, and any other exception has not.
abbrev pub Left : Exn → List Event → Type 0
Left (Exn.fetch_error m) events = Reported m events
Left (Exn.summarize_error m) events = Reported m events
Left _ events = Live events

-- The exceptions that leave the log as it is: any but those of a stage.
abbrev pub Quiet : Exn → Type 0
Quiet (Exn.fetch_error m) = ⊥
Quiet (Exn.summarize_error m) = ⊥
Quiet _ = Unit

-- The exceptions that a `try` of a stage does not see, or lets through.
abbrev pub NoFetch : Exn → Type 0
NoFetch (Exn.fetch_error m) = ⊥
NoFetch _ = Unit

abbrev pub NoSummarize : Exn → Type 0
NoSummarize (Exn.summarize_error m) = ⊥
NoSummarize _ = Unit

pub ModelExn-NoFetch : (e : Exn) → ModelExn e → NoFetch e
ModelExn-NoFetch (Exn.fetch_error m) h = h
ModelExn-NoFetch _ h = tt

pub FetchExn-NoSummarize : (e : Exn) → FetchExn e → NoSummarize e
FetchExn-NoSummarize (Exn.summarize_error m) h = h
FetchExn-NoSummarize _ h = tt

-- From events that are live, `m` ends in `Q`, or raises into `E`.
abbrev pub Ensures : {A : Type 0} → Exits → (A → Logs) → Exec A → Type 0
Ensures E Q m = Triple Live E Q m

Live-snoc :
    (events : List Event) (e : Event)
    → is_terminal e ≡ false
    → valid e ≡ true
    → Live events
    → Live (events ++ e ∷ [])
Live-snoc events e t v h = record {
  open_ended = AllLive-append events (e ∷ []) h.open_ended (t, tt);
  all_valid = AllValid-append events (e ∷ []) h.all_valid (v, tt);
}

-- Exits with room for the exceptions that are no failure of a stage.
abbrev pub HasQuiet : Logs → Exits → Type 0
HasQuiet P E = (e : Exn) (events : List Event) → Quiet e → P events → E e events

-- The actions of a run that emit nothing.
module _ (j : Job) {P : Logs} {E : Exits} (quiet : HasQuiet P E) where
  suspended :
      (n : ℕ) (s : Run)
      → P s.events
      → After E (λ a. P) (suspend_at j n s).0 (suspend_at j n s).1.events
  unfolding suspend_at
  suspended zero s h = elim (Bool-cases j.interrupt) [
    | inl late ↦ rw late (quiet Exn.timeout_error s.events tt h)
    | inr stops ↦ rw stops (quiet Exn.shutdown s.events tt h)
  ]
  suspended (suc n) s h = h

  pub suspend-Keeps : Keeps P E (suspend j)
  unfolding suspend
  suspend-Keeps = record { at = λ s h. suspended s.awaits s h }

  answered :
      (reply : Reply) (events : List Event) → P events → After E (λ a. P) (replied j reply) events
  unfolding replied
  answered (answer b) events h = h
  answered (failed name m) events h = quiet (Exn.other name m) events tt h

  poll-Keeps : Keeps P E (poll_flag j)
  unfolding poll_flag
  poll-Keeps = record { at = λ s h. answered (j.poll s.polls) s.events h }

  cancel_set-Keeps : Keeps P E (cancel_set j)
  unfolding cancel_set
  cancel_set-Keeps = bind-Triple (suspend j) _ suspend-Keeps (λ u. poll-Keeps)

  stop_if-Keeps : (b : Bool) → Keeps P E (stop_if j b)
  unfolding stop_if
  stop_if-Keeps true =
      raise-Triple Exn.task_cancelled (λ events h. quiet Exn.task_cancelled events tt h)
  stop_if-Keeps false = pure-Keeps tt

  pub check_cancel-Keeps : Keeps P E (check_cancel j)
  unfolding check_cancel
  check_cancel-Keeps = bind-Triple (cancel_set j) _ cancel_set-Keeps stop_if-Keeps

-- An event that is not terminal.
module _ (j : Job) {E : Exits} (quiet : HasQuiet Live E) where
  pub emit-Keeps :
      (body : Body) → in_terminal_types (body_type body) ≡ false → Keeps Live E (emit j body)
  unfolding emit is_terminal
  emit-Keeps body live = record {
    at = λ s h. elim (Bool-cases (valid (new_event j (length s.events) body))) [
      | inl fits ↦ rw fits (Live-snoc s.events (new_event j (length s.events) body) live fits h)
      | inr refused ↦ rw refused (quiet (Exn.other (codes "ValidationError") []) s.events tt h)
    ];
  }

-- A terminal event that meets its constraints is emitted, and nothing comes behind it.
module _ (j : Job) (body : Body) (terminal : in_terminal_types (body_type body) ≡ true)
    (fits : valid_body body ≡ true) where
  Ended-snoc :
      (events : List Event)
      → Live events
      → Ended body (events ++ new_event j (length events) body ∷ [])
  unfolding new_event is_terminal valid
  Ended-snoc events h = record {
    before = events;
    last = new_event j (length events) body;
    split = refl;
    live = h;
    last_body = refl;
    terminal = terminal;
    last_valid = fits;
  }

  pub emit-last :
      {A : Type 0} {E : Exits} {Q : A → Logs} (m : Exec A)
      → ((s : Run) → Ended body s.events → After E Q (m s).0 (m s).1.events)
      → Ensures E Q (emit j body >>= λ _. m)
  unfolding emit ◌>>=◌ valid
  emit-last m k = record {
    at = λ s h. rw fits (
        k (record s { events = s.events ++ new_event j (length s.events) body ∷ [] })
          (Ended-snoc s.events h));
  }
