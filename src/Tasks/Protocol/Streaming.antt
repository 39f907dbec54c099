-- ===== src/Tasks/Protocol/Streaming.antt =====
-- app/tasks.py: the `try` blocks of the pipelines, and the loop over the deltas of an answer.
use longshot.Common.{ℕ, Text, refl, Option, none, some, List, [], ◌∷◌, ◌++◌, flatten, flatten-snoc}
use longshot.Contract.{JobMode, url, chat}
use longshot.Events.{Event, Body, ErrorReason, valid_body}
use longshot.Tasks.{report, report_fetch, end_stream, stream_tokens, stream}
use longshot.Tasks.Monad.{Exn, Job, raise, ModelExn, EndsWith}
use longshot.Tasks.Triples.{
  Logs, Exits, Triple, pure-Triple, raise-Triple, then-Triple, attempt-Triple,
}
use longshot.Tasks.Rules.{
  NoFetch, NoSummarize, ModelExn-NoFetch, HasQuiet, StageReason, suspend-Keeps, check_cancel-Keeps,
}
use longshot.Tasks.RunJob.{Params}
use longshot.Tasks.Protocol.{Stage, over, answering, IsOpen, Reports, Fails, Next, Walk}
use longshot.Tasks.Protocol.Moves.{At, Unfinished, Raised, emit-Triple, emit-sure}

Reports-IsOpen :
    (mode : JobMode) (stage : Stage) (reason : ErrorReason)
    → Reports mode stage reason
    → IsOpen stage
Reports-IsOpen url over reason h = h
Reports-IsOpen chat over reason h = h
Reports-IsOpen mode _ reason h = tt

Reports-Fails :
    (mode : JobMode) (stage : Stage) (reason : ErrorReason)
    → StageReason reason
    → Reports mode stage reason
    → Fails mode stage reason
Reports-Fails mode stage ErrorReason.fetch st h = h
Reports-Fails mode stage ErrorReason.chunk st h = h
Reports-Fails mode stage ErrorReason.summarize st h = h
Reports-Fails mode stage ErrorReason.synthesize st h = h
Reports-Fails mode stage ErrorReason.timeout st h = absurd st
Reports-Fails mode stage ErrorReason.unknown st h = absurd st

module _ (p : Params) where
  -- The exits inside a `try`: an exception of `R`, at a stage that can report it for a reason.
  abbrev pub Trying : (Exn → Type 0) → ErrorReason → Exits
  Trying R reason e events =
      R e × ((stage : Stage) × Walk p events stage × Reports p.mode stage reason)

  pub NoFetch-trying :
      (stage : Stage) (reason : ErrorReason)
      → Reports p.mode stage reason
      → HasQuiet (At p stage) (Trying NoFetch reason)
  NoFetch-trying stage reason r (Exn.fetch_error m) events q h = absurd q
  NoFetch-trying stage reason r (Exn.summarize_error m) events q h = absurd q
  NoFetch-trying stage reason r _ events q h = (tt, (stage, h, r))

  pub NoSummarize-trying :
      (stage : Stage) (reason : ErrorReason)
      → Reports p.mode stage reason
      → HasQuiet (At p stage) (Trying NoSummarize reason)
  NoSummarize-trying stage reason r (Exn.summarize_error m) events q h = absurd q
  NoSummarize-trying stage reason r _ events q h = (tt, (stage, h, r))

  unfinished :
      {events : List Event} (reason : ErrorReason)
      → (stage : Stage) × Walk p events stage × Reports p.mode stage reason
      → Unfinished p events
  unfinished reason (stage, w, r) = (stage, w, Reports-IsOpen p.mode stage reason r)

  module _ (j : Job) where
    open j use {pipeline}

    -- A failure of a stage is reported, and any other exception goes through.
    pub report-Raised :
        {A : Type 0} {Q : A → Logs} (reason : ErrorReason)
        → StageReason reason
        → (e : Exn) → Triple (Trying NoFetch reason e) (Raised p) Q (report j reason e)
    unfolding report valid_body raise
    report-Raised reason st (Exn.summarize_error m) = record {
      at = λ s h.
          (then-Triple
              (emit-sure p j (Body.error reason m) refl
                (Next.fail reason m (Reports-Fails p.mode h.1.0 reason st h.1.2)))
              (raise-Triple (Exn.summarize_error m) (λ events w. w))).at
            s h.1.1;
    }
    report-Raised reason st (Exn.fetch_error m) = record { at = λ s h. absurd h.0 }
    report-Raised reason st (Exn.other name m) = record { at = λ s h. unfinished reason h.1 }
    report-Raised reason st Exn.task_cancelled = record { at = λ s h. unfinished reason h.1 }
    report-Raised reason st Exn.timeout_error = record { at = λ s h. unfinished reason h.1 }
    report-Raised reason st Exn.shutdown = record { at = λ s h. unfinished reason h.1 }

    pub report_fetch-Raised :
        {A : Type 0} {Q : A → Logs} (e : Exn)
        → Triple (Trying NoSummarize ErrorReason.fetch e) (Raised p) Q (report_fetch j e)
    unfolding report_fetch valid_body raise
    report_fetch-Raised (Exn.fetch_error m) = record {
      at = λ s h.
          (then-Triple
              (emit-sure p j (Body.error ErrorReason.fetch m) refl
                (Next.fail ErrorReason.fetch m h.1.2))
              (raise-Triple (Exn.fetch_error m) (λ events w. w))).at
            s h.1.1;
    }
    report_fetch-Raised (Exn.summarize_error m) = record { at = λ s h. absurd h.0 }
    report_fetch-Raised (Exn.other name m) = record { at = λ s h. unfinished ErrorReason.fetch h.1 }
    report_fetch-Raised Exn.task_cancelled = record { at = λ s h. unfinished ErrorReason.fetch h.1 }
    report_fetch-Raised Exn.timeout_error = record { at = λ s h. unfinished ErrorReason.fetch h.1 }
    report_fetch-Raised Exn.shutdown = record { at = λ s h. unfinished ErrorReason.fetch h.1 }

    -- The deltas of an answer are appended to its text, and nothing else is emitted.
    module _ (total : ℕ) (reason : ErrorReason)
        (reports : (text : Text) → Reports p.mode (answering total text) reason) where
      end_stream-Triple :
          (ending : Option Exn) (parts : List Text)
          → EndsWith ModelExn ending
          → Triple
              (At p (answering total (flatten parts)))
              (Trying NoFetch reason)
              (λ ps. At p (answering total (flatten ps)))
              (end_stream j ending parts)
      unfolding end_stream
      end_stream-Triple none parts h = pure-Triple parts (λ events w. w)
      end_stream-Triple (some e) parts h =
          raise-Triple e (λ events w. (ModelExn-NoFetch e h, (_, w, reports (flatten parts))))

      quiet : (text : Text) → HasQuiet (At p (answering total text)) (Trying NoFetch reason)
      quiet text = NoFetch-trying (answering total text) reason (reports text)

      stream_tokens-Triple :
          (ending : Option Exn) (deltas parts : List Text)
          → EndsWith ModelExn ending
          → Triple
              (At p (answering total (flatten parts)))
              (Trying NoFetch reason)
              (λ ps. At p (answering total (flatten ps)))
              (stream_tokens j ending deltas parts)
      unfolding stream_tokens
      stream_tokens-Triple ending [] parts h =
          then-Triple (suspend-Keeps j (quiet (flatten parts))) (end_stream-Triple ending parts h)
      stream_tokens-Triple ending (d ∷ ds) parts h =
          then-Triple (suspend-Keeps j (quiet (flatten parts))) (
            then-Triple (check_cancel-Keeps j (quiet (flatten parts))) (
              then-Triple
                (emit-Triple p j (Body.token d) (quiet (flatten parts))
                  (Next.token total (flatten parts) d))
                (rw (← flatten-snoc parts d) (stream_tokens-Triple ending ds (parts ++ d ∷ []) h))))

      pub stream-Triple :
          (prompt system : Text)
          → StageReason reason
          → Triple
              (At p (answering total []))
              (Raised p)
              (λ ps. At p (answering total (flatten ps)))
              (stream j reason (pipeline.chat_stream prompt system))
      unfolding stream
      stream-Triple prompt system st =
          attempt-Triple _ (report j reason)
            (stream_tokens-Triple _ _ [] (pipeline.stream_raises prompt system))
            (report-Raised reason st)
