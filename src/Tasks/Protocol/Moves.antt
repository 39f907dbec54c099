-- ===== src/Tasks/Protocol/Moves.antt =====
-- app/tasks.py: the rules by which the parts of a run move the state machine of a job.
use longshot.Common.{codes, ◌≡◌, refl, true, Bool-cases, inl, inr, [], length}
use longshot.Events.{Body, valid, valid_body}
use longshot.Tasks.Monad.{Exn, Job, emit, new_event}
use longshot.Tasks.Triples.{Logs, Exits, Triple}
use longshot.Tasks.Rules.{HasQuiet}
use longshot.Tasks.RunJob.{Params}
use longshot.Tasks.Protocol.{Stage, over, IsOpen, Next, Walk}

module _ (p : Params) where
  -- The log has come to a stage.
  abbrev pub At : Stage → Logs
  At stage events = Walk p events stage

  abbrev pub Unfinished : Logs
  Unfinished events = (stage : Stage) × Walk p events stage × IsOpen stage

  -- Where an exception leaves the pipeline: the failure of a stage has been reported, and any other
  -- exception has not.
  abbrev pub Raised : Exits
  Raised (Exn.fetch_error m) = At over
  Raised (Exn.summarize_error m) = At over
  Raised _ = Unfinished

  pub Raised-quiet : (stage : Stage) → IsOpen stage → HasQuiet (At stage) Raised
  Raised-quiet stage o (Exn.fetch_error m) events q h = absurd q
  Raised-quiet stage o (Exn.summarize_error m) events q h = absurd q
  Raised-quiet stage o Exn.task_cancelled events q h = (stage, h, o)
  Raised-quiet stage o Exn.timeout_error events q h = (stage, h, o)
  Raised-quiet stage o Exn.shutdown events q h = (stage, h, o)
  Raised-quiet stage o (Exn.other name m) events q h = (stage, h, o)

  module _ (j : Job) where
    -- An event takes the machine from one stage to the next, or is refused by its constraints.
    pub emit-Triple :
        {E : Exits} {stage after : Stage} (body : Body)
        → HasQuiet (At stage) E
        → Next p stage body after
        → Triple (At stage) E (λ u. At after) (emit j body)
    unfolding emit new_event
    emit-Triple body quiet next = record {
      at = λ s h. elim (Bool-cases (valid (new_event j (length s.events) body))) [
        | inl fits ↦ rw fits (Walk.more (new_event j (length s.events) body) h next refl)
        | inr refused ↦ rw refused (quiet (Exn.other (codes "ValidationError") []) s.events tt h)
      ];
    }

    -- An event that always meets its constraints.
    pub emit-sure :
        {E : Exits} {stage after : Stage} (body : Body)
        → valid_body body ≡ true
        → Next p stage body after
        → Triple (At stage) E (λ u. At after) (emit j body)
    unfolding emit new_event valid
    emit-sure body fits next = record {
      at = λ s h. rw fits (Walk.more (new_event j (length s.events) body) h next refl);
    }
