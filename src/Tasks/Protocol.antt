-- ===== src/Tasks/Protocol.antt =====
-- app/tasks.py and app/events.py: the abstract state machine of a job, which says what events a
-- client of a job can see, and in what order. It knows nothing of Redis, the LLM or the clock.
pub mod Moves
pub mod Streaming
pub mod Refines
pub mod Tally
pub mod Pipelines
use longshot.Common.{ℕ, suc, ◌<◌, ◌≡◌, Text, List, [], ◌∷◌, ◌++◌, length, take}
use longshot.Contract.{JobMode, url, chat}
use longshot.Events.{Event, Body, ErrorReason, CancelledBy}
use longshot.Tasks.RunJob.{Params}

-- How far a job has come. `total` counts the chunks, none of them for a chat; `text` is what the
-- tokens so far come to.
pub data Stage : Type 0 where
  idle opened fetching fetched : Stage
  summarized : (count total : ℕ) → Stage
  combining : (total : ℕ) → Stage
  answering answered combined : (total : ℕ) (text : Text) → Stage
  over : Stage

-- The job is not over.
abbrev pub IsOpen : Stage → Type 0
IsOpen over = ⊥
IsOpen _ = Unit

-- The failures that a stage of its own reports; any open stage can run out of time or fail with an
-- unknown exception.
abbrev pub Reports : JobMode → Stage → ErrorReason → Type 0
Reports url fetching ErrorReason.fetch = Unit
Reports url fetched ErrorReason.chunk = Unit
Reports url fetched ErrorReason.summarize = Unit
Reports url (summarized count total) ErrorReason.summarize = Unit
Reports url (answering total text) ErrorReason.synthesize = Unit
Reports chat (answering total text) ErrorReason.summarize = Unit
Reports _ _ _ = ⊥

abbrev pub Fails : JobMode → Stage → ErrorReason → Type 0
Fails mode stage ErrorReason.timeout = IsOpen stage
Fails mode stage ErrorReason.unknown = IsOpen stage
Fails mode stage reason = Reports mode stage reason

module _ (p : Params) where
  -- One event of the job.
  pub data Next : Stage → Body → Stage → Type 0 where
    start_chat : p.mode ≡ chat → Next idle (Body.started (take 200 p.input)) opened
    start_url : p.mode ≡ url → Next idle (Body.started p.input) opened
    fetch : p.mode ≡ url → Next opened (Body.fetch_started p.input) fetching
    text : (chars : ℕ) → Next fetching (Body.fetch_done chars) fetched
    first_summary :
        (total : ℕ) (s : Text) → Next fetched (Body.chunk_summarized 0 total s) (summarized 1 total)
    next_summary :
        (count total : ℕ) (s : Text)
        → count < total
        → Next
            (summarized count total)
            (Body.chunk_summarized count total s)
            (summarized (suc count) total)
    combine :
        (count total : ℕ)
        → count ≡ total
        → Next (summarized count total) (Body.final_started total) (combining total)
    answer_chat : p.mode ≡ chat → Next opened Body.answer_started (answering 0 [])
    answer_url : (total : ℕ) → Next (combining total) Body.answer_started (answering total [])
    token :
        (total : ℕ) (text delta : Text)
        → Next (answering total text) (Body.token delta) (answering total (text ++ delta))
    answer_done :
        (total : ℕ) (text : Text)
        → Next (answering total text) (Body.answer_done (length text)) (answered total text)
    finish_chat :
        (total : ℕ) (text : Text)
        → p.mode ≡ chat
        → Next (answered total text) (Body.done text total) over
    final_done :
        (total : ℕ) (text : Text)
        → p.mode ≡ url
        → Next (answered total text) (Body.final_done (length text)) (combined total text)
    finish_url : (total : ℕ) (text : Text) → Next (combined total text) (Body.done text total) over
    fail :
        {stage : Stage} (reason : ErrorReason) (message : Text)
        → Fails p.mode stage reason
        → Next stage (Body.error reason message) over
    cancel : {stage : Stage} → IsOpen stage → Next stage (Body.cancelled CancelledBy.client) over

  -- The events of a job, from its beginning to a stage.
  pub data Walk : List Event → Stage → Type 0 where
    nothing : Walk [] idle
    more :
        {before all : List Event} {stage after : Stage} (e : Event)
        → Walk before stage
        → Next stage e.body after
        → all ≡ before ++ e ∷ []
        → Walk all after
