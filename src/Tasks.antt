-- ===== src/Tasks.antt =====
-- app/tasks.py: the job that a worker runs, from the lock to the terminal event.
-- `Tasks.Monad` has the state of a run and its exceptions, this file the functions of the source.
pub mod Monad
pub mod RunJob
pub mod Triples
pub mod Rules
pub mod Stages
pub mod Terminal
pub mod Lock
pub mod Deliveries
pub mod Cut
pub mod Exclusion
pub mod Success
pub mod Protocol
use longshot.Common.{
  ℕ, suc, ◌+◌, Text, codes, join, length, take, Bool, true, false, if◌then◌else◌, Option, none,
  some, List, [], ◌∷◌, ◌++◌, map, flatten,
}
use longshot.Contract.{JobMode, url, chat, TaskStatus, TaskResult}
use longshot.Events.{Event, Body, ErrorReason, CancelledBy}
use longshot.Pipeline.Chunk.{chunk_text}
use longshot.Tasks.Monad.{
  Exn, Result, Stream, Pipeline, Job, Run, Exec, pure, raise, lift, ◌>>=◌, ◌>>◌, emit, suspend,
  cancel_set, attempt,
}

-- The fixed texts of the source.
abbrev no_text : Text
no_text = codes "no text to summarize"

pub chat_system : Text
chat_system = codes "You are a helpful assistant. Be concise and direct."

pub synthesis_system : Text
synthesis_system = codes "You are a concise summarization assistant."

unfoldable pub synthesis_prompt : List Text → Text
synthesis_prompt summaries =
    codes "Combine these chunk summaries into one cohesive overall summary "
    ++ codes "(3-5 sentences). Do not list the bullets back; produce flowing "
    ++ codes "prose.\n\n"
    ++ join (codes "\n\n") (map (λ s. codes "- " ++ s) summaries)

module _ (j : Job) where
  open j use {session_id, pipeline}

  -- `raise TaskCancelled()` where the flag is set
  unfoldable pub stop_if : Bool → Exec (Unit {0})
  unfolding pure raise
  stop_if true = raise Exn.task_cancelled
  stop_if false = pure tt

  -- `_check_cancel`, and the same test between deltas
  unfoldable pub check_cancel : Exec (Unit {0})
  unfolding stop_if cancel_set ◌>>=◌
  check_cancel = do found ← cancel_set j; stop_if found

  -- `except pipeline.SummarizeError as exc`: the event, then `raise`
  unfoldable pub report : {A : Type 0} → ErrorReason → Exn → Exec A
  unfolding raise emit ◌>>=◌
  report reason (Exn.summarize_error m) = do
    emit j (Body.error reason m)
    raise (Exn.summarize_error m)
  report reason e = raise e

  -- `except pipeline.FetchError as exc`
  unfoldable pub report_fetch : {A : Type 0} → Exn → Exec A
  unfolding raise emit ◌>>=◌
  report_fetch (Exn.fetch_error m) = do
    emit j (Body.error ErrorReason.fetch m)
    raise (Exn.fetch_error m)
  report_fetch e = raise e

  unfoldable pub end_stream : Option Exn → List Text → Exec (List Text)
  unfolding pure raise
  end_stream none parts = pure parts
  end_stream (some e) parts = raise e

  -- `async for delta in pipeline.chat_stream(...)`
  unfoldable pub stream_tokens : Option Exn → List Text → List Text → Exec (List Text)
  unfolding end_stream check_cancel suspend emit ◌>>=◌
  stream_tokens ending [] parts = do suspend j; end_stream ending parts
  stream_tokens ending (delta ∷ deltas) parts = do
    suspend j
    check_cancel
    emit j (Body.token delta)
    stream_tokens ending deltas (parts ++ delta ∷ [])

  unfoldable pub stream : ErrorReason → Stream → Exec (List Text)
  unfolding stream_tokens report attempt
  stream reason reply = attempt (stream_tokens reply.ending reply.deltas []) (report reason)

  -- `_run_chat`
  unfoldable pub run_chat : Text → Exec Text
  unfolding stream check_cancel emit pure ◌>>=◌
  run_chat prompt = do
    emit j (Body.started (take 200 prompt))
    check_cancel
    emit j Body.answer_started
    parts ← stream ErrorReason.summarize (pipeline.chat_stream prompt chat_system)
    let answer = flatten parts
    emit j (Body.answer_done (length answer))
    emit j (Body.done answer 0)
    pure answer

  -- The FETCH stage of `_run_url_pipeline`.
  unfoldable pub fetch_stage : Text → Exec Text
  unfolding check_cancel suspend report_fetch emit lift pure attempt ◌>>=◌
  fetch_stage u = do
    check_cancel
    emit j (Body.fetch_started u)
    text ← attempt (suspend j >> lift (pipeline.fetch_text u)) report_fetch
    emit j (Body.fetch_done (length text))
    pure text

  -- What `chunk_text` comes to: an exception of `range`, no chunk, or some.
  unfoldable pub chunked : Option (List Text) → Exec (List Text)
  unfolding raise emit pure ◌>>=◌
  chunked none = raise (Exn.other (codes "ValueError") (codes "range() arg 3 must not be zero"))
  chunked (some []) = do
    emit j (Body.error ErrorReason.chunk no_text)
    raise (Exn.summarize_error no_text)
  chunked (some (c ∷ cs)) = pure (c ∷ cs)

  -- The CHUNK stage.
  unfoldable pub chunk_stage : Text → ℕ → ℕ → Exec (List Text)
  unfolding check_cancel chunked ◌>>=◌
  chunk_stage text size max_chunks = do check_cancel; chunked (chunk_text text size max_chunks)

  -- The loop of the SUMMARIZE stage, from chunk `index` of `total` on.
  unfoldable pub summarize_each : (index total : ℕ) → List Text → List Text → Exec (List Text)
  unfolding check_cancel suspend report emit lift pure attempt ◌>>=◌
  summarize_each index total [] summaries = pure summaries
  summarize_each index total (chunk ∷ chunks) summaries = do
    check_cancel
    summary ←
        attempt (suspend j >> lift (pipeline.summarize_chunk chunk index))
          (report ErrorReason.summarize)
    emit j (Body.chunk_summarized index total summary)
    summarize_each (suc index) total chunks (summaries ++ summary ∷ [])

  -- The SYNTHESIZE stage.
  unfoldable pub synthesize_stage : List Text → Exec (Text × ℕ)
  unfolding check_cancel stream emit pure ◌>>=◌
  synthesize_stage summaries = do
    check_cancel
    emit j (Body.final_started (length summaries))
    emit j Body.answer_started
    parts ←
        stream ErrorReason.synthesize
          (pipeline.chat_stream (synthesis_prompt summaries) synthesis_system)
    let final = flatten parts
    emit j (Body.answer_done (length final))
    emit j (Body.final_done (length final))
    emit j (Body.done final (length summaries))
    pure (final, length summaries)

  -- `_run_url_pipeline`
  unfoldable pub run_url_pipeline : Text → ℕ → ℕ → Exec (Text × ℕ)
  unfolding fetch_stage chunk_stage summarize_each synthesize_stage emit ◌>>=◌
  run_url_pipeline u size max_chunks = do
    emit j (Body.started u)
    text ← fetch_stage u
    chunks ← chunk_stage text size max_chunks
    summaries ← summarize_each 0 (length chunks) chunks []
    synthesize_stage summaries
