-- ===== src/Tasks/Cut/Stages.antt =====
-- app/tasks.py: every stage of a run, cancelled and not.
use longshot.Common.{
  ℕ, suc, ◌≡◌, refl, Text, true, Option, none, some, List, [], ◌∷◌, ◌++◌, take, length, flatten,
}
use longshot.Events.{Body, ErrorReason}
use longshot.Pipeline.Chunk.{chunk_text}
use longshot.Tasks.{
  no_text, chat_system, synthesis_system, synthesis_prompt, check_cancel, report, report_fetch,
  end_stream, stream_tokens, stream, run_chat, fetch_stage, chunked, chunk_stage, summarize_each,
  synthesize_stage, run_url_pipeline,
}
use longshot.Tasks.Cut.{
  spared, Cut, pure-Cut, raise-Cut, lift-Cut, attempt-Cut, bind-Cut, then-Cut, emit-Cut,
  suspend-Cut,
}
use longshot.Tasks.Cut.Poll.{check_cancel-Cut}
use longshot.Tasks.Monad.{Exn, Stream, Job, answer, raise}

module _ (k : ℕ) (j : Job) where
  report-Cut :
      {A : Type 0} (reason : ErrorReason) (e : Exn)
      → Cut k {A = A} (report j reason e) (report (spared k j) reason e)
  unfolding report
  report-Cut reason (Exn.summarize_error m) =
      then-Cut k _ _ _ _ (emit-Cut k j (Body.error reason m)) (raise-Cut k (Exn.summarize_error m))
  report-Cut reason (Exn.fetch_error m) = raise-Cut k (Exn.fetch_error m)
  report-Cut reason Exn.task_cancelled = raise-Cut k Exn.task_cancelled
  report-Cut reason Exn.timeout_error = raise-Cut k Exn.timeout_error
  report-Cut reason Exn.shutdown = raise-Cut k Exn.shutdown
  report-Cut reason (Exn.other name m) = raise-Cut k (Exn.other name m)

  report_fetch-Cut :
      {A : Type 0} (e : Exn) → Cut k {A = A} (report_fetch j e) (report_fetch (spared k j) e)
  unfolding report_fetch
  report_fetch-Cut (Exn.fetch_error m) =
      then-Cut k _ _ _ _ (emit-Cut k j (Body.error ErrorReason.fetch m))
        (raise-Cut k (Exn.fetch_error m))
  report_fetch-Cut (Exn.summarize_error m) = raise-Cut k (Exn.summarize_error m)
  report_fetch-Cut Exn.task_cancelled = raise-Cut k Exn.task_cancelled
  report_fetch-Cut Exn.timeout_error = raise-Cut k Exn.timeout_error
  report_fetch-Cut Exn.shutdown = raise-Cut k Exn.shutdown
  report_fetch-Cut (Exn.other name m) = raise-Cut k (Exn.other name m)

  module _ (found : j.poll k ≡ answer true) where
    check : Cut k (check_cancel j) (check_cancel (spared k j))
    check = check_cancel-Cut k j found

    end_stream-Cut :
        (ending : Option Exn) (parts : List Text)
        → Cut k (end_stream j ending parts) (end_stream (spared k j) ending parts)
    unfolding end_stream
    end_stream-Cut none parts = pure-Cut k parts
    end_stream-Cut (some e) parts = raise-Cut k e

    stream_tokens-Cut :
        (ending : Option Exn) (deltas parts : List Text)
        → Cut k
            (stream_tokens j ending deltas parts)
            (stream_tokens (spared k j) ending deltas parts)
    unfolding stream_tokens
    stream_tokens-Cut ending [] parts =
        then-Cut k _ _ _ _ (suspend-Cut k j) (end_stream-Cut ending parts)
    stream_tokens-Cut ending (delta ∷ deltas) parts = then-Cut k _ _ _ _ (suspend-Cut k j) (
        then-Cut k _ _ _ _ check (
          then-Cut k _ _ _ _ (emit-Cut k j (Body.token delta))
            (stream_tokens-Cut ending deltas (parts ++ delta ∷ []))))

    stream-Cut :
        (reason : ErrorReason) (s : Stream)
        → Cut k (stream j reason s) (stream (spared k j) reason s)
    unfolding stream report raise
    stream-Cut reason s =
        attempt-Cut k _ _ _ _ (stream_tokens-Cut s.ending s.deltas []) (report-Cut reason)
          (λ t. refl)

    pub run_chat-Cut : (prompt : Text) → Cut k (run_chat j prompt) (run_chat (spared k j) prompt)
    unfolding run_chat
    run_chat-Cut prompt = then-Cut k _ _ _ _ (emit-Cut k j (Body.started (take 200 prompt))) (
        then-Cut k _ _ _ _ check (
          then-Cut k _ _ _ _ (emit-Cut k j Body.answer_started) (
            bind-Cut k _ _ _ _
              (stream-Cut ErrorReason.summarize (j.pipeline.chat_stream prompt chat_system))
              (λ parts.
                then-Cut k _ _ _ _ (emit-Cut k j (Body.answer_done (length (flatten parts)))) (
                  then-Cut k _ _ _ _ (emit-Cut k j (Body.done (flatten parts) 0))
                    (pure-Cut k (flatten parts)))))))

    fetch_stage-Cut : (u : Text) → Cut k (fetch_stage j u) (fetch_stage (spared k j) u)
    unfolding fetch_stage report_fetch raise
    fetch_stage-Cut u = then-Cut k _ _ _ _ check (
        then-Cut k _ _ _ _ (emit-Cut k j (Body.fetch_started u)) (
          bind-Cut k _ _ _ _
            (attempt-Cut k _ _ _ _
              (then-Cut k _ _ _ _ (suspend-Cut k j) (lift-Cut k (j.pipeline.fetch_text u)))
              report_fetch-Cut (λ t. refl))
            (λ text.
              then-Cut k _ _ _ _ (emit-Cut k j (Body.fetch_done (length text))) (pure-Cut k text))))

    chunked-Cut : (o : Option (List Text)) → Cut k (chunked j o) (chunked (spared k j) o)
    unfolding chunked
    chunked-Cut none = raise-Cut k _
    chunked-Cut (some []) =
        then-Cut k _ _ _ _ (emit-Cut k j (Body.error ErrorReason.chunk no_text))
          (raise-Cut k (Exn.summarize_error no_text))
    chunked-Cut (some (c ∷ cs)) = pure-Cut k (c ∷ cs)

    chunk_stage-Cut :
        (text : Text) (size max_chunks : ℕ)
        → Cut k (chunk_stage j text size max_chunks) (chunk_stage (spared k j) text size max_chunks)
    unfolding chunk_stage
    chunk_stage-Cut text size max_chunks =
        then-Cut k _ _ _ _ check (chunked-Cut (chunk_text text size max_chunks))

    summarize_each-Cut :
        (index total : ℕ) (chunks summaries : List Text)
        → Cut k
            (summarize_each j index total chunks summaries)
            (summarize_each (spared k j) index total chunks summaries)
    unfolding summarize_each report raise
    summarize_each-Cut index total [] summaries = pure-Cut k summaries
    summarize_each-Cut index total (chunk ∷ chunks) summaries = then-Cut k _ _ _ _ check (
        bind-Cut k _ _ _ _
          (attempt-Cut k _ _ _ _
            (then-Cut k _ _ _ _ (suspend-Cut k j)
              (lift-Cut k (j.pipeline.summarize_chunk chunk index)))
            (report-Cut ErrorReason.summarize) (λ t. refl))
          (λ summary.
            then-Cut k _ _ _ _ (emit-Cut k j (Body.chunk_summarized index total summary))
              (summarize_each-Cut (suc index) total chunks (summaries ++ summary ∷ []))))

    synthesize_stage-Cut :
        (summaries : List Text)
        → Cut k (synthesize_stage j summaries) (synthesize_stage (spared k j) summaries)
    unfolding synthesize_stage
    synthesize_stage-Cut summaries = then-Cut k _ _ _ _ check (
        then-Cut k _ _ _ _ (emit-Cut k j (Body.final_started (length summaries))) (
          then-Cut k _ _ _ _ (emit-Cut k j Body.answer_started) (
            bind-Cut k _ _ _ _
              (stream-Cut ErrorReason.synthesize
                (j.pipeline.chat_stream (synthesis_prompt summaries) synthesis_system))
              (λ parts.
                then-Cut k _ _ _ _ (emit-Cut k j (Body.answer_done (length (flatten parts)))) (
                  then-Cut k _ _ _ _ (emit-Cut k j (Body.final_done (length (flatten parts)))) (
                    then-Cut k _ _ _ _ (emit-Cut k j (Body.done (flatten parts) (length summaries)))
                      (pure-Cut k (flatten parts, length summaries))))))))

    pub run_url_pipeline-Cut :
        (u : Text) (size max_chunks : ℕ)
        → Cut k
            (run_url_pipeline j u size max_chunks)
            (run_url_pipeline (spared k j) u size max_chunks)
    unfolding run_url_pipeline
    run_url_pipeline-Cut u size max_chunks = then-Cut k _ _ _ _ (emit-Cut k j (Body.started u)) (
        bind-Cut k _ _ _ _ (fetch_stage-Cut u) (λ text.
          bind-Cut k _ _ _ _ (chunk_stage-Cut text size max_chunks) (λ chunks.
            bind-Cut k _ _ _ _ (summarize_each-Cut 0 (length chunks) chunks [])
              (λ summaries. synthesize_stage-Cut summaries))))
