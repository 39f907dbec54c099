-- ===== src/Tasks/Stages.antt =====
-- app/tasks.py: the stages of both pipelines end with at most one terminal event, and report each
-- failure of their own.
use longshot.Common.{
  suc, ℕ, Text, refl, Option, none, some, List, [], ◌∷◌, ◌++◌, flatten, length, take,
}
use longshot.Events.{Body, ErrorReason, body_type, in_terminal_types, valid_body}
use longshot.Pipeline.Chunk.{chunk_text}
use longshot.Tasks.{
  report, report_fetch, end_stream, stream_tokens, stream, run_chat, fetch_stage, chunked,
  chunk_stage, summarize_each, synthesize_stage, run_url_pipeline, no_text, synthesis_prompt,
  synthesis_system, chat_system,
}
use longshot.Tasks.Monad.{Exn, Job, pure, raise, EndsWith, FetchExn, ModelExn}
use longshot.Tasks.Triples.{
  Exits, Triple, Keeps, pure-Keeps, lift-Keeps, raise-Triple, bind-Triple, then-Triple,
  attempt-Triple,
}
use longshot.Tasks.Rules.{
  NoFetch, NoSummarize, ModelExn-NoFetch, FetchExn-NoSummarize, Live, Ended, StageReason, Left,
  Ensures, HasQuiet, suspend-Keeps, check_cancel-Keeps, emit-Keeps, emit-last,
}

Left-quiet : HasQuiet Live Left
Left-quiet (Exn.fetch_error m) events q h = absurd q
Left-quiet (Exn.summarize_error m) events q h = absurd q
Left-quiet Exn.task_cancelled events q h = h
Left-quiet Exn.timeout_error events q h = h
Left-quiet Exn.shutdown events q h = h
Left-quiet (Exn.other name m) events q h = h

-- The exits inside a `try`: the exceptions of `P`, with nothing reported yet.
abbrev Within : (Exn → Type 0) → Exits
Within P e events = P e × Live events

NoFetch-quiet : HasQuiet Live (Within NoFetch)
NoFetch-quiet (Exn.fetch_error m) events q h = absurd q
NoFetch-quiet (Exn.summarize_error m) events q h = (tt, h)
NoFetch-quiet _ events q h = (tt, h)

NoSummarize-quiet : HasQuiet Live (Within NoSummarize)
NoSummarize-quiet (Exn.summarize_error m) events q h = absurd q
NoSummarize-quiet _ events q h = (tt, h)

module _ (j : Job) where
  open j use {pipeline}

  report-Left :
      (A : Type 0) (reason : ErrorReason)
      → StageReason reason
      → (e : Exn) → Triple (Within NoFetch e) Left (λ a. Live) (report j {A = A} reason e)
  unfolding report body_type in_terminal_types valid_body
  report-Left A reason st (Exn.summarize_error m) = record {
    at = λ s h.
        (emit-last j (Body.error reason m) refl refl (raise (Exn.summarize_error m))
            (λ s e. record { reason = reason; stage = st; ended = e })).at
          s h.1;
  }
  report-Left A reason st (Exn.fetch_error m) = record { at = λ s h. absurd h.0 }
  report-Left A reason st (Exn.other name m) = record { at = λ s h. h.1 }
  report-Left A reason st Exn.task_cancelled = record { at = λ s h. h.1 }
  report-Left A reason st Exn.timeout_error = record { at = λ s h. h.1 }
  report-Left A reason st Exn.shutdown = record { at = λ s h. h.1 }

  report_fetch-Left :
      (A : Type 0) (e : Exn)
      → Triple (Within NoSummarize e) Left (λ a. Live) (report_fetch j {A = A} e)
  unfolding report_fetch body_type in_terminal_types valid_body
  report_fetch-Left A (Exn.fetch_error m) = record {
    at = λ s h.
        (emit-last j (Body.error ErrorReason.fetch m) refl refl (raise (Exn.fetch_error m))
            (λ s e. record { reason = ErrorReason.fetch; stage = tt; ended = e })).at
          s h.1;
  }
  report_fetch-Left A (Exn.summarize_error m) = record { at = λ s h. absurd h.0 }
  report_fetch-Left A (Exn.other name m) = record { at = λ s h. h.1 }
  report_fetch-Left A Exn.task_cancelled = record { at = λ s h. h.1 }
  report_fetch-Left A Exn.timeout_error = record { at = λ s h. h.1 }
  report_fetch-Left A Exn.shutdown = record { at = λ s h. h.1 }

  end_stream-Keeps :
      (ending : Option Exn) (parts : List Text)
      → EndsWith ModelExn ending
      → Keeps Live (Within NoFetch) (end_stream j ending parts)
  unfolding end_stream
  end_stream-Keeps none parts h = pure-Keeps parts
  end_stream-Keeps (some e) parts h = raise-Triple e (λ events l. (ModelExn-NoFetch e h, l))

  stream_tokens-Keeps :
      (ending : Option Exn) (deltas parts : List Text)
      → EndsWith ModelExn ending
      → Keeps Live (Within NoFetch) (stream_tokens j ending deltas parts)
  unfolding stream_tokens body_type in_terminal_types
  stream_tokens-Keeps ending [] parts h =
      then-Triple (suspend-Keeps j NoFetch-quiet) (end_stream-Keeps ending parts h)
  stream_tokens-Keeps ending (d ∷ ds) parts h = then-Triple (suspend-Keeps j NoFetch-quiet) (
      then-Triple (check_cancel-Keeps j NoFetch-quiet) (
        then-Triple (emit-Keeps j NoFetch-quiet (Body.token d) refl)
          (stream_tokens-Keeps ending ds (parts ++ d ∷ []) h)))

  stream-Keeps :
      (reason : ErrorReason) (prompt system : Text)
      → StageReason reason
      → Keeps Live Left (stream j reason (pipeline.chat_stream prompt system))
  unfolding stream
  stream-Keeps reason prompt system st =
      attempt-Triple _ (report j reason)
        (stream_tokens-Keeps _ _ [] (pipeline.stream_raises prompt system))
        (report-Left (List Text) reason st)

  -- `_run_chat` ends with its DoneEvent, or as `Left` says.
  pub run_chat-Ensures :
      (prompt : Text)
      → Ensures Left (λ answer events. Ended (Body.done answer 0) events) (run_chat j prompt)
  unfolding run_chat body_type in_terminal_types valid_body
  run_chat-Ensures prompt =
      then-Triple (emit-Keeps j Left-quiet (Body.started (take 200 prompt)) refl) (
        then-Triple (check_cancel-Keeps j Left-quiet) (
          then-Triple (emit-Keeps j Left-quiet Body.answer_started refl) (
            bind-Triple _ _ (stream-Keeps ErrorReason.summarize prompt chat_system tt) (λ parts.
              then-Triple (emit-Keeps j Left-quiet (Body.answer_done (length (flatten parts))) refl)
                (emit-last j (Body.done (flatten parts) 0) refl refl (pure (flatten parts))
                  (unfold pure in λ s e. e))))))

  fetch_stage-Keeps : (u : Text) → Keeps Live Left (fetch_stage j u)
  unfolding fetch_stage body_type in_terminal_types
  fetch_stage-Keeps u = then-Triple (check_cancel-Keeps j Left-quiet) (
      then-Triple (emit-Keeps j Left-quiet (Body.fetch_started u) refl) (
        bind-Triple _ _
          (attempt-Triple _ (report_fetch j)
            (then-Triple (suspend-Keeps j NoSummarize-quiet) (
              lift-Keeps FetchExn _ (pipeline.fetch_raises u)
                (λ e events h l. (FetchExn-NoSummarize e h, l))))
            (report_fetch-Left Text))
          (λ text.
            then-Triple (emit-Keeps j Left-quiet (Body.fetch_done (length text)) refl)
              (pure-Keeps text))))

  chunked-Keeps : (chunks : Option (List Text)) → Keeps Live Left (chunked j chunks)
  unfolding chunked body_type in_terminal_types valid_body raise
  chunked-Keeps none = raise-Triple _ (λ events l. l)
  chunked-Keeps (some []) =
      emit-last j (Body.error ErrorReason.chunk no_text) refl refl _
        (λ s e. record { reason = ErrorReason.chunk; stage = tt; ended = e })
  chunked-Keeps (some (c ∷ cs)) = pure-Keeps (c ∷ cs)

  chunk_stage-Keeps :
      (text : Text) (size max_chunks : ℕ) → Keeps Live Left (chunk_stage j text size max_chunks)
  unfolding chunk_stage
  chunk_stage-Keeps text size max_chunks =
      then-Triple (check_cancel-Keeps j Left-quiet)
        (chunked-Keeps (chunk_text text size max_chunks))

  summarize_each-Keeps :
      (index total : ℕ) (chunks summaries : List Text)
      → Keeps Live Left (summarize_each j index total chunks summaries)
  unfolding summarize_each body_type in_terminal_types
  summarize_each-Keeps index total [] summaries = pure-Keeps summaries
  summarize_each-Keeps index total (chunk ∷ chunks) summaries =
      then-Triple (check_cancel-Keeps j Left-quiet) (
        bind-Triple _ _
          (attempt-Triple _ (report j ErrorReason.summarize)
            (then-Triple (suspend-Keeps j NoFetch-quiet) (
              lift-Keeps ModelExn _ (pipeline.summarize_raises chunk index)
                (λ e events h l. (ModelExn-NoFetch e h, l))))
            (report-Left Text ErrorReason.summarize tt))
          (λ summary.
            then-Triple (emit-Keeps j Left-quiet (Body.chunk_summarized index total summary) refl)
              (summarize_each-Keeps (suc index) total chunks (summaries ++ summary ∷ []))))

  synthesize_stage-Ensures :
      (summaries : List Text)
      → Ensures Left (λ r events. Ended (Body.done r.0 r.1) events) (synthesize_stage j summaries)
  unfolding synthesize_stage body_type in_terminal_types valid_body
  synthesize_stage-Ensures summaries = then-Triple (check_cancel-Keeps j Left-quiet) (
      then-Triple (emit-Keeps j Left-quiet (Body.final_started (length summaries)) refl) (
        then-Triple (emit-Keeps j Left-quiet Body.answer_started refl) (
          bind-Triple _ _
            (stream-Keeps ErrorReason.synthesize (synthesis_prompt summaries) synthesis_system tt)
            (λ parts.
              then-Triple (emit-Keeps j Left-quiet (Body.answer_done (length (flatten parts))) refl)
                (then-Triple
                  (emit-Keeps j Left-quiet (Body.final_done (length (flatten parts))) refl)
                  (emit-last j (Body.done (flatten parts) (length summaries)) refl refl _
                    (unfold pure in λ s e. e)))))))

  -- `_run_url_pipeline` ends with its DoneEvent, or as `Left` says.
  pub run_url_pipeline-Ensures :
      (u : Text) (size max_chunks : ℕ)
      → Ensures Left
          (λ r events. Ended (Body.done r.0 r.1) events)
          (run_url_pipeline j u size max_chunks)
  unfolding run_url_pipeline body_type in_terminal_types
  run_url_pipeline-Ensures u size max_chunks =
      then-Triple (emit-Keeps j Left-quiet (Body.started u) refl) (
        bind-Triple _ _ (fetch_stage-Keeps u) (λ text.
          bind-Triple _ _ (chunk_stage-Keeps text size max_chunks) (λ chunks.
            bind-Triple _ _ (summarize_each-Keeps 0 (length chunks) chunks [])
              (λ summaries. synthesize_stage-Ensures summaries))))
