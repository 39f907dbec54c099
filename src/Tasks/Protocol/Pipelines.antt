-- ===== src/Tasks/Protocol/Pipelines.antt =====
-- app/tasks.py: both pipelines keep to the state machine of a job.
use longshot.Common.{
  ℕ, zero, suc, ◌+◌, ◌<◌, Text, ◌≡◌, refl, ◌∙◌, Option, none, some, List, [], ◌∷◌, ◌++◌, flatten,
  length, length-append, take, arith,
}
use longshot.Contract.{url, chat}
use longshot.Events.{Body, ErrorReason, valid_body}
use longshot.Pipeline.Chunk.{chunk_text}
use longshot.Tasks.{
  report, report_fetch, run_chat, fetch_stage, chunked, chunk_stage, summarize_each,
  synthesize_stage, run_url_pipeline, no_text, synthesis_prompt, synthesis_system, chat_system,
}
use longshot.Tasks.Monad.{Exn, Job, FetchExn, ModelExn}
use longshot.Tasks.Triples.{
  Triple, known, pure-Triple, raise-Triple, lift-Keeps, bind-Triple, then-Triple, attempt-Triple,
}
use longshot.Tasks.Rules.{ModelExn-NoFetch, FetchExn-NoSummarize, suspend-Keeps, check_cancel-Keeps}
use longshot.Tasks.RunJob.{Params}
use longshot.Tasks.Protocol.{
  Stage, idle, opened, fetching, fetched, summarized, combining, answering, answered, over, IsOpen,
  Reports, Next,
}
use longshot.Tasks.Protocol.Moves.{At, Raised, Raised-quiet, emit-Triple, emit-sure}
use longshot.Tasks.Protocol.Streaming.{
  NoFetch-trying, NoSummarize-trying, report-Raised, report_fetch-Raised, stream-Triple,
}

module _ (p : Params) (j : Job) where
  open j use {pipeline}

  pub run_chat-Triple :
      p.mode ≡ chat → Triple (At p idle) (Raised p) (λ answer. At p over) (run_chat j p.input)
  unfolding run_chat valid_body
  run_chat-Triple is_chat =
      then-Triple
        (emit-Triple p j (Body.started (take 200 p.input)) (Raised-quiet p idle tt)
          (Next.start_chat is_chat))
        (then-Triple (check_cancel-Keeps j (Raised-quiet p opened tt)) (
          then-Triple
            (emit-Triple p j Body.answer_started (Raised-quiet p opened tt)
              (Next.answer_chat is_chat))
            (bind-Triple _ _
              (stream-Triple p j 0 ErrorReason.summarize (λ text. rw is_chat tt) p.input chat_system
                tt)
              (λ parts.
                then-Triple
                  (emit-Triple p j (Body.answer_done (length (flatten parts)))
                    (Raised-quiet p (answering 0 (flatten parts)) tt)
                    (Next.answer_done 0 (flatten parts)))
                  (then-Triple
                    (emit-sure p j (Body.done (flatten parts) 0) refl
                      (Next.finish_chat 0 (flatten parts) is_chat))
                    (pure-Triple (flatten parts) (λ events w. w)))))))

  module _ (is_url : p.mode ≡ url) where
    fetch_stage-Triple :
        Triple (At p opened) (Raised p) (λ text. At p fetched) (fetch_stage j p.input)
    unfolding fetch_stage
    fetch_stage-Triple = then-Triple (check_cancel-Keeps j (Raised-quiet p opened tt)) (
        then-Triple
          (emit-Triple p j (Body.fetch_started p.input) (Raised-quiet p opened tt)
            (Next.fetch is_url))
          (bind-Triple _ _
            (attempt-Triple _ (report_fetch j)
              (then-Triple
                (suspend-Keeps j (NoSummarize-trying p fetching ErrorReason.fetch (rw is_url tt)))
                (lift-Keeps FetchExn _ (pipeline.fetch_raises p.input)
                  (λ e events h w. (FetchExn-NoSummarize e h, (fetching, w, rw is_url tt)))))
              (report_fetch-Raised p j))
            (λ text.
              then-Triple
                (emit-Triple p j (Body.fetch_done (length text)) (Raised-quiet p fetching tt)
                  (Next.text (length text)))
                (pure-Triple text (λ events w. w)))))

    chunked-Triple :
        (chunks : Option (List Text))
        → Triple
            (At p fetched)
            (Raised p)
            (λ cs events. At p fetched events × (0 < length cs))
            (chunked j chunks)
    unfolding chunked valid_body
    chunked-Triple none = raise-Triple _ (λ events w. (fetched, w, tt))
    chunked-Triple (some []) =
        then-Triple
          (emit-sure p j (Body.error ErrorReason.chunk no_text) refl
            (Next.fail ErrorReason.chunk no_text (rw is_url tt)))
          (raise-Triple (Exn.summarize_error no_text) (λ events w. w))
    chunked-Triple (some (c ∷ cs)) = pure-Triple (c ∷ cs) (λ events w. (w, omega arith))

    chunk_stage-Triple :
        (text : Text) (size max_chunks : ℕ)
        → Triple
            (At p fetched)
            (Raised p)
            (λ cs events. At p fetched events × (0 < length cs))
            (chunk_stage j text size max_chunks)
    unfolding chunk_stage
    chunk_stage-Triple text size max_chunks =
        then-Triple (check_cancel-Keeps j (Raised-quiet p fetched tt))
          (chunked-Triple (chunk_text text size max_chunks))

    -- The stage after `n` summaries of `total`.
    abbrev after_summaries : ℕ → ℕ → Stage
    after_summaries zero total = fetched
    after_summaries (suc n) total = summarized (suc n) total

    after_summaries-IsOpen : (n total : ℕ) → IsOpen (after_summaries n total)
    after_summaries-IsOpen zero total = tt
    after_summaries-IsOpen (suc n) total = tt

    after_summaries-Reports :
        (n total : ℕ) → Reports p.mode (after_summaries n total) ErrorReason.summarize
    after_summaries-Reports zero total = rw is_url tt
    after_summaries-Reports (suc n) total = rw is_url tt

    summary-Next :
        (n total : ℕ) (summary : Text)
        → n < total
        → Next p
            (after_summaries n total)
            (Body.chunk_summarized n total summary)
            (summarized (suc n) total)
    summary-Next zero total summary h = Next.first_summary total summary
    summary-Next (suc n) total summary h = Next.next_summary (suc n) total summary h

    summarize_each-Triple :
        (index total : ℕ) (chunks summaries : List Text)
        → index + length chunks ≡ total
        → length summaries ≡ index
        → Triple
            (At p (after_summaries index total))
            (Raised p)
            (λ ss events. At p (after_summaries total total) events × (length ss ≡ total))
            (summarize_each j index total chunks summaries)
    unfolding summarize_each
    summarize_each-Triple index total [] summaries h k =
        let all : index ≡ total = omega arith in
        pure-Triple summaries (λ events w. (rw all at w, k ∙ all))
    summarize_each-Triple index total (chunk ∷ chunks) summaries h k =
        let quiet =
          Raised-quiet p (after_summaries index total) (after_summaries-IsOpen index total) in
        let reports = after_summaries-Reports index total in
        then-Triple (check_cancel-Keeps j quiet) (
          bind-Triple _ _
            (attempt-Triple _ (report j ErrorReason.summarize)
              (then-Triple
                (suspend-Keeps j
                  (NoFetch-trying p (after_summaries index total) ErrorReason.summarize reports))
                (lift-Keeps ModelExn _ (pipeline.summarize_raises chunk index) (λ e events h w.
                  (ModelExn-NoFetch e h, (after_summaries index total, w, reports)))))
              (report-Raised p j ErrorReason.summarize tt))
            (λ summary.
              then-Triple
                (emit-Triple p j (Body.chunk_summarized index total summary) quiet
                  (summary-Next index total summary (omega arith)))
                (summarize_each-Triple (suc index) total chunks (summaries ++ summary ∷ [])
                  (omega arith) (omega (arith, length-append summaries (summary ∷ []))))))

    synthesize_stage-Triple :
        (summaries : List Text) (n : ℕ)
        → length summaries ≡ suc n
        → Triple
            (At p (summarized (suc n) (suc n)))
            (Raised p)
            (λ r. At p over)
            (synthesize_stage j summaries)
    unfolding synthesize_stage valid_body
    synthesize_stage-Triple summaries n count = rw count (
        then-Triple (check_cancel-Keeps j (Raised-quiet p (summarized (suc n) (suc n)) tt)) (
          then-Triple
            (emit-Triple p j (Body.final_started (suc n))
              (Raised-quiet p (summarized (suc n) (suc n)) tt) (Next.combine (suc n) (suc n) refl))
            (then-Triple
              (emit-Triple p j Body.answer_started (Raised-quiet p (combining (suc n)) tt)
                (Next.answer_url (suc n)))
              (bind-Triple _ _
                (stream-Triple p j (suc n) ErrorReason.synthesize (λ text. rw is_url tt)
                  (synthesis_prompt summaries) synthesis_system tt)
                (λ parts.
                  then-Triple
                    (emit-Triple p j (Body.answer_done (length (flatten parts)))
                      (Raised-quiet p (answering (suc n) (flatten parts)) tt)
                      (Next.answer_done (suc n) (flatten parts)))
                    (then-Triple
                      (emit-Triple p j (Body.final_done (length (flatten parts)))
                        (Raised-quiet p (answered (suc n) (flatten parts)) tt)
                        (Next.final_done (suc n) (flatten parts) is_url))
                      (then-Triple
                        (emit-sure p j (Body.done (flatten parts) (suc n)) refl
                          (Next.finish_url (suc n) (flatten parts)))
                        (pure-Triple (flatten parts, suc n) (λ events w. w)))))))))

    after_chunks :
        (chunks summaries : List Text)
        → 0 < length chunks
        → length summaries ≡ length chunks
        → Triple
            (At p (after_summaries (length chunks) (length chunks)))
            (Raised p)
            (λ r. At p over)
            (synthesize_stage j summaries)
    after_chunks [] summaries h k = elim h [ ]
    after_chunks (c ∷ cs) summaries h k = synthesize_stage-Triple summaries (length cs) k

    pub run_url_pipeline-Triple :
        (size max_chunks : ℕ)
        → Triple
            (At p idle)
            (Raised p)
            (λ r. At p over)
            (run_url_pipeline j p.input size max_chunks)
    unfolding run_url_pipeline
    run_url_pipeline-Triple size max_chunks =
        then-Triple
          (emit-Triple p j (Body.started p.input) (Raised-quiet p idle tt) (Next.start_url is_url))
          (bind-Triple _ _ fetch_stage-Triple (λ text.
            bind-Triple _ _ (chunk_stage-Triple text size max_chunks) (λ chunks.
              known (λ some_chunks.
                bind-Triple _ _
                  (summarize_each-Triple 0 (length chunks) chunks [] (omega arith) refl)
                  (λ summaries.
                    known (λ count. after_chunks chunks summaries some_chunks count))))))
