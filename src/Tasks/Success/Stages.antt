-- ===== src/Tasks/Success/Stages.antt =====
-- app/tasks.py: both pipelines, where nothing stops them.
use longshot.Common.{
  ℕ, suc, ◌+◌, ◌*◌, ◌≡◌, refl, sym, Text, false, none, some, List, [], ◌∷◌, ◌++◌, map, flatten,
  append-nil, append_assoc, length, take, arith,
}
use mathlib.Core.Path.{subst}
use longshot.Events.{Body, ErrorReason, valid_body}
use longshot.Pipeline.Chunk.{chunk_text}
use longshot.Tasks.{
  report, report_fetch, end_stream, stream_tokens, stream, run_chat, fetch_stage, chunked,
  chunk_stage, summarize_each, synthesize_stage, synthesis_prompt, synthesis_system, chat_system,
}
use longshot.Tasks.Monad.{Stream, ok, Job, answer}
use longshot.Tasks.Success.{
  Does, pure-Does, lift-Does, attempt-Does, times, bind-Does, then-Does, suspend-Does, emit-Does,
  check_cancel-Does,
}

-- What a chat emits for the deltas of its answer.
abbrev pub chat_bodies : Text → List Text → List Body
chat_bodies prompt deltas =
    Body.started (take 200 prompt)
    ∷ Body.answer_started
    ∷ (map Body.token deltas
        ++ (Body.answer_done (length (flatten deltas)) ∷ Body.done (flatten deltas) 0 ∷ []))

-- What a URL job emits for its summaries, and for the deltas of its answer.
abbrev pub summary_bodies : (index total : ℕ) → List Text → List Body
summary_bodies index total [] = []
summary_bodies index total (s ∷ ss) =
    Body.chunk_summarized index total s ∷ summary_bodies (suc index) total ss

abbrev pub final_bodies : (total : ℕ) → List Text → List Body
final_bodies total deltas =
    Body.final_started total
    ∷ Body.answer_started
    ∷ (map Body.token deltas
        ++ (Body.answer_done (length (flatten deltas))
            ∷ Body.final_done (length (flatten deltas))
            ∷ Body.done (flatten deltas) total
            ∷ []))

-- The LLM summarises each chunk, from number `index` on.
abbrev pub Summarizes : (j : Job) (index : ℕ) (chunks summaries : List Text) → Type 0
Summarizes j index [] [] = Unit
Summarizes j index (c ∷ cs) (s ∷ ss) =
    (j.pipeline.summarize_chunk c index ≡ ok s) × Summarizes j (suc index) cs ss
Summarizes j index _ _ = ⊥

module _ (j : Job) (unset : (n : ℕ) → j.poll n ≡ answer false) where
  open j use {pipeline}

  stream_tokens-Does :
      (deltas parts : List Text)
      → Does
          (stream_tokens j none deltas parts)
          (2 * length deltas + 1)
          (parts ++ deltas)
          (map Body.token deltas)
  unfolding stream_tokens end_stream valid_body
  stream_tokens-Does [] parts = rw (append-nil parts) (then-Does (suspend-Does j) (pure-Does parts))
  stream_tokens-Does (d ∷ ds) parts = times (omega arith) (
      then-Does (suspend-Does j) (
        then-Does (check_cancel-Does j unset) (
          then-Does (emit-Does j (Body.token d) refl)
            (rw (append_assoc parts (d ∷ []) ds) at (stream_tokens-Does ds (parts ++ d ∷ []))))))

  stream-Does :
      (reason : ErrorReason) (s : Stream)
      → s.ending ≡ none
      → Does (stream j reason s) (2 * length s.deltas + 1) s.deltas (map Body.token s.deltas)
  unfolding stream
  stream-Does reason s e = attempt-Does (report j reason) (
      subst
        (λ o.
          Does (stream_tokens j o s.deltas []) (2 * length s.deltas + 1) s.deltas
            (map Body.token s.deltas))
        (sym e) (stream_tokens-Does s.deltas []))

  pub run_chat-Does :
      (prompt : Text) {s : Stream}
      → pipeline.chat_stream prompt chat_system ≡ s
      → s.ending ≡ none
      → Does
          (run_chat j prompt)
          (2 * length s.deltas + 2)
          (flatten s.deltas)
          (chat_bodies prompt s.deltas)
  unfolding run_chat valid_body
  run_chat-Does prompt {s} opens ends = rw opens (
      times (omega arith) (
        then-Does (emit-Does j (Body.started (take 200 prompt)) refl) (
          then-Does (check_cancel-Does j unset) (
            then-Does (emit-Does j Body.answer_started refl) (
              bind-Does _ (stream-Does ErrorReason.summarize s ends) (
                then-Does (emit-Does j (Body.answer_done (length (flatten s.deltas))) refl) (
                  then-Does (emit-Does j (Body.done (flatten s.deltas) 0) refl)
                    (pure-Does (flatten s.deltas)))))))))

  pub fetch_stage-Does :
      (u : Text) {text : Text}
      → pipeline.fetch_text u ≡ ok text
      → Does (fetch_stage j u) 2 text (Body.fetch_started u ∷ Body.fetch_done (length text) ∷ [])
  unfolding fetch_stage valid_body
  fetch_stage-Does u {text} fetches = then-Does (check_cancel-Does j unset) (
      then-Does (emit-Does j (Body.fetch_started u) refl) (
        bind-Does _ (attempt-Does (report_fetch j) (then-Does (suspend-Does j) (lift-Does fetches)))
          (then-Does (emit-Does j (Body.fetch_done (length text)) refl) (pure-Does text))))

  pub chunk_stage-Does :
      (text : Text) (size max_chunks : ℕ) {c : Text} {cs : List Text}
      → chunk_text text size max_chunks ≡ some (c ∷ cs)
      → Does (chunk_stage j text size max_chunks) 1 (c ∷ cs) []
  unfolding chunk_stage chunked
  chunk_stage-Does text size max_chunks {c} {cs} splits =
      rw splits (then-Does (check_cancel-Does j unset) (pure-Does (c ∷ cs)))

  pub summarize_each-Does :
      (index n : ℕ) (chunks ss summaries : List Text)
      → Summarizes j index chunks ss
      → Does
          (summarize_each j index (suc n) chunks summaries)
          (2 * length ss)
          (summaries ++ ss)
          (summary_bodies index (suc n) ss)
  unfolding summarize_each valid_body
  summarize_each-Does index n [] [] summaries h = rw (append-nil summaries) (pure-Does summaries)
  summarize_each-Does index n [] (s ∷ ss) summaries h = absurd h
  summarize_each-Does index n (c ∷ cs) [] summaries h = absurd h
  summarize_each-Does index n (c ∷ cs) (s ∷ ss) summaries (h, hs) = times (omega arith) (
      then-Does (check_cancel-Does j unset) (
        bind-Does _
          (attempt-Does (report j ErrorReason.summarize) (then-Does (suspend-Does j) (lift-Does h)))
          (then-Does (emit-Does j (Body.chunk_summarized index (suc n) s) (ground arith)) (
            rw (append_assoc summaries (s ∷ []) ss) at
              (summarize_each-Does (suc index) n cs ss (summaries ++ s ∷ []) hs)))))

  pub synthesize_stage-Does :
      (first : Text) (ss : List Text) {s : Stream}
      → pipeline.chat_stream (synthesis_prompt (first ∷ ss)) synthesis_system ≡ s
      → s.ending ≡ none
      → Does
          (synthesize_stage j (first ∷ ss))
          (2 * length s.deltas + 2)
          (flatten s.deltas, length (first ∷ ss))
          (final_bodies (length (first ∷ ss)) s.deltas)
  unfolding synthesize_stage valid_body
  synthesize_stage-Does first ss {s} opens ends = rw opens (
      times (omega arith) (
        then-Does (check_cancel-Does j unset) (
          then-Does (emit-Does j (Body.final_started (length (first ∷ ss))) (ground arith)) (
            then-Does (emit-Does j Body.answer_started refl) (
              bind-Does _ (stream-Does ErrorReason.synthesize s ends) (
                then-Does (emit-Does j (Body.answer_done (length (flatten s.deltas))) refl) (
                  then-Does (emit-Does j (Body.final_done (length (flatten s.deltas))) refl) (
                    then-Does
                      (emit-Does j (Body.done (flatten s.deltas) (length (first ∷ ss))) refl)
                      (pure-Does (flatten s.deltas, length (first ∷ ss)))))))))))
