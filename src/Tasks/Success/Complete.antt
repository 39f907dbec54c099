-- ===== src/Tasks/Success/Complete.antt =====
-- app/tasks.py, `run_job`: a run that nothing stops, from its first event to its result.
use longshot.Common.{
  ℕ, suc, ◌+◌, ◌*◌, ◌≤◌, ◌≡◌, refl, sym, ap, ◌∙◌, Text, false, none, some, List, [], ◌∷◌, ◌++◌,
  flatten, length, arith,
}
use mathlib.Core.Path.{subst}
use longshot.Contract.{JobMode, url, chat, TaskResult}
use longshot.Events.{Body, valid_body}
use longshot.Pipeline.Chunk.{chunk_text}
use longshot.Tasks.{
  summarize_each, run_url_pipeline, synthesis_prompt, synthesis_system, chat_system,
}
use longshot.Tasks.Monad.{Stream, ok, Job, answer}
use longshot.Tasks.RunJob.{Params, ok_result, dispatch, handlers, guarded, first_run, body}
use longshot.Tasks.Success.{
  Does, attempt-Does, times, map-Does, bind-Does, then-Does, emit-Does, bodies,
}
use longshot.Tasks.Success.Stages.{
  chat_bodies, run_chat-Does, fetch_stage-Does, chunk_stage-Does, Summarizes, summary_bodies,
  summarize_each-Does, final_bodies, synthesize_stage-Does,
}

-- What a URL job emits for a page of so many characters, its summaries and its deltas.
abbrev pub url_bodies : Text → (chars : ℕ) → (summaries deltas : List Text) → List Body
url_bodies u chars summaries deltas =
    Body.started u
    ∷ Body.fetch_started u
    ∷ Body.fetch_done chars
    ∷ (summary_bodies 0 (length summaries) summaries ++ final_bodies (length summaries) deltas)

module _ (p : Params) (j : Job) (unset : (n : ℕ) → j.poll n ≡ answer false) (awaits : ℕ) where
  open j use {pipeline}

  -- A run does what its dispatch does.
  done_by :
      (mode : JobMode) {n : ℕ} {result : TaskResult} {emitted : List Body}
      → p.mode ≡ mode
      → n ≤ awaits
      → Does (dispatch j p mode) n result emitted
      → ((body j p awaits).0 ≡ ok result) × (bodies (body j p awaits).1.events ≡ emitted)
  unfolding guarded
  done_by mode {n} {result} {emitted} is_mode enough d =
      let (t, e, l) =
        (attempt-Does (handlers j p)
            (subst (λ m. Does (dispatch j p m) n result emitted) (sym is_mode) d)).at
          (first_run j p awaits) enough in
      (ap (λ r. r.0) e, ap (λ r. bodies r.1.events) e ∙ l.log)

  -- A chat whose cancel flag is never set, whose LLM answers without a failure, and which is not
  -- interrupted within two awaits for each delta and two more, returns OK with the deltas put
  -- together. Its events are the start, the start of the answer, a token for each delta, the length
  -- of the answer, and the answer.
  pub chat_complete :
      {s : Stream}
      → p.mode ≡ chat
      → pipeline.chat_stream p.input chat_system ≡ s
      → s.ending ≡ none
      → 2 * length s.deltas + 2 ≤ awaits
      → ((body j p awaits).0 ≡ ok (ok_result j p (flatten s.deltas) none))
        × (bodies (body j p awaits).1.events ≡ chat_bodies p.input s.deltas)
  unfolding dispatch
  chat_complete {s} is_chat opens ends enough =
      done_by chat is_chat enough
        (map-Does (λ answer. ok_result j p answer none) (run_chat-Does j unset p.input opens ends))

  pub Summarizes-length :
      (index : ℕ) (chunks ss : List Text) → Summarizes j index chunks ss → length ss ≡ length chunks
  Summarizes-length index [] [] h = refl
  Summarizes-length index [] (s ∷ ss) h = absurd h
  Summarizes-length index (c ∷ cs) [] h = absurd h
  Summarizes-length index (c ∷ cs) (s ∷ ss) h = ap suc (Summarizes-length (suc index) cs ss h.1)

  run_url_pipeline-Does :
      (u : Text) (size max_chunks : ℕ) (first : Text) (rest : List Text) {text c : Text}
      {cs : List Text} {s : Stream}
      → pipeline.fetch_text u ≡ ok text
      → chunk_text text size max_chunks ≡ some (c ∷ cs)
      → Summarizes j 0 (c ∷ cs) (first ∷ rest)
      → pipeline.chat_stream (synthesis_prompt (first ∷ rest)) synthesis_system ≡ s
      → s.ending ≡ none
      → Does
          (run_url_pipeline j u size max_chunks)
          (2 * length (first ∷ rest) + 2 * length s.deltas + 5)
          (flatten s.deltas, length (first ∷ rest))
          (url_bodies u (length text) (first ∷ rest) s.deltas)
  unfolding run_url_pipeline valid_body
  run_url_pipeline-Does u size max_chunks first rest {text} {c} {cs} {s} fetches splits sums opens
        ends =
      times (omega arith) (
        then-Does (emit-Does j (Body.started u) refl) (
          bind-Does _ (fetch_stage-Does j unset u fetches) (
            bind-Does _ (chunk_stage-Does j unset text size max_chunks splits) (
              bind-Does _
                (subst
                  (λ total.
                    Does (summarize_each j 0 (length (c ∷ cs)) (c ∷ cs) [])
                      (2 * length (first ∷ rest)) (first ∷ rest)
                      (summary_bodies 0 total (first ∷ rest)))
                  (sym (Summarizes-length 0 (c ∷ cs) (first ∷ rest) sums))
                  (summarize_each-Does j unset 0 (length cs) (c ∷ cs) (first ∷ rest) [] sums))
                (synthesize_stage-Does j unset first rest opens ends)))))

  -- A URL job whose cancel flag is never set, whose page is fetched and has text, whose LLM answers
  -- every call without a failure, and which is not interrupted within two awaits for each chunk and
  -- each delta and five more, returns OK with the deltas of the last answer put together and the
  -- number of chunks. Its events are the start, the fetch, a summary for each chunk in order, the
  -- start of the combined answer, a token for each delta, the lengths, and the answer.
  pub url_complete :
      (first : Text) (rest : List Text) {text c : Text} {cs : List Text} {s : Stream}
      → p.mode ≡ url
      → pipeline.fetch_text p.input ≡ ok text
      → chunk_text text p.chunk_size_chars p.max_chunks ≡ some (c ∷ cs)
      → Summarizes j 0 (c ∷ cs) (first ∷ rest)
      → pipeline.chat_stream (synthesis_prompt (first ∷ rest)) synthesis_system ≡ s
      → s.ending ≡ none
      → 2 * length (first ∷ rest) + 2 * length s.deltas + 5 ≤ awaits
      → ((body j p awaits).0 ≡ ok (ok_result j p (flatten s.deltas) (some (length (first ∷ rest)))))
        × (bodies (body j p awaits).1.events
            ≡ url_bodies p.input (length text) (first ∷ rest) s.deltas)
  unfolding dispatch
  url_complete first rest is_url fetches splits sums opens ends enough = done_by url is_url enough (
      map-Does (λ r. ok_result j p r.0 (some r.1))
        (run_url_pipeline-Does p.input p.chunk_size_chars p.max_chunks first rest fetches splits
          sums opens ends))
