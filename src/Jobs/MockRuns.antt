-- ===== src/Jobs/MockRuns.antt =====
-- app/tasks.py and app/pipeline.py with LLM_MODE=mock, the default: whole jobs, with no network but
-- for the page of a URL job.
use longshot.Common.{
  ℕ, suc, ◌+◌, ◌*◌, ◌≤◌, ◌≡◌, refl, ap, ap₂, ◌∙◌, Text, codes, false, Option, none, some, List, [],
  ◌∷◌, ◌++◌, length, arith, length-map,
}
use longshot.Contract.{url, chat}
use longshot.Pipeline.Chat.{ChatLlm, reply_to, stream_mock, chat_by, chat_stream}
use longshot.Pipeline.Chat.Ending.{pipeline}
use longshot.Pipeline.Chat.Mock.{stream_mock-reply, length-split_blank}
use longshot.Pipeline.Chunk.{chunk_text}
use longshot.Pipeline.Fetch.{Got, fetch_text}
use longshot.Pipeline.Summarize.{Llm, LlmMode, summarize_mock, summarize_dispatch, summarize_chunk}
use longshot.Tasks.{synthesis_prompt, synthesis_system, chat_system}
use longshot.Tasks.Monad.{Result, ok, err, Job, answer}
use longshot.Tasks.RunJob.{Params, ok_result, body}
use longshot.Tasks.Success.{bodies}
use longshot.Tasks.Success.Stages.{chat_bodies, Summarizes}
use longshot.Tasks.Success.Complete.{Summarizes-length, chat_complete, url_bodies, url_complete}

-- What the mock makes of chunks, the first of which has the number `index`.
abbrev pub summary_of : Result Text → Text
summary_of (ok summary) = summary
summary_of (err e) = []

abbrev pub mock_summaries : (index : ℕ) → List Text → List Text
mock_summaries index [] = []
mock_summaries index (c ∷ cs) = summary_of (summarize_mock c index) ∷ mock_summaries (suc index) cs

module _ (base : Job) (unset : (n : ℕ) → base.poll n ≡ answer false) (p : Params)
    (html : Text → Option Text) (get : Text → Got) (llm : Llm) (talk : ChatLlm)
    (mocked : llm.mode ≡ LlmMode.mock) (talks : talk.mode ≡ LlmMode.mock) (awaits : ℕ) where
  abbrev pub mock_job : Job
  mock_job = record base { pipeline = pipeline html get llm talk }

  chat_stream-mock :
      (prompt system : Text) → chat_stream talk prompt system ≡ stream_mock talk.printable prompt
  unfolding chat_stream chat_by
  chat_stream-mock prompt system = rw talks refl

  deltas-length :
      (prompt : Text)
      → length (stream_mock talk.printable prompt).deltas
        ≤ length (reply_to talk.printable prompt) + 1
  unfolding stream_mock
  deltas-length prompt = rw length-map (length-split_blank (reply_to talk.printable prompt))

  chunks-Summarizes :
      (index : ℕ) (cs : List Text) → Summarizes mock_job index cs (mock_summaries index cs)
  unfolding summarize_chunk summarize_dispatch summarize_mock
  chunks-Summarizes index [] = tt
  chunks-Summarizes index (c ∷ cs) = (rw mocked refl, chunks-Summarizes (suc index) cs)

  -- A chat with the mock whose cancel flag is never set, and which is not interrupted within two
  -- awaits for each character of the canned reply and four more, returns OK with the reply and a
  -- blank, and streams it word by word.
  mock_chat :
      p.mode ≡ chat
      → 2 * length (reply_to talk.printable p.input) + 4 ≤ awaits
      → ((body mock_job p awaits).0
          ≡ ok (ok_result mock_job p (reply_to talk.printable p.input ++ codes " ") none))
        × (bodies (body mock_job p awaits).1.events
            ≡ chat_bodies p.input (stream_mock talk.printable p.input).deltas)
  mock_chat is_chat enough =
      let (whole, in_order) = stream_mock-reply talk.printable p.input in
      let (result, events) =
        chat_complete p mock_job unset awaits is_chat (chat_stream-mock p.input chat_system)
          in_order (omega (arith, deltas-length p.input)) in
      (result ∙ ap (λ text. ok (ok_result mock_job p text none)) whole, events)

  -- A URL job with the mock whose cancel flag is never set, whose page is fetched and has text, and
  -- which is not interrupted within two awaits for each chunk and each character of the canned
  -- reply and seven more, returns OK with the reply to the prompt made of the summaries of the
  -- mock, a blank, and the number of chunks. Its events are those of every stage, with a summary
  -- for each chunk in order.
  pub mock_url :
      {text c : Text} {cs : List Text}
      → p.mode ≡ url
      → fetch_text html get p.input ≡ ok text
      → chunk_text text p.chunk_size_chars p.max_chunks ≡ some (c ∷ cs)
      → 2 * length (c ∷ cs)
          + 2 * length (reply_to talk.printable (synthesis_prompt (mock_summaries 0 (c ∷ cs))))
          + 7
        ≤ awaits
      → ((body mock_job p awaits).0
          ≡ ok (
              ok_result mock_job p
                (reply_to talk.printable (synthesis_prompt (mock_summaries 0 (c ∷ cs)))
                  ++ codes " ")
                (some (length (c ∷ cs)))))
        × (bodies (body mock_job p awaits).1.events
            ≡ url_bodies p.input
                (length text)
                (mock_summaries 0 (c ∷ cs))
                (stream_mock talk.printable (synthesis_prompt (mock_summaries 0 (c ∷ cs)))).deltas)
  mock_url {text} {c} {cs} is_url fetches splits enough =
      let prompt = synthesis_prompt (mock_summaries 0 (c ∷ cs)) in
      let (whole, in_order) = stream_mock-reply talk.printable prompt in
      let counted : length (mock_summaries 0 (c ∷ cs)) ≡ length (c ∷ cs) =
        Summarizes-length p mock_job unset awaits 0 (c ∷ cs) (mock_summaries 0 (c ∷ cs))
          (chunks-Summarizes 0 (c ∷ cs)) in
      let (result, events) =
        url_complete p mock_job unset awaits (summary_of (summarize_mock c 0)) (mock_summaries 1 cs)
          is_url fetches splits (chunks-Summarizes 0 (c ∷ cs))
          (chat_stream-mock prompt synthesis_system) in_order
          (omega (arith, deltas-length prompt, counted)) in
      (result ∙ ap₂ (λ answer n. ok (ok_result mock_job p answer (some n))) whole counted, events)
