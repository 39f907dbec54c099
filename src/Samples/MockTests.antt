-- ===== src/Samples/MockTests.antt =====
-- The theorems about whole jobs with the mock, and about its stream, at one chat and one page.
use longshot.Common.{
  ◌+◌, ◌*◌, ◌≤◌, ◌≡◌, refl, codes, true, false, some, none, [], ◌∷◌, ◌++◌, length, arith, is_in,
  split, squeeze, is_space,
}
use longshot.Contract.{url}
use longshot.Jobs.MockRuns.{mock_summaries, mock_job, mock_url}
use longshot.Pipeline.Chat.{ChatLlm, Fault, refused, repr, reply_to, stream_mock}
use longshot.Pipeline.Chunk.{chunk_text}
use longshot.Pipeline.Fetch.{fetch_text}
use longshot.Pipeline.Summarize.{Llm, blocks, answered}
use longshot.Tasks.{synthesis_prompt}
use longshot.Tasks.Monad.{ok}
use longshot.Tasks.RunJob.{Params, ok_result}
use longshot.Tasks.RunJob
use longshot.Tasks.Success.{bodies}
use longshot.Tasks.Success.Complete.{url_bodies}
use longshot.Settings.{defaults}
use longshot.Settings.Payloads
use longshot.Settings.Payloads.{Services}
use longshot.Samples.ProcessTests.{tenths}
use longshot.Samples.JobTests.{params}
use longshot.Samples.PipelineTests.{body, get}
use longshot.Samples.Services.{sample_job}

-- Services that the mock never calls, and the settings of an empty environment.
abbrev services : Services tenths
services = record {
  printable = λ c. true;
  lower_other = λ c. c ∷ [];
  installed = false;
  environment_key = none;
  create = λ key model max_tokens prompt. blocks [];
  text_stream = λ key model max_tokens prompt instructions. record { texts = []; ending = none };
  post = λ timeout url request. answered 500 [];
  stream = λ timeout url request. refused (Fault.request_error []);
  validate_answer = λ text. none;
  validate_chunk = λ text. none;
}

abbrev mock_llm : Llm
mock_llm = Payloads.llm tenths (defaults tenths) services

abbrev chat : ChatLlm
chat = Payloads.chat_llm tenths (defaults tenths) services

abbrev url_params : Params
url_params = record params { mode = url }

page_text : fetch_text body get url_params.input ≡ ok (codes "a page")
unfolding fetch_text is_in split squeeze is_space
page_text = refl

page_chunks : chunk_text (codes "a page") 1500 3 ≡ some (codes "a page" ∷ [])
unfolding chunk_text
page_chunks = refl

url_awaits :
    2 * length (codes "a page" ∷ [])
      + 2
        * length
            (reply_to chat.printable (synthesis_prompt (mock_summaries 0 (codes "a page" ∷ []))))
      + 7
    ≤ 1000
unfolding reply_to repr synthesis_prompt
url_awaits = omega arith

mock_url_example :
    ((RunJob.body
        (mock_job sample_job (λ n. refl) url_params body get mock_llm chat refl refl 1000)
        url_params
        1000).0
      ≡ ok (
          ok_result sample_job url_params
            (reply_to chat.printable (synthesis_prompt (mock_summaries 0 (codes "a page" ∷ [])))
              ++ codes " ")
            (some 1)))
    × (bodies
          (RunJob.body
            (mock_job sample_job (λ n. refl) url_params body get mock_llm chat refl refl 1000)
            url_params
            1000).1.events
        ≡ url_bodies
            (codes "hello")
            6
            (mock_summaries 0 (codes "a page" ∷ []))
            (stream_mock chat.printable
              (synthesis_prompt (mock_summaries 0 (codes "a page" ∷ [])))).deltas)
mock_url_example =
    mock_url sample_job (λ n. refl) url_params body get mock_llm chat refl refl 1000 refl page_text
      page_chunks url_awaits
