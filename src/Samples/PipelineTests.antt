-- ===== src/Samples/PipelineTests.antt =====
-- The theorems about fetching and summarising, at one input each.
use longshot.Common.{
  ℕ, ◌≡◌, refl, Text, codes, true, false, Option, some, none, length, List, [], ◌∷◌, strip, lower,
  is_in, is_space, split, squeeze,
}
use longshot.Pipeline.Chat.{ChatLlm, Fault, Opened, refused, repr, chat_stream}
use longshot.Pipeline.Fetch.{Got, page, Fetched, fetch_text, fetch_text-Fetched}
use longshot.Pipeline.Summarize.{
  Llm, LlmMode, LmStudio, blocks, answered, postprocess_lmstudio, summarize_chunk,
}
use longshot.Pipeline.Summarize.Blocks.{written, answer}
use longshot.Pipeline.Summarize.Thoughts.{postprocess_lmstudio-answer}
use longshot.Tasks.Monad.{ok}

abbrev pub body : Text → Option Text
body text = some text

abbrev pub get : Text → Got
get url = page (some (codes "text/html; charset=utf-8")) (codes "  a  page ")

fetched : fetch_text body get (codes "http://h") ≡ ok (codes "a page")
unfolding fetch_text is_in split squeeze is_space
fetched = refl

fetch_text-Fetched_example :
    Fetched body (get (codes "http://h")) (fetch_text body get (codes "http://h"))
fetch_text-Fetched_example = fetch_text-Fetched body get (codes "http://h")

abbrev same : ℕ → Text
same c = c ∷ []

abbrev endpoint : LmStudio
endpoint = record {
  base_url = codes "http://h/v1/";
  strip_thinking = true;
  lower_other = same;
  validate = λ text. some (text ∷ []);
}

abbrev llm : Llm
llm = record {
  mode = LlmMode.lmstudio;
  installed = true;
  api_key = [];
  create = λ prompt. blocks [];
  lm_studio = endpoint;
  post = λ prompt. answered 200 (codes "<Think>so</think> Yes ");
}

summarised : summarize_chunk llm (codes "text") 1 ≡ ok (codes "Yes")
unfolding summarize_chunk postprocess_lmstudio lower strip is_space is_in
summarised = refl

-- A closing tag ahead of a block that is cut off: the reasoning is shown.
cut_off : postprocess_lmstudio same (codes "a</think>b<think>c") true ≡ codes "b<think>c"
unfolding postprocess_lmstudio lower strip is_space is_in
cut_off = refl

abbrev chat : ChatLlm
chat = record {
  mode = LlmMode.mock;
  printable = λ c. true;
  installed = false;
  api_key = [];
  create = λ prompt system. record { texts = []; ending = none };
  base_url = codes "http://h/v1/";
  strip_thinking = true;
  lower_other = same;
  validate = λ text. none;
  post = λ prompt system. refused (Fault.request_error (codes "down"));
}

-- The quotes of a text with an apostrophe.
quoted_it : repr (λ c. true) (codes "it's\n") ≡ codes "\"it's\\n\""
unfolding repr
quoted_it = refl

words : length (chat_stream chat (codes "hi") (codes "s")).deltas ≡ 27
unfolding chat_stream
words = refl

-- One line, and then an exception that is no RequestError.
abbrev broken : ChatLlm
broken = record chat {
  mode = LlmMode.lmstudio;
  post = λ prompt system.
      Opened.answered 200 [] (codes "data: x" ∷ [])
        (some (Fault.raised (codes "DecodingError") (codes "bad gzip")));
}

-- Two blocks, and space around the texts.
abbrev thoughtful : List (Text × Text)
thoughtful = (codes " It ", codes "so") ∷ (codes " is\n", codes "hm") ∷ []

postprocess_lmstudio-answer_example :
    postprocess_lmstudio (λ c. []) (written thoughtful (codes "\n so. ")) true
    ≡ strip (answer thoughtful (codes "\n so. "))
postprocess_lmstudio-answer_example =
    postprocess_lmstudio-answer (λ c. []) (λ c. refl) thoughtful (codes "\n so. ")
      (refl, refl, (refl, refl, tt)) refl
