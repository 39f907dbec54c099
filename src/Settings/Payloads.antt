-- ===== src/Settings/Payloads.antt =====
-- app/pipeline.py: the requests that go to LM Studio, built from the settings.
pub mod Requests
use longshot.Common.{
  ℕ, Text, codes, Bool, true, false, ◌&&◌, leb, Option, none, some, List, [], ◌∷◌, ◌++◌,
  rstrip_slash,
}
use longshot.Pipeline.Chat
use longshot.Pipeline.Chat.{ChatLlm}
use longshot.Pipeline.OpenAi.{StreamChunk}
use longshot.Pipeline.Summarize
use longshot.Pipeline.Summarize.{Llm}
use longshot.Settings.{Floats, Settings}

-- `_ChatMessage`
pub data Role : Type 0 where
  system user assistant : Role

pub record ChatMessage : Type 0 where
  pub role : Role
  pub content : Text

abbrev pub summary_instructions : ChatMessage
summary_instructions = record {
  role = system;
  content =
      codes
        "You are a concise summarization assistant. Reply with the summary only — no preamble, no meta-commentary.";
}

module _ (f : Floats) where
  -- `_ChatCompletionRequest`
  pub record ChatCompletionRequest : Type 0 where
    pub model : Text
    pub messages : List ChatMessage
    pub temperature : f.Float
    pub max_tokens : ℕ
    pub stream : Bool

  unfoldable pub valid_request : ChatCompletionRequest → Bool
  valid_request r =
      f.at_most f.f0_0 r.temperature && f.at_most r.temperature f.f2_0 && leb 1 r.max_tokens

  module _ (s : Settings f) where
    -- `settings.lmstudio_model or "lmstudio-loaded"`
    model_name : Text → Text
    model_name [] = codes "lmstudio-loaded"
    model_name (c ∷ cs) = c ∷ cs

    request : List ChatMessage → Bool → ChatCompletionRequest
    unfolding model_name
    request messages stream = record {
      model = model_name s.lmstudio_model;
      messages = messages;
      temperature = s.lmstudio_temperature;
      max_tokens = s.lmstudio_max_tokens;
      stream = stream;
    }

    unfoldable pub summary_request : (prompt : Text) → ChatCompletionRequest
    unfolding request
    summary_request prompt =
        request (summary_instructions ∷ record { role = user; content = prompt } ∷ []) false

    -- `if system:`
    system_message : Text → List ChatMessage
    system_message [] = []
    system_message (c ∷ cs) = record { role = system; content = c ∷ cs } ∷ []

    unfoldable pub stream_request : (prompt instructions : Text) → ChatCompletionRequest
    unfolding request system_message
    stream_request prompt instructions =
        request (system_message instructions ++ record { role = user; content = prompt } ∷ []) true

    -- f"{base_url}/chat/completions"
    pub completions_url : Text
    unfolding rstrip_slash
    completions_url = rstrip_slash s.lmstudio_base_url ++ codes "/chat/completions"

-- The services and packages outside, as the calls of app/pipeline.py reach them: what `os.getenv`
-- returns, the clients of Anthropic and of httpx, and Pydantic's reading of the answers.
pub record Services (f : Floats) : Type 0 where
  pub printable : ℕ → Bool
  pub lower_other : ℕ → Text
  pub installed : Bool
  pub environment_key : Option Text
  pub create : (api_key model : Text) (max_tokens : ℕ) (prompt : Text) → Summarize.Created
  pub text_stream :
      (api_key model : Text) (max_tokens : ℕ) (prompt : Text) (system : Option Text) → Chat.Texts
  pub post : (timeout : f.Float) (url : Text) → ChatCompletionRequest f → Summarize.Posted
  pub stream : (timeout : f.Float) (url : Text) → ChatCompletionRequest f → Chat.Opened
  pub validate_answer : Text → Option (List Text)
  pub validate_chunk : Text → Option StreamChunk

-- `os.getenv("ANTHROPIC_API_KEY") or settings.anthropic_api_key`
pub api_key : Option Text → Text → Text
api_key none kept = kept
api_key (some []) kept = kept
api_key (some (c ∷ cs)) kept = c ∷ cs

-- `if system:`
pub unless_empty : Text → Option Text
unless_empty [] = none
unless_empty (c ∷ cs) = some (c ∷ cs)

module _ (f : Floats) (s : Settings f) (x : Services f) where
  -- What `summarize_chunk` and `chat_stream` take from the settings, and the calls that they make.
  abbrev pub llm : Llm
  llm = record {
    mode = s.llm_mode;
    installed = x.installed;
    api_key = api_key x.environment_key s.anthropic_api_key;
    create = x.create (api_key x.environment_key s.anthropic_api_key) s.anthropic_model 400;
    lm_studio = record {
      base_url = s.lmstudio_base_url;
      strip_thinking = s.lmstudio_strip_thinking;
      lower_other = x.lower_other;
      validate = x.validate_answer;
    };
    post = λ prompt.
        x.post s.lmstudio_timeout_seconds (completions_url f s) (summary_request f s prompt);
  }

  abbrev pub chat_llm : ChatLlm
  chat_llm = record {
    mode = s.llm_mode;
    printable = x.printable;
    installed = x.installed;
    api_key = api_key x.environment_key s.anthropic_api_key;
    create = λ prompt instructions.
        x.text_stream (api_key x.environment_key s.anthropic_api_key) s.anthropic_model 1024 prompt
          (unless_empty instructions);
    base_url = s.lmstudio_base_url;
    strip_thinking = s.lmstudio_strip_thinking;
    lower_other = x.lower_other;
    validate = x.validate_chunk;
    post = λ prompt instructions.
        x.stream s.lmstudio_timeout_seconds (completions_url f s)
          (stream_request f s prompt instructions);
  }
