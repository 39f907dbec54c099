-- ===== src/Pipeline/Chat.antt =====
-- app/pipeline.py: `chat_stream` and its three sources.
pub mod Ending
pub mod Outcomes
pub mod Mock
use longshot.Common.{
  ℕ, ◌+◌, ◌-◌, ◌/◌, ◌%◌, ◌≡◌, refl, Text, codes, decimal, rstrip_slash, Bool, Bool-cases, inl, inr,
  true, false, ◌&&◌, ◌||◌, not, if◌then◌else◌, ltb, leb, ◌==◌, Option, none, some, List, [], ◌∷◌,
  ◌++◌, take, map, flatten,
}
use longshot.Pipeline.OpenAi.{StreamChunk, iter_openai_stream}
use longshot.Pipeline.Summarize.{LlmMode, mock, real, lmstudio}
use longshot.Tasks.Monad.{Exn, Stream, ModelExn, EndsWith}

has : ℕ → Text → Bool
has c [] = false
has c (d ∷ s) = d == c || has c s

-- A hexadecimal numeral of so many digits.
hex_digit : ℕ → ℕ
hex_digit d = if ltb d 10 then b'0' + d else b'a' + (d - 10)

hex : (digits : ℕ) → ℕ → Text → Text
unfolding hex_digit
hex ℕ.zero n after = after
hex (ℕ.suc digits) n after = hex digits (n / 16) (hex_digit (n % 16) ∷ after)

-- `repr(s)`. `printable` is the table of Unicode for the code points that are not ASCII.
module _ (printable : ℕ → Bool) where
  escaped : (quote c : ℕ) → Text
  unfolding hex
  escaped quote c =
      if c == quote || c == b'\\'
      then b'\\' ∷ c ∷ []
      else if c == 9
      then codes "\\t"
      else if c == 10
      then codes "\\n"
      else if c == 13
      then codes "\\r"
      else if (leb 32 c && ltb c 127) || (leb 128 c && printable c)
      then c ∷ []
      else if ltb c 256
      then codes "\\x" ++ hex 2 c []
      else if ltb c 65536
      then codes "\\u" ++ hex 4 c []
      else codes "\\U" ++ hex 8 c []

  quoted : (quote : ℕ) → Text → Text
  unfolding escaped
  quoted quote s = quote ∷ flatten (map (escaped quote) s) ++ quote ∷ []

  unfoldable pub repr : Text → Text
  unfolding quoted has
  repr s = quoted (if has 39 s && not (has 34 s) then 34 else 39) s

-- A character in front of the words of a text.
onto : ℕ → List Text → List Text
onto c [] = (c ∷ []) ∷ []
onto c (w ∷ ws) = (c ∷ w) ∷ ws

-- `s.split(" ")`
unfoldable pub split_blank : Text → List Text
unfolding onto
split_blank [] = [] ∷ []
split_blank (c ∷ s) = let rest = split_blank s in if c == b' ' then [] ∷ rest else onto c rest

unfoldable pub reply_to : (ℕ → Bool) → Text → Text
unfolding repr
reply_to printable prompt =
    codes
      "This is a mock streaming response. The mock LLM has no actual reasoning ability, but it does demonstrate token-by-token rendering end to end. You asked about: "
    ++ repr printable (take 120 (map (λ c. if c == 10 then b' ' else c) prompt))
    ++ codes "."

unfoldable pub stream_mock : (ℕ → Bool) → Text → Stream
unfolding split_blank reply_to
stream_mock printable prompt = record {
  deltas = map (λ w. w ++ codes " ") (split_blank (reply_to printable prompt));
  ending = none;
}

-- What goes wrong on the way: httpx's `RequestError`, or another exception with its class name.
pub data Fault : Type 0 where
  request_error : (message : Text) → Fault
  raised : (name message : Text) → Fault

-- What `client.stream` comes to: an answer with its status, its text, its lines and what ends them,
-- or a fault.
pub data Opened : Type 0 where
  answered : (status : ℕ) (text : Text) (lines : List Text) (ending : Option Fault) → Opened
  refused : Fault → Opened

pub ended : Exn → Stream
ended e = record { deltas = []; ending = some e }

module _ (base_url : Text) where
  pub fault_exn : Fault → Exn
  unfolding rstrip_slash
  fault_exn (request_error message) = Exn.summarize_error (
      codes "LM Studio unreachable at "
      ++ rstrip_slash base_url
      ++ codes ". Is the server running and is a model loaded? ("
      ++ message
      ++ codes ")")
  fault_exn (raised name message) = Exn.other name message

  pub fault_ending : Option Fault → Option Exn
  unfolding fault_exn
  fault_ending none = none
  fault_ending (some f) = some (fault_exn f)

module _ (base_url : Text) (strip_thinking : Bool) (lower_other : ℕ → Text)
    (validate : Text → Option StreamChunk) where
  pub opened : Opened → Stream
  unfolding fault_ending ended iter_openai_stream decimal
  opened (answered status text lines ending) =
      if leb 400 status
      then ended (
          Exn.summarize_error
            (codes "LM Studio HTTP " ++ decimal status ++ codes ": " ++ take 300 text))
      else iter_openai_stream lower_other strip_thinking validate lines
          (fault_ending base_url ending) false
  opened (refused f) = ended (fault_exn base_url f)

-- What the Anthropic client streams, and the exception that ends it, with its class name.
pub record Texts : Type 0 where
  pub texts : List Text
  pub ending : Option (Text × Text)

pub other_ending : Option (Text × Text) → Option Exn
other_ending none = none
other_ending (some (name, message)) = some (Exn.other name message)

pub stream_anthropic : (installed : Bool) (api_key : Text) → Texts → Stream
unfolding ended other_ending
stream_anthropic false api_key t = ended (
    Exn.summarize_error (
      codes "LLM_MODE=real but the 'anthropic' package isn't installed. Run: uv sync --extra real"))
stream_anthropic true [] t =
    ended (Exn.summarize_error (codes "LLM_MODE=real requires ANTHROPIC_API_KEY"))
stream_anthropic true (c ∷ api_key) t = record { deltas = t.texts; ending = other_ending t.ending }

-- The settings, the packages and the services that a stream can need; `post` and `create` take the
-- prompt and the system prompt.
pub record ChatLlm : Type 0 where
  pub mode : LlmMode
  pub printable : ℕ → Bool
  pub installed : Bool
  pub api_key : Text
  pub create : (prompt system : Text) → Texts
  pub base_url : Text
  pub strip_thinking : Bool
  pub lower_other : ℕ → Text
  pub validate : Text → Option StreamChunk
  pub post : (prompt system : Text) → Opened

module _ (l : ChatLlm) where
  unfoldable pub chat_by : LlmMode → (prompt system : Text) → Stream
  unfolding stream_mock opened stream_anthropic
  chat_by mock prompt system = stream_mock l.printable prompt
  chat_by lmstudio prompt system =
      opened l.base_url l.strip_thinking l.lower_other l.validate (l.post prompt system)
  chat_by real prompt system = stream_anthropic l.installed l.api_key (l.create prompt system)

  unfoldable pub chat_stream : (prompt system : Text) → Stream
  unfolding chat_by
  chat_stream prompt system = chat_by l.mode prompt system
