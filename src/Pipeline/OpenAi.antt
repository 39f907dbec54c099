-- ===== src/Pipeline/OpenAi.antt =====
-- app/pipeline.py, `_iter_openai_stream`: the deltas in a streamed response of an
-- OpenAI-compatible endpoint.
pub mod Yields
use longshot.Common.{
  ℕ, Text, codes, starts_with, text_eq, strip, Bool, true, false, if◌then◌else◌, Option, none, some,
  List, [], ◌∷◌, drop, length,
}
use longshot.Pipeline.Thinking.{strip_thinking_streaming}
use longshot.Tasks.Monad.{Exn, Stream}

-- `_StreamChunk`, of each choice the field that is read: the content of its delta.
pub record StreamChoice : Type 0 where
  pub content : Option Text

pub record StreamChunk : Type 0 where
  pub choices : List StreamChoice

-- The data of a line, where it has some. (An empty line does not start with "data:".)
unfoldable pub data_of : Text → Option Text
unfolding strip starts_with
data_of raw =
    let line = strip raw in
    if starts_with line (codes "data:") then some (strip (drop 5 line)) else none

or_empty : Option Text → Text
or_empty none = []
or_empty (some content) = content

first_content : List StreamChoice → Text
unfolding or_empty
first_content [] = []
first_content (choice ∷ more) = or_empty choice.content

-- `chunk.choices[0].delta.content or ""`; a line without a chunk or a choice is passed over, as is
-- one with an empty content.
unfoldable pub content_of : Option StreamChunk → Text
unfolding first_content
content_of none = []
content_of (some chunk) = first_content chunk.choices

-- What a line comes to: nothing, the end, or a content.
pub data Line : Type 0 where
  skip done : Line
  part : (content : Text) → Line

-- `yield delta`, of a delta that is not empty.
unfoldable pub yielding : Text → Stream → Stream
yielding [] rest = rest
yielding (c ∷ delta) rest = record { deltas = (c ∷ delta) ∷ rest.deltas; ending = rest.ending }

-- `validate` is Pydantic's `model_validate_json`.
module _ (validate : Text → Option StreamChunk) where
  unfoldable pub read_line : Text → Line
  unfolding data_of text_eq content_of
  read_line raw = elim (data_of raw) [
    | none ↦ skip
    | some json ↦ if text_eq json (codes "[DONE]") then done else part (content_of (validate json))
  ]

module _ (lower_other : ℕ → Text) (strip_thinking : Bool) where
  -- The delta that is left, and `in_think` after it. An empty one leaves `in_think` alone.
  unfoldable pub shown : Text → Bool → Text × Bool
  unfolding strip_thinking_streaming
  shown [] in_think = ([], in_think)
  shown (c ∷ delta) in_think =
      if strip_thinking
      then strip_thinking_streaming lower_other (c ∷ delta) in_think
      else (c ∷ delta, in_think)

  -- One turn of the loop; `rest` is what it goes on with from a value of `in_think`.
  unfoldable pub turn : Line → (rest : Bool → Stream) → Bool → Stream
  unfolding shown yielding
  turn skip rest in_think = rest in_think
  turn done rest in_think = record { deltas = []; ending = none }
  turn (part content) rest in_think =
      let (delta, in_think') = shown content in_think in yielding delta (rest in_think')

  -- `lines` and `ending` are what `aiter_lines` yields, and the exception that ends it, if one does.
  unfoldable pub iter_openai_stream :
      (validate : Text → Option StreamChunk) → List Text → Option Exn → (in_think : Bool) → Stream
  unfolding read_line turn
  iter_openai_stream validate [] ending in_think = record { deltas = []; ending = ending }
  iter_openai_stream validate (raw ∷ lines) ending in_think =
      turn (read_line validate raw) (iter_openai_stream validate lines ending) in_think
