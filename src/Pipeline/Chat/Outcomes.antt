-- ===== src/Pipeline/Chat/Outcomes.antt =====
-- app/pipeline.py, `chat_stream`: when a stream ends in order, and which failures of its service are
-- not turned into a SummarizeError.
use longshot.Common.{ℕ, ◌≡◌, ◌≢◌, ◌⊎◌, Text, true, false, leb, Option, none, some, List, [], ◌∷◌}
use longshot.Tasks.Monad.{Exn}
use longshot.Pipeline.OpenAi.{done, StreamChunk, read_line}
use longshot.Pipeline.Summarize.{LlmMode}
use longshot.Pipeline.Chat.{Fault, Opened, answered, refused, ChatLlm}

-- The end marker is among the lines.
abbrev pub HasDone : (Text → Option StreamChunk) → List Text → Type 0
HasDone validate [] = ⊥
HasDone validate (raw ∷ lines) = (read_line validate raw ≡ done) ⊎ HasDone validate lines

-- A stream ends as its lines do, or in order at the end marker.
abbrev EndsAs : Option Exn → Type 0 → Option Exn → Type 0
EndsAs ending Done result = (result ≡ ending) ⊎ ((result ≡ none) × Done)

-- What the ending of a stream says, given when it can end in order and which exceptions pass: any
-- other failure is a SummarizeError.
abbrev pub Closes : Type 0 → (Text → Text → Type 0) → Option Exn → Type 0
Closes Complete Passed none = Complete
Closes Complete Passed (some (Exn.summarize_error message)) = Unit
Closes Complete Passed (some (Exn.other name message)) = Passed name message
Closes Complete Passed (some _) = ⊥

-- LM Studio answered, and its lines came to their end or to the end marker.
abbrev pub OpenedWhole : (Text → Option StreamChunk) → Opened → Type 0
OpenedWhole validate o =
    (status : ℕ) × (text : Text) × (lines : List Text) × (ending : Option Fault) × (o
      ≡ answered status text lines ending)
    × (leb 400 status ≡ false)
    × ((ending ≡ none) ⊎ HasDone validate lines)

-- An exception in its place that httpx does not count among its RequestErrors.
abbrev pub OpenedPassed : Opened → Text → Text → Type 0
OpenedPassed o name message =
    (o ≡ refused (Fault.raised name message))
    ⊎ ((status : ℕ) × (text : Text) × (lines : List Text) × (o
          ≡ answered status text lines (some (Fault.raised name message)))
        × (leb 400 status ≡ false))

abbrev pub Complete : ChatLlm → LlmMode → (prompt system : Text) → Type 0
Complete l LlmMode.mock prompt system = Unit
Complete l LlmMode.lmstudio prompt system = OpenedWhole l.validate (l.post prompt system)
Complete l LlmMode.real prompt system =
    (l.installed ≡ true) × (l.api_key ≢ []) × ((l.create prompt system).ending ≡ none)

abbrev pub Passes : ChatLlm → LlmMode → (prompt system name message : Text) → Type 0
Passes l LlmMode.mock prompt system name message = ⊥
Passes l LlmMode.lmstudio prompt system name message =
    OpenedPassed (l.post prompt system) name message
Passes l LlmMode.real prompt system name message =
    (l.create prompt system).ending ≡ some (name, message)
