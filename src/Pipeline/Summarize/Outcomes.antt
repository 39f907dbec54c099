-- ===== src/Pipeline/Summarize/Outcomes.antt =====
-- app/pipeline.py, `summarize_chunk`: which answers of a service become summaries, and which of its
-- failures are not turned into a SummarizeError.
use longshot.Common.{ℕ, ◌≡◌, ◌≢◌, ◌⊎◌, Text, codes, true, false, leb, none, some, List, [], ◌∷◌}
use longshot.Tasks.Monad.{Exn, Result, ok, err}
use longshot.Pipeline.Summarize.{
  Llm, Created, blocks, LmStudio, Posted, answered, postprocess_lmstudio, LlmMode,
}

-- What Anthropic and LM Studio returned where a summary comes of it.
abbrev pub CreatedText : Created → Text → Type 0
CreatedText c t = (more : List (Text × Text)) × (c ≡ blocks ((codes "text", t) ∷ more))

abbrev pub PostedText : LmStudio → Posted → Text → Type 0
PostedText l p t =
    (status : ℕ) × (raw : Text) × (content : Text) × (more : List Text) × (p ≡ answered status raw)
    × (leb 400 status ≡ false)
    × (l.validate raw ≡ some (content ∷ more))
    × (t ≡ postprocess_lmstudio l.lower_other content l.strip_thinking)

-- The exceptions that pass as they come: those that a client raises and httpx does not count among
-- its RequestErrors, Pydantic's for an answer that it cannot read, and that of an empty list.
abbrev pub CreatedPassed : Created → Text → Text → Type 0
CreatedPassed c name message =
    (c ≡ Created.raised name message) ⊎ ((c ≡ blocks []) × (name ≡ codes "IndexError"))

abbrev pub PostedPassed : LmStudio → Posted → Text → Text → Type 0
PostedPassed l p name message =
    (p ≡ Posted.raised name message)
    ⊎ ((status : ℕ) × (raw : Text) × (p ≡ answered status raw)
        × (leb 400 status ≡ false)
        × (l.validate raw ≡ none)
        × (name ≡ codes "ValidationError"))

-- What a result says, given when there is a summary and which exceptions pass: any other failure is
-- a SummarizeError.
abbrev pub Accounts : (Text → Type 0) → (Text → Text → Type 0) → Result Text → Type 0
Accounts Good Passed (ok t) = Good t
Accounts Good Passed (err (Exn.summarize_error message)) = Unit
Accounts Good Passed (err (Exn.other name message)) = Passed name message
Accounts Good Passed (err _) = ⊥

abbrev pub Summarized : Llm → LlmMode → (prompt t : Text) → Type 0
Summarized l LlmMode.mock prompt t = Unit
Summarized l LlmMode.real prompt t =
    (l.installed ≡ true) × (l.api_key ≢ []) × CreatedText (l.create prompt) t
Summarized l LlmMode.lmstudio prompt t = PostedText l.lm_studio (l.post prompt) t

abbrev pub Passed : Llm → LlmMode → (prompt name message : Text) → Type 0
Passed l LlmMode.mock prompt name message = ⊥
Passed l LlmMode.real prompt name message = CreatedPassed (l.create prompt) name message
Passed l LlmMode.lmstudio prompt name message =
    PostedPassed l.lm_studio (l.post prompt) name message
