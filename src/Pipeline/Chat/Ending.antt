-- ===== src/Pipeline/Chat/Ending.antt =====
-- app/pipeline.py: what `chat_stream` can end with, and the pipeline that a run uses.
use longshot.Common.{
  ℕ, Text, Bool, true, false, Bool-cases, inl, inr, leb, Option, none, some, List, [], ◌∷◌,
}
use longshot.Tasks.Monad.{Exn, Stream, EndsWith, ModelExn, Pipeline}
use longshot.Pipeline.OpenAi.{
  Line, skip, done, part, StreamChunk, read_line, yielding, turn, iter_openai_stream,
}
use longshot.Pipeline.Summarize.{LlmMode, Llm, summarize_chunk}
use longshot.Pipeline.Summarize.Errors.{summarize_chunk-ModelExn}
use longshot.Pipeline.Fetch.{Got, fetch_text, fetch_text-FetchExn}
use longshot.Pipeline.Chat.{
  Fault, fault_exn, fault_ending, Opened, answered, refused, opened, Texts, ended, other_ending,
  stream_anthropic, stream_mock, ChatLlm, chat_by, chat_stream,
}

yielding-EndsWith :
    (P : Exn → Type 0) (delta : Text) (rest : Stream)
    → EndsWith P rest.ending
    → EndsWith P (yielding delta rest).ending
unfolding yielding
yielding-EndsWith P [] rest h = h
yielding-EndsWith P (c ∷ delta) rest h = h

turn-EndsWith :
    (P : Exn → Type 0) (lower_other : ℕ → Text) (st : Bool) (l : Line) (rest : Bool → Stream)
    (b : Bool)
    → ((b : Bool) → EndsWith P (rest b).ending)
    → EndsWith P (turn lower_other st l rest b).ending
unfolding turn
turn-EndsWith P lower_other st skip rest b h = h b
turn-EndsWith P lower_other st done rest b h = tt
turn-EndsWith P lower_other st (part content) rest b h = yielding-EndsWith P _ _ (h _)

-- A stream of chunks ends in order, or with what ends its lines.
iter-EndsWith :
    (P : Exn → Type 0) (lower_other : ℕ → Text) (st : Bool) (validate : Text → Option StreamChunk)
    (lines : List Text) (ending : Option Exn) (b : Bool)
    → EndsWith P ending
    → EndsWith P (iter_openai_stream lower_other st validate lines ending b).ending
unfolding iter_openai_stream
iter-EndsWith P lower_other st validate [] ending b h = h
iter-EndsWith P lower_other st validate (raw ∷ lines) ending b h =
    turn-EndsWith P lower_other st (read_line validate raw) _ b
      (λ b'. iter-EndsWith P lower_other st validate lines ending b' h)

fault_exn-ModelExn : (base_url : Text) (f : Fault) → ModelExn (fault_exn base_url f)
unfolding fault_exn
fault_exn-ModelExn base_url (Fault.request_error message) = tt
fault_exn-ModelExn base_url (Fault.raised name message) = tt

fault_ending-EndsWith :
    (base_url : Text) (o : Option Fault) → EndsWith ModelExn (fault_ending base_url o)
unfolding fault_ending
fault_ending-EndsWith base_url none = tt
fault_ending-EndsWith base_url (some f) = fault_exn-ModelExn base_url f

other_ending-EndsWith : (o : Option (Text × Text)) → EndsWith ModelExn (other_ending o)
unfolding other_ending
other_ending-EndsWith none = tt
other_ending-EndsWith (some (name, message)) = tt

stream_anthropic-EndsWith :
    (installed : Bool) (api_key : Text) (t : Texts)
    → EndsWith ModelExn (stream_anthropic installed api_key t).ending
unfolding stream_anthropic ended
stream_anthropic-EndsWith false key t = tt
stream_anthropic-EndsWith true [] t = tt
stream_anthropic-EndsWith true (c ∷ key) t = other_ending-EndsWith t.ending

module _ (l : ChatLlm) where
  opened-EndsWith :
      (o : Opened)
      → EndsWith ModelExn (opened l.base_url l.strip_thinking l.lower_other l.validate o).ending
  unfolding opened ended
  opened-EndsWith (answered status text lines ending) = elim (Bool-cases (leb 400 status)) [
    | inl bad ↦ rw bad tt
    | inr fine ↦ rw fine (
        iter-EndsWith ModelExn l.lower_other l.strip_thinking l.validate lines _ false
          (fault_ending-EndsWith l.base_url ending))
  ]
  opened-EndsWith (refused f) = fault_exn-ModelExn l.base_url f

  chat_by-EndsWith :
      (m : LlmMode) (prompt system : Text) → EndsWith ModelExn (chat_by l m prompt system).ending
  unfolding chat_by stream_mock
  chat_by-EndsWith LlmMode.mock prompt system = tt
  chat_by-EndsWith LlmMode.lmstudio prompt system = opened-EndsWith (l.post prompt system)
  chat_by-EndsWith LlmMode.real prompt system =
      stream_anthropic-EndsWith l.installed l.api_key (l.create prompt system)

  -- A stream ends in order or with what a run expects of it.
  pub chat_stream-EndsWith :
      (prompt system : Text) → EndsWith ModelExn (chat_stream l prompt system).ending
  unfolding chat_stream
  chat_stream-EndsWith prompt system = chat_by-EndsWith l.mode prompt system

-- The functions of the module as a run uses them.
abbrev pub pipeline :
    (body : Text → Option Text) (get : Text → Got) (llm : Llm) (chat : ChatLlm) → Pipeline
pipeline body get llm chat = record {
  fetch_text = fetch_text body get;
  summarize_chunk = summarize_chunk llm;
  chat_stream = chat_stream chat;
  fetch_raises = fetch_text-FetchExn body get;
  summarize_raises = summarize_chunk-ModelExn llm;
  stream_raises = chat_stream-EndsWith chat;
}
