-- ===== src/Pipeline/Summarize/Errors.antt =====
-- app/pipeline.py: what `summarize_chunk` can raise.
use longshot.Common.{
  ℕ, Text, codes, text_eq, Bool, true, false, Bool-cases, inl, inr, leb, Option, none, some, List,
  [], ◌∷◌,
}
use longshot.Tasks.Monad.{Raises, ModelExn}
use longshot.Pipeline.Summarize.{
  Llm, Created, blocks, first_block, created, LmStudio, Posted, answered, choose, posted,
  summarize_mock, summarize_with_anthropic, summarize_with_lmstudio, LlmMode, summarize_dispatch,
  summarize_chunk,
}

first_block-ModelExn : (bs : List (Text × Text)) → Raises ModelExn (first_block bs)
unfolding first_block
first_block-ModelExn [] = tt
first_block-ModelExn ((kind, text) ∷ more) = elim (Bool-cases (text_eq kind (codes "text"))) [
  | inl fits ↦ rw fits tt
  | inr other ↦ rw other tt
]

created-ModelExn : (c : Created) → Raises ModelExn (created c)
unfolding created
created-ModelExn (blocks bs) = first_block-ModelExn bs
created-ModelExn (Created.raised name message) = tt

summarize_with_anthropic-ModelExn :
    (installed : Bool) (api_key : Text) (create : Text → Created) (prompt : Text)
    → Raises ModelExn (summarize_with_anthropic installed api_key create prompt)
unfolding summarize_with_anthropic
summarize_with_anthropic-ModelExn false key create prompt = tt
summarize_with_anthropic-ModelExn true [] create prompt = tt
summarize_with_anthropic-ModelExn true (c ∷ key) create prompt = created-ModelExn (create prompt)

choose-ModelExn : (l : LmStudio) (o : Option (List Text)) → Raises ModelExn (choose l o)
unfolding choose
choose-ModelExn l none = tt
choose-ModelExn l (some []) = tt
choose-ModelExn l (some (content ∷ more)) = tt

posted-ModelExn : (l : LmStudio) (p : Posted) → Raises ModelExn (posted l p)
unfolding posted
posted-ModelExn l (answered status text) = elim (Bool-cases (leb 400 status)) [
  | inl bad ↦ rw bad tt
  | inr fine ↦ rw fine (choose-ModelExn l (l.validate text))
]
posted-ModelExn l (Posted.request_error message) = tt
posted-ModelExn l (Posted.raised name message) = tt

summarize_dispatch-ModelExn :
    (l : Llm) (m : LlmMode) (prompt chunk : Text) (index : ℕ)
    → Raises ModelExn (summarize_dispatch l m prompt chunk index)
unfolding summarize_dispatch summarize_mock summarize_with_lmstudio
summarize_dispatch-ModelExn l LlmMode.mock prompt chunk index = tt
summarize_dispatch-ModelExn l LlmMode.real prompt chunk index =
    summarize_with_anthropic-ModelExn l.installed l.api_key l.create prompt
summarize_dispatch-ModelExn l LlmMode.lmstudio prompt chunk index =
    posted-ModelExn l.lm_studio (l.post prompt)

-- A summary raises nothing but what a run expects of it.
pub summarize_chunk-ModelExn :
    (l : Llm) (chunk : Text) (index : ℕ) → Raises ModelExn (summarize_chunk l chunk index)
unfolding summarize_chunk
summarize_chunk-ModelExn l chunk index = summarize_dispatch-ModelExn l l.mode _ chunk index
