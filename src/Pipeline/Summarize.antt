-- ===== src/Pipeline/Summarize.antt =====
-- app/pipeline.py: `summarize_chunk` and the three ways in which a chunk is summarised.
pub mod Errors
pub mod Outcomes
pub mod Blocks
pub mod Thoughts
use longshot.Common.{
  ℕ, ◌+◌, ◌≡◌, refl, Text, codes, decimal, is_in, text_eq, rstrip_slash, strip, is_space, ◌&&◌,
  ◌||◌, ◌-◌, zero, suc, starts_with, lower, Bool, Bool-cases, inl, inr, true, false, if◌then◌else◌,
  ltb, leb, ◌==◌, Option, none, some, List, [], ◌∷◌, ◌++◌, length, take, drop, map,
}
use longshot.Pipeline.Thinking.{find, open_tag, close_tag}
use longshot.Tasks.Monad.{Exn, Result, ok, err, ModelExn, Raises}

-- `LLMMode`
pub data LlmMode : Type 0 where
  mock real lmstudio : LlmMode

-- `chunk[:80].replace("\n", " ")`
unfoldable pub preview : Text → Text
preview chunk = map (λ c. if c == 10 then b' ' else c) (take 80 chunk)

unfoldable pub summarize_mock : (chunk : Text) (index : ℕ) → Result Text
unfolding preview decimal
summarize_mock chunk index = ok (
    codes "[chunk #"
    ++ decimal index
    ++ codes "] "
    ++ decimal (length chunk)
    ++ codes " chars summarized — opening: "
    ++ preview chunk
    ++ codes "…")

-- What the Anthropic client comes to: the blocks of the answer, of each its type and its text, or
-- an exception with its class name.
pub data Created : Type 0 where
  blocks : List (Text × Text) → Created
  raised : (name message : Text) → Created

pub first_block : List (Text × Text) → Result Text
unfolding text_eq
first_block [] = err (Exn.other (codes "IndexError") (codes "list index out of range"))
first_block ((kind, text) ∷ more) =
    if text_eq kind (codes "text")
    then ok text
    else err (Exn.summarize_error (codes "Unexpected response block type: " ++ kind))

pub created : Created → Result Text
unfolding first_block
created (blocks bs) = first_block bs
created (raised name message) = err (Exn.other name message)

-- `installed` tells whether the package is there, `api_key` is that of the environment or, where
-- that is missing or empty, of the settings; `create` is the client's.
unfoldable pub summarize_with_anthropic :
    (installed : Bool) (api_key : Text) (create : Text → Created) → Text → Result Text
unfolding created
summarize_with_anthropic false api_key create prompt = err (
    Exn.summarize_error (
      codes "LLM_MODE=real but the 'anthropic' package isn't installed. Run: uv sync --extra real"))
summarize_with_anthropic true [] create prompt =
    err (Exn.summarize_error (codes "LLM_MODE=real requires ANTHROPIC_API_KEY"))
summarize_with_anthropic true (c ∷ api_key) create prompt = created (create prompt)

-- The regular expression for a think block, which ignores case as `re` does: the letter i also
-- stands for U+0130 and U+0131, the letter k for U+212A.
re_small : ℕ → ℕ
re_small c =
    if leb b'A' c && leb c b'Z'
    then c + 32
    else if c == 304 || c == 305
    then b'i'
    else if c == 8490
    then b'k'
    else c

pub count_spaces : Text → ℕ
unfolding is_space
count_spaces [] = 0
count_spaces (c ∷ s) = let rest = count_spaces s in if is_space c then suc rest else 0

-- How many characters the expression matches at the start of a text, where it matches.
block_length : Text → Option ℕ
unfolding find starts_with re_small count_spaces
block_length s =
    if starts_with (map re_small s) open_tag
    then elim (find close_tag (map re_small (drop 7 s)) 7) [
      | none ↦ none
      | some close ↦ some (close + 8 + count_spaces (drop (close + 8) s))
    ]
    else none

-- `_THINK_BLOCK_RE.sub("", text)`; `skip` characters of a block are still to be passed.
unfoldable pub sub_blocks : (skip : ℕ) → Text → Text
unfolding block_length
sub_blocks skip [] = []
sub_blocks (suc skip) (c ∷ s) = sub_blocks skip s
sub_blocks zero (c ∷ s) = elim (block_length (c ∷ s)) [
  | none ↦ c ∷ sub_blocks 0 s
  | some n ↦ sub_blocks (n - 1) s
]

module _ (lower_other : ℕ → Text) where
  -- What is done against a tag that is left over.
  unbalanced : Text → Text
  unfolding is_in lower find
  unbalanced text =
      let small = lower lower_other text in
      if is_in open_tag small
      then elim (find close_tag small 0) [ none ↦ [] | some close ↦ drop (close + 8) text ]
      else text

  unfoldable pub postprocess_lmstudio : (content : Text) → (strip_thinking : Bool) → Text
  unfolding unbalanced sub_blocks is_in lower strip
  postprocess_lmstudio content strip_thinking = strip (
      if strip_thinking && is_in open_tag (lower lower_other content)
      then unbalanced (sub_blocks 0 content)
      else content)

-- What httpx comes to: an answer with its status and text, `RequestError`, or another exception.
pub data Posted : Type 0 where
  answered : (status : ℕ) (text : Text) → Posted
  request_error : (message : Text) → Posted
  raised : (name message : Text) → Posted

-- The settings of the endpoint, and Pydantic's reading of its answer: the contents of the choices.
pub record LmStudio : Type 0 where
  pub base_url : Text
  pub strip_thinking : Bool
  pub lower_other : ℕ → Text
  pub validate : Text → Option (List Text)

module _ (l : LmStudio) where
  pub choose : Option (List Text) → Result Text
  unfolding postprocess_lmstudio
  choose none = err (Exn.other (codes "ValidationError") [])
  choose (some []) = err (Exn.summarize_error (codes "LM Studio response had zero choices"))
  choose (some (content ∷ more)) = ok (postprocess_lmstudio l.lower_other content l.strip_thinking)

  pub posted : Posted → Result Text
  unfolding choose rstrip_slash decimal
  posted (answered status text) =
      if leb 400 status
      then err (
          Exn.summarize_error
            (codes "LM Studio returned HTTP " ++ decimal status ++ codes ": " ++ take 300 text))
      else choose (l.validate text)
  posted (request_error message) = err (
      Exn.summarize_error (
        codes "LM Studio unreachable at "
        ++ rstrip_slash l.base_url
        ++ codes ". Is the server running and is a model loaded? ("
        ++ message
        ++ codes ")"))
  posted (raised name message) = err (Exn.other name message)

  unfoldable pub summarize_with_lmstudio : (post : Text → Posted) → Text → Result Text
  unfolding posted
  summarize_with_lmstudio post prompt = posted (post prompt)

-- The settings, the packages and the services that a summary can need.
pub record Llm : Type 0 where
  pub mode : LlmMode
  pub installed : Bool
  pub api_key : Text
  pub create : Text → Created
  pub lm_studio : LmStudio
  pub post : Text → Posted

pub summarize_prompt : Text → Text
summarize_prompt chunk =
    codes "Summarize the following passage in 1-2 sentences:" ++ 10 ∷ 10 ∷ chunk

unfoldable pub summarize_dispatch : Llm → LlmMode → (prompt chunk_for_mock : Text) → ℕ → Result Text
unfolding summarize_mock summarize_with_anthropic summarize_with_lmstudio
summarize_dispatch l mock prompt chunk index = summarize_mock chunk index
summarize_dispatch l real prompt chunk index =
    summarize_with_anthropic l.installed l.api_key l.create prompt
summarize_dispatch l lmstudio prompt chunk index = summarize_with_lmstudio l.lm_studio l.post prompt

unfoldable pub summarize_chunk : Llm → (chunk : Text) (index : ℕ) → Result Text
unfolding summarize_dispatch summarize_prompt
summarize_chunk l chunk index = summarize_dispatch l l.mode (summarize_prompt chunk) chunk index
