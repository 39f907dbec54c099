-- ===== src/Pipeline/OpenAi/Yields.antt =====
-- app/pipeline.py, `_iter_openai_stream`: what it yields, against the contents of the chunks.
use longshot.Common.{
  ℕ, ◌≡◌, ◌≢◌, refl, sym, ap, ◌∙◌, Text, lower, Bool, true, false, Option, List, [], ◌∷◌, ◌++◌, map,
  flatten,
}
use longshot.Pipeline.Thinking.Scanner.{clean}
use longshot.Pipeline.Thinking.Loop.{strip_thinking_streaming-clean}
use longshot.Pipeline.Thinking.Split.{clean_all, AllWhole, clean-flatten}
use longshot.Pipeline.OpenAi.{
  StreamChunk, Line, skip, done, part, read_line, turn, yielding, shown, iter_openai_stream,
}
use longshot.Tasks.Monad.{Exn, Stream}

-- The contents of the chunks that come in front of the end marker.
contents_of : Line → List Text → List Text
contents_of skip rest = rest
contents_of done rest = []
contents_of (part content) rest = content ∷ rest

unfoldable pub contents : (Text → Option StreamChunk) → List Text → List Text
unfolding contents_of read_line
contents validate [] = []
contents validate (raw ∷ lines) = contents_of (read_line validate raw) (contents validate lines)

abbrev pub AllShown : List Text → Type 0
AllShown [] = Unit
AllShown (delta ∷ deltas) = (delta ≢ []) × AllShown deltas

flatten-yielding :
    (delta : Text) (rest : Stream)
    → flatten (yielding delta rest).deltas ≡ delta ++ flatten rest.deltas
unfolding yielding
flatten-yielding [] rest = refl
flatten-yielding (c ∷ delta) rest = refl

yielding-AllShown :
    (delta : Text) (rest : Stream) → AllShown rest.deltas → AllShown (yielding delta rest).deltas
unfolding yielding
yielding-AllShown [] rest h = h
yielding-AllShown (c ∷ delta) rest h = (λ e. cc e, h)

module _ (lower_other : ℕ → Text) where
  turn-AllShown :
      (strip_thinking : Bool) (l : Line) (rest : Bool → Stream) (in_think : Bool)
      → ((b : Bool) → AllShown (rest b).deltas)
      → AllShown (turn lower_other strip_thinking l rest in_think).deltas
  unfolding turn
  turn-AllShown st skip rest b h = h b
  turn-AllShown st done rest b h = tt
  turn-AllShown st (part content) rest b h = yielding-AllShown _ _ (h _)

  iter_openai_stream-AllShown :
      (validate : Text → Option StreamChunk) (strip_thinking : Bool) (lines : List Text)
      (ending : Option Exn) (in_think : Bool)
      → AllShown
          (iter_openai_stream lower_other strip_thinking validate lines ending in_think).deltas
  unfolding iter_openai_stream
  iter_openai_stream-AllShown validate st [] ending b = tt
  iter_openai_stream-AllShown validate st (raw ∷ lines) ending b =
      turn-AllShown st (read_line validate raw) _ b
        (iter_openai_stream-AllShown validate st lines ending)

  shown-false : (s : Text) (b : Bool) → shown lower_other false s b ≡ (s, b)
  unfolding shown
  shown-false [] b = refl
  shown-false (c ∷ s) b = refl

  turn-contents_of :
      (l : Line) (rest : Bool → Stream) (after : List Text) (in_think : Bool)
      → ((b : Bool) → flatten (rest b).deltas ≡ flatten after)
      → flatten (turn lower_other false l rest in_think).deltas ≡ flatten (contents_of l after)
  unfolding turn contents_of
  turn-contents_of skip rest after b h = h b
  turn-contents_of done rest after b h = refl
  turn-contents_of (part content) rest after b h =
      rw
        (
          flatten-yielding (shown lower_other false content b).0
              (rest (shown lower_other false content b).1),
          h,
          shown-false content b,
        )
        refl

  -- Without the removal of think blocks the deltas put together are the contents of the chunks.
  iter_openai_stream-contents :
      (validate : Text → Option StreamChunk) (lines : List Text) (ending : Option Exn)
      (in_think : Bool)
      → flatten (iter_openai_stream lower_other false validate lines ending in_think).deltas
        ≡ flatten (contents validate lines)
  unfolding iter_openai_stream contents
  iter_openai_stream-contents validate [] ending b = refl
  iter_openai_stream-contents validate (raw ∷ lines) ending b =
      turn-contents_of (read_line validate raw) _ (contents validate lines) b
        (iter_openai_stream-contents validate lines ending)

  module _ (g : ℕ → ℕ) where
    -- The small letters of each content are as many characters as the content has.
    abbrev pub AllLowered : List Text → Type 0
    AllLowered [] = Unit
    AllLowered (content ∷ more) = (lower lower_other content ≡ map g content) × AllLowered more

    shown-clean :
        (s : Text) (b : Bool)
        → lower lower_other s ≡ map g s
        → shown lower_other true s b ≡ clean g 0 b s
    unfolding shown clean
    shown-clean [] b h = refl
    shown-clean (c ∷ s) b h = strip_thinking_streaming-clean lower_other g (c ∷ s) b h

    turn-clean_all :
        (l : Line) (rest : Bool → Stream) (after : List Text) (in_think : Bool)
        → AllLowered (contents_of l after)
        → (AllLowered after → (b : Bool) → flatten (rest b).deltas ≡ (clean_all g b after).0)
        → flatten (turn lower_other true l rest in_think).deltas
          ≡ (clean_all g in_think (contents_of l after)).0
    unfolding turn contents_of
    turn-clean_all skip rest after b small h = h small b
    turn-clean_all done rest after b small h = refl
    turn-clean_all (part content) rest after b (here, small) h =
        rw
          (
            flatten-yielding (shown lower_other true content b).0
                (rest (shown lower_other true content b).1),
            h small,
            shown-clean content b here,
          )
          refl

    flatten-clean_all :
        (validate : Text → Option StreamChunk) (lines : List Text) (ending : Option Exn) (b : Bool)
        → AllLowered (contents validate lines)
        → flatten (iter_openai_stream lower_other true validate lines ending b).deltas
          ≡ (clean_all g b (contents validate lines)).0
    unfolding iter_openai_stream contents
    flatten-clean_all validate [] ending b small = refl
    flatten-clean_all validate (raw ∷ lines) ending b small =
        turn-clean_all (read_line validate raw) _ (contents validate lines) b small
          (λ later b'. flatten-clean_all validate lines ending b' later)

    -- Where the small letters of each content are as many characters as the content has, `g` of
    -- each of its characters, and no tag is split between two chunks, the deltas put together are
    -- the whole answer, cleaned of its think blocks at once, and no delta is empty.
    pub iter_openai_stream-clean :
        (validate : Text → Option StreamChunk) (lines : List Text) (ending : Option Exn)
        → AllLowered (contents validate lines)
        → AllWhole g (contents validate lines)
        → (flatten (iter_openai_stream lower_other true validate lines ending false).deltas
            ≡ (clean g 0 false (flatten (contents validate lines))).0)
          × AllShown (iter_openai_stream lower_other true validate lines ending false).deltas
    iter_openai_stream-clean validate lines ending small whole = (
      flatten-clean_all validate lines ending false small
          ∙ ap (λ r. r.0) (sym (clean-flatten g false (contents validate lines) whole)),
      iter_openai_stream-AllShown validate true lines ending false,
    )
