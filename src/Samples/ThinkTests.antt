-- ===== src/Samples/ThinkTests.antt =====
-- The theorems about the removal of think blocks, at one input each.
use longshot.Common.{
  ℕ, ◌+◌, ◌≡◌, refl, Text, codes, true, false, [], ◌∷◌, ◌&&◌, ◌==◌, leb, if◌then◌else◌, map, lower,
  Option, some, none, List, flatten, sym, text_eq, is_space, arith, starts_with,
}
use longshot.Pipeline.Thinking.{strip_thinking_streaming}
use longshot.Pipeline.OpenAi.{StreamChunk, iter_openai_stream}
use longshot.Pipeline.OpenAi.Yields.{contents, AllLowered, AllShown, iter_openai_stream-clean}
use longshot.Pipeline.Thinking.Scanner.{clean, at_tag}
use longshot.Pipeline.Thinking.Split.{AllWhole}
use mathlib.Core.Path.{subst}
use longshot.Pipeline.Thinking.Loop.{strip_thinking_streaming-clean}

abbrev small : ℕ → ℕ
small c = if leb b'A' c && leb c b'Z' then c + 32 else c

abbrev same : ℕ → Text
same c = c ∷ []

-- As in Python, where U+0130 becomes an i and a combining dot.
abbrev dotted : ℕ → Text
dotted c = if c == 304 then b'i' ∷ 775 ∷ [] else c ∷ []

abbrev delta : Text
delta = codes "a<THINK>b</think>c"

lower-delta : lower same delta ≡ map small delta
unfolding lower
lower-delta = refl

strip_thinking_streaming-clean_example :
    strip_thinking_streaming same delta false ≡ (codes "ac", false)
unfolding clean starts_with
strip_thinking_streaming-clean_example =
    strip_thinking_streaming-clean same small delta false lower-delta

-- The loop itself, run.
strip_delta : strip_thinking_streaming same delta true ≡ (codes "c", false)
unfolding strip_thinking_streaming lower
strip_delta = refl

-- A tag that is split between two deltas is not recognised.
split_tag : strip_thinking_streaming same (codes "<thi") false ≡ (codes "<thi", false)
unfolding strip_thinking_streaming lower
split_tag = refl

-- An endpoint whose chunks are their contents.
abbrev echo : Text → Option StreamChunk
echo json = some (record { choices = record { content = some json } ∷ [] })

abbrev lines : List Text
lines =
    codes "data: <think>b"
    ∷ []
    ∷ codes "data: </think>c"
    ∷ codes "data: [DONE]"
    ∷ codes "data: d"
    ∷ []

abbrev parts : List Text
parts = codes "<think>b" ∷ codes "</think>c" ∷ []

contents-echo : contents echo lines ≡ parts
unfolding contents starts_with is_space text_eq
contents-echo = refl

parts-AllWhole : AllWhole small parts
unfolding at_tag starts_with
parts-AllWhole = ground arith

parts-AllLowered : AllLowered dotted small parts
unfolding lower
parts-AllLowered = (refl, (refl, tt))

iter_openai_stream-clean_example :
    (flatten (iter_openai_stream dotted true echo lines none false).deltas
      ≡ (clean small 0 false (flatten (contents echo lines))).0)
    × AllShown (iter_openai_stream dotted true echo lines none false).deltas
iter_openai_stream-clean_example =
    iter_openai_stream-clean dotted small echo lines none
      (subst (AllLowered dotted small) (sym contents-echo) parts-AllLowered)
      (subst (AllWhole small) (sym contents-echo) parts-AllWhole)
