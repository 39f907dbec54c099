-- ===== src/Pipeline/Thinking.antt =====
-- app/pipeline.py, `_strip_thinking_streaming`: the scanner that keeps reasoning out of the stream.
-- Positions are found in the text in small letters and used in the text as it came, as in the
-- source.
pub mod Scanner
pub mod Split
pub mod Loop
use longshot.Common.{
  ℕ, zero, suc, ◌+◌, Text, codes, starts_with, lower, leb, if◌then◌else◌, Bool, true, false, Option,
  none, some, [], ◌∷◌, ◌++◌, length, drop,
}
use longshot.Pipeline.Chunk.{slice}

-- `s.find(tag)`, with `pos` characters before `s`; the tag is not empty.
unfoldable pub find : Text → Text → ℕ → Option ℕ
unfolding starts_with
find tag [] pos = none
find tag (c ∷ s) pos =
    let rest = find tag s (suc pos) in if starts_with (c ∷ s) tag then some pos else rest

-- `s.find(tag, i)`
unfoldable pub find_from : Text → Text → ℕ → Option ℕ
unfolding find
find_from tag s i = find tag (drop i s) i

abbrev pub open_tag : Text
open_tag = codes "<think>"

abbrev pub close_tag : Text
close_tag = codes "</think>"

-- The `while` loop, on fuel: the text that survives, and `in_think`.
-- `small` is `delta.lower()`.
unfoldable pub scan : (fuel : ℕ) (delta small : Text) (i : ℕ) → Bool → Text → Text × Bool
unfolding find_from slice
scan zero delta small i in_think out = (out, in_think)
scan (suc fuel) delta small i true out =
    if leb (length delta) i then (out, true) else elim (find_from close_tag small i) [
      | none ↦ (out, true)
      | some close ↦ scan fuel delta small (close + length close_tag) false out
    ]
scan (suc fuel) delta small i false out =
    if leb (length delta) i then (out, false) else elim (find_from open_tag small i) [
      | none ↦ (out ++ drop i delta, false)
      | some opn ↦ scan fuel delta small (opn + length open_tag) true (out ++ slice delta i opn)
    ]

unfoldable pub strip_thinking_streaming : (ℕ → Text) → Text → Bool → Text × Bool
unfolding scan
strip_thinking_streaming lower_other delta in_think =
    scan (suc (length delta)) delta (lower lower_other delta) 0 in_think []
