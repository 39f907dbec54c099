-- ===== src/Common/Unicode.antt =====
-- `strip` and `lower` of Python's `str`.
use Prim.Native.Nat.{ℕ, ◌+◌}
use mathlib.Core.Bool.{◌&&◌, ◌||◌, Bool}
use mathlib.Core.List.{[], ◌∷◌, ◌++◌}
use longshot.Common.Tests.{leb, ◌==◌, if◌then◌else◌}
use longshot.Common.Strings.{Text}

-- The code points that `str.isspace` accepts.
unfoldable pub is_space : ℕ → Bool
is_space c =
    (leb 9 c && leb c 13)
    || (leb 28 c && leb c 32)
    || c == 133
    || c == 160
    || c == 5760
    || (leb 8192 c && leb c 8202)
    || c == 8232
    || c == 8233
    || c == 8239
    || c == 8287
    || c == 12288

-- `s.lstrip()`
unfoldable pub lstrip : Text → Text
unfolding is_space
lstrip [] = []
lstrip (c ∷ s) = if is_space c then lstrip s else c ∷ s

-- A character in front of a text that is stripped on the right.
keep : ℕ → Text → Text
unfolding is_space
keep c [] = if is_space c then [] else c ∷ []
keep c (d ∷ r) = c ∷ d ∷ r

-- `s.rstrip()`
unfoldable pub rstrip : Text → Text
unfolding keep
rstrip [] = []
rstrip (c ∷ s) = keep c (rstrip s)

-- `s.strip()`
unfoldable pub strip : Text → Text
unfolding lstrip rstrip
strip s = rstrip (lstrip s)

-- `s.lower()`, one code point at a time. The table of Unicode stands outside the program: it is
-- `lower_other`, for the code points that are not ASCII. A capital sigma at a word's end, where
-- Python looks at the neighbours, has another small letter than elsewhere, also not ASCII.
module _ (lower_other : ℕ → Text) where
  unfoldable pub lower_char : ℕ → Text
  lower_char c =
      if leb 128 c
      then lower_other c
      else if leb b'A' c && leb c b'Z'
      then (c + 32) ∷ []
      else c ∷ []

  unfoldable pub lower : Text → Text
  unfolding lower_char
  lower [] = []
  lower (c ∷ s) = lower_char c ++ lower s
