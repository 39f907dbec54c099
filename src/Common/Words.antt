-- ===== src/Common/Words.antt =====
-- `in`, `split`, `join` and the removal of slashes, of Python's `str`.
use Prim.Native.Nat.{ℕ}
use mathlib.Core.Path.{◌≡◌, refl, sym, ap, ◌∙◌}
use mathlib.Core.Bool.{Bool, false, ◌||◌}
use mathlib.Core.Logic.{◌≢◌, inl, inr}
use mathlib.Core.List.{List, [], ◌∷◌, ◌++◌, append-nil, append_assoc}
use longshot.Common.Tests.{◌==◌, if◌then◌else◌, Bool-cases}
use longshot.Common.Strings.{Text, codes, starts_with, join}
use longshot.Common.Unicode.{is_space}

-- `sub in s`
unfoldable pub is_in : (sub s : Text) → Bool
unfolding starts_with
is_in sub [] = starts_with [] sub
is_in sub (c ∷ s) = starts_with (c ∷ s) sub || is_in sub s

-- A word in front of others, if it is one.
word : Text → List Text → List Text
word [] ws = ws
word (c ∷ w) ws = (c ∷ w) ∷ ws

-- A character in front of a text that has lost the slashes at its end.
put_back : ℕ → Text → Text
put_back c [] = if c == b'/' then [] else c ∷ []
put_back c (d ∷ s) = c ∷ d ∷ s

-- `s.rstrip("/")`
unfoldable pub rstrip_slash : Text → Text
unfolding put_back
rstrip_slash [] = []
rstrip_slash (c ∷ s) = put_back c (rstrip_slash s)

-- `s.split()`, with the characters `w` of a word read before.
unfoldable pub split_from : (w s : Text) → List Text
unfolding word is_space
split_from w [] = word w []
split_from w (c ∷ s) =
    let next = split_from [] s in
    let more = split_from (w ++ c ∷ []) s in if is_space c then word w next else more

unfoldable pub split : Text → List Text
unfolding split_from
split s = split_from [] s

-- `" ".join(s.split())`
unfoldable pub squeeze : Text → Text
unfolding split join
squeeze s = join (codes " ") (split s)

abbrev pub NoSpace : Text → Type 0
NoSpace [] = Unit
NoSpace (c ∷ s) = (is_space c ≡ false) × NoSpace s

abbrev pub AllWords : List Text → Type 0
AllWords [] = Unit
AllWords (w ∷ ws) = (w ≢ []) × NoSpace w × AllWords ws

NoSpace-append : (w : Text) (c : ℕ) → NoSpace w → is_space c ≡ false → NoSpace (w ++ c ∷ [])
NoSpace-append [] c h e = (e, tt)
NoSpace-append (d ∷ w) c (e', h) e = (e', NoSpace-append w c h e)

word-AllWords : (w : Text) (ws : List Text) → NoSpace w → AllWords ws → AllWords (word w ws)
unfolding word
word-AllWords [] ws h hs = hs
word-AllWords (c ∷ w) ws h hs = (λ e. cc e, h, hs)

split_from-AllWords : (w s : Text) → NoSpace w → AllWords (split_from w s)
unfolding split_from
split_from-AllWords w [] h = word-AllWords w [] h tt
split_from-AllWords w (c ∷ s) h = elim (Bool-cases (is_space c)) [
  | inl space ↦ rw space (word-AllWords w _ h (split_from-AllWords [] s tt))
  | inr e ↦ rw e (split_from-AllWords (w ++ c ∷ []) s (NoSpace-append w c h e))
]

-- The characters of a word go to the word.
split_from-append : (v w s : Text) → NoSpace v → split_from w (v ++ s) ≡ split_from (w ++ v) s
unfolding split_from
split_from-append [] w s h = ap (λ u. split_from u s) (sym (append-nil w))
split_from-append (c ∷ v) w s (e, h) =
    rw e (split_from-append v (w ++ c ∷ []) s h)
    ∙ ap (λ u. split_from u s) (append_assoc w (c ∷ []) v)

word-cons : (w : Text) (ws : List Text) → w ≢ [] → word w ws ≡ w ∷ ws
unfolding word
word-cons [] ws h = absurd (h refl)
word-cons (c ∷ w) ws h = refl

after_word : (w s : Text) → w ≢ [] → split_from w (b' ' ∷ s) ≡ w ∷ split s
unfolding split_from split is_space
after_word w s ne = word-cons w (split s) ne

split-append : (w s : Text) → NoSpace w → split (w ++ s) ≡ split_from w s
unfolding split
split-append w s h = split_from-append w [] s h

last_word : (w : Text) → w ≢ [] → split_from w [] ≡ w ∷ []
unfolding split_from
last_word w ne = word-cons w [] ne

split-join : (ws : List Text) → AllWords ws → split (join (codes " ") ws) ≡ ws
unfolding split split_from join
split-join [] h = refl
split-join (w ∷ []) (ne, h, hs) =
    ap split (sym (append-nil w)) ∙ split-append w [] h ∙ last_word w ne
split-join (w ∷ v ∷ ws) (ne, h, hs) =
    ap split (append_assoc w (b' ' ∷ []) (join (codes " ") (v ∷ ws)))
    ∙ split-append w (b' ' ∷ join (codes " ") (v ∷ ws)) h
    ∙ after_word w (join (codes " ") (v ∷ ws)) ne
    ∙ ap (λ us. w ∷ us) (split-join (v ∷ ws) hs)

-- A text that was squeezed is left as it is.
pub squeeze-squeeze : (s : Text) → squeeze (squeeze s) ≡ squeeze s
unfolding squeeze split
squeeze-squeeze s = ap (join (codes " ")) (split-join (split s) (split_from-AllWords [] s tt))

-- Squeezing a text leaves its words.
pub split-squeeze : (s : Text) → split (squeeze s) ≡ split s
unfolding squeeze split
split-squeeze s = split-join (split s) (split_from-AllWords [] s tt)
