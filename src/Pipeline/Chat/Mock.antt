-- ===== src/Pipeline/Chat/Mock.antt =====
-- app/pipeline.py, `_stream_mock`: the words of the reply, put together again.
use longshot.Common.{
  ℕ, length, ◌≤◌, ◌+◌, ◌≡◌, refl, ap, Text, codes, Bool, true, Bool-cases, inl, inr, List, [], ◌∷◌,
  ◌++◌, map, flatten, ◌==◌, none, arith,
}
use longshot.Pipeline.Chat.{onto, split_blank, reply_to, stream_mock}

abbrev spaced : Text → Text
spaced w = w ++ codes " "

snoc-empty : (s : Text) → [] ≡ s ++ codes " " → ⊥
snoc-empty [] h = cc h
snoc-empty (c ∷ s) h = cc h

same : {c : ℕ} → (c == b' ') ≡ true → c ≡ b' '
same h = ground arith

onto-spaced :
    (c : ℕ) (s : Text) (ws : List Text)
    → flatten (map spaced ws) ≡ s ++ codes " "
    → flatten (map spaced (onto c ws)) ≡ c ∷ s ++ codes " "
unfolding onto
onto-spaced c s [] h = absurd (snoc-empty s h)
onto-spaced c s (w ∷ ws) h = ap (λ l. c ∷ l) h

flatten-split_blank : (s : Text) → flatten (map spaced (split_blank s)) ≡ s ++ codes " "
unfolding split_blank
flatten-split_blank [] = refl
flatten-split_blank (c ∷ s) = elim (Bool-cases (c == b' ')) [
  | inl blank ↦ rw (blank, same blank) (ap (λ l. b' ' ∷ l) (flatten-split_blank s))
  | inr inside ↦ rw inside (onto-spaced c s (split_blank s) (flatten-split_blank s))
]

split_blank-cons : (s : Text) → (w : Text) × (ws : List Text) × (split_blank s ≡ w ∷ ws)
unfolding split_blank onto
split_blank-cons [] = ([], [], refl)
split_blank-cons (c ∷ s) =
    let (w, ws, e) = split_blank-cons s in
    elim (Bool-cases (c == b' ')) [
      | inl blank ↦ rw blank ([], split_blank s, refl)
      | inr inside ↦ rw inside (c ∷ w, ws, ap (onto c) e)
    ]

-- There is a blank in front of each word but the first.
pub length-split_blank : (s : Text) → length (split_blank s) ≤ length s + 1
unfolding split_blank onto
length-split_blank [] = omega arith
length-split_blank (c ∷ s) = elim (Bool-cases (c == b' ')) [
  | inl blank ↦ rw blank (omega (arith, length-split_blank s))
  | inr inside ↦ rw inside (
      let (w, ws, e) = split_blank-cons s in
      omega (arith, length-split_blank s, ap length e, ap (λ l. length (onto c l)) e))
]

-- The deltas of the mock, put together, are its reply and one more blank, whatever the prompt; and
-- the stream ends in order.
pub stream_mock-reply :
    (printable : ℕ → Bool) (prompt : Text)
    → (flatten (stream_mock printable prompt).deltas ≡ reply_to printable prompt ++ codes " ")
      × ((stream_mock printable prompt).ending ≡ none)
unfolding stream_mock
stream_mock-reply printable prompt = (flatten-split_blank (reply_to printable prompt), refl)
