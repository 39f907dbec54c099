-- ===== src/Pipeline/Summarize/Thoughts.antt =====
-- app/pipeline.py, `_postprocess_lmstudio`: an answer whose think blocks are in order.
use longshot.Common.{
  ℕ, ◌≡◌, refl, ap, ◌∙◌, Text, codes, is_in, lower, strip, starts_with, Bool, true, false, ◌||◌,
  ◌==◌, List, [], ◌∷◌, ◌++◌, lower_char, arith,
}
use longshot.Pipeline.Summarize.Blocks.{
  no_angle, no_angle-cons, no_angle-append, written, behind, answer, NoAngles, starts_with-other,
  sub_blocks-text, sub_blocks-block, sub_blocks-behind, no_angle-behind,
}
use longshot.Pipeline.Thinking.{open_tag, close_tag}
use longshot.Pipeline.Summarize.{sub_blocks, unbalanced, postprocess_lmstudio}

or_true : (b : Bool) → (b || true) ≡ true
or_true true = refl
or_true false = refl

module _ (lower_other : ℕ → Text) (plain : (c : ℕ) → no_angle (lower_other c) ≡ true) where
  lower_char-plain : (c : ℕ) → (c == b'<') ≡ false → no_angle (lower_char lower_other c) ≡ true
  unfolding lower_char
  lower_char-plain c h = ground (arith, plain c)

  lower-plain : (s : Text) → no_angle s ≡ true → no_angle (lower lower_other s) ≡ true
  unfolding lower
  lower-plain [] h = refl
  lower-plain (c ∷ s) h =
      let (other, rest) = no_angle-cons c s h in
      no_angle-append (lower_char lower_other c) (lower lower_other s) (lower_char-plain c other)
        (lower-plain s rest)

  is_in-plain : (s : Text) → no_angle s ≡ true → is_in open_tag s ≡ false
  unfolding is_in starts_with
  is_in-plain [] h = refl
  is_in-plain (c ∷ s) h =
      let (other, rest) = no_angle-cons c s h in
      rw (starts_with-other c s (codes "think>") other) (is_in-plain s rest)

  is_in-append : (s t : Text) → is_in open_tag t ≡ true → is_in open_tag (s ++ t) ≡ true
  unfolding is_in
  is_in-append [] t h = h
  is_in-append (c ∷ s) t h = rw (is_in-append s t h) (or_true _)

  is_in-block : (s t : Text) → is_in open_tag (lower lower_other (s ++ (open_tag ++ t))) ≡ true
  unfolding lower is_in starts_with
  is_in-block [] t = refl
  is_in-block (c ∷ s) t =
      is_in-append (lower_char lower_other c) (lower lower_other (s ++ (open_tag ++ t)))
        (is_in-block s t)

  answer-plain :
      (blocks : List (Text × Text)) (last : Text)
      → NoAngles blocks
      → no_angle last ≡ true
      → no_angle (answer blocks last) ≡ true
  answer-plain [] last h k = k
  answer-plain ((text, thought) ∷ more) last h k =
      no_angle-append text (behind more last) h.0 (no_angle-behind more last h.2 k)

  unbalanced-plain : (s : Text) → no_angle s ≡ true → unbalanced lower_other s ≡ s
  unfolding unbalanced
  unbalanced-plain s h = rw (is_in-plain (lower lower_other s) (lower-plain s h)) refl

  -- Take an answer of texts and think blocks in turn, in which neither the texts nor what is
  -- thought has the character "<". With strip_thinking it comes out as its texts alone, each one
  -- behind a block without the space at its start, and the whole without the space at both ends.
  -- (The table of small letters must not make "<" of another character, which that of Unicode does
  -- not.)
  pub postprocess_lmstudio-answer :
      (blocks : List (Text × Text)) (last : Text)
      → NoAngles blocks
      → no_angle last ≡ true
      → postprocess_lmstudio lower_other (written blocks last) true ≡ strip (answer blocks last)
  unfolding postprocess_lmstudio
  postprocess_lmstudio-answer [] last h k =
      rw (is_in-plain (lower lower_other last) (lower-plain last k)) refl
  postprocess_lmstudio-answer ((text, thought) ∷ more) last h k =
      let block = thought ++ (close_tag ++ written more last) in
      let swept : sub_blocks 0 (text ++ (open_tag ++ block)) ≡ text ++ behind more last =
        sub_blocks-text text (open_tag ++ block) h.0
        ∙ ap (λ l. text ++ l)
            (sub_blocks-block thought (written more last) h.1
              ∙ sub_blocks-behind more last h.2 k) in
      rw (is_in-block text block) (
        ap (λ l. strip (unbalanced lower_other l)) swept
        ∙ ap strip (
            unbalanced-plain (text ++ behind more last)
              (answer-plain ((text, thought) ∷ more) last h k)))
