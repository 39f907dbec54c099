-- ===== src/Pipeline/Thinking/Split.antt =====
-- app/pipeline.py, `_strip_thinking_streaming`: a text cleaned at once, or in parts.
use longshot.Common.{
  ℕ, zero, suc, ◌≤◌, ◌≡◌, refl, ap, ◌∙◌, Text, Bool, true, false, not, Bool-cases, inl, inr, List,
  [], ◌∷◌, ◌++◌, length, arith, flatten,
}
use longshot.Pipeline.Thinking.Scanner.{
  tag_rest, prefix, visible, prefix-prefix, at_tag, at_tag-length, clean,
}

module _ (g : ℕ → ℕ) where
  -- No tag begins in `s` and ends in the text behind it: where one is found in both together, it
  -- is found in `s` alone.
  abbrev pub Whole : (s behind : Text) → Type 0
  Whole [] t = Unit
  Whole (c ∷ s) t =
      (at_tag g true (c ∷ s ++ t) ≡ at_tag g true (c ∷ s))
      × (at_tag g false (c ∷ s ++ t) ≡ at_tag g false (c ∷ s))
      × Whole s t

  Whole-at :
      (b : Bool) (c : ℕ) (s t : Text)
      → Whole (c ∷ s) t
      → at_tag g b (c ∷ s ++ t) ≡ at_tag g b (c ∷ s)
  Whole-at true c s t (closes, opens, w) = closes
  Whole-at false c s t (closes, opens, w) = opens

  -- What comes after a part, put behind what is shown of it.
  abbrev then : Text × Bool → Text → Text × Bool
  then (shown, in_think) t = prefix shown (clean g 0 in_think t)

  then-prefix : (u : Text) (r : Text × Bool) (t : Text) → prefix u (then r t) ≡ then (prefix u r) t
  then-prefix u (shown, b) t = prefix-prefix u shown (clean g 0 b t)

  clean-append :
      (k : ℕ) (b : Bool) (s t : Text)
      → k ≤ length s
      → Whole s t
      → clean g k b (s ++ t) ≡ then (clean g k b s) t
  unfolding clean
  clean-append zero b [] t h w = refl
  clean-append (suc k) b [] t h w = elim h [ ]
  clean-append (suc k) b (c ∷ s) t h (closes, opens, w) = clean-append k b s t (omega arith) w
  clean-append zero b (c ∷ s) t h (closes, opens, w) = elim (Bool-cases (at_tag g b (c ∷ s))) [
    | inl here ↦
        rw (Whole-at b c s t (closes, opens, w), here)
          (clean-append (tag_rest b) (not b) s t (at_tag-length g b c s here) w)
    | inr on ↦
        rw (Whole-at b c s t (closes, opens, w), on)
          (ap (prefix (visible b (c ∷ []))) (clean-append 0 b s t (omega arith) w)
            ∙ then-prefix (visible b (c ∷ [])) (clean g 0 b s) t)
  ]

  -- The parts one after the other, with the flag handed on.
  abbrev pub clean_all : Bool → List Text → Text × Bool
  clean_all b [] = ([], b)
  clean_all b (s ∷ parts) =
      let (shown, in_think) = clean g 0 b s in prefix shown (clean_all in_think parts)

  -- No tag is split between two parts or more.
  abbrev pub AllWhole : List Text → Type 0
  AllWhole [] = Unit
  AllWhole (s ∷ parts) = Whole s (flatten parts) × AllWhole parts

  pub clean-flatten :
      (b : Bool) (parts : List Text)
      → AllWhole parts
      → clean g 0 b (flatten parts) ≡ clean_all b parts
  unfolding clean
  clean-flatten b [] w = refl
  clean-flatten b (s ∷ parts) (w, ws) =
      clean-append 0 b s (flatten parts) (omega arith) w
      ∙ ap (prefix (clean g 0 b s).0) (clean-flatten (clean g 0 b s).1 parts ws)
