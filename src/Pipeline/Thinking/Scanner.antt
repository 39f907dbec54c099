-- ===== src/Pipeline/Thinking/Scanner.antt =====
-- app/pipeline.py, `_strip_thinking_streaming`: a reference that looks at one character after the
-- other, and what one search of the loop finds, in terms of that reference.
use longshot.Common.{
  ℕ, zero, suc, ◌+◌, ◌<◌, ◌≡◌, refl, sym, ap, ◌∙◌, Text, starts_with, Bool, true, false, not,
  Bool-cases, inl, inr, Option, none, some, [], ◌∷◌, ◌++◌, map, length, drop, take, arith,
  if◌then◌else◌, append_assoc, length-map, ◌≤◌,
}
use longshot.Pipeline.Thinking.{find, open_tag, close_tag}

-- The tag that ends the text as it goes on now, and what is left of it behind its first character.
abbrev pub tag_for : Bool → Text
tag_for true = close_tag
tag_for false = open_tag

abbrev pub tag_rest : Bool → ℕ
tag_rest true = 7
tag_rest false = 6

-- A text in front of what is shown.
abbrev pub prefix : Text → Text × Bool → Text × Bool
prefix t (shown, in_think) = (t ++ shown, in_think)

-- The part of a text that is shown: all outside a think block, nothing inside.
abbrev pub visible : Bool → Text → Text
visible true s = []
visible false s = s

pub prefix-prefix : (s t : Text) (r : Text × Bool) → prefix s (prefix t r) ≡ prefix (s ++ t) r
prefix-prefix s t (shown, b) = ap (λ u. (u, b)) (sym (append_assoc s t shown))

starts_with-length : (s p : Text) → starts_with s p ≡ true → length p ≤ length s
unfolding starts_with
starts_with-length s [] h = omega arith
starts_with-length [] (b ∷ p) h = cc h
starts_with-length (a ∷ s) (b ∷ p) h = ground (arith, starts_with-length s p)

-- `g` gives the small letter of a character; `skip` characters of a tag are still to be passed.
module _ (g : ℕ → ℕ) where
  unfoldable pub at_tag : Bool → Text → Bool
  at_tag b s = starts_with (map g s) (tag_for b)

  -- A tag that is there has all its characters there.
  pub at_tag-length :
      (b : Bool) (c : ℕ) (s : Text) → at_tag b (c ∷ s) ≡ true → tag_rest b ≤ length s
  unfolding at_tag
  at_tag-length true c s h =
      omega (arith, starts_with-length (map g (c ∷ s)) close_tag h, length-map g s)
  at_tag-length false c s h =
      omega (arith, starts_with-length (map g (c ∷ s)) open_tag h, length-map g s)

  unfoldable pub clean : (skip : ℕ) → (in_think : Bool) → Text → Text × Bool
  unfolding at_tag
  clean skip b [] = ([], b)
  clean (suc skip) b (c ∷ s) = clean skip b s
  clean zero b (c ∷ s) =
      let passed = clean (tag_rest b) (not b) s in
      let kept = clean 0 b s in
      if at_tag b (c ∷ s) then passed else prefix (visible b (c ∷ [])) kept

  pub clean-skip : (k : ℕ) (b : Bool) (s : Text) → clean k b s ≡ clean 0 b (drop k s)
  unfolding clean
  clean-skip zero b s = refl
  clean-skip (suc k) b [] = refl
  clean-skip (suc k) b (c ∷ s) = clean-skip k b s

  pub clean-here :
      (b : Bool) (c : ℕ) (s : Text)
      → at_tag b (c ∷ s) ≡ true
      → clean 0 b (c ∷ s) ≡ clean 0 (not b) (drop (tag_rest b) s)
  unfolding clean
  clean-here b c s here = rw here (clean-skip (tag_rest b) (not b) s)

  pub clean-on :
      (b : Bool) (c : ℕ) (s : Text)
      → at_tag b (c ∷ s) ≡ false
      → clean 0 b (c ∷ s) ≡ prefix (visible b (c ∷ [])) (clean 0 b s)
  unfolding clean
  clean-on b c s on = rw on refl

  find-here :
      (b : Bool) (c : ℕ) (s : Text) (pos : ℕ)
      → at_tag b (c ∷ s) ≡ true
      → find (tag_for b) (map g (c ∷ s)) pos ≡ some pos
  unfolding find at_tag
  find-here b c s pos here = rw here refl

  find-on :
      (b : Bool) (c : ℕ) (s : Text) (pos : ℕ)
      → at_tag b (c ∷ s) ≡ false
      → find (tag_for b) (map g (c ∷ s)) pos ≡ find (tag_for b) (map g s) (suc pos)
  unfolding find at_tag
  find-on b c s pos on = rw on refl

  -- What a search says of the reference: there is no tag, or it comes `m` characters further on.
  abbrev pub Search : Bool → Text → (pos : ℕ) → Option ℕ → Type 0
  Search b s pos none = clean 0 b s ≡ (visible b s, b)
  Search b s pos (some p) =
      (m : ℕ) × (p ≡ pos + m)
      × (m < length s)
      × (clean 0 b s
          ≡ prefix (visible b (take m s)) (clean 0 (not b) (drop (suc (tag_rest b)) (drop m s))))

  prefix-visible :
      (b : Bool) (c : ℕ) (s : Text) (r : Text × Bool)
      → prefix (visible b (c ∷ [])) (prefix (visible b s) r) ≡ prefix (visible b (c ∷ s)) r
  prefix-visible true c s (t, in_think) = refl
  prefix-visible false c s (t, in_think) = refl

  Search-on :
      (b : Bool) (c : ℕ) (s : Text) (pos : ℕ) (o : Option ℕ)
      → at_tag b (c ∷ s) ≡ false
      → Search b s (suc pos) o
      → Search b (c ∷ s) pos o
  Search-on true c s pos none on h = clean-on true c s on ∙ rw h refl
  Search-on false c s pos none on h = clean-on false c s on ∙ rw h refl
  Search-on b c s pos (some p) on (m, at, lt, h) = (
    suc m,
    omega arith,
    omega arith,
    clean-on b c s on ∙ ap (prefix (visible b (c ∷ []))) h ∙ prefix-visible b c (take m s) _,
  )

  prefix-nil : (b : Bool) (r : Text × Bool) → r ≡ prefix (visible b []) r
  prefix-nil true (t, in_think) = refl
  prefix-nil false (t, in_think) = refl

  pub find-Search :
      (b : Bool) (s : Text) (pos : ℕ) → Search b s pos (find (tag_for b) (map g s) pos)
  unfolding find clean
  find-Search true [] pos = refl
  find-Search false [] pos = refl
  find-Search b (c ∷ s) pos = elim (Bool-cases (at_tag b (c ∷ s))) [
    | inl here ↦ rw (find-here b c s pos here) (
      0,
      omega arith,
      omega arith,
      clean-here b c s here ∙ prefix-nil b (clean 0 (not b) (drop (tag_rest b) s)),
    )
    | inr on ↦ rw (find-on b c s pos on) (Search-on b c s pos _ on (find-Search b s (suc pos)))
  ]
