-- ===== src/Pipeline/Thinking/Loop.antt =====
-- app/pipeline.py, `_strip_thinking_streaming`: the loop and the reference agree.
use longshot.Common.{
  ℕ, zero, suc, ◌+◌, ◌<◌, ◌≤◌, ◌≡◌, refl, sym, ap, ◌∙◌, Text, lower, Bool, true, false, not,
  Bool-cases, inl, inr, Option, Option-cases, none, some, [], ◌++◌, map, length, drop, take, arith,
  leb, append-nil, drop-add, drop-map, drop_of_le,
}
use longshot.Pipeline.Chunk.{slice}
use longshot.Pipeline.Thinking.{find_from, open_tag, close_tag, scan, strip_thinking_streaming}
use longshot.Pipeline.Thinking.Scanner.{
  tag_for, tag_rest, prefix, visible, prefix-prefix, clean, Search, find-Search,
}

leb-true : (a b : ℕ) → a ≤ b → leb a b ≡ true
leb-true a b h = ground arith

leb-false : (a b : ℕ) → leb a b ≡ false → b < a
leb-false a b h = ground arith

module _ (g : ℕ → ℕ) (delta small : Text) where
  -- What one turn of the loop comes to, after its search.
  next : (fuel : ℕ) → Bool → (i : ℕ) (out : Text) → Option ℕ → Text × Bool
  next fuel b i out none = (out ++ visible b (drop i delta), b)
  next fuel b i out (some p) =
      scan fuel delta small (p + suc (tag_rest b)) (not b) (out ++ visible b (slice delta i p))

  turn :
      (fuel : ℕ) (b : Bool) (i : ℕ) (out : Text)
      → leb (length delta) i ≡ false
      → scan (suc fuel) delta small i b out ≡ next fuel b i out (find_from (tag_for b) small i)
  unfolding scan next
  turn fuel true i out h = elim (Option-cases (find_from close_tag small i)) [
    | inl e ↦ rw (h, e, append-nil out) refl
    | inr (p, e) ↦ rw (h, e, append-nil out) refl
  ]
  turn fuel false i out h = elim (Option-cases (find_from open_tag small i)) [
    | inl e ↦ rw (h, e) refl
    | inr (p, e) ↦ rw (h, e) refl
  ]

  -- Past the end of the delta nothing is left.
  ended :
      (fuel : ℕ) (b : Bool) (i : ℕ) (out : Text)
      → length delta ≤ i
      → scan fuel delta small i b out ≡ prefix out (clean g 0 b (drop i delta))
  unfolding scan clean
  ended zero b i out h = rw (drop_of_le i delta h, append-nil out) refl
  ended (suc fuel) true i out h =
      rw (drop_of_le i delta h, append-nil out, leb-true (length delta) i h) refl
  ended (suc fuel) false i out h =
      rw (drop_of_le i delta h, append-nil out, leb-true (length delta) i h) refl

  abbrev Agrees : (fuel : ℕ) → Type 0
  Agrees fuel =
      (b : Bool) (i : ℕ) (out : Text)
      → length delta ≤ fuel + i
      → scan fuel delta small i b out ≡ prefix out (clean g 0 b (drop i delta))

  slice-at : {p : ℕ} (i m : ℕ) → p ≡ i + m → slice delta i p ≡ take m (drop i delta)
  unfolding slice
  slice-at {p} i m at = ap (λ n. take n (drop i delta)) (omega arith)

  drop-at : {p : ℕ} (i m t : ℕ) → p ≡ i + m → drop (p + t) delta ≡ drop t (drop m (drop i delta))
  drop-at i m t at = rw (at, drop-add (i + m) t delta, drop-add i m delta) refl

  find_from-Search :
      (b : Bool) (i : ℕ)
      → small ≡ map g delta
      → Search g b (drop i delta) i (find_from (tag_for b) small i)
  unfolding find_from
  find_from-Search b i e = rw (e, drop-map g i delta) (find-Search g b (drop i delta) i)

  -- The text up to the tag is put out and the tag is passed, as the reference says.
  found :
      (fuel : ℕ) (b : Bool) (i : ℕ) (out : Text) (o : Option ℕ)
      → length delta ≤ suc fuel + i
      → Agrees fuel
      → Search g b (drop i delta) i o
      → next fuel b i out o ≡ prefix out (clean g 0 b (drop i delta))
  unfolding next
  found fuel b i out none le agrees h = rw h refl
  found fuel b i out (some p) le agrees (m, at, lt, h) =
      agrees (not b) (p + suc (tag_rest b)) (out ++ visible b (slice delta i p)) (omega arith)
      ∙ sym (prefix-prefix out (visible b (slice delta i p)) _)
      ∙ ap (prefix out) (rw (slice-at i m at, drop-at i m (suc (tag_rest b)) at) (sym h))

  scan-clean : small ≡ map g delta → (fuel : ℕ) → Agrees fuel
  scan-clean e zero b i out le = ended zero b i out (omega arith)
  scan-clean e (suc fuel) b i out le = elim (Bool-cases (leb (length delta) i)) [
    | inl past ↦ ended (suc fuel) b i out (ground arith)
    | inr on ↦
        turn fuel b i out on
        ∙ found fuel b i out (find_from (tag_for b) small i) le (scan-clean e fuel)
            (find_from-Search b i e)
  ]

-- Where each character of the delta has a small letter of one character, the loop returns what is
-- left of the delta when one character after the other is looked at: outside a think block the
-- characters are kept up to an opening tag, inside they are dropped up to a closing tag, the tags
-- are dropped in any mix of capital and small letters, and the flag tells where the end stands.
-- The fuel of the loop is enough.
pub strip_thinking_streaming-clean :
    (lower_other : ℕ → Text) (g : ℕ → ℕ) (delta : Text) (in_think : Bool)
    → lower lower_other delta ≡ map g delta
    → strip_thinking_streaming lower_other delta in_think ≡ clean g 0 in_think delta
unfolding strip_thinking_streaming
strip_thinking_streaming-clean lower_other g delta in_think e =
    scan-clean g delta (lower lower_other delta) e (suc (length delta)) in_think 0 [] (omega arith)
