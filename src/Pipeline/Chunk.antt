-- ===== src/Pipeline/Chunk.antt =====
-- app/pipeline.py, `chunk_text`.
use longshot.Common.{
  ℕ, zero, suc, ◌+◌, ◌-◌, ◌≤◌, ◌<◌, ◌≡◌, Text, ltb, ◌==◌, if◌then◌else◌, Option, none, some, List,
  [], ◌∷◌, map, length, take, drop, arith, flatten, Bool-cases, inl, inr, ◌*◌, refl, ap, sym, ◌∙◌,
  take-add, drop-add, take-nil, drop_of_le, ◌++◌, length-drop, length-take, ◌↔◌,
}
use Prim.Native.Nat.mul
use mathlib.Core.Option.{some-injective}

add-sub : (i n : ℕ) → i + n - i ≡ n
add-sub i n = omega arith

-- `text[i:j]`
unfoldable pub slice : Text → ℕ → ℕ → Text
slice text i j = take (j - i) (drop i text)

-- `range(i, stop, step)`, on fuel.
unfoldable pub range_from : ℕ → ℕ → ℕ → ℕ → List ℕ
range_from zero i stop step = []
range_from (suc fuel) i stop step =
    let rest = range_from fuel (i + step) stop step in if ltb i stop then i ∷ rest else []

-- `chunk_text`; `none` where `range` refuses a step of zero. The range has at most as many elements
-- as the text.
unfoldable pub chunk_text : Text → (size max_chunks : ℕ) → Option (List Text)
unfolding slice range_from
chunk_text text size max_chunks =
    if length text == 0
    then some []
    else if size == 0
    then none
    else some (
        take max_chunks
          (map (λ i. slice text i (i + size)) (range_from (length text) 0 (length text) size)))

window :
    (text : Text) (size i n : ℕ)
    → slice text i (i + size) ++ take n (drop (i + size) text) ≡ take (size + n) (drop i text)
unfolding slice
window text size i n =
    rw (drop-add i size text, add-sub i size) (sym (take-add size n (drop i text)))

-- The windows from place `i` on, put together, are the text from there on, up to `m` windows.
flatten-windows :
    (text : Text) (size fuel i m : ℕ)
    → 0 < size
    → length text ≤ i + fuel
    → flatten (take m (map (λ j. slice text j (j + size)) (range_from fuel i (length text) size)))
      ≡ take (m * size) (drop i text)
unfolding slice range_from
flatten-windows text size zero i m pos h =
    rw (drop_of_le i text (omega arith))
      (ap flatten (take-nil {A = Text} m) ∙ sym (take-nil (m * size)))
flatten-windows text size (suc fuel) i zero pos h = rw mul.zero
flatten-windows text size (suc fuel) i (suc m) pos h = elim (Bool-cases (ltb i (length text))) [
  | inl inside ↦ rw inside (
      ap (λ l. slice text i (i + size) ++ l)
        (flatten-windows text size fuel (i + size) m pos (omega arith))
      ∙ window text size i (m * size)
      ∙ ap (λ k. take k (drop i text)) (omega arith))
  | inr past ↦ rw past (rw (drop_of_le i text (ground arith)) (sym (take-nil (suc m * size))))
]

all_windows : Text → ℕ → List Text
all_windows text size =
    map (λ i. slice text i (i + size)) (range_from (length text) 0 (length text) size)

chunk_text-zero : (x : ℕ) (t : Text) (m : ℕ) → chunk_text (x ∷ t) 0 m ≡ none
unfolding chunk_text
chunk_text-zero x t m = ground arith

chunk_text-suc :
    (x : ℕ) (t : Text) (k m : ℕ)
    → chunk_text (x ∷ t) (suc k) m ≡ some (take m (all_windows (x ∷ t) (suc k)))
unfolding chunk_text all_windows
chunk_text-suc x t k m = ground arith

-- Where `chunk_text` returns a list, the chunks put together are the text, cut off after
-- `max_chunks * size` characters: nothing is lost, repeated or moved.
pub flatten-chunk_text :
    (text : Text) (size max_chunks : ℕ) {chunks : List Text}
    → chunk_text text size max_chunks ≡ some chunks
    → flatten chunks ≡ take (max_chunks * size) text
unfolding chunk_text all_windows
flatten-chunk_text [] size m h = ap flatten (sym (some-injective _ _ h)) ∙ sym (take-nil (m * size))
flatten-chunk_text (x ∷ t) zero m h = cc (chunk_text-zero x t m)
flatten-chunk_text (x ∷ t) (suc k) m h =
    ap flatten (sym (some-injective _ _ (sym (chunk_text-suc x t k m) ∙ h)))
    ∙ flatten-windows (x ∷ t) (suc k) (length (x ∷ t)) 0 m (omega arith) (omega arith)

-- A chunk of a text that is not empty holds between one and `size` characters.
abbrev pub AllSized : ℕ → List Text → Type 0
AllSized size [] = Unit
AllSized size (c ∷ cs) = (1 ≤ length c) × (length c ≤ size) × AllSized size cs

windows_sized :
    (text : Text) (size fuel i m : ℕ)
    → 0 < size
    → AllSized size
        (take m (map (λ j. slice text j (j + size)) (range_from fuel i (length text) size)))
unfolding slice range_from
windows_sized text size fuel i zero pos = tt
windows_sized text size zero i (suc m) pos = tt
windows_sized text size (suc fuel) i (suc m) pos = elim (Bool-cases (ltb i (length text))) [
  | inl inside ↦ rw inside (
    ground (arith, length-take (i + size - i) (drop i text), length-drop i text),
    ground (arith, length-take (i + size - i) (drop i text)),
    windows_sized text size fuel (i + size) m pos,
  )
  | inr past ↦ rw past tt
]

-- Every chunk that `chunk_text` returns holds at least one and at most `size` characters, and there
-- are at most `max_chunks` of them.
pub chunk_text-AllSized :
    (text : Text) (size max_chunks : ℕ) {chunks : List Text}
    → chunk_text text size max_chunks ≡ some chunks
    → AllSized size chunks × (length chunks ≤ max_chunks)
unfolding chunk_text all_windows
chunk_text-AllSized [] size m h = rw (← some-injective _ _ h) (tt, omega arith)
chunk_text-AllSized (x ∷ t) zero m h = cc (chunk_text-zero x t m)
chunk_text-AllSized (x ∷ t) (suc k) m h =
    rw (← some-injective _ _ (sym (chunk_text-suc x t k m) ∙ h)) (
      windows_sized (x ∷ t) (suc k) (length (x ∷ t)) 0 m (omega arith),
      omega (
        arith,
        length-take {0} m (
            map (λ j. slice (x ∷ t) j (j + suc k))
              (range_from (length (x ∷ t)) 0 (length (x ∷ t)) (suc k))),
      ),
    )

-- `chunk_text` refuses nothing but a size of zero, and returns no chunk for the empty text only
-- (or where it may return none).
pub chunk_text-total :
    (text : Text) (size max_chunks : ℕ)
    → 0 < size
    → 0 < max_chunks
    → (chunks : List Text) × (chunk_text text size max_chunks ≡ some chunks)
      × ((chunks ≡ []) ↔ (text ≡ []))
unfolding chunk_text all_windows range_from
chunk_text-total [] size m h k = ([], refl, (λ e. refl, λ e. refl))
chunk_text-total (x ∷ t) zero m h k = absurd (omega arith)
chunk_text-total (x ∷ t) (suc s) zero h k = absurd (omega arith)
chunk_text-total (x ∷ t) (suc s) (suc m) h k = (
  take (suc m) (all_windows (x ∷ t) (suc s)),
  chunk_text-suc x t s (suc m),
  (λ e. ground arith, λ e. cc),
)
