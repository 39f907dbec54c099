-- ===== src/Pipeline/Summarize/Blocks.antt =====
-- app/pipeline.py, `_THINK_BLOCK_RE.sub`: what it leaves of think blocks that are in order.
use longshot.Common.{
  ℕ, suc, ◌+◌, ◌-◌, ◌≡◌, refl, sym, ap, ◌∙◌, Text, codes, lstrip, is_space, starts_with, Bool,
  Bool-cases, inl, inr, true, false, ◌&&◌, not, ◌==◌, none, some, List, [], ◌∷◌, ◌++◌, append-nil,
  map, length, drop, arith,
}
use longshot.Pipeline.Thinking.{find, open_tag, close_tag}
use longshot.Pipeline.Summarize.{re_small, count_spaces, block_length, sub_blocks}

abbrev pub no_angle : Text → Bool
no_angle [] = true
no_angle (c ∷ s) = not (c == b'<') && no_angle s

pub no_angle-cons :
    (c : ℕ) (s : Text) → no_angle (c ∷ s) ≡ true → ((c == b'<') ≡ false) × (no_angle s ≡ true)
no_angle-cons c s h = ground arith

pub no_angle-append :
    (s t : Text) → no_angle s ≡ true → no_angle t ≡ true → no_angle (s ++ t) ≡ true
no_angle-append [] t h k = k
no_angle-append (c ∷ s) t h k =
    let (other, rest) = no_angle-cons c s h in rw (other, no_angle-append s t rest k) refl

-- What a model writes: a text and a block, so many times, and a text.
abbrev pub written : List (Text × Text) → Text → Text
written [] last = last
written ((text, thought) ∷ more) last =
    text ++ (open_tag ++ (thought ++ (close_tag ++ written more last)))

-- The texts without the blocks, and without the space behind each.
abbrev pub behind : List (Text × Text) → Text → Text
behind [] last = lstrip last
behind ((text, thought) ∷ more) last = lstrip text ++ behind more last

abbrev pub answer : List (Text × Text) → Text → Text
answer [] last = last
answer ((text, thought) ∷ more) last = text ++ behind more last

abbrev pub NoAngles : List (Text × Text) → Type 0
NoAngles [] = Unit
NoAngles ((text, thought) ∷ more) =
    (no_angle text ≡ true) × (no_angle thought ≡ true) × NoAngles more

re_small-other : (c : ℕ) → (c == b'<') ≡ false → (re_small c == b'<') ≡ false
unfolding re_small
re_small-other c h = ground arith

pub starts_with-other :
    (c : ℕ) (s tag : Text) → (c == b'<') ≡ false → starts_with (c ∷ s) (b'<' ∷ tag) ≡ false
unfolding starts_with
starts_with-other c s tag h = rw h refl

block_length-other : (c : ℕ) (s : Text) → (c == b'<') ≡ false → block_length (c ∷ s) ≡ none
unfolding block_length
block_length-other c s h =
    rw (starts_with-other (re_small c) (map re_small s) (codes "think>") (re_small-other c h)) refl

-- A text without tags passes as it is.
pub sub_blocks-text : (s t : Text) → no_angle s ≡ true → sub_blocks 0 (s ++ t) ≡ s ++ sub_blocks 0 t
unfolding sub_blocks
sub_blocks-text [] t h = refl
sub_blocks-text (c ∷ s) t h =
    let (other, rest) = no_angle-cons c s h in
    rw (sub_blocks, block_length-other c (s ++ t) other)
      (ap (λ l. c ∷ l) (sub_blocks-text s t rest))

sub_blocks-skip : (s t : Text) (n : ℕ) → sub_blocks (length s + n) (s ++ t) ≡ sub_blocks n t
unfolding sub_blocks
sub_blocks-skip [] t n =
    let same : length {A = ℕ} [] + n ≡ n = omega arith in ap (λ k. sub_blocks k t) same
sub_blocks-skip (c ∷ s) t n =
    let same : length (c ∷ s) + n ≡ suc (length s + n) = omega arith in
    ap (λ k. sub_blocks k (c ∷ s ++ t)) same ∙ sub_blocks-skip s t n

find-close :
    (s t : Text) (pos : ℕ)
    → no_angle s ≡ true
    → find close_tag (map re_small (s ++ (close_tag ++ t))) pos ≡ some (pos + length s)
unfolding find re_small starts_with
find-close [] t pos h = ap some (omega arith)
find-close (c ∷ s) t pos h =
    let (other, rest) = no_angle-cons c s h in
    rw
      (starts_with-other (re_small c) (map re_small (s ++ (close_tag ++ t))) (codes "/think>")
        (re_small-other c other))
      (find-close s t (suc pos) rest ∙ ap some (omega arith))

-- The space behind a block goes with it.
sub_blocks-spaces :
    (s t : Text)
    → count_spaces t ≡ 0
    → sub_blocks (count_spaces (s ++ t)) (s ++ t) ≡ sub_blocks 0 (lstrip s ++ t)
unfolding sub_blocks count_spaces lstrip
sub_blocks-spaces [] t h = ap (λ k. sub_blocks k t) h
sub_blocks-spaces (c ∷ s) t h = elim (Bool-cases (is_space c)) [
  | inl space ↦ rw space (sub_blocks-spaces s t h)
  | inr other ↦ rw other refl
]

drop-past : (s t : Text) (n : ℕ) → drop (length s + n) (s ++ t) ≡ drop n t
drop-past [] t n = let same : length {A = ℕ} [] + n ≡ n = omega arith in ap (λ k. drop k t) same
drop-past (c ∷ s) t n =
    let same : length (c ∷ s) + n ≡ suc (length s + n) = omega arith in
    ap (λ k. drop k (c ∷ s ++ t)) same ∙ drop-past s t n

drop-block : (s t : Text) → drop (7 + length s + 8) (open_tag ++ (s ++ (close_tag ++ t))) ≡ t
drop-block s t =
    let same : 7 + length s + 8 ≡ length open_tag + (length s + (length close_tag + 0)) =
      omega arith in
    ap (λ k. drop k (open_tag ++ (s ++ (close_tag ++ t)))) same
    ∙ drop-past open_tag (s ++ (close_tag ++ t)) (length s + (length close_tag + 0))
    ∙ drop-past s (close_tag ++ t) (length close_tag + 0)
    ∙ drop-past close_tag t 0

block_length-block :
    (s t : Text)
    → no_angle s ≡ true
    → block_length (open_tag ++ (s ++ (close_tag ++ t))) ≡ some (7 + length s + 8 + count_spaces t)
unfolding block_length
block_length-block s t h =
    rw (find-close s t 7 h) (ap (λ l. some (7 + length s + 8 + count_spaces l)) (drop-block s t))

-- A block is passed with the space behind it.
pub sub_blocks-block :
    (s t : Text)
    → no_angle s ≡ true
    → sub_blocks 0 (open_tag ++ (s ++ (close_tag ++ t))) ≡ sub_blocks (count_spaces t) t
unfolding sub_blocks
sub_blocks-block s t h =
    let whole = codes "think>" ++ (s ++ (close_tag ++ t)) in
    let count : 7 + length s + 8 + count_spaces t - 1
        ≡ length (codes "think>") + (length s + (length close_tag + count_spaces t)) =
      omega arith in
    rw (sub_blocks, block_length-block s t h)
      (ap (λ k. sub_blocks k whole) count
        ∙ sub_blocks-skip (codes "think>") (s ++ (close_tag ++ t)) _
        ∙ sub_blocks-skip s (close_tag ++ t) _
        ∙ sub_blocks-skip close_tag t _)

no_angle-lstrip : (s : Text) → no_angle s ≡ true → no_angle (lstrip s) ≡ true
unfolding lstrip
no_angle-lstrip [] h = refl
no_angle-lstrip (c ∷ s) h = elim (Bool-cases (is_space c)) [
  | inl space ↦ rw space (no_angle-lstrip s (no_angle-cons c s h).1)
  | inr other ↦ rw other h
]

pub no_angle-behind :
    (blocks : List (Text × Text)) (last : Text)
    → NoAngles blocks
    → no_angle last ≡ true
    → no_angle (behind blocks last) ≡ true
no_angle-behind [] last h k = no_angle-lstrip last k
no_angle-behind ((text, thought) ∷ more) last h k =
    no_angle-append (lstrip text) (behind more last) (no_angle-lstrip text h.0)
      (no_angle-behind more last h.2 k)

pub sub_blocks-behind :
    (blocks : List (Text × Text)) (last : Text)
    → NoAngles blocks
    → no_angle last ≡ true
    → sub_blocks (count_spaces (written blocks last)) (written blocks last) ≡ behind blocks last
unfolding sub_blocks
sub_blocks-behind [] last h k =
    ap (λ l. sub_blocks (count_spaces l) l) (sym (append-nil last))
    ∙ sub_blocks-spaces last [] refl
    ∙ sub_blocks-text (lstrip last) [] (no_angle-lstrip last k)
    ∙ append-nil (lstrip last)
sub_blocks-behind ((text, thought) ∷ more) last h k =
    let block = open_tag ++ (thought ++ (close_tag ++ written more last)) in
    sub_blocks-spaces text block refl
    ∙ sub_blocks-text (lstrip text) block (no_angle-lstrip text h.0)
    ∙ ap (λ l. lstrip text ++ l)
        (sub_blocks-block thought (written more last) h.1 ∙ sub_blocks-behind more last h.2 k)
