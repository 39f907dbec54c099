-- ===== src/Events/Schema/Returns.antt =====
-- app/events.py: what a chain of reads of fields returns.
use longshot.Common.{
  ◌≡◌, refl, Text, Option, some, none, List, [], ◌∷◌, Bool-cases, inl, inr, text_eq, text_eq_iff,
}
use longshot.Events.Schema.{and_then, member}
use mathlib.Core.Option.{some-injective}
use mathlib.Core.Path.{subst}

-- Whatever a chain of reads returns is as it should be.
unfoldable pub Returns : {A : Type 0} → (A → Type 0) → Option A → Type 0
Returns {A} P o = (a : A) → o ≡ some a → P a

pub Returns-some : {A : Type 0} (P : A → Type 0) (a : A) → P a → Returns P (some a)
unfolding Returns
Returns-some P a p b h = subst P (some-injective a b h) p

pub Returns-and_then :
    {A B : Type 0} (P : B → Type 0) (o : Option A) (f : A → Option B)
    → ((a : A) → o ≡ some a → Returns P (f a))
    → Returns P (and_then o f)
unfolding Returns and_then
Returns-and_then P none f h b e = cc e
Returns-and_then P (some a) f h b e = h a refl b e

pub member-Returns :
    {A : Type 0} (value : A → Text) (all : List A) (s : Text)
    → Returns (λ a. value a ≡ s) (member value all s)
unfolding Returns member
member-Returns value [] s a h = cc h
member-Returns value (x ∷ all) s a h = elim (Bool-cases (text_eq (value x) s)) [
  | inl same ↦
      subst (λ b. value b ≡ s) (some-injective x a (rw same at h))
        ((text_eq_iff (value x) s).0 same)
  | inr differs ↦ member-Returns value all s a (rw differs at h)
]
