-- ===== src/Events/Stamp.antt =====
-- Events with the sequence numbers that a drainer gives them, counted from the one after `n`.
use longshot.Common.{
  ℕ, zero, suc, ◌+◌, ◌<◌, ◌≡◌, refl, ap, ◌∙◌, ◌≡⟨◌⟩◌, ◌∎, true, some, List, [], ◌∷◌, ◌++◌, arith,
  length, get_elem?, take, take-suc, length-take, get_elem?-lt,
}
use longshot.Events.{Event, valid, with_seq}

unfoldable pub stamp : ℕ → List Event → List Event
stamp n [] = []
stamp n (e ∷ es) = with_seq (n + 1) e ∷ stamp (n + 1) es

abbrev pub AllValid : List Event → Type 0
AllValid [] = Unit
AllValid (e ∷ es) = (valid e ≡ true) × AllValid es

pub AllValid-append : (xs ys : List Event) → AllValid xs → AllValid ys → AllValid (xs ++ ys)
AllValid-append [] ys h k = k
AllValid-append (x ∷ xs) ys h k = (h.0, AllValid-append xs ys h.1 k)

pub AllValid-split : (xs ys : List Event) → AllValid (xs ++ ys) → AllValid xs × AllValid ys
AllValid-split [] ys v = (tt, v)
AllValid-split (x ∷ xs) ys v = let (h, k) = AllValid-split xs ys v.1 in ((v.0, h), k)

pub stamp-append :
    (n : ℕ) (xs ys : List Event) → stamp n (xs ++ ys) ≡ stamp n xs ++ stamp (n + length xs) ys
unfolding stamp
stamp-append n [] ys = ap (λ k. stamp k ys) (omega arith)
stamp-append n (x ∷ xs) ys =
    ap (λ t. with_seq (n + 1) x ∷ t)
      (stamp-append (n + 1) xs ys ∙ ap (λ k. stamp (n + 1) xs ++ stamp k ys) (omega arith))

pub length-stamp : (n : ℕ) (xs : List Event) → length (stamp n xs) ≡ length xs
unfolding stamp
length-stamp n [] = refl
length-stamp n (x ∷ xs) = ap suc (length-stamp (n + 1) xs)

-- The event at place `i` has the number that its place says.
pub get_elem?-stamp :
    (n i : ℕ) (xs : List Event)
    → i < length xs
    → AllValid xs
    → (x : Event) × (get_elem? xs i ≡ some x)
      × (get_elem? (stamp n xs) i ≡ some (with_seq (n + i + 1) x))
      × (valid x ≡ true)
unfolding stamp
get_elem?-stamp n i [] h v = elim h [ ]
get_elem?-stamp n zero (x ∷ xs) h v = (x, refl, ap (λ k. some (with_seq k x)) (omega arith), v.0)
get_elem?-stamp n (suc i) (x ∷ xs) h v =
    let (y, at, stamped, fits) = get_elem?-stamp (n + 1) i xs (omega arith) v.1 in
    (y, at, stamped ∙ ap (λ k. some (with_seq k y)) (omega arith), fits)

pub valid-with_seq : (n : ℕ) (e : Event) → valid (with_seq n e) ≡ valid e
unfolding valid with_seq
valid-with_seq n e = refl

pub AllValid-stamp : (n : ℕ) (xs : List Event) → AllValid xs → AllValid (stamp n xs)
unfolding stamp
AllValid-stamp n [] v = tt
AllValid-stamp n (x ∷ xs) v = (valid-with_seq (n + 1) x ∙ v.0, AllValid-stamp (n + 1) xs v.1)

pub AllValid-take : (k : ℕ) (xs : List Event) → AllValid xs → AllValid (take k xs)
AllValid-take zero xs v = tt
AllValid-take (suc k) [] v = tt
AllValid-take (suc k) (x ∷ xs) v = (v.0, AllValid-take k xs v.1)

pub take-stamp : (k n : ℕ) (xs : List Event) → take k (stamp n xs) ≡ stamp n (take k xs)
unfolding stamp
take-stamp zero n xs = refl
take-stamp (suc k) n [] = refl
take-stamp (suc k) n (x ∷ xs) = ap (λ t. with_seq (n + 1) x ∷ t) (take-stamp k (n + 1) xs)

-- The events from place `n` on, put behind the first `n`, take the numbers from `n + 1` on.
pub stamp-take-suc :
    (n : ℕ) (xs : List Event) {x : Event}
    → get_elem? xs n ≡ some x
    → stamp 0 (take (suc n) xs) ≡ stamp 0 (take n xs) ++ with_seq (n + 1) x ∷ []
unfolding stamp
stamp-take-suc n xs {x} h =
    stamp 0 (take (suc n) xs)
    ≡⟨ ap (stamp 0) (take-suc n xs h) ⟩ stamp 0 (take n xs ++ x ∷ [])
    ≡⟨ stamp-append 0 (take n xs) (x ∷ []) ⟩
      stamp 0 (take n xs) ++ stamp (0 + length (take n xs)) (x ∷ [])
    ≡⟨ ap (λ k. stamp 0 (take n xs) ++ stamp k (x ∷ []))
        (omega (arith, length-take n xs, get_elem?-lt n xs h)) ⟩
      stamp 0 (take n xs) ++ with_seq (n + 1) x ∷ [] ∎
