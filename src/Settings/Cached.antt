-- ===== src/Settings/Cached.antt =====
-- app/settings.py: what the cache of `get_settings` promises.
use longshot.Common.{
  ℕ, zero, suc, ◌≤◌, ◌<◌, ◌≡◌, refl, sym, ap, ◌∙◌, true, false, Bool-cases, inl, inr, none, some,
  List, [], ◌∷◌, length, get_elem?, arith,
}
use mathlib.Core.Path.{subst}
use mathlib.Core.Option.{some-injective}
use longshot.Settings.{Floats, Settings, valid_settings, read_settings, get_settings, all_settings}

module _ (f : Floats) where
  all_settings-cached :
      (s : Settings f) (es : List (Settings f)) (j : ℕ)
      → j < length es
      → get_elem? (all_settings f (some s) es) j ≡ some (some s)
  unfolding all_settings get_settings
  all_settings-cached s [] j h = absurd (omega arith)
  all_settings-cached s (e ∷ es) zero h = refl
  all_settings-cached s (e ∷ es) (suc j) h = all_settings-cached s es j (omega arith)

  -- A call with settings within the limits keeps them, any other leaves the cache empty.
  all_settings-fits :
      (e : Settings f) (es : List (Settings f))
      → valid_settings f e ≡ true
      → all_settings f none (e ∷ es) ≡ all_settings f (some e) (e ∷ es)
  unfolding all_settings get_settings read_settings
  all_settings-fits e es h = rw h refl

  all_settings-refused :
      (e : Settings f) (es : List (Settings f))
      → valid_settings f e ≡ false
      → all_settings f none (e ∷ es) ≡ none ∷ all_settings f none es
  unfolding all_settings get_settings read_settings
  all_settings-refused e es h = rw h refl

  abbrev Kept : List (Settings f) → (i j : ℕ) → Settings f → Type 0
  Kept es i j s =
      (get_elem? (all_settings f none es) j ≡ some (some s))
      × (valid_settings f s ≡ true)
      × (k : ℕ) × (k ≤ i)
      × (get_elem? es k ≡ some s)

  fits-Kept :
      (e : Settings f) (es : List (Settings f)) (i j : ℕ) {s : Settings f}
      → valid_settings f e ≡ true
      → get_elem? (all_settings f none (e ∷ es)) i ≡ some (some s)
      → i ≤ j
      → j < length (e ∷ es)
      → Kept (e ∷ es) i j s
  fits-Kept e es i j {s} fits g h l =
      let whole = all_settings-fits e es fits in
      let at : (n : ℕ)
          → n < length (e ∷ es)
          → get_elem? (all_settings f none (e ∷ es)) n ≡ some (some e) =
        λ n m. ap (λ rs. get_elem? rs n) whole ∙ all_settings-cached e (e ∷ es) n m in
      let same : e ≡ s = some-injective _ _ (some-injective _ _ (sym (at i (omega arith)) ∙ g)) in
      subst (Kept (e ∷ es) i j) same (at j l, fits, 0, omega arith, refl)

  -- Once a call of `get_settings` has returned settings, each later call returns the same, whatever
  -- the environment has become. They are within their limits, and they are what the environment
  -- said at one of the calls up to the first.
  all_settings-kept :
      (es : List (Settings f)) (i j : ℕ) {s : Settings f}
      → get_elem? (all_settings f none es) i ≡ some (some s)
      → i ≤ j
      → j < length es
      → (get_elem? (all_settings f none es) j ≡ some (some s))
        × (valid_settings f s ≡ true)
        × (k : ℕ) × (k ≤ i)
        × (get_elem? es k ≡ some s)
  unfolding all_settings
  all_settings-kept [] i j g h l = absurd (omega arith)
  all_settings-kept (e ∷ es) zero j {s} g h l = elim (Bool-cases (valid_settings f e)) [
    | inl fits ↦ fits-Kept e es 0 j fits g h l
    | inr refused ↦ cc (ap (λ rs. get_elem? rs 0) (all_settings-refused e es refused), g)
  ]
  all_settings-kept (e ∷ es) (suc i) zero g h l = absurd (omega arith)
  all_settings-kept (e ∷ es) (suc i) (suc j) {s} g h l = elim (Bool-cases (valid_settings f e)) [
    | inl fits ↦ fits-Kept e es (suc i) (suc j) fits g h l
    | inr refused ↦
        let later : (n : ℕ)
            → get_elem? (all_settings f none (e ∷ es)) (suc n)
              ≡ get_elem? (all_settings f none es) n =
          λ n. ap (λ rs. get_elem? rs (suc n)) (all_settings-refused e es refused) in
        let (same, fits, k, early, found) =
          all_settings-kept es i j (sym (later i) ∙ g) (omega arith) (omega arith) in
        (later j ∙ same, fits, suc k, omega arith, found)
  ]
