-- ===== src/Contract/Requests.antt =====
-- app/contract.py, `JobRequest`: what its validation promises.
use mathlib.Core.Bool.{true≢false}
use longshot.Common.{
  ℕ, ◌≤◌, ◌≡◌, ◌↔◌, ◌⊎◌, refl, ap, ap₂, sym, ◌∙◌, Text, codes, strip, lower, starts_with, length,
  true, false, Bool-cases, inl, inr, Option, none, some, [], ◌∷◌, ◌++◌, arith,
}
use longshot.Contract.{
  JobMode, url, chat, JobRequest, in_limits, or_detected, detect_mode, resolve, validate_request,
}

-- The limits of the fields, in numbers.
abbrev pub WithinLimits : JobRequest → Type 0
WithinLimits q =
    (1 ≤ length q.input)
    × (length q.input ≤ 8000)
    × (200 ≤ q.chunk_size_chars)
    × (q.chunk_size_chars ≤ 20000)
    × (1 ≤ q.max_chunks)
    × (q.max_chunks ≤ 50)

in_limits-WithinLimits : (q : JobRequest) → (in_limits q ≡ true) ↔ WithinLimits q
unfolding in_limits
in_limits-WithinLimits q = ground arith

-- Without the spaces around it, and in small letters, a text is one of the two schemes and a rest.
abbrev pub IsUrl : (ℕ → Text) → Text → Type 0
IsUrl lower_other text =
    (rest : Text) × ((lower lower_other (strip text) ≡ codes "http://" ++ rest)
      ⊎ (lower lower_other (strip text) ≡ codes "https://" ++ rest))

starts_with_rest : (s p : Text) → starts_with s p ≡ true → (rest : Text) × (s ≡ p ++ rest)
unfolding starts_with
starts_with_rest s [] h = (s, refl)
starts_with_rest [] (b ∷ p) h = cc h
starts_with_rest (a ∷ s) (b ∷ p) h =
    let (same, more) : (a ≡ b) × (starts_with s p ≡ true) = ground arith in
    let (rest, e) = starts_with_rest s p more in (rest, ap₂ (λ c t. c ∷ t) same e)

starts_with-append : (p rest : Text) → starts_with (p ++ rest) p ≡ true
unfolding starts_with
starts_with-append [] rest = refl
starts_with-append (b ∷ p) rest = ground (arith, starts_with-append p rest)

module _ (lower_other : ℕ → Text) (text : Text) where
  url_rest :
      (scheme : Text)
      → starts_with (lower lower_other (strip text)) scheme ≡ true
      → (rest : Text) × (lower lower_other (strip text) ≡ scheme ++ rest)
  url_rest scheme h = starts_with_rest (lower lower_other (strip text)) scheme h

  not_url :
      (scheme rest : Text)
      → starts_with (lower lower_other (strip text)) scheme ≡ false
      → lower lower_other (strip text) ≡ scheme ++ rest
      → ⊥
  not_url scheme rest h e =
      true≢false (sym (ap (λ s. starts_with s scheme) e ∙ starts_with-append scheme rest) ∙ h)

  -- The mode that goes with a text.
  abbrev pub Detected : JobMode → Type 0
  Detected url = IsUrl lower_other text
  Detected chat = IsUrl lower_other text → ⊥

  detect_mode-Detected : Detected (detect_mode lower_other text)
  unfolding detect_mode
  detect_mode-Detected =
      elim (Bool-cases (starts_with (lower lower_other (strip text)) (codes "http://"))) [
        | inl http ↦ rw http (let (rest, e) = url_rest (codes "http://") http in (rest, inl e))
        | inr no_http ↦
            elim (Bool-cases (starts_with (lower lower_other (strip text)) (codes "https://"))) [
              | inl https ↦
                  rw (no_http, https)
                    (let (rest, e) = url_rest (codes "https://") https in (rest, inr e))
              | inr no_https ↦
                  rw (no_http, no_https)
                    (λ is_url. elim is_url.1 [
                      | inl e ↦ not_url (codes "http://") is_url.0 no_http e
                      | inr e ↦ not_url (codes "https://") is_url.0 no_https e
                    ])
            ]
      ]

-- The mode that was given, or else the one that goes with the input.
abbrev pub Resolved : (ℕ → Text) → (input : Text) → Option JobMode → Option JobMode → Type 0
Resolved lower_other input (some given) mode = mode ≡ some given
Resolved lower_other input none mode =
    (m : JobMode) × (mode ≡ some m) × Detected lower_other input m

abbrev pub Validated : (ℕ → Text) → JobRequest → Option JobRequest → Type 0
Validated lower_other q none = WithinLimits q → ⊥
Validated lower_other q (some payload) =
    WithinLimits payload
    × (payload.input ≡ q.input)
    × (payload.chunk_size_chars ≡ q.chunk_size_chars)
    × (payload.max_chunks ≡ q.max_chunks)
    × Resolved lower_other q.input q.mode payload.mode

resolve-Resolved :
    (lower_other : ℕ → Text) (input : Text) (given : Option JobMode)
    → Resolved lower_other input given (some (or_detected given (detect_mode lower_other input)))
unfolding or_detected
resolve-Resolved lower_other input (some given) = refl
resolve-Resolved lower_other input none =
    (detect_mode lower_other input, refl, detect_mode-Detected lower_other input)

-- A request is refused exactly where it is outside the limits: an input of 1 to 8000 characters,
-- chunks of 200 to 20000 characters, 1 to 50 of them. One that is accepted is unchanged but for its
-- mode: that is the given one, or else `url` exactly where the input, without the spaces around it
-- and in small letters, begins with http:// or https://, and `chat` for all others.
pub validate_request-Validated :
    (lower_other : ℕ → Text) (q : JobRequest)
    → Validated lower_other q (validate_request lower_other q)
unfolding validate_request resolve
validate_request-Validated lower_other q = elim (Bool-cases (in_limits q)) [
  | inl fits ↦ rw fits (
    (in_limits-WithinLimits q).0 fits,
    refl,
    refl,
    refl,
    resolve-Resolved lower_other q.input q.mode,
  )
  | inr refused ↦
      rw refused (λ within. true≢false (sym ((in_limits-WithinLimits q).1 within) ∙ refused))
]
