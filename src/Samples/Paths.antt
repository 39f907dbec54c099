-- ===== src/Samples/Paths.antt =====
-- A matching of paths with the templates of the routes, as Starlette documents its own.
use longshot.Common.{
  ℕ, ◌≡◌, ◌≢◌, ◌↔◌, refl, ap, sym, ◌∙◌, Text, codes, text_eq, text_eq_iff, text_eq_refl, Bool, true,
  ◌&&◌, not, Option, some, none, [], ◌∷◌, ◌++◌, ◌==◌, if◌then◌else◌, arith, Bool-cases, inl, inr,
}
use longshot.Api.Routes.{Template, exact, with_session, mounted, NoSlash, Fits}
use mathlib.Core.List.{append_cancel_right}
use mathlib.Core.Option.{some-injective}
use mathlib.Core.Path.{subst}

strip_prefix : Text → Text → Option Text
strip_prefix [] s = some s
strip_prefix (c ∷ p) [] = none
strip_prefix (c ∷ p) (d ∷ s) = if c == d then strip_prefix p s else none

strip_prefix_lem : (p s rest : Text) → (strip_prefix p s ≡ some rest) ↔ (s ≡ p ++ rest)
unfolding strip_prefix
strip_prefix_lem [] s rest = (λ h. cc h, λ h. ap some h)
strip_prefix_lem (c ∷ p) [] rest = (λ h. cc h, λ h. cc h)
strip_prefix_lem (c ∷ p) (d ∷ s) rest = ground (arith, strip_prefix_lem p s rest)

found_behind : ℕ → Option Text → Option Text
found_behind c none = none
found_behind c (some s) = some (c ∷ s)

strip_suffix : Text → Text → Option Text
unfolding found_behind
strip_suffix a [] = if text_eq [] a then some [] else none
strip_suffix a (c ∷ s) =
    let later = found_behind c (strip_suffix a s) in if text_eq (c ∷ s) a then some [] else later

not_slash : Text → Bool
not_slash [] = true
not_slash (c ∷ s) = not (c == b'/') && not_slash s

not_slash_iff : (s : Text) → (not_slash s ≡ true) ↔ NoSlash s
unfolding not_slash
not_slash_iff [] = (λ _. tt, λ _. refl)
not_slash_iff (c ∷ s) = ground (arith, not_slash_iff s)

piece : Text → Option Text
unfolding not_slash
piece [] = none
piece (c ∷ s) = if not_slash (c ∷ s) then some (c ∷ s) else none

piece_complete : (s : Text) → s ≢ [] → NoSlash s → piece s ≡ some s
unfolding piece
piece_complete [] ne ok = absurd (ne refl)
piece_complete (c ∷ s) ne ok = rw ((not_slash_iff (c ∷ s)).1 ok)

piece_sound : (s rest : Text) → piece s ≡ some rest → (s ≡ rest) × (rest ≢ []) × NoSlash rest
unfolding piece
piece_sound [] rest h = cc h
piece_sound (c ∷ s) rest h = elim (Bool-cases (not_slash (c ∷ s))) [
  | inl ok ↦
      let e : ◌≡◌ {A = Text} (c ∷ s) rest = some-injective _ _ (sym (rw ok refl) ∙ h) in
      (e, (λ n. cc (e, n)), subst NoSlash e ((not_slash_iff (c ∷ s)).0 ok))
  | inr slash ↦ cc (slash, h)
]

at_suffix : (a s rest : Text) → text_eq s a ≡ true → some [] ≡ some rest → s ≡ rest ++ a
at_suffix a s rest same h = (text_eq_iff s a).0 same ∙ ap (λ r. r ++ a) (some-injective [] rest h)

behind :
    (c : ℕ) (rest : Text) (o : Option Text)
    → found_behind c o ≡ some rest
    → (r : Text) × (o ≡ some r) × (◌≡◌ {A = Text} (c ∷ r) rest)
unfolding found_behind
behind c rest none h = cc h
behind c rest (some r) h = (r, refl, some-injective _ _ h)

strip_suffix_sound : (a s rest : Text) → strip_suffix a s ≡ some rest → s ≡ rest ++ a
unfolding strip_suffix
strip_suffix_sound a [] rest h = elim (Bool-cases (text_eq [] a)) [
  | inl same ↦ at_suffix a [] rest same (rw same at h)
  | inr other ↦ cc (rw other at h)
]
strip_suffix_sound a (c ∷ s) rest h = elim (Bool-cases (text_eq (c ∷ s) a)) [
  | inl same ↦ at_suffix a (c ∷ s) rest same (rw same at h)
  | inr other ↦
      let (r, found, e) = behind c rest (strip_suffix a s) (rw other at h) in
      ap (λ t. c ∷ t) (strip_suffix_sound a s r found) ∙ ap (λ t. t ++ a) e
]

strip_suffix_complete : (a v : Text) → strip_suffix a (v ++ a) ≡ some v
unfolding strip_suffix found_behind text_eq
strip_suffix_complete [] [] = refl
strip_suffix_complete (d ∷ a) [] = rw (text_eq_refl (d ∷ a))
strip_suffix_complete a (c ∷ v) = elim (Bool-cases (text_eq (c ∷ (v ++ a)) a)) [
  | inl same ↦
      let e : ◌≡◌ {A = Text} (c ∷ v) [] =
        append_cancel_right (c ∷ v) [] a ((text_eq_iff (c ∷ (v ++ a)) a).0 same) in
      cc e
  | inr other ↦ rw (other, strip_suffix_complete a v)
]

-- The text between two others.
or_none : Option Text → Option Text
unfolding piece
or_none none = none
or_none (some s) = piece s

between : (before : Text) → Option Text → Option Text
unfolding or_none
between before none = none
between before (some s) = or_none (strip_prefix before s)

pub pieces : Template → Text → Option Text
unfolding between
pieces (exact s) path = if text_eq path s then some [] else none
pieces (with_session before after) path = between before (strip_suffix after path)
pieces (mounted folder) path = strip_prefix (folder ++ codes "/") path

prefixed :
    (before s rest : Text) (o : Option Text)
    → strip_prefix before s ≡ o
    → or_none o ≡ some rest
    → (s ≡ before ++ rest) × (rest ≢ []) × NoSlash rest
unfolding or_none
prefixed before s rest none e h = cc h
prefixed before s rest (some t) e h =
    let (same, some_rest, no_slash) = piece_sound t rest h in
    ((strip_prefix_lem before s t).0 e ∙ ap (λ r. before ++ r) same, some_rest, no_slash)

between_sound :
    (before after path rest : Text) (o : Option Text)
    → strip_suffix after path ≡ o
    → between before o ≡ some rest
    → Fits (with_session before after) path rest
unfolding between
between_sound before after path rest none e h = cc h
between_sound before after path rest (some s) e h =
    let (same, some_rest, no_slash) = prefixed before s rest (strip_prefix before s) refl h in
    (strip_suffix_sound after path s e ∙ ap (λ t. t ++ after) same, some_rest, no_slash)

exact_sound : (s path rest : Text) → pieces (exact s) path ≡ some rest → Fits (exact s) path rest
unfolding pieces
exact_sound s path rest h = elim (Bool-cases (text_eq path s)) [
  | inl same ↦ ((text_eq_iff path s).0 same, sym (some-injective _ _ (rw same at h)))
  | inr other ↦ cc (rw other at h)
]

pub pieces_complete :
    (t : Template) (path rest : Text) → Fits t path rest → pieces t path ≡ some rest
unfolding pieces between
pieces_complete (exact s) path rest (same, nothing) = rw ((text_eq_iff path s).1 same, nothing)
pieces_complete (with_session before after) path rest (same, some_rest, no_slash) =
    ap (λ p. between before (strip_suffix after p)) same
    ∙ ap (between before) (strip_suffix_complete after (before ++ rest))
    ∙ ap or_none ((strip_prefix_lem before (before ++ rest) rest).1 refl)
    ∙ piece_complete rest some_rest no_slash
pieces_complete (mounted folder) path rest h =
    (strip_prefix_lem (folder ++ codes "/") path rest).1 h

pub pieces_sound : (t : Template) (path rest : Text) → pieces t path ≡ some rest → Fits t path rest
unfolding pieces
pieces_sound (exact s) path rest h = exact_sound s path rest h
pieces_sound (with_session before after) path rest h =
    between_sound before after path rest (strip_suffix after path) refl h
pieces_sound (mounted folder) path rest h = (strip_prefix_lem (folder ++ codes "/") path rest).0 h
