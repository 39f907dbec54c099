-- ===== src/Pipeline/Fetch.antt =====
-- app/pipeline.py, `fetch_text` and `_strip_html`.
use longshot.Common.{
  ℕ, ◌≡◌, refl, Text, codes, decimal, is_in, split, squeeze, split-squeeze, List, Bool, Bool-cases,
  inl, inr, ◌⊎◌, ◌||◌, true, false, if◌then◌else◌, Option, none, some, [], ◌++◌, squeeze-squeeze,
}
use longshot.Tasks.Monad.{Exn, Result, ok, err, FetchExn, Raises}

-- What httpx comes to: an answer with its content type and text, `HTTPStatusError`, `RequestError`,
-- or another exception with its class name.
pub data Got : Type 0 where
  page : (content_type : Option Text) (text : Text) → Got
  status_error : (status : ℕ) → Got
  request_error : (message : Text) → Got
  raised : (name message : Text) → Got

-- `text` is the text of the body, or of the root, that selectolax leaves of a page without its
-- scripts, styles and frames, where the page has either.
strip_html : Option Text → Text
unfolding squeeze
strip_html none = []
strip_html (some text) = squeeze text

abbrev pub header : Option Text → Text
header none = []
header (some content_type) = content_type

unfoldable pub html : Text → Bool
unfolding is_in
html content_type = is_in (codes "html") content_type

unfoldable pub plain : Text → Bool
unfolding is_in
plain content_type = is_in (codes "text") content_type || is_in (codes "json") content_type

-- `body` is what selectolax makes of a page.
module _ (body : Text → Option Text) where
  cleaned : (content_type text : Text) → Result Text
  unfolding strip_html html plain
  cleaned content_type text =
      if html content_type
      then ok (strip_html (body text))
      else if plain content_type
      then ok text
      else err (Exn.fetch_error (codes "Unsupported content-type: " ++ content_type))

  unfoldable pub fetched : (url : Text) → Got → Result Text
  unfolding cleaned decimal
  fetched url (page content_type text) = cleaned (header content_type) text
  fetched url (status_error status) =
      err (Exn.fetch_error (codes "HTTP " ++ decimal status ++ codes " from " ++ url))
  fetched url (request_error message) = err (Exn.fetch_error (codes "Request failed: " ++ message))
  fetched url (raised name message) = err (Exn.other name message)

  unfoldable pub fetch_text : (get : Text → Got) → Text → Result Text
  unfolding fetched
  fetch_text get url = fetched url (get url)

  -- The words of what selectolax makes of a page.
  pub words_of : Option Text → List Text
  unfolding split
  words_of none = []
  words_of (some text) = split text

  -- The text of an HTML page has the words of the page and single spaces between them; a page of
  -- text or JSON gives its text as it came.
  abbrev pub Readable : (content_type text t : Text) → Type 0
  Readable content_type text t =
      ((html content_type ≡ true) × (split t ≡ words_of (body text)) × (squeeze t ≡ t))
      ⊎ ((html content_type ≡ false) × (plain content_type ≡ true) × (t ≡ text))

  -- What a result says of what httpx came to.
  abbrev pub Fetched : Got → Result Text → Type 0
  Fetched g (ok t) =
      (ct : Option Text) × (text : Text) × (g ≡ page ct text) × Readable (header ct) text t
  Fetched g (err (Exn.fetch_error m)) = Unit
  Fetched g (err (Exn.other name message)) = g ≡ raised name message
  Fetched g (err _) = ⊥

  split-strip_html : (o : Option Text) → split (strip_html o) ≡ words_of o
  unfolding strip_html words_of split
  split-strip_html none = refl
  split-strip_html (some text) = split-squeeze text

  squeeze-strip_html : (o : Option Text) → squeeze (strip_html o) ≡ strip_html o
  unfolding strip_html squeeze
  squeeze-strip_html none = refl
  squeeze-strip_html (some text) = squeeze-squeeze text

  cleaned-Fetched :
      (ct : Option Text) (text : Text) → Fetched (page ct text) (cleaned (header ct) text)
  unfolding cleaned
  cleaned-Fetched ct text = elim (Bool-cases (html (header ct))) [
    | inl is_html ↦ rw is_html (
      ct,
      text,
      refl,
      inl (is_html, split-strip_html (body text), squeeze-strip_html (body text)),
    )
    | inr not_html ↦ rw not_html (elim (Bool-cases (plain (header ct))) [
      | inl is_plain ↦ rw is_plain (ct, text, refl, inr (not_html, is_plain, refl))
      | inr not_plain ↦ rw not_plain tt
    ])
  ]

  fetched-Fetched : (url : Text) (g : Got) → Fetched g (fetched url g)
  unfolding fetched
  fetched-Fetched url (page ct text) = cleaned-Fetched ct text
  fetched-Fetched url (status_error status) = tt
  fetched-Fetched url (request_error message) = tt
  fetched-Fetched url (raised name message) = refl

  fetched-FetchExn : (url : Text) (g : Got) → Raises FetchExn (fetched url g)
  unfolding fetched cleaned
  fetched-FetchExn url (page ct text) = elim (Bool-cases (html (header ct))) [
    | inl is_html ↦ rw is_html tt
    | inr not_html ↦ rw not_html (elim (Bool-cases (plain (header ct))) [
      | inl is_plain ↦ rw is_plain tt
      | inr not_plain ↦ rw not_plain tt
    ])
  ]
  fetched-FetchExn url (status_error status) = tt
  fetched-FetchExn url (request_error message) = tt
  fetched-FetchExn url (raised name message) = tt

  -- No failure becomes a text. A text that is returned has exactly the words that selectolax finds
  -- in an HTML page, with single spaces between them, or is that of a page of text or JSON as it
  -- came. All else is a FetchError: a bad status, a failed request, another content type; only an
  -- exception that httpx does not count among these goes through as it came.
  pub fetch_text-Fetched : (get : Text → Got) (url : Text) → Fetched (get url) (fetch_text get url)
  unfolding fetch_text
  fetch_text-Fetched get url = fetched-Fetched url (get url)

  -- A fetch raises nothing but what a run expects of it.
  pub fetch_text-FetchExn : (get : Text → Got) (url : Text) → Raises FetchExn (fetch_text get url)
  unfolding fetch_text
  fetch_text-FetchExn get url = fetched-FetchExn url (get url)
