-- ===== src/Samples/RouteTests.antt =====
-- A router that meets what is asked of Starlette's, and a job that is found again.
use longshot.Common.{
  ◌≡◌, ◌≢◌, refl, Text, codes, true, false, Option, some, none, List, [], ◌∷◌, if◌then◌else◌, arith,
  Bool-cases, inl, inr, ◌⊎◌,
}
use longshot.Api.{create_job}
use longshot.Api.Routes.{
  Template, NoSlash, Fits, Router, Route, Method, Endpoint, same_method, LeadsBack,
  create_job-LeadsBack,
}
use longshot.Samples.ApiTests.{accepted_request, list_broker, alive}
use longshot.Samples.Services.{memory}
use longshot.Samples.Paths.{pieces, pieces_sound, pieces_complete}

or_later : Endpoint → Option Text → Option (Endpoint × Text) → Option (Endpoint × Text)
or_later endpoint none later = later
or_later endpoint (some rest) later = some (endpoint, rest)

-- The first route that answers the method at the path.
dispatch : List Route → Method → Text → Option (Endpoint × Text)
unfolding or_later
dispatch [] method path = none
dispatch (r ∷ rs) method path =
    let later = dispatch rs method path in
    if same_method method r.method
    then or_later r.endpoint (pieces r.template path) later
    else later

not_found :
    (t : Template) (path : Text)
    → ((rest : Text) → Fits t path rest → ⊥)
    → (o : Option Text) → pieces t path ≡ o
    → o ≡ none
not_found t path unfit none e = refl
not_found t path unfit (some rest) e = absurd (unfit rest (pieces_sound t path rest e))

passed_on :
    (r : Route) (rs : List Route) (method : Method) (path : Text)
    → (same_method method r.method ≡ false) ⊎ ((rest : Text) → Fits r.template path rest → ⊥)
    → dispatch (r ∷ rs) method path ≡ dispatch rs method path
unfolding dispatch or_later
passed_on r rs method path (inl other) = rw other
passed_on r rs method path (inr unfit) = elim (Bool-cases (same_method method r.method)) [
  | inl same ↦ rw (same, not_found r.template path unfit _ refl)
  | inr other ↦ rw other
]

taken :
    (r : Route) (rs : List Route) (method : Method) (path rest : Text)
    → same_method method r.method ≡ true
    → Fits r.template path rest
    → dispatch (r ∷ rs) method path ≡ some (r.endpoint, rest)
unfolding dispatch or_later
taken r rs method path rest same fits = rw (same, pieces_complete r.template path rest fits)

router : Router
router = record { dispatch = dispatch; passed_on = passed_on; taken = taken }

some_id : codes "s1" ≢ []
some_id e = cc e

no_slash : NoSlash (codes "s1")
no_slash = ((λ e. omega (arith, e)), ((λ e. omega (arith, e)), tt))

create_job-LeadsBack_example :
    LeadsBack router true
      (codes "http://h/")
      (create_job memory list_broker (codes "s1") (codes "http://h/") accepted_request alive []).0
create_job-LeadsBack_example =
    create_job-LeadsBack router memory list_broker (codes "s1") (codes "http://h/") some_id no_slash
      true accepted_request alive []
