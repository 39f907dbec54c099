-- ===== src/Api/Routes.antt =====
-- app/api.py: the routes of the app, and where a request for a path leads.
use longshot.Common.{
  ℕ, ◌≡◌, ◌≢◌, refl, ap, sym, ◌∙◌, Text, codes, Bool, true, false, Option, none, some, List, [],
  ◌∷◌, ◌++◌, append-nil, append_assoc, arith, rstrip_slash, Bool-cases, inl, inr, ◌⊎◌,
}
use longshot.Api.{Reply, accepted, Broker, answer, enqueue, create_job, stream_url, is_some}
use longshot.Keys.{worker_heartbeat}
use longshot.Contract.{JobMode, JobRequest}
use longshot.Redis.{Redis}
use mathlib.Core.List.{head-eq_of_cons-eq, tail-eq_of_cons-eq}

pub data Method : Type 0 where
  get post delete : Method

-- The functions of the module that answer requests; `ui` is the mounted folder.
pub data Endpoint : Type 0 where
  ui health create stream cancel index : Endpoint

-- The path of a decorator: without a parameter, with one between two texts, or a mounted folder.
pub data Template : Type 0 where
  exact : Text → Template
  with_session : (before after : Text) → Template
  mounted : Text → Template

pub record Route : Type 0 where
  pub method : Option Method
  pub template : Template
  pub endpoint : Endpoint

abbrev jobs : Text
jobs = codes "/jobs/"

abbrev health_route : Route
health_route = record { method = some get; template = exact (codes "/health"); endpoint = health }

abbrev create_route : Route
create_route = record { method = some post; template = exact (codes "/jobs"); endpoint = create }

abbrev stream_route : Route
stream_route = record {
  method = some get;
  template = with_session jobs (codes "/stream");
  endpoint = stream;
}

abbrev cancel_route : Route
cancel_route = record { method = some delete; template = with_session jobs []; endpoint = cancel }

abbrev index_route : Route
index_route = record { method = some get; template = exact (codes "/"); endpoint = index }

-- The decorators in their order. (The routes that FastAPI puts in front of these, `/docs` and its
-- like, are none of the program's.)
abbrev app_routes : List Route
app_routes = health_route ∷ create_route ∷ stream_route ∷ cancel_route ∷ index_route ∷ []

-- `app.mount`, where `STATIC_DIR` is there
unfoldable pub routes : (static_exists : Bool) → List Route
routes false = app_routes
routes true = record { method = none; template = mounted (codes "/ui"); endpoint = ui } ∷ app_routes

abbrev pub NoSlash : Text → Type 0
NoSlash [] = Unit
NoSlash (c ∷ s) = (c ≢ b'/') × NoSlash s

-- What a path has to be for a template, with the text that stands at the parameter, or below the
-- folder: a parameter is a piece of the path, not empty and without a slash.
abbrev pub Fits : Template → Text → Text → Type 0
Fits (exact s) path rest = (path ≡ s) × (rest ≡ [])
Fits (with_session before after) path session_id =
    (path ≡ before ++ session_id ++ after) × (session_id ≢ []) × NoSlash session_id
Fits (mounted folder) path rest = path ≡ folder ++ codes "/" ++ rest

second : {a b c d : ℕ} {s t : Text} → ◌≡◌ {A = Text} (a ∷ b ∷ s) (c ∷ d ∷ t) → b ≡ d
second h = head-eq_of_cons-eq (tail-eq_of_cons-eq h)

abbrev pub same_method : Method → Option Method → Bool
same_method m none = true
same_method get (some get) = true
same_method post (some post) = true
same_method delete (some delete) = true
same_method m n = false

-- The routing of Starlette, a library: the routes are tried in their order, and the first that has
-- the method and fits the path answers, with what stands at its parameter.
pub record Router : Type 0 where
  pub dispatch : List Route → Method → Text → Option (Endpoint × Text)
  pub passed_on :
      (r : Route) (rs : List Route) (method : Method) (path : Text)
      → (same_method method r.method ≡ false) ⊎ ((rest : Text) → Fits r.template path rest → ⊥)
      → dispatch (r ∷ rs) method path ≡ dispatch rs method path
  pub taken :
      (r : Route) (rs : List Route) (method : Method) (path rest : Text)
      → same_method method r.method ≡ true
      → Fits r.template path rest
      → dispatch (r ∷ rs) method path ≡ some (r.endpoint, rest)

module _ (router : Router) where
  behind_folder :
      (static_exists : Bool) (method : Method) (path : Text)
      → router.dispatch (routes static_exists) method (jobs ++ path)
        ≡ router.dispatch app_routes method (jobs ++ path)
  unfolding routes
  behind_folder false method path = refl
  behind_folder true method path =
      router.passed_on _ _ method _ (inr (λ rest h. omega (arith, second h)))

  module _ (session_id : Text) (some_id : session_id ≢ []) (no_slash : NoSlash session_id) where
    dispatch-stream :
        (static_exists : Bool)
        → router.dispatch (routes static_exists) get (jobs ++ session_id ++ codes "/stream")
          ≡ some (stream, session_id)
    dispatch-stream static_exists =
        let path = jobs ++ session_id ++ codes "/stream" in
        let later = cancel_route ∷ index_route ∷ [] in
        behind_folder static_exists get (session_id ++ codes "/stream")
        ∙ router.passed_on health_route (create_route ∷ stream_route ∷ later) get path
            (inr (λ rest h. omega (arith, second h.0)))
        ∙ router.passed_on create_route (stream_route ∷ later) get path (inl refl)
        ∙ router.taken stream_route later get path session_id refl (refl, some_id, no_slash)

    dispatch-cancel :
        (static_exists : Bool)
        → router.dispatch (routes static_exists) delete (jobs ++ session_id)
          ≡ some (cancel, session_id)
    dispatch-cancel static_exists =
        let path = jobs ++ session_id in
        let last = index_route ∷ [] in
        behind_folder static_exists delete session_id
        ∙ router.passed_on health_route (create_route ∷ stream_route ∷ cancel_route ∷ last) delete
            path (inl refl)
        ∙ router.passed_on create_route (stream_route ∷ cancel_route ∷ last) delete path (inl refl)
        ∙ router.passed_on stream_route (cancel_route ∷ last) delete path (inl refl)
        ∙ router.taken cancel_route last delete path session_id refl
            (sym (ap (λ t. jobs ++ t) (append-nil session_id)), some_id, no_slash)

-- Where a client that was told of its job comes with the URL, and with its session id.
abbrev pub LeadsBack : Router → (static_exists : Bool) → (base_url : Text) → Reply → Type 0
LeadsBack router static_exists base_url (accepted a) =
    (path : Text) × (a.stream_url ≡ rstrip_slash base_url ++ path)
    × (router.dispatch (routes static_exists) get path ≡ some (stream, a.session_id))
    × (router.dispatch (routes static_exists) delete (jobs ++ a.session_id)
        ≡ some (cancel, a.session_id))
LeadsBack router static_exists base_url _ = Unit

module _ (router : Router) (r : Redis) (b : Broker) (session_id base_url : Text)
    (some_id : session_id ≢ []) (no_slash : NoSlash session_id) (static_exists : Bool) where
  answer-LeadsBack :
      (mode : JobMode) (o : Option Text × b.State)
      → LeadsBack router static_exists base_url (answer r b session_id base_url mode o).0
  unfolding answer stream_url
  answer-LeadsBack mode (some why, s) = tt
  answer-LeadsBack mode (none, s) = (
    jobs ++ session_id ++ codes "/stream",
    ap (λ t. t ++ codes "/stream") (append_assoc (rstrip_slash base_url) jobs session_id)
        ∙ append_assoc (rstrip_slash base_url) (jobs ++ session_id) (codes "/stream"),
    dispatch-stream router session_id some_id no_slash static_exists,
    dispatch-cancel router session_id some_id no_slash static_exists,
  )

  enqueue-LeadsBack :
      (payload : JobRequest) (mode : Option JobMode) (s : b.State)
      → LeadsBack router static_exists base_url (enqueue r b session_id base_url payload mode s).0
  unfolding enqueue
  enqueue-LeadsBack payload none s = tt
  enqueue-LeadsBack payload (some mode) s = answer-LeadsBack mode _

  -- With a session id that is not empty and has no slash, the `stream_url` of a 202 is the base URL
  -- of the request and a path, and a GET of that path is answered by the stream of the session that
  -- the client was told, and by no other route. A DELETE of `/jobs/` and that session id is answered
  -- by `cancel_job` for it. Both hold with the demo page mounted and without.
  pub create_job-LeadsBack :
      (payload : JobRequest) (redis : r.State) (s : b.State)
      → LeadsBack router static_exists base_url
          (create_job r b session_id base_url payload redis s).0
  unfolding create_job is_some
  create_job-LeadsBack payload redis s =
      elim (Bool-cases (is_some (r.value redis worker_heartbeat))) [
        | inl alive ↦ rw alive (enqueue-LeadsBack payload payload.mode s)
        | inr away ↦ rw away tt
      ]
