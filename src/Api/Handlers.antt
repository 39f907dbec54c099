-- ===== src/Api/Handlers.antt =====
-- app/api.py: what the handlers promise.
use longshot.Common.{
  ℕ, Text, codes, ◌≡◌, text_eq, text_eq_iff, ◌≢◌, refl, ◌∙◌, ap, sym, ◌++◌, Bool, true, Bool-cases,
  inl, inr, ◌⊎◌, text_eq_refl, arith, Option, none, some, [], ◌∷◌,
}
use longshot.Api.{
  JobAccepted, Reply, accepted, unavailable, failed, Message, Broker, is_some, message, answer,
  enqueue, create_job, cancel_job,
}
use longshot.Contract.{JobMode, JobRequest}
use longshot.Keys.Distinct.{Key, name, name-injective}
use longshot.Keys.{worker_heartbeat, cancel_flag}
use longshot.Redis.{Redis}

-- What a reply says of the messages on the stream before and after it; `alive` tells whether the
-- heartbeat of a worker was there.
abbrev pub Told : (b : Broker) → Bool → Text → Option JobMode → Reply → b.State → b.State → Type 0
Told b alive session_id mode (accepted a) s t =
    (alive ≡ true)
    × (m : Message) × (b.queued t ≡ b.queued s ++ m ∷ [])
    × (m.session_id ≡ a.session_id)
    × (a.session_id ≡ session_id)
    × (some m.mode ≡ mode)
    × (m.mode ≡ a.mode)
Told b alive session_id mode (unavailable why) s t =
    (b.queued t ≡ b.queued s)
    ⊎ ((alive ≡ true)
        × (m : Message) × (b.queued t ≡ b.queued s ++ m ∷ [])
        × (m.session_id ≡ session_id)
        × (some m.mode ≡ mode))
Told b alive session_id mode failed s t = (mode ≡ none) × (b.queued t ≡ b.queued s)

module _ (r : Redis) (b : Broker) (session_id base_url : Text) where
  answer-Told :
      (payload : JobRequest) (mode : JobMode) (s : b.State) (o : Option Text × b.State)
      → b.kiq (message r b session_id base_url payload mode) s ≡ o
      → Told b true session_id
          (some mode)
          (answer r b session_id base_url mode o).0
          s
          (answer r b session_id base_url mode o).1
  unfolding answer
  answer-Told payload mode s (some why, t) e =
      let same : b.queued (b.kiq (message r b session_id base_url payload mode) s).1 ≡ b.queued t =
        ap (λ o. b.queued o.1) e in
      elim (b.kiq_failed _ s why (ap (λ o. o.0) e)) [
        | inl nothing ↦ inl (sym same ∙ nothing)
        | inr queued ↦
            inr (refl, message r b session_id base_url payload mode, sym same ∙ queued, refl, refl)
      ]
  answer-Told payload mode s (none, t) e = (
    refl,
    message r b session_id base_url payload mode,
    sym (ap (λ o. b.queued o.1) e) ∙ b.kiq_done _ s (ap (λ o. o.0) e),
    refl,
    refl,
    refl,
    refl,
  )

  enqueue-Told :
      (payload : JobRequest) (mode : Option JobMode) (s : b.State)
      → Told b true session_id mode
          (enqueue r b session_id base_url payload mode s).0
          s
          (enqueue r b session_id base_url payload mode s).1
  unfolding enqueue
  enqueue-Told payload none s = (refl, refl)
  enqueue-Told payload (some mode) s = answer-Told payload mode s _ refl

  -- A 202 is given only where a worker's heartbeat is there, and means that exactly one message was
  -- put on the stream, with the session id that the client is told and the mode of the request,
  -- which is also the mode that the client is told. A 503 means that no message was put there,
  -- unless the broker raised an exception after it had queued the message: then there is one, with
  -- a session id that the client is not told, and this only where a heartbeat was there. Only a
  -- request with no mode makes the handler's assertion fail, before any message.
  pub create_job-Told :
      (payload : JobRequest) (redis : r.State) (s : b.State)
      → Told b
          (is_some (r.value redis worker_heartbeat))
          session_id
          payload.mode
          (create_job r b session_id base_url payload redis s).0
          s
          (create_job r b session_id base_url payload redis s).1
  unfolding create_job
  create_job-Told payload redis s = elim (Bool-cases (is_some (r.value redis worker_heartbeat))) [
    | inl alive ↦ rw alive (enqueue-Told payload payload.mode s)
    | inr dead ↦ rw dead (inl refl)
  ]

-- The answer where no heartbeat is found.
abbrev pub nobody : Reply
nobody = unavailable (codes "No worker is currently running.")

-- The first letter of a refusal.
abbrev initial : Reply → ℕ
initial (unavailable (c ∷ cs)) = c
initial _ = 0

module _ (r : Redis) (b : Broker) (session_id base_url : Text) (payload : JobRequest)
    (s : b.State) where
  -- A worker that is heard is not reported as missing, whatever becomes of the message.
  answer-nobody :
      (mode : JobMode) (o : Option Text × b.State)
      → (answer r b session_id base_url mode o).0 ≢ nobody
  unfolding answer
  answer-nobody mode (none, t) = λ e. cc e
  answer-nobody mode (some why, t) = λ e. (let h : 70 ≡ 78 = ap initial e in omega (arith, h))

  enqueue-nobody :
      (mode : Option JobMode) → (enqueue r b session_id base_url payload mode s).0 ≢ nobody
  unfolding enqueue
  enqueue-nobody none = λ e. cc e
  enqueue-nobody (some mode) =
      answer-nobody mode (b.kiq (message r b session_id base_url payload mode) s)

  pub create_job-heard :
      (redis : r.State) (v : Text)
      → r.value redis worker_heartbeat ≡ some v
      → (create_job r b session_id base_url payload redis s).0 ≢ nobody
  unfolding create_job is_some
  create_job-heard redis v h e = enqueue-nobody payload.mode (rw h at e)

  pub create_job-nobody :
      (redis : r.State)
      → r.value redis worker_heartbeat ≡ none
      → create_job r b session_id base_url payload redis s ≡ (nobody, s)
  unfolding create_job is_some
  create_job-nobody redis h = rw h refl

module _ (r : Redis) (b : Broker) (session_id base_url : Text) (payload : JobRequest)
    (mode : JobMode) (s : b.State) where
  -- What a client is told where its message is on the stream.
  abbrev pub Taken : Reply × b.State → Type 0
  Taken (reply, t) =
      (a : JobAccepted) × (reply ≡ accepted a)
      × (a.session_id ≡ session_id)
      × (b.queued t ≡ b.queued s ++ message r b session_id base_url payload mode ∷ [])

  answer-Taken :
      (o : Option Text × b.State)
      → b.kiq (message r b session_id base_url payload mode) s ≡ o
      → o.0 ≡ none
      → Taken (answer r b session_id base_url mode o)
  unfolding answer
  answer-Taken (some why, t) e h = cc h
  answer-Taken (none, t) e h =
      (_, refl, refl, sym (ap (λ o. b.queued o.1) e) ∙ b.kiq_done _ s (ap (λ o. o.0) e))

  pub create_job-Taken :
      (redis : r.State) (v : Text)
      → r.value redis worker_heartbeat ≡ some v
      → payload.mode ≡ some mode
      → (b.kiq (message r b session_id base_url payload mode) s).0 ≡ none
      → Taken (create_job r b session_id base_url payload redis s)
  unfolding create_job is_some enqueue
  create_job-Taken redis v present fits takes = rw (present, fits) (answer-Taken _ refl takes)

-- `cancel_job` leaves "1" at the cancel flag of its session, and leaves the string at every other
-- key of the program, every counter, every list and every channel as they were.
pub cancel_job-value :
    (r : Redis) (session_id : Text) (s : r.State) {k : Key} (at : Text)
    → k ≢ Key.cancel session_id
    → (r.value (cancel_job r session_id s).1 (cancel_flag session_id) ≡ some (codes "1"))
      × (r.value (cancel_job r session_id s).1 (name k) ≡ r.value s (name k))
      × (r.counter (cancel_job r session_id s).1 at ≡ r.counter s at)
      × (r.items (cancel_job r session_id s).1 at ≡ r.items s at)
      × (r.messages (cancel_job r session_id s).1 at ≡ r.messages s at)
unfolding cancel_job name
cancel_job-value r session_id s {k} at ne = (
  rw (r.value-exec, text_eq_refl) refl,
  r.value-exec _ s (name k) ∙ (elim (Bool-cases (text_eq (cancel_flag session_id) (name k))) [
    | inl same ↦
        absurd (ne (sym (name-injective (Key.cancel session_id) k ((text_eq_iff _ _).0 same))))
    | inr differs ↦ rw differs refl
  ]),
  r.counter-exec _ s at,
  r.items-exec _ s at,
  r.messages-exec _ s at,
)
