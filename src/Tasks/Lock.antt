-- ===== src/Tasks/Lock.antt =====
-- app/tasks.py, `run_job`: the idempotency lock.
use longshot.Common.{ℕ, ◌≡◌, refl, Text, codes, text_eq_refl, Option, none, some, [], ◌∙◌, ap}
use longshot.Contract.{TaskStatus}
use longshot.Keys.{idempotency_lock}
use longshot.Redis.{Redis, or_else}
use longshot.Tasks.Monad.{ok, Job}
use longshot.Tasks.RunJob.{Params, bare_result, after_lock, run_job}

held : (o : Option Text) (v : Text) → (w : Text) × (or_else o v ≡ some w)
held none v = (v, refl)
held (some w) v = (w, refl)

module _ (r : Redis) (j : Job) (p : Params) (awaits : ℕ) where
  abbrev lock : Text
  lock = idempotency_lock j.session_id

  pub redis-after_lock : (o : Option Text) (s : r.State) → (after_lock j p r awaits o s).redis ≡ s
  unfolding after_lock
  redis-after_lock none s = refl
  redis-after_lock (some w) s = refl

  -- However a delivery ends, it leaves the lock set.
  pub run_job-lock :
      (s : r.State) → (w : Text) × (r.value (run_job j p r awaits s).redis lock ≡ some w)
  unfolding run_job
  run_job-lock s =
      let (w, is_held) = held (r.value s lock) (codes "1") in
      (
        w,
        ap (λ t. r.value t lock) (redis-after_lock (r.value s lock) _)
            ∙ r.value-exec _ s lock
            ∙ rw text_eq_refl is_held,
      )

  pub refused :
      (s : r.State) {w : Text}
      → r.value s lock ≡ some w
      → ((run_job j p r awaits s).result ≡ ok (bare_result j p TaskStatus.duplicate_delivery))
        × ((run_job j p r awaits s).items ≡ [])
  unfolding run_job after_lock
  refused s h = rw h (refl, refl)

-- A first delivery of a session, whether it returned a result of any status or raised, makes every
-- later delivery of that session (a redelivery of the stream, or the retry of the middleware) that
-- finds the lock as the first one left it return DUPLICATE_DELIVERY and put nothing into the queue.
pub redelivery :
    (r : Redis) (j k : Job) (p q : Params) (awaits more : ℕ) (s t : r.State)
    → k.session_id ≡ j.session_id
    → r.value t (idempotency_lock j.session_id)
      ≡ r.value (run_job j p r awaits s).redis (idempotency_lock j.session_id)
    → ((run_job k q r more t).result ≡ ok (bare_result k q TaskStatus.duplicate_delivery))
      × ((run_job k q r more t).items ≡ [])
redelivery r j k p q awaits more s t same kept =
    let (w, is_held) = run_job-lock r j p awaits s in
    refused r k q more t (ap (λ i. r.value t (idempotency_lock i)) same ∙ kept ∙ is_held)
