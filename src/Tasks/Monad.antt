-- ===== src/Tasks/Monad.antt =====
-- app/tasks.py: the state of a run, its exceptions, and what the run awaits.
use longshot.Common.{
  ℕ, zero, suc, ◌+◌, Text, codes, Bool, Option, none, some, List, [], ◌∷◌, ◌++◌, length,
  if◌then◌else◌,
}
use longshot.Events.{Event, Body, valid}

-- What a run can raise. `other` is any other `Exception`, with its class name and text; `shutdown`
-- is a `BaseException` that is none, such as the `CancelledError` of a worker that stops.
pub data Exn : Type 0 where
  fetch_error summarize_error : (message : Text) → Exn
  task_cancelled timeout_error shutdown : Exn
  other : (name message : Text) → Exn

pub data Result {ℓ} (A : Type ℓ) : Type ℓ where
  ok : A → Result A
  err : Exn → Result A

-- What an async generator yields, and the exception that ends it, if one does.
pub record Stream : Type 0 where
  pub deltas : List Text
  pub ending : Option Exn

-- The functions of app/pipeline.py as a run uses them: what each call comes to.
-- `FetchExn` and `ModelExn` are what they can raise.
abbrev pub FetchExn : Exn → Type 0
FetchExn (summarize_error m) = ⊥
FetchExn task_cancelled = ⊥
FetchExn _ = Unit

abbrev pub ModelExn : Exn → Type 0
ModelExn (fetch_error m) = ⊥
ModelExn task_cancelled = ⊥
ModelExn _ = Unit

abbrev pub Raises {ℓ} : {A : Type ℓ} → (Exn → Type 0) → Result A → Type 0
Raises P (ok a) = Unit
Raises P (err e) = P e

abbrev pub EndsWith : (Exn → Type 0) → Option Exn → Type 0
EndsWith P none = Unit
EndsWith P (some e) = P e

pub record Pipeline : Type 0 where
  pub fetch_text : Text → Result Text
  pub summarize_chunk : Text → ℕ → Result Text
  pub chat_stream : (prompt system : Text) → Stream
  pub fetch_raises : (u : Text) → Raises FetchExn (fetch_text u)
  pub summarize_raises : (t : Text) (i : ℕ) → Raises ModelExn (summarize_chunk t i)
  pub stream_raises : (p s : Text) → EndsWith ModelExn (chat_stream p s).ending

-- What Redis answers to an EXISTS of the cancel flag.
pub data Reply : Type 0 where
  answer : Bool → Reply
  failed : (name message : Text) → Reply

-- The job and its surroundings: the answers to its polls of the cancel flag, the readings of the
-- clock, and what ends it when its time is over (`wait_for`, or the worker that stops).
pub record Job : Type 0 where
  pub session_id : Text
  pub pipeline : Pipeline
  pub poll : ℕ → Reply
  pub time : ℕ → ℕ
  pub interrupt : Bool  -- `true` for the time limit of `wait_for`

-- The events emitted so far, the polls made so far, and how many awaits may still go through
-- before the run is interrupted.
pub record Run : Type 0 where
  pub events : List Event
  pub polls : ℕ
  pub awaits : ℕ

abbrev pub Exec : Type 0 → Type 0
Exec A = Run → Result A × Run

module _ {A : Type 0} where
  unfoldable pub pure : A → Exec A
  pure a s = (ok a, s)

  unfoldable pub raise : Exn → Exec A
  raise e s = (err e, s)

  unfoldable pub lift : Result A → Exec A
  lift r s = (r, s)

module _ {A B : Type 0} where
  abbrev pub continue : Result A → (A → Exec B) → Exec B
  continue (ok a) f s = f a s
  continue (err e) f s = (err e, s)

  infixl 10 ◌>>=◌ ◌>>◌
  unfoldable pub ◌>>=◌ : Exec A → (A → Exec B) → Exec B
  ◌>>=◌ m f s = let (r, s') = m s in continue r f s'

  abbrev pub ◌>>◌ : Exec A → Exec B → Exec B
  m >> n = m >>= λ _. n

module _ (j : Job) where
  -- The constructor of an event, which takes the time and checks the constraints, and
  -- `publisher.emit`, which never waits.
  unfoldable pub new_event : ℕ → Body → Event
  new_event n body = record { seq = 0; session_id = j.session_id; ts = j.time n; body = body }

  unfoldable pub emit : Body → Exec (Unit {0})
  unfolding new_event
  emit body s =
      let e = new_event (length s.events) body in
      if valid e
      then (ok tt, record s { events = s.events ++ e ∷ [] })
      else (err (other (codes "ValidationError") []), s)

  -- An await that goes to the event loop: here, and nowhere else, a run can be interrupted.
  unfoldable pub suspend_at : ℕ → Exec (Unit {0})
  suspend_at zero s = (err (if j.interrupt then timeout_error else shutdown), s)
  suspend_at (suc n) s = (ok tt, record s { awaits = n })

  unfoldable pub suspend : Exec (Unit {0})
  unfolding suspend_at
  suspend s = suspend_at s.awaits s

  unfoldable pub replied : Reply → Result Bool
  replied (answer b) = ok b
  replied (failed name message) = err (other name message)

  -- `await redis.exists(keys.cancel_flag(session_id))`
  unfoldable pub poll_flag : Exec Bool
  unfolding replied
  poll_flag s = (replied (j.poll s.polls), record s { polls = s.polls + 1 })

  unfoldable pub cancel_set : Exec Bool
  unfolding suspend poll_flag ◌>>=◌
  cancel_set = do suspend; poll_flag

-- `try: m except E as exc: handler`, with the handler on the exceptions that it catches.
module _ {A : Type 0} where
  abbrev pub handle : Result A → (Exn → Exec A) → Exec A
  handle (ok a) handler s = (ok a, s)
  handle (err e) handler s = handler e s

  unfoldable pub attempt : Exec A → (Exn → Exec A) → Exec A
  attempt m handler s = let (r, s') = m s in handle r handler s'
