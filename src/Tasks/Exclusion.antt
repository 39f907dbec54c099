-- ===== src/Tasks/Exclusion.antt =====
-- app/tasks.py, `run_job`: the lock and the time limit together, on a Redis whose keys expire.
-- Any number of workers may be given messages of one session, again and again.
pub mod Invariant
pub mod Alone
use longshot.Common.{
  ℕ, ◌+◌, ◌*◌, ◌≤◌, ◌≡◌, Text, codes, false, Option, none, some, List, [], ◌∷◌, ◌++◌,
}
use longshot.Keys.{idempotency_lock}
use longshot.Redis.{Redis, Command, set_nx}
use longshot.Redis.Expiring.{Expiring, touches}

-- The settings that a run goes by, and how much longer than its limit a run can be at work: the
-- reply to its SET, the handlers and the `close` of its publisher.
pub record Limits : Type 0 where
  pub task_hard_timeout_seconds : ℕ
  pub idempotency_lock_ttl_seconds : ℕ
  pub late : ℕ

-- The runs of the session that are at work, each by the time at which it got the lock; and all that
-- ever did, the last one first. Times are in milliseconds.
pub record Workers (r : Redis) (x : Expiring r) : Type 0 where
  pub now : ℕ
  pub redis : x.State
  pub active : List ℕ
  pub history : List ℕ

module _ (r : Redis) (x : Expiring r) (session_id : Text) (l : Limits) where
  -- The lock, as a command that is sent now finds it.
  abbrev pub lock_now : Workers r x → Option Text
  lock_now w = r.value (x.view w.now w.redis) (idempotency_lock session_id)

  -- `if not got_lock`
  abbrev pub started : Option Text → Workers r x → Workers r x
  started none w = record w { active = w.now ∷ w.active; history = w.now ∷ w.history }
  started (some holder) w = w

  -- `await redis.set(..., "1", nx=True, ex=settings.idempotency_lock_ttl_seconds)`
  abbrev pub locked : Workers r x → Workers r x
  locked w = record w {
    redis =
        x.exec (set_nx (idempotency_lock session_id) (codes "1") l.idempotency_lock_ttl_seconds)
          w.now w.redis;
  }

  -- A delivery to a worker.
  unfoldable pub deliver : Workers r x → Workers r x
  deliver w = started (lock_now w) (locked w)

  -- `wait_for` ends every run when its time is over.
  abbrev pub WithinLimit : ℕ → List ℕ → Type 0
  WithinLimit now [] = Unit
  WithinLimit now (at ∷ more) =
      (now ≤ at + 1000 * l.task_hard_timeout_seconds + l.late) × WithinLimit now more

  pub data Step : Workers r x → Workers r x → Type 0 where
    elapse :
        (w : Workers r x) (d : ℕ)
        → WithinLimit (w.now + d) w.active
        → Step w (record w { now = w.now + d })
    delivery : (w : Workers r x) → Step w (deliver w)
    -- A run is over, or its worker is.
    over :
        (w : Workers r x) (before after : List ℕ) (at : ℕ)
        → w.active ≡ before ++ at ∷ after
        → Step w (record w { active = before ++ after })
    other :
        (w : Workers r x) (c : Command)
        → touches c (idempotency_lock session_id) ≡ false
        → Step w (record w { redis = x.exec c w.now w.redis })

  -- All that can come of a session that has had no run yet.
  pub data Reachable (now : ℕ) (redis : x.State) : Workers r x → Type 0 where
    begin : Reachable now redis (record { now = now; redis = redis; active = []; history = [] })
    next : {v w : Workers r x} → Reachable now redis v → Step v w → Reachable now redis w
