-- ===== src/Worker.antt =====
-- app/worker.py and `_heartbeat_loop` of app/tasks.py: a worker process keeps a key of Redis alive.
pub mod Invariant
pub mod Heartbeat
use longshot.Common.{ℕ, suc, ◌+◌, ◌≤◌, ◌≡◌, Text, codes, true, false, Option, none, some}
use mathlib.Core.Option
use longshot.Keys.{worker_heartbeat}
use longshot.Redis.{Redis, Command, set}
use longshot.Redis.Expiring.{Expiring, touches}

-- Times are in milliseconds, on a clock that the worker and Redis share.
--
-- Where the task `worker-heartbeat` waits, since when, and how many SETs it has had: for the SET to
-- reach Redis, for its reply, or for the `sleep` to be over. `ended` is a task that was cancelled,
-- whose SET has raised an exception, or whose process is gone; `leaving` is one that ended while
-- its SET was on the way to Redis.
pub data HeartbeatTask : Type 0 where
  setting confirming : (beats since : ℕ) → HeartbeatTask
  sleeping : (beats wake : ℕ) → HeartbeatTask
  leaving ended : (beats since : ℕ) → HeartbeatTask

abbrev pub beats_of : HeartbeatTask → ℕ
beats_of (setting n since) = n
beats_of (confirming n since) = n
beats_of (sleeping n wake) = n
beats_of (leaving n since) = n
beats_of (ended n since) = n

-- `hb.cancel()`. A command that has been sent is not recalled.
abbrev pub cancel : ℕ → HeartbeatTask → HeartbeatTask
cancel now (ended n since) = ended n since
cancel now (leaving n since) = leaving n since
cancel now (setting n since) = leaving n now
cancel now (confirming n since) = ended n now
cancel now (sleeping n wake) = ended n now

-- `heartbeat_task` of the state of TaskIQ, absent before the startup.
pub record Worker (r : Redis) (x : Expiring r) : Type 0 where
  pub now : ℕ
  pub redis : x.State
  pub heartbeat_task : Option HeartbeatTask

module _ (r : Redis) (x : Expiring r) where
  -- `_on_startup`
  abbrev pub on_startup : Worker r x → Worker r x
  on_startup w = record w { heartbeat_task = some (setting 0 w.now) }

  -- `await redis.set(keys.worker_heartbeat(), "1", ex=10)`
  abbrev pub set_key : ℕ → Worker r x → Worker r x
  set_key n w = record w {
    redis = x.exec (set worker_heartbeat (codes "1") 10) w.now w.redis;
    heartbeat_task = some (confirming (suc n) w.now);
  }

  -- The reply, and `await asyncio.sleep(3)`
  abbrev pub fall_asleep : ℕ → Worker r x → Worker r x
  fall_asleep n w = record w { heartbeat_task = some (sleeping n (w.now + 3000)) }

  -- `while True`
  abbrev pub wake_up : ℕ → Worker r x → Worker r x
  wake_up n w = record w { heartbeat_task = some (setting n w.now) }

  abbrev pub end_task : ℕ → Worker r x → Worker r x
  end_task n w = record w { heartbeat_task = some (ended n w.now) }

  -- The SET of a task that has ended reaches Redis.
  abbrev pub set_late : ℕ → Worker r x → Worker r x
  set_late n w = record w {
    redis = x.exec (set worker_heartbeat (codes "1") 10) w.now w.redis;
    heartbeat_task = some (ended (suc n) w.now);
  }

  -- `_on_shutdown`
  abbrev pub on_shutdown : Worker r x → Worker r x
  on_shutdown w = record w { heartbeat_task = Option.map (cancel w.now) w.heartbeat_task }

  -- The event loop and the network are never late by more than this: a request that was sent
  -- reaches Redis, a reply that was sent is read and a sleeper that is over is woken up.
  module _ (late : ℕ) where
    abbrev pub InTime : ℕ → Option HeartbeatTask → Type 0
    InTime now (some (setting n since)) = now ≤ since + late
    InTime now (some (confirming n since)) = now ≤ since + late
    InTime now (some (leaving n since)) = now ≤ since + late
    InTime now (some (sleeping n wake)) = now ≤ wake + late
    InTime now _ = Unit

    pub data Step : Worker r x → Worker r x → Type 0 where
      elapse :
          (w : Worker r x) (d : ℕ)
          → InTime (w.now + d) w.heartbeat_task
          → Step w (record w { now = w.now + d })
      startup : (w : Worker r x) → w.heartbeat_task ≡ none → Step w (on_startup w)
      beat :
          (w : Worker r x) (n since : ℕ)
          → w.heartbeat_task ≡ some (setting n since)
          → Step w (set_key n w)
      refused :
          (w : Worker r x) (n since : ℕ)
          → w.heartbeat_task ≡ some (setting n since)
          → Step w (end_task n w)
      late_beat :
          (w : Worker r x) (n since : ℕ)
          → w.heartbeat_task ≡ some (leaving n since)
          → Step w (set_late n w)
      never_sent :
          (w : Worker r x) (n since : ℕ)
          → w.heartbeat_task ≡ some (leaving n since)
          → Step w (end_task n w)
      reply :
          (w : Worker r x) (n since : ℕ)
          → w.heartbeat_task ≡ some (confirming n since)
          → Step w (fall_asleep n w)
      reply_lost :
          (w : Worker r x) (n since : ℕ)
          → w.heartbeat_task ≡ some (confirming n since)
          → Step w (end_task n w)
      awake :
          (w : Worker r x) (n wake : ℕ)
          → w.heartbeat_task ≡ some (sleeping n wake)
          → wake ≤ w.now
          → Step w (wake_up n w)
      -- The shutdown event, or the end of the process in any other way.
      shutdown : (w : Worker r x) → Step w (on_shutdown w)
      -- A command of any client that has to do with other keys: no other worker is alive.
      other :
          (w : Worker r x) (c : Command)
          → touches c worker_heartbeat ≡ false
          → Step w (record w { redis = x.exec c w.now w.redis })

    -- A worker process that has not started, and all that can come of it.
    pub data Reachable (now : ℕ) (redis : x.State) : Worker r x → Type 0 where
      begin : Reachable now redis (record { now = now; redis = redis; heartbeat_task = none })
      next : {v w : Worker r x} → Reachable now redis v → Step v w → Reachable now redis w
