-- ===== src/Worker/Heartbeat.antt =====
-- app/worker.py and app/tasks.py: when the key of the heartbeat is there, and when it is gone.
use longshot.Common.{
  ℕ, zero, suc, ◌+◌, ◌*◌, ◌≤◌, ◌<◌, ◌≡◌, ◌≢◌, ap, ◌∙◌, Text, codes, none, some, ltb, if◌then◌else◌,
  arith,
}
use longshot.Api.{Broker, create_job}
use longshot.Api.Handlers.{nobody, create_job-heard, create_job-nobody}
use longshot.Contract.{JobRequest}
use longshot.Redis.{Redis}
use longshot.Redis.Expiring.{Expiring}
use longshot.Worker.Invariant.{heartbeat_at, Kept, Timed, task_at, reachable-Inv}
use longshot.Worker.{
  HeartbeatTask, setting, confirming, sleeping, leaving, ended, beats_of, Worker, Reachable,
}

within : (now e : ℕ) {A : Type 0} (a b : A) → now < e → (if ltb now e then a else b) ≡ a
within now e a b h = ground arith

beyond : (now e : ℕ) {A : Type 0} (a b : A) → e ≤ now → (if ltb now e then a else b) ≡ b
beyond now e a b h = ground arith

module _ (r : Redis) (x : Expiring r) (late start : ℕ) (first : x.State) where
  abbrev Beating : HeartbeatTask → Type 0
  Beating (leaving n since) = ⊥
  Beating (ended n since) = ⊥
  Beating task = 1 ≤ beats_of task

  Beating-one : (task : HeartbeatTask) → Beating task → 1 ≤ beats_of task
  Beating-one (setting n since) h = h
  Beating-one (confirming n since) h = h
  Beating-one (sleeping n wake) h = h
  Beating-one (leaving n since) h = absurd h
  Beating-one (ended n since) h = absurd h

  -- The key that was set at `at` is there within ten seconds, and then gone.
  kept_for :
      (n at now : ℕ) (s : x.State)
      → 1 ≤ n
      → now < at + 10000
      → Kept r x late start first n at now s
      → heartbeat_at r x late start first now s ≡ some (codes "1")
  kept_for zero at now s h l k = elim h [ ]
  kept_for (suc n) at now s h l k = k now (omega arith) ∙ within _ _ _ _ l

  kept_until :
      (n at now : ℕ) (s : x.State)
      → ((t : ℕ) → start ≤ t → heartbeat_at r x late start first t first ≡ none)
      → start ≤ now
      → at + 10000 ≤ now
      → Kept r x late start first n at now s
      → heartbeat_at r x late start first now s ≡ none
  kept_until zero at now s clear b l k = k now (omega arith) ∙ clear now b
  kept_until (suc n) at now s clear b l k = k now (omega arith) ∙ beyond _ _ _ _ l

  Timed-recent :
      (at now : ℕ) (task : HeartbeatTask)
      → 3 * late < 7000
      → Beating task
      → Timed r x late start first at now task
      → now < at + 10000
  Timed-recent at now (setting zero since) l h t = elim h [ ]
  Timed-recent at now (setting (suc n) since) l h t = omega arith
  Timed-recent at now (confirming n since) l h t = omega arith
  Timed-recent at now (sleeping n wake) l h t = omega arith
  Timed-recent at now (leaving n since) l h t = absurd h
  Timed-recent at now (ended n since) l h t = absurd h

  module _ (w : Worker r x) (reached : Reachable r x late start first w) (task : HeartbeatTask)
      (present : w.heartbeat_task ≡ some task) (b : Broker) (session_id base_url : Text)
      (payload : JobRequest) (s : b.State) where
    -- Where requests, replies and wake-ups are late by less than 7000 / 3 milliseconds each, the
    -- key of the heartbeat is there from the first SET on until the task ends, in whatever order
    -- the steps of the worker and of other clients come, and `create_job` does not miss the worker.
    pub heartbeat_alive :
        3 * late < 7000
        → Beating task
        → (heartbeat_at r x late start first w.now w.redis ≡ some (codes "1"))
          × ((create_job r b session_id base_url payload (x.view w.now w.redis) s).0 ≢ nobody)
    heartbeat_alive short beats =
        let i = reachable-Inv r x late start first reached in
        let (kept, timed) = task_at r x late start first i present in
        let recent = Timed-recent i.at w.now task short beats timed in
        let there =
          kept_for (beats_of task) i.at w.now w.redis (Beating-one task beats) recent kept in
        (there, create_job-heard r b session_id base_url payload s _ _ there)

    -- With this worker alone, ten seconds after its heartbeat task has ended, by a shutdown or by an
    -- exception of its SET, and nothing that it sent is still on the way, the key is gone for good,
    -- if it was not there in the beginning, and `create_job` refuses every job and puts no message
    -- on the stream. A SET that was on the way when the task was cancelled may still arrive.
    pub heartbeat_gone :
        (n since : ℕ)
        → task ≡ ended n since
        → since + 10000 ≤ w.now
        → ((t : ℕ) → start ≤ t → heartbeat_at r x late start first t first ≡ none)
        → (heartbeat_at r x late start first w.now w.redis ≡ none)
          × (create_job r b session_id base_url payload (x.view w.now w.redis) s ≡ (nobody, s))
    heartbeat_gone n since over long clear =
        let i = reachable-Inv r x late start first reached in
        let (kept, timed) = task_at r x late start first i (present ∙ ap some over) in
        let gone = kept_until n i.at w.now w.redis clear i.past.1 (omega arith) kept in
        (gone, create_job-nobody r b session_id base_url payload s _ gone)
