-- ===== src/Worker/Invariant.antt =====
-- app/worker.py and app/tasks.py: what Redis holds of the heartbeat in every state of a worker.
use longshot.Common.{
  ℕ, zero, suc, ◌+◌, ◌*◌, ◌≤◌, ◌≡◌, refl, ◌∙◌, Text, codes, false, Option, none, some, ltb,
  if◌then◌else◌, arith,
}
use mathlib.Core.Path.{subst}
use mathlib.Core.Option
use longshot.Keys.{worker_heartbeat}
use longshot.Redis.{Redis, Command, set}
use longshot.Redis.Expiring.{Expiring, touches}
use longshot.Worker.{
  HeartbeatTask, setting, confirming, sleeping, leaving, ended, beats_of, Worker, cancel, InTime,
  Step, elapse, startup, beat, refused, late_beat, never_sent, reply, reply_lost, awake, shutdown,
  other, Reachable, begin, next,
}

module _ (r : Redis) (x : Expiring r) (late start : ℕ) (first : x.State) where
  abbrev pub heartbeat_at : ℕ → x.State → Option Text
  heartbeat_at t s = r.value (x.view t s) worker_heartbeat

  -- What the key will be from `now` on: that of the beginning, or that of the last of the SETs.
  abbrev pub Kept : (beats at now : ℕ) → x.State → Type 0
  Kept zero at now s = (t : ℕ) → now ≤ t → heartbeat_at t s ≡ heartbeat_at t first
  Kept (suc n) at now s =
      (t : ℕ) → now ≤ t → heartbeat_at t s ≡ (if ltb t (at + 10000) then some (codes "1") else none)

  Kept-later :
      (n at now later : ℕ) (s : x.State) → now ≤ later → Kept n at now s → Kept n at later s
  Kept-later zero at now later s h k = λ t le. k t (omega arith)
  Kept-later (suc n) at now later s h k = λ t le. k t (omega arith)

  Kept-other :
      (n at now : ℕ) (s : x.State) (c : Command)
      → touches c worker_heartbeat ≡ false
      → Kept n at now s
      → Kept n at now (x.exec c now s)
  Kept-other zero at now s c h k = λ t le. x.value-other c now t s worker_heartbeat h le ∙ k t le
  Kept-other (suc n) at now s c h k = λ t le. x.value-other c now t s worker_heartbeat h le ∙ k t le

  Kept-set :
      (n now : ℕ) (s : x.State)
      → Kept (suc n) now now (x.exec (set worker_heartbeat (codes "1") 10) now s)
  Kept-set n now s = λ t le. x.value-set worker_heartbeat (codes "1") 10 now t s le

  -- How long ago the last SET, `at`, can have been.
  abbrev pub Timed : (at now : ℕ) → HeartbeatTask → Type 0
  Timed at now (setting zero since) = Unit
  Timed at now (setting (suc n) since) = (since ≤ at + 3000 + 2 * late) × (now ≤ since + late)
  Timed at now (confirming n since) = (since ≡ at) × (now ≤ since + late)
  Timed at now (sleeping n wake) = (wake ≤ at + 3000 + late) × (now ≤ wake + late)
  Timed at now (leaving n since) = at ≤ since
  Timed at now (ended n since) = at ≤ since

  abbrev Begun : (at : ℕ) → Worker r x → Option HeartbeatTask → Type 0
  Begun at w none = Kept 0 at w.now w.redis
  Begun at w (some task) = Kept (beats_of task) at w.now w.redis × Timed at w.now task

  pub record Inv (w : Worker r x) : Type 0 where
    pub at : ℕ
    pub past : (at ≤ w.now) × (start ≤ w.now)
    pub begun : Begun at w w.heartbeat_task

  Timed-elapse :
      (at now d : ℕ) (task : HeartbeatTask)
      → InTime r x late (now + d) (some task)
      → Timed at now task
      → Timed at (now + d) task
  Timed-elapse at now d (setting zero since) h t = tt
  Timed-elapse at now d (setting (suc n) since) h t = (t.0, h)
  Timed-elapse at now d (confirming n since) h t = (t.0, h)
  Timed-elapse at now d (sleeping n wake) h t = (t.0, h)
  Timed-elapse at now d (leaving n since) h t = t
  Timed-elapse at now d (ended n since) h t = t

  Begun-elapse :
      (at : ℕ) (w : Worker r x) (d : ℕ) (o : Option HeartbeatTask)
      → InTime r x late (w.now + d) o
      → Begun at w o
      → Begun at (record w { now = w.now + d }) o
  Begun-elapse at w d none h b = Kept-later 0 at w.now _ w.redis (omega arith) b
  Begun-elapse at w d (some task) h b = (
    Kept-later (beats_of task) at w.now _ w.redis (omega arith) b.0,
    Timed-elapse at w.now d task h b.1,
  )

  Begun-other :
      (at : ℕ) (w : Worker r x) (c : Command) (o : Option HeartbeatTask)
      → touches c worker_heartbeat ≡ false
      → Begun at w o
      → Begun at (record w { redis = x.exec c w.now w.redis }) o
  Begun-other at w c none h b = Kept-other 0 at w.now w.redis c h b
  Begun-other at w c (some task) h b = (Kept-other (beats_of task) at w.now w.redis c h b.0, b.1)

  Begun-cancel :
      (at : ℕ) (w : Worker r x) (o : Option HeartbeatTask)
      → at ≤ w.now
      → Begun at w o
      → Begun at w (Option.map (cancel w.now) o)
  Begun-cancel at w none h b = b
  Begun-cancel at w (some (setting n since)) h b = (b.0, h)
  Begun-cancel at w (some (confirming n since)) h b = (b.0, h)
  Begun-cancel at w (some (sleeping n wake)) h b = (b.0, h)
  Begun-cancel at w (some (leaving n since)) h b = b
  Begun-cancel at w (some (ended n since)) h b = b

  woken : (at now n wake : ℕ) → Timed at now (sleeping n wake) → Timed at now (setting n now)
  woken at now zero wake t = tt
  woken at now (suc n) wake t = (omega arith, omega arith)

  pub task_at :
      {w : Worker r x} {task : HeartbeatTask} (i : Inv w)
      → w.heartbeat_task ≡ some task
      → Begun i.at w (some task)
  task_at {w} i e = subst (Begun i.at w) e i.begun

  Inv-step : {v w : Worker r x} → Inv v → Step r x late v w → Inv w
  Inv-step i (elapse w d h) = record {
    at = i.at;
    past = (omega (arith, i.past), omega (arith, i.past));
    begun = Begun-elapse i.at w d w.heartbeat_task h i.begun;
  }
  Inv-step i (startup w e) = record {
    at = i.at;
    past = i.past;
    begun = (subst (Begun i.at w) e i.begun, tt);
  }
  Inv-step i (beat w n since e) = record {
    at = w.now;
    past = (omega arith, i.past.1);
    begun = (Kept-set n w.now w.redis, (refl, omega arith));
  }
  Inv-step i (refused w n since e) = record {
    at = i.at;
    past = i.past;
    begun = ((task_at i e).0, i.past.0);
  }
  Inv-step i (late_beat w n since e) = record {
    at = w.now;
    past = (omega arith, i.past.1);
    begun = (Kept-set n w.now w.redis, omega arith);
  }
  Inv-step i (never_sent w n since e) = record {
    at = i.at;
    past = i.past;
    begun = ((task_at i e).0, i.past.0);
  }
  Inv-step i (reply w n since e) =
      let b = task_at i e in
      record { at = i.at; past = i.past; begun = (b.0, (omega (arith, b.1), omega arith)) }
  Inv-step i (reply_lost w n since e) = record {
    at = i.at;
    past = i.past;
    begun = ((task_at i e).0, i.past.0);
  }
  Inv-step i (awake w n wake e h) =
      let b = task_at i e in
      record { at = i.at; past = i.past; begun = (b.0, woken i.at w.now n wake b.1) }
  Inv-step i (shutdown w) = record {
    at = i.at;
    past = i.past;
    begun = Begun-cancel i.at w w.heartbeat_task i.past.0 i.begun;
  }
  Inv-step i (other w c h) = record {
    at = i.at;
    past = i.past;
    begun = Begun-other i.at w c w.heartbeat_task h i.begun;
  }

  pub reachable-Inv : {w : Worker r x} → Reachable r x late start first w → Inv w
  reachable-Inv begin = record {
    at = start;
    past = (omega arith, omega arith);
    begun = λ t le. refl;
  }
  reachable-Inv (next reached step) = Inv-step (reachable-Inv reached) step
