-- ===== src/Tasks/Exclusion/Alone.antt =====
-- app/tasks.py, `run_job`: no two runs of a session are at work at once.
use longshot.Common.{ℕ, ◌+◌, ◌*◌, ◌≤◌, ◌<◌, ◌≡◌, none, List, [], ◌∷◌, length, arith, Text}
use longshot.Redis.{Redis}
use longshot.Redis.Expiring.{Expiring}
use longshot.Tasks.Exclusion.{Limits, Workers, Reachable}
use longshot.Tasks.Exclusion.Invariant.{lock_at, Spaced, Last, Reachable-Inv}

module _ (r : Redis) (x : Expiring r) (session_id : Text) (l : Limits) where
  open l use {task_hard_timeout_seconds, idempotency_lock_ttl_seconds, late}

  Last-length : (history active : List ℕ) → Last r x session_id l history active → length active ≤ 1
  Last-length history [] h = omega arith
  Last-length [] (at ∷ more) h = absurd h
  Last-length (last ∷ history) (at ∷ []) h = omega arith
  Last-length (last ∷ history) (at ∷ b ∷ more) h = cc (h.1)

  -- Where the lock lives longer than a run can be at work, with its time limit and what comes
  -- behind it, no two runs of a session are at work at once, in whatever order deliveries, ends of
  -- runs, the commands of other clients and the passing of time come, and however many workers
  -- there are. Any two runs that follow each other got the lock at least its time to live apart.
  pub runs_alone :
      1000 * task_hard_timeout_seconds + late < 1000 * idempotency_lock_ttl_seconds
      → {now : ℕ} {redis : x.State} {w : Workers r x}
      → ((t : ℕ) → now ≤ t → lock_at r x session_id l t redis ≡ none)
      → Reachable r x session_id l now redis w
      → (length w.active ≤ 1) × Spaced r x session_id l w.history
  runs_alone margin {w = w} free reached =
      let i = Reachable-Inv r x session_id l margin free reached in
      (Last-length w.history w.active i.last, i.spaced)
