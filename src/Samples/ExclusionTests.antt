-- ===== src/Samples/ExclusionTests.antt =====
-- Two workers and one lock, with settings that keep the runs apart and with settings that do not.
use longshot.Common.{ℕ, ◌≤◌, refl, codes, text_eq, none, List, [], ◌∷◌, length, arith}
use longshot.Keys.{idempotency_lock}
use longshot.Redis.{set_nx}
use longshot.Tasks.Exclusion.{
  Limits, Workers, elapse, delivery, over, Reachable, begin, next, deliver,
}
use longshot.Tasks.Exclusion.Alone.{runs_alone}
use longshot.Tasks.Exclusion.Invariant.{Spaced}
use longshot.Samples.Services.{memory}
use longshot.Samples.WorkerTests.{Kept, expiring}

-- The settings where the environment says nothing, and runs that take ten seconds more.
abbrev usual : Limits
usual = record { task_hard_timeout_seconds = 120; idempotency_lock_ttl_seconds = 600; late = 10000 }

-- Settings within their limits whose lock is gone before the run is.
abbrev short : Limits
short = record usual { idempotency_lock_ttl_seconds = 60 }

abbrev locked_at : ℕ → Limits → Kept → Kept
locked_at now l s =
    expiring.exec
      (set_nx (idempotency_lock (codes "s1")) (codes "1") l.idempotency_lock_ttl_seconds) now s

abbrev at : ℕ → Kept → (active history : List ℕ) → Workers memory expiring
at now s active history = record { now = now; redis = s; active = active; history = history }

abbrev nothing : Kept
nothing k = none

abbrev once : Kept
once = locked_at 0 usual nothing

abbrev twice : Kept
twice = locked_at 50000 usual once

abbrev thrice : Kept
thrice = locked_at 600000 usual twice

-- A run of 100 seconds, a delivery in the midst of it, and one ten minutes after the first.
later :
    Reachable memory expiring
      (codes "s1")
      usual
      0
      nothing
      (at 600000 thrice (600000 ∷ []) (600000 ∷ 0 ∷ []))
unfolding deliver text_eq idempotency_lock
later =
    next
      (next
        (next
          (next
            (next
              (next (next begin (delivery (at 0 nothing [] [])))
                (elapse (at 0 once (0 ∷ []) (0 ∷ [])) 50000 (omega arith, tt)))
              (delivery (at 50000 once (0 ∷ []) (0 ∷ []))))
            (elapse (at 50000 twice (0 ∷ []) (0 ∷ [])) 50000 (omega arith, tt)))
          (over (at 100000 twice (0 ∷ []) (0 ∷ [])) [] [] 0 refl))
        (elapse (at 100000 twice [] (0 ∷ [])) 500000 tt))
      (delivery (at 600000 twice [] (0 ∷ [])))

runs_alone_example :
    (length {A = ℕ} (600000 ∷ []) ≤ 1) × Spaced memory expiring (codes "s1") usual (600000 ∷ 0 ∷ [])
runs_alone_example =
    runs_alone memory expiring (codes "s1") usual (omega arith) (λ t le. refl) later

-- With the short lock a second run starts while the first one is at work.
overlap :
    Reachable memory expiring (codes "s1") short 0 nothing (
      at 60000
        (locked_at 60000 short (locked_at 0 short nothing))
        (60000 ∷ 0 ∷ [])
        (60000 ∷ 0 ∷ []))
unfolding deliver text_eq idempotency_lock
overlap =
    next
      (next (next begin (delivery (at 0 nothing [] [])))
        (elapse (at 0 (locked_at 0 short nothing) (0 ∷ []) (0 ∷ [])) 60000 (omega arith, tt)))
      (delivery (at 60000 (locked_at 0 short nothing) (0 ∷ []) (0 ∷ [])))
