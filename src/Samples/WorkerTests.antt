-- ===== src/Samples/WorkerTests.antt =====
-- A worker from its startup to its end at a Redis whose keys expire, and the theorems about it.
use longshot.Common.{
  ℕ, false, ◌+◌, ◌*◌, ◌≡◌, ◌≢◌, refl, Text, text_eq, text_eq_refl, codes, Option, none, some, [],
  ltb, if◌then◌else◌, arith,
}
use longshot.Api.{create_job}
use longshot.Api.Handlers.{nobody}
use longshot.Keys.{worker_heartbeat}
use longshot.Redis.{Command, incr, rpush, expire, set, set_nx, publish}
use longshot.Redis.Expiring.{Expiring, touches}
use longshot.Worker.{
  HeartbeatTask, setting, sleeping, confirming, leaving, ended, Worker, elapse, startup, beat,
  late_beat, reply, awake, shutdown, Reachable, begin, next,
}
use longshot.Worker.Heartbeat.{heartbeat_alive, heartbeat_gone}
use longshot.Samples.ApiTests.{list_broker, accepted_request}
use longshot.Samples.Services.{Memory, memory, empty}

-- A string, and the millisecond at which it is gone.
abbrev pub Kept : Type 0
Kept = Text → Option (Text × ℕ)

abbrev alive : ℕ → Option (Text × ℕ) → Option Text
alive t none = none
alive t (some (v, end)) = if ltb t end then some v else none

abbrev unless : Option Text → Option (Text × ℕ) → Option (Text × ℕ) → Option (Text × ℕ)
unless none old new = new
unless (some v) old new = old

abbrev lasting : ℕ → Option (Text × ℕ) → Option (Text × ℕ)
lasting end none = none
lasting end (some (v, old)) = some (v, end)

abbrev kept_after : Command → ℕ → Kept → Kept
kept_after (set key v ex) now s k = if text_eq key k then some (v, now + 1000 * ex) else s k
kept_after (set_nx key v ex) now s k =
    if text_eq key k then unless (alive now (s k)) (s k) (some (v, now + 1000 * ex)) else s k
kept_after (expire key ex) now s k = if text_eq key k then lasting (now + 1000 * ex) (s k) else s k
kept_after _ now s k = s k

abbrev seen : ℕ → Kept → Memory
seen t s = record empty { strings = λ k. alive t (s k) }

pub kept_after-other :
    (c : Command) (now t : ℕ) (s : Kept) (k : Text)
    → touches c k ≡ false
    → alive t (kept_after c now s k) ≡ alive t (s k)
kept_after-other (incr key) now t s k h = refl
kept_after-other (rpush key v) now t s k h = refl
kept_after-other (expire key ex) now t s k h = rw h refl
kept_after-other (set key v ex) now t s k h = rw h refl
kept_after-other (set_nx key v ex) now t s k h = rw h refl
kept_after-other (publish ch m) now t s k h = refl

abbrev pub expiring : Expiring memory
expiring = record {
  State = Kept;
  exec = kept_after;
  view = seen;
  value-set = λ k v ex now t s le. rw text_eq_refl refl;
  value-set_nx-free = λ k v ex now t s free le. rw text_eq_refl (rw free refl);
  value-set_nx-held = λ k v w ex now t s held le. rw text_eq_refl (rw held refl);
  value-other = λ c now t s k h le. kept_after-other c now t s k h;
}

abbrev From : Worker memory expiring → Type 0
From = Reachable memory expiring 2000 7 (λ k. none)

abbrev at : ℕ → Kept → HeartbeatTask → Worker memory expiring
at now s task = record { now = now; redis = s; heartbeat_task = some task }

abbrev beaten : ℕ → Kept → Kept
beaten now s = expiring.exec (set worker_heartbeat (codes "1") 10) now s

abbrev once : Kept
once = beaten 12 (λ k. none)

abbrev twice : Kept
twice = beaten 8512 once

-- A late reply and a late wake-up: the second SET is on its way 8500 milliseconds after the first.
second : From (at 8512 once (setting 1 6512))
second =
    next
      (next
        (next
          (next
            (next
              (next
                (next
                  (next begin
                    (startup (record { now = 7; redis = λ k. none; heartbeat_task = none }) refl))
                  (elapse (at 7 (λ k. none) (setting 0 7)) 5 (omega arith)))
                (beat (at 12 (λ k. none) (setting 0 7)) 0 7 refl))
              (elapse (at 12 once (confirming 1 12)) 1500 (omega arith)))
            (reply (at 1512 once (confirming 1 12)) 1 12 refl))
          (elapse (at 1512 once (sleeping 1 4512)) 5000 (omega arith)))
        (awake (at 6512 once (sleeping 1 4512)) 1 4512 refl (omega arith)))
      (elapse (at 6512 once (setting 1 6512)) 2000 (omega arith))

slow : From (at 8512 twice (confirming 2 8512))
slow = next second (beat (at 8512 once (setting 1 6512)) 1 6512 refl)

abbrev last : Kept
last = beaten 9012 once

-- The worker is shut down, its SET arrives all the same, and ten seconds pass.
over : From (at 19012 last (ended 2 9012))
over =
    next
      (next
        (next (next second (shutdown (at 8512 once (setting 1 6512))))
          (elapse (at 8512 once (leaving 1 8512)) 500 (omega arith)))
        (late_beat (at 9012 once (leaving 1 8512)) 1 8512 refl))
      (elapse (at 9012 last (ended 2 9012)) 10000 tt)

heartbeat_alive_example :
    (memory.value (seen 8512 twice) worker_heartbeat ≡ some (codes "1"))
    × ((create_job memory list_broker
          (codes "s1")
          (codes "http://h/")
          accepted_request
          (seen 8512 twice)
          []).0
        ≢ nobody)
heartbeat_alive_example =
    heartbeat_alive memory expiring 2000 7 (λ k. none) (at 8512 twice (confirming 2 8512)) slow
      (confirming 2 8512) refl list_broker (codes "s1") (codes "http://h/") accepted_request []
      (omega arith) (omega arith)

heartbeat_gone_example :
    (memory.value (seen 19012 last) worker_heartbeat ≡ none)
    × (create_job memory list_broker
          (codes "s1")
          (codes "http://h/")
          accepted_request
          (seen 19012 last)
          []
        ≡ (nobody, []))
heartbeat_gone_example =
    heartbeat_gone memory expiring 2000 7 (λ k. none) (at 19012 last (ended 2 9012)) over
      (ended 2 9012) refl list_broker (codes "s1") (codes "http://h/") accepted_request [] 2 9012
      refl (omega arith) (λ t le. refl)
