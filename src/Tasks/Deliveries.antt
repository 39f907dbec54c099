-- ===== src/Tasks/Deliveries.antt =====
-- app/tasks.py, `run_job`: the deliveries of the broker, one after the other, of any sessions, at a
-- Redis whose keys expire.
use longshot.Common.{
  ℕ, ◌+◌, ◌*◌, ◌≤◌, ◌<◌, ◌≡◌, refl, sym, ap, ap₂, ◌∙◌, Text, codes, text_eq, text_eq_iff,
  Bool-cases, inl, inr, true, false, if◌then◌else◌, ltb, Option, none, some, List, [], ◌∷◌, ◌++◌,
  append-nil, map, arith,
}
use longshot.Keys.{idempotency_lock}
use longshot.Publish.{Item, event, stop}
use longshot.Redis.{Redis, Command, set_nx}
use longshot.Redis.Expiring.{Expiring, touches}
use longshot.Tasks.Lock.{refused}
use longshot.Tasks.Monad.{Job}
use longshot.Tasks.RunJob.{Params, after_lock, body, run_job}

-- What happens in Redis, with its time in milliseconds: a delivery to a worker, or a command of
-- another client.
pub data Arrival : Type 0 where
  delivery : (at : ℕ) (j : Job) (p : Params) (awaits : ℕ) → Arrival
  command : (at : ℕ) → Command → Arrival

abbrev pub time_of : Arrival → ℕ
time_of (delivery at j p awaits) = at
time_of (command at c) = at

-- The items that the deliveries put into the queue of a session.
abbrev pub if_own : Text → Text → List Item → List Item
if_own i j items = if text_eq j i then items else []

-- What a run with the lock puts into its queue.
abbrev pub run_items : Job → Params → ℕ → List Item
run_items j p awaits = map event (body j p awaits).1.events ++ stop ∷ []

-- The items of the first delivery of a session.
abbrev pub first_items : Text → List Arrival → List Item
first_items i [] = []
first_items i (delivery at j p awaits ∷ more) =
    if text_eq j.session_id i then run_items j p awaits else first_items i more
first_items i (command at c ∷ more) = first_items i more

-- No other client touches the lock of the session.
abbrev pub LockAlone : Text → List Arrival → Type 0
LockAlone i [] = Unit
LockAlone i (delivery at j p awaits ∷ more) = LockAlone i more
LockAlone i (command at c ∷ more) = (touches c (idempotency_lock i) ≡ false) × LockAlone i more

abbrev pub InOrder : ℕ → List Arrival → Type 0
InOrder now [] = Unit
InOrder now (a ∷ more) = (now ≤ time_of a) × InOrder (time_of a) more

abbrev pub AllBefore : ℕ → List Arrival → Type 0
AllBefore end [] = Unit
AllBefore end (a ∷ more) = (time_of a < end) × AllBefore end more

-- All that comes behind the first delivery of the session comes while its lock lasts.
abbrev pub WhileLocked : Text → List Arrival → Type 0
WhileLocked i [] = Unit
WhileLocked i (delivery at j p awaits ∷ more) =
    if text_eq j.session_id i
    then AllBefore (at + 1000 * p.idempotency_lock_ttl_seconds) more
    else WhileLocked i more
WhileLocked i (command at c ∷ more) = WhileLocked i more

locks-differ :
    (i j : Text) → text_eq j i ≡ false → text_eq (idempotency_lock j) (idempotency_lock i) ≡ false
unfolding idempotency_lock text_eq
locks-differ i j h = h

while_locked :
    (i : Text) (at : ℕ) (j : Job) (p : Params) (awaits : ℕ) (more : List Arrival)
    → text_eq j.session_id i ≡ false
    → WhileLocked i (delivery at j p awaits ∷ more)
    → WhileLocked i more
while_locked i at j p awaits more another h = rw another at h

locked_for :
    (i : Text) (at : ℕ) (j : Job) (p : Params) (awaits : ℕ) (more : List Arrival)
    → text_eq j.session_id i ≡ true
    → WhileLocked i (delivery at j p awaits ∷ more)
    → AllBefore (at + 1000 * p.idempotency_lock_ttl_seconds) more
locked_for i at j p awaits more own h = rw own at h

module _ (r : Redis) (x : Expiring r) (i : Text) where
  -- `redis.set(..., "1", nx=True, ex=settings.idempotency_lock_ttl_seconds)`, which is the one
  -- command that a delivery sends itself: the others are those of its drainer.
  abbrev pub set_lock : ℕ → Job → Params → x.State → x.State
  set_lock at j p s =
      x.exec (set_nx (idempotency_lock j.session_id) (codes "1") p.idempotency_lock_ttl_seconds) at
        s

  -- The items for the queue of a session that come of arrivals, from a state of Redis on.
  unfoldable pub delivered_items : List Arrival → x.State → List Item
  delivered_items [] s = []
  delivered_items (delivery at j p awaits ∷ more) s =
      if_own i j.session_id (run_job j p r awaits (x.view at s)).items
      ++ delivered_items more (set_lock at j p s)
  delivered_items (command at c ∷ more) s = delivered_items more (x.exec c at s)

  abbrev pub lock_at : ℕ → x.State → Option Text
  lock_at t s = r.value (x.view t s) (idempotency_lock i)

  abbrev LockedUntil : (end now : ℕ) → x.State → Type 0
  LockedUntil end now s =
      (t : ℕ) → now ≤ t → lock_at t s ≡ (if ltb t end then some (codes "1") else none)

  -- The other arrivals leave the lock as it was.
  lock-other :
      (c : Command) (at t : ℕ) (s : x.State)
      → touches c (idempotency_lock i) ≡ false
      → at ≤ t
      → lock_at t (x.exec c at s) ≡ lock_at t s
  lock-other c at t s h le = x.value-other c at t s (idempotency_lock i) h le

  -- A key by its session, and by another way to write that session.
  same_lock :
      (j : Job) (t : ℕ) (s : x.State)
      → j.session_id ≡ i
      → lock_at t s ≡ r.value (x.view t s) (idempotency_lock j.session_id)
  same_lock j t s same = ap (λ k. r.value (x.view t s) (idempotency_lock k)) (sym same)

  set_lock-other :
      (at t : ℕ) (j : Job) (p : Params) (s : x.State)
      → text_eq j.session_id i ≡ false
      → at ≤ t
      → lock_at t (set_lock at j p s) ≡ lock_at t s
  set_lock-other at t j p s another le =
      lock-other _ at t s (locks-differ i j.session_id another) le

  LockedUntil-first :
      (at : ℕ) (j : Job) (p : Params) (s : x.State)
      → j.session_id ≡ i
      → lock_at at s ≡ none
      → LockedUntil (at + 1000 * p.idempotency_lock_ttl_seconds) at (set_lock at j p s)
  LockedUntil-first at j p s same free t le =
      same_lock j t (set_lock at j p s) same
      ∙ x.value-set_nx-free (idempotency_lock j.session_id) (codes "1")
          p.idempotency_lock_ttl_seconds at t s (sym (same_lock j at s same) ∙ free) le

  LockedUntil-again :
      (end now at : ℕ) (j : Job) (p : Params) (s : x.State) {w : Text}
      → j.session_id ≡ i
      → now ≤ at
      → lock_at at s ≡ some w
      → LockedUntil end now s
      → LockedUntil end at (set_lock at j p s)
  LockedUntil-again end now at j p s same later held_at held t le =
      same_lock j t (set_lock at j p s) same
      ∙ x.value-set_nx-held (idempotency_lock j.session_id) (codes "1") _
          p.idempotency_lock_ttl_seconds at t s (sym (same_lock j at s same) ∙ held_at) le
      ∙ sym (same_lock j t s same)
      ∙ held t (omega arith)

  held_now :
      (end now at : ℕ) (s : x.State)
      → now ≤ at
      → at < end
      → LockedUntil end now s
      → lock_at at s ≡ some (codes "1")
  held_now end now at s later before held = held at later ∙ ground arith

  free_items :
      (j : Job) (p : Params) (awaits : ℕ) (s : r.State)
      → r.value s (idempotency_lock j.session_id) ≡ none
      → (run_job j p r awaits s).items ≡ run_items j p awaits
  unfolding run_job after_lock
  free_items j p awaits s h = rw h refl

  -- While the lock lasts no delivery of the session puts anything into its queue.
  held-none :
      (end now : ℕ) (ds : List Arrival) (s : x.State)
      → InOrder now ds
      → AllBefore end ds
      → LockAlone i ds
      → LockedUntil end now s
      → delivered_items ds s ≡ []
  unfolding delivered_items
  held-none end now [] s later before alone h = refl
  held-none end now (command at c ∷ more) s later before alone h =
      held-none end at more (x.exec c at s) later.1 before.1 alone.1
        (λ t le. lock-other c at t s alone.0 le ∙ h t (omega (arith, later.0)))
  held-none end now (delivery at j p awaits ∷ more) s later before alone h =
      elim (Bool-cases (text_eq j.session_id i)) [
        | inl own ↦
            let same = (text_eq_iff j.session_id i).0 own in
            let there = held_now end now at s later.0 before.0 h in
            rw own (
              ap₂ (λ xs ys. xs ++ ys)
                (refused r j p awaits (x.view at s) (sym (same_lock j at s same) ∙ there)).1
                (held-none end at more (set_lock at j p s) later.1 before.1 alone
                  (LockedUntil-again end now at j p s same later.0 there h)))
        | inr another ↦ rw another (
            held-none end at more (set_lock at j p s) later.1 before.1 alone
              (λ t le. set_lock-other at t j p s another le ∙ h t (omega (arith, later.0))))
      ]

  -- Take deliveries of any sessions in the order of their times, and commands of other clients that
  -- do not touch the lock of one session, from a state in which that lock is free. If all that
  -- comes behind the first delivery of the session comes before the lock of that delivery expires,
  -- then all that the deliveries put into the queue of the session is what the first one puts
  -- there, a whole run and the sentinel behind it: every later delivery, whatever the outcome of
  -- the first, adds nothing.
  pub delivered_items-first :
      (now : ℕ) (ds : List Arrival) (s : x.State)
      → InOrder now ds
      → LockAlone i ds
      → WhileLocked i ds
      → ((t : ℕ) → now ≤ t → lock_at t s ≡ none)
      → delivered_items ds s ≡ first_items i ds
  unfolding delivered_items
  delivered_items-first now [] s later alone lasts h = refl
  delivered_items-first now (command at c ∷ more) s later alone lasts h =
      delivered_items-first at more (x.exec c at s) later.1 alone.1 lasts
        (λ t le. lock-other c at t s alone.0 le ∙ h t (omega (arith, later.0)))
  delivered_items-first now (delivery at j p awaits ∷ more) s later alone lasts h =
      elim (Bool-cases (text_eq j.session_id i)) [
        | inl own ↦
            let same = (text_eq_iff j.session_id i).0 own in
            rw own (
              ap₂ (λ xs ys. xs ++ ys)
                (free_items j p awaits (x.view at s) (sym (same_lock j at s same) ∙ h at later.0))
                (held-none (at + 1000 * p.idempotency_lock_ttl_seconds) at more (set_lock at j p s)
                  later.1 (locked_for i at j p awaits more own lasts) alone
                  (LockedUntil-first at j p s same (h at later.0)))
              ∙ append-nil (run_items j p awaits))
        | inr another ↦ rw another (
            delivered_items-first at more (set_lock at j p s) later.1 alone
              (while_locked i at j p awaits more another lasts)
              (λ t le. set_lock-other at t j p s another le ∙ h t (omega (arith, later.0))))
      ]
