-- ===== src/Tasks/Exclusion/Invariant.antt =====
-- app/tasks.py, `run_job`: what the lock of a session says of its runs.
use longshot.Common.{
  ℕ, ◌+◌, ◌*◌, ◌≤◌, ◌<◌, ◌≡◌, refl, sym, ◌∙◌, Text, codes, Option, none, some, ltb, if◌then◌else◌,
  List, [], ◌∷◌, ◌++◌, arith, Bool-cases, inl, inr,
}
use mathlib.Core.Path.{subst}
use longshot.Keys.{idempotency_lock}
use longshot.Redis.{Redis}
use longshot.Redis.Expiring.{Expiring}
use longshot.Tasks.Exclusion.{
  Limits, Workers, lock_now, started, locked, deliver, WithinLimit, Step, elapse, delivery, over,
  other, Reachable, begin, next,
}

module _ (r : Redis) (x : Expiring r) (session_id : Text) (l : Limits) where
  open l use {task_hard_timeout_seconds, idempotency_lock_ttl_seconds, late}

  abbrev pub lock_at : ℕ → x.State → Option Text
  lock_at t s = r.value (x.view t s) (idempotency_lock session_id)

  -- The lock from `now` on: free, or held for its time after the last run got it.
  abbrev pub Locked : List ℕ → (now : ℕ) → x.State → Type 0
  Locked [] now s = (t : ℕ) → now ≤ t → lock_at t s ≡ none
  Locked (at ∷ more) now s =
      (t : ℕ)
      → now ≤ t
      → lock_at t s
        ≡ (if ltb t (at + 1000 * idempotency_lock_ttl_seconds) then some (codes "1") else none)

  -- Each run got the lock at least its time to live after the one before.
  abbrev pub Spaced : List ℕ → Type 0
  Spaced [] = Unit
  Spaced (at ∷ []) = Unit
  Spaced (at ∷ before ∷ more) =
      (before + 1000 * idempotency_lock_ttl_seconds ≤ at) × Spaced (before ∷ more)

  -- Only the last run can be at work.
  abbrev pub Last : List ℕ → List ℕ → Type 0
  Last history [] = Unit
  Last [] (at ∷ more) = ⊥
  Last (last ∷ history) (at ∷ more) = (at ≡ last) × (more ≡ [])

  abbrev pub Past : ℕ → List ℕ → Type 0
  Past now [] = Unit
  Past now (at ∷ more) = at ≤ now

  pub record Inv (w : Workers r x) : Type 0 where
    pub lock : Locked w.history w.now w.redis
    pub spaced : Spaced w.history
    pub last : Last w.history w.active
    pub past : Past w.now w.history
    pub within : WithinLimit r x session_id l w.now w.active

  Locked-later :
      (h : List ℕ) (now later : ℕ) (s : x.State) → now ≤ later → Locked h now s → Locked h later s
  Locked-later [] now later s le k = λ t m. k t (omega arith)
  Locked-later (at ∷ h) now later s le k = λ t m. k t (omega arith)

  -- The lock is the same to all who look later.
  abbrev Same : (now : ℕ) (s t : x.State) → Type 0
  Same now s t = (later : ℕ) → now ≤ later → lock_at later t ≡ lock_at later s

  Locked-same :
      (h : List ℕ) (now : ℕ) (s t : x.State) → Same now s t → Locked h now s → Locked h now t
  Locked-same [] now s t same k = λ later m. same later m ∙ k later m
  Locked-same (at ∷ h) now s t same k = λ later m. same later m ∙ k later m

  Past-later : (h : List ℕ) (now d : ℕ) → Past now h → Past (now + d) h
  Past-later [] now d p = tt
  Past-later (at ∷ h) now d p = omega arith

  no_snoc : (before after : List ℕ) (at : ℕ) → before ++ at ∷ after ≡ [] → ⊥
  no_snoc [] after at e = cc e
  no_snoc (b ∷ before) after at e = cc e

  Last-erase :
      (h before after : List ℕ) (at : ℕ) → Last h (before ++ at ∷ after) → Last h (before ++ after)
  Last-erase [] [] after at k = absurd k
  Last-erase (last ∷ h) [] after at k = subst (Last (last ∷ h)) (sym k.1) tt
  Last-erase [] (b ∷ before) after at k = absurd k
  Last-erase (last ∷ h) (b ∷ before) after at k = absurd (no_snoc before after at k.1)

  Within-erase :
      (now : ℕ) (before after : List ℕ) (at : ℕ)
      → WithinLimit r x session_id l now (before ++ at ∷ after)
      → WithinLimit r x session_id l now (before ++ after)
  Within-erase now [] after at k = k.1
  Within-erase now (b ∷ before) after at k = (k.0, Within-erase now before after at k.1)

  -- A lock that is found free has outlived its time.
  lock-expired :
      (at : ℕ) (h : List ℕ) (now : ℕ) (s : x.State)
      → Locked (at ∷ h) now s
      → lock_at now s ≡ none
      → at + 1000 * idempotency_lock_ttl_seconds ≤ now
  lock-expired at h now s k free =
      elim (Bool-cases (ltb now (at + 1000 * idempotency_lock_ttl_seconds))) [
        | inl held ↦ cc (rw held at (k now (omega arith)), free)
        | inr gone ↦ ground arith
      ]

  Spaced-next :
      (h : List ℕ) (now : ℕ) (s : x.State)
      → Locked h now s
      → lock_at now s ≡ none
      → Spaced h
      → Spaced (now ∷ h)
  Spaced-next [] now s k free sp = tt
  Spaced-next (at ∷ h) now s k free sp = (lock-expired at h now s k free, sp)

  module _
      (margin : 1000 * task_hard_timeout_seconds + late < 1000 * idempotency_lock_ttl_seconds) where
    -- So no run is left where the lock is free.
    none_active :
        (h active : List ℕ) (now : ℕ) (s : x.State)
        → Locked h now s
        → lock_at now s ≡ none
        → Last h active
        → WithinLimit r x session_id l now active
        → active ≡ []
    none_active h [] now s k free last within = refl
    none_active [] (at ∷ more) now s k free last within = absurd last
    none_active (at' ∷ h) (at ∷ more) now s k free last within =
        absurd (omega (arith, lock-expired at' h now s k free, last.0, within.0, margin))

    delivered-Inv :
        (w : Workers r x) (o : Option Text)
        → lock_now r x session_id l w ≡ o
        → Inv w
        → Inv (started r x session_id l o (locked r x session_id l w))
    delivered-Inv w none e i = record {
      lock = λ t m. x.value-set_nx-free _ _ idempotency_lock_ttl_seconds w.now t w.redis e m;
      spaced = Spaced-next w.history w.now w.redis i.lock e i.spaced;
      last = (refl, none_active w.history w.active w.now w.redis i.lock e i.last i.within);
      past = omega arith;
      within = (omega arith, i.within);
    }
    delivered-Inv w (some holder) e i = record {
      lock =
          Locked-same w.history w.now w.redis _
            (λ t m. x.value-set_nx-held _ _ holder idempotency_lock_ttl_seconds w.now t w.redis e m)
            i.lock;
      spaced = i.spaced;
      last = i.last;
      past = i.past;
      within = i.within;
    }

    Step-Inv : {v w : Workers r x} → Step r x session_id l v w → Inv v → Inv w
    unfolding deliver
    Step-Inv (elapse w d h) i = record {
      lock = Locked-later w.history w.now (w.now + d) w.redis (omega arith) i.lock;
      spaced = i.spaced;
      last = i.last;
      past = Past-later w.history w.now d i.past;
      within = h;
    }
    Step-Inv (delivery w) i = delivered-Inv w _ refl i
    Step-Inv (over w before after at e) i = record {
      lock = i.lock;
      spaced = i.spaced;
      last = Last-erase w.history before after at (subst (Last w.history) e i.last);
      past = i.past;
      within =
          Within-erase w.now before after at
            (subst (WithinLimit r x session_id l w.now) e i.within);
    }
    Step-Inv (other w c h) i = record {
      lock =
          Locked-same w.history w.now w.redis _
            (λ t m. x.value-other c w.now t w.redis (idempotency_lock session_id) h m) i.lock;
      spaced = i.spaced;
      last = i.last;
      past = i.past;
      within = i.within;
    }

    pub Reachable-Inv :
        {now : ℕ} {redis : x.State} {w : Workers r x}
        → ((t : ℕ) → now ≤ t → lock_at t redis ≡ none)
        → Reachable r x session_id l now redis w
        → Inv w
    Reachable-Inv free begin = record {
      lock = free;
      spaced = tt;
      last = tt;
      past = tt;
      within = tt;
    }
    Reachable-Inv free (next reached step) = Step-Inv step (Reachable-Inv free reached)
