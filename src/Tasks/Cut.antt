-- ===== src/Tasks/Cut.antt =====
-- app/tasks.py: a run that is cancelled, beside the same run that is not.
pub mod Poll
pub mod Stages
pub mod Cancelled
use longshot.Common.{
  ℕ, suc, zero, ◌+◌, ◌≤◌, ◌≡◌, ◌⊎◌, inl, inr, refl, sym, ap, ◌∙◌, Bool, Bool-cases, true, false,
  ltb, if◌then◌else◌, List, [], ◌∷◌, ◌++◌, append-nil, append_assoc, length, arith,
}
use mathlib.Core.Path.{subst}
use longshot.Events.{Event, Body, valid}
use longshot.Tasks.{check_cancel, stop_if}
use longshot.Tasks.Monad.{
  Exn, Result, ok, err, Job, Run, Exec, Reply, answer, failed, replied, continue, pure, raise, lift,
  ◌>>=◌, ◌>>◌, attempt, handle, emit, new_event, suspend, suspend_at, poll_flag, cancel_set,
}

pub record Prefix (before whole : List Event) : Type 0 where
  pub more : List Event
  pub split : whole ≡ before ++ more

pub Prefix-refl : (es : List Event) → Prefix es es
Prefix-refl es = record { more = []; split = sym (append-nil es) }

pub Prefix-trans : {es fs gs : List Event} → Prefix es fs → Prefix fs gs → Prefix es gs
Prefix-trans {es} p q = record {
  more = p.more ++ q.more;
  split = q.split ∙ ap (λ l. l ++ q.more) p.split ∙ append_assoc es p.more q.more;
}

-- The surroundings of a job in which the flag is not there from poll `k` on.
abbrev pub spared : ℕ → Job → Job
spared k j = record j { poll = λ n. if ltb n k then j.poll n else answer false }

module _ (k : ℕ) {A : Type 0} where
  -- The two runs of a part come to the same before poll `k`, or the first is cancelled, and what it
  -- has emitted by then the second emits as well.
  abbrev pub Same : (x y : Result A × Run) → Type 0
  Same x y = (x ≡ y) × (x.1.polls ≤ k)

  abbrev pub CutOff : (x y : Result A × Run) → Type 0
  CutOff x y = (x.0 ≡ err Exn.task_cancelled) × Prefix x.1.events y.1.events

  abbrev pub Related : (x y : Result A × Run) → Type 0
  Related x y = Same x y ⊎ CutOff x y

  pub record Cut (m n : Exec A) : Type 0 where
    pub at : (s : Run) → s.polls ≤ k → Related (m s) (n s)
    pub grows : (s : Run) → Prefix s.events (n s).1.events

  -- A part that does not poll.
  pub still-Cut :
      (m n : Exec A)
      → ((s : Run) → (m s ≡ n s) × ((m s).1.polls ≡ s.polls) × Prefix s.events (n s).1.events)
      → Cut m n
  still-Cut m n h = record {
    at = λ s le. inl ((h s).0, omega (arith, (h s).1));
    grows = λ s. (h s).2;
  }

  pub pure-Cut : (a : A) → Cut (pure a) (pure a)
  unfolding pure
  pure-Cut a = still-Cut _ _ (λ s. (refl, refl, Prefix-refl s.events))

  pub raise-Cut : (e : Exn) → Cut (raise e) (raise e)
  unfolding raise
  raise-Cut e = still-Cut _ _ (λ s. (refl, refl, Prefix-refl s.events))

  pub lift-Cut : (r : Result A) → Cut (lift r) (lift r)
  unfolding lift
  lift-Cut r = still-Cut _ _ (λ s. (refl, refl, Prefix-refl s.events))

  handle-same :
      (handler other : Exn → Exec A)
      → ((e : Exn) → Cut (handler e) (other e))
      → (r : Result A) (s : Run) → s.polls ≤ k
      → Related (handle r handler s) (handle r other s)
  handle-same handler other kh (ok a) s le = inl (refl, le)
  handle-same handler other kh (err e) s le = (kh e).at s le

  handle-grows :
      (handler other : Exn → Exec A)
      → ((e : Exn) → Cut (handler e) (other e))
      → (r : Result A) (s : Run) → Prefix s.events (handle r other s).1.events
  handle-grows handler other kh (ok a) s = Prefix-refl s.events
  handle-grows handler other kh (err e) s = (kh e).grows s

  -- A `try` whose handlers let a cancellation through.
  pub attempt-Cut :
      (m n : Exec A) (handler other : Exn → Exec A)
      → Cut m n
      → ((e : Exn) → Cut (handler e) (other e))
      → ((s : Run) → handler Exn.task_cancelled s ≡ (err Exn.task_cancelled, s))
      → Cut (attempt m handler) (attempt n other)
  unfolding attempt
  attempt-Cut m n handler other km kh passes = record {
    at = λ s le. tried s (km.at s le);
    grows = λ s. Prefix-trans (km.grows s) (handle-grows handler other kh (n s).0 (n s).1);
  }
    where
      tried :
          (s : Run)
          → Related (m s) (n s)
          → Related (handle (m s).0 handler (m s).1) (handle (n s).0 other (n s).1)
      tried s (inl (same, le)) =
          subst (λ y. Related (handle (m s).0 handler (m s).1) (handle y.0 other y.1)) same
            (handle-same handler other kh (m s).0 (m s).1 le)
      tried s (inr (cancelled, before)) =
          let passed : handle (m s).0 handler (m s).1 ≡ (err Exn.task_cancelled, (m s).1) =
            ap (λ r. handle r handler (m s).1) cancelled ∙ passes (m s).1 in
          subst (λ x. Related x (handle (n s).0 other (n s).1)) (sym passed)
            (inr (refl, Prefix-trans before (handle-grows handler other kh (n s).0 (n s).1)))

module _ (k : ℕ) {A B : Type 0} where
  continue-same :
      (f g : A → Exec B)
      → ((a : A) → Cut k (f a) (g a))
      → (r : Result A) (s : Run) → s.polls ≤ k
      → Related k (continue r f s) (continue r g s)
  continue-same f g kf (ok a) s le = (kf a).at s le
  continue-same f g kf (err e) s le = inl (refl, le)

  continue-grows :
      (f g : A → Exec B)
      → ((a : A) → Cut k (f a) (g a))
      → (r : Result A) (s : Run) → Prefix s.events (continue r g s).1.events
  continue-grows f g kf (ok a) s = (kf a).grows s
  continue-grows f g kf (err e) s = Prefix-refl s.events

  pub bind-Cut :
      (m n : Exec A) (f g : A → Exec B)
      → Cut k m n
      → ((a : A) → Cut k (f a) (g a))
      → Cut k (m >>= f) (n >>= g)
  unfolding ◌>>=◌
  bind-Cut m n f g km kf = record {
    at = λ s le. bound s (km.at s le);
    grows = λ s. Prefix-trans (km.grows s) (continue-grows f g kf (n s).0 (n s).1);
  }
    where
      bound :
          (s : Run)
          → Related k (m s) (n s)
          → Related k (continue (m s).0 f (m s).1) (continue (n s).0 g (n s).1)
      bound s (inl (same, le)) =
          subst (λ y. Related k (continue (m s).0 f (m s).1) (continue y.0 g y.1)) same
            (continue-same f g kf (m s).0 (m s).1 le)
      bound s (inr (cancelled, before)) =
          let stopped : continue (m s).0 f (m s).1 ≡ (err Exn.task_cancelled, (m s).1) =
            ap (λ r. continue r f (m s).1) cancelled in
          subst (λ x. Related k x (continue (n s).0 g (n s).1)) (sym stopped)
            (inr (refl, Prefix-trans before (continue-grows f g kf (n s).0 (n s).1)))

  pub then-Cut : (m n : Exec A) (o p : Exec B) → Cut k m n → Cut k o p → Cut k (m >> o) (n >> p)
  then-Cut m n o p km ko = bind-Cut m n (λ u. o) (λ u. p) km (λ u. ko)

module _ (k : ℕ) (j : Job) where
  pub emit-Cut : (body : Body) → Cut k (emit j body) (emit (spared k j) body)
  unfolding emit new_event
  emit-Cut body = still-Cut k (emit j body) (emit (spared k j) body) (λ s.
      elim (Bool-cases (valid (new_event j (length s.events) body))) [
        | inl fits ↦
            rw fits
              (refl, refl, record { more = new_event j (length s.events) body ∷ []; split = refl })
        | inr refused ↦ rw refused (refl, refl, Prefix-refl s.events)
      ])

  suspended :
      (s : Run) (n : ℕ)
      → (suspend_at j n s ≡ suspend_at (spared k j) n s)
        × ((suspend_at j n s).1.polls ≡ s.polls)
        × Prefix s.events (suspend_at (spared k j) n s).1.events
  unfolding suspend_at
  suspended s zero = (refl, refl, Prefix-refl s.events)
  suspended s (suc n) = (refl, refl, Prefix-refl s.events)

  pub suspend-Cut : Cut k (suspend j) (suspend (spared k j))
  unfolding suspend
  suspend-Cut = still-Cut k (suspend j) (suspend (spared k j)) (λ s. suspended s s.awaits)
