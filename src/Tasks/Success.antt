-- ===== src/Tasks/Success.antt =====
-- app/tasks.py: runs that nothing stops. A part of such a run returns, with a known value, after a
-- known number of awaits, and emits known events.
pub mod Stages
pub mod Complete
use longshot.Common.{
  ℕ, zero, suc, ◌+◌, ◌≤◌, ◌≡◌, refl, sym, ap, ◌∙◌, true, false, List, [], ◌∷◌, ◌++◌, map,
  map-append, append-nil, append_assoc, length, arith,
}
use longshot.Events.{Event, Body, valid, valid_body}
use longshot.Tasks.{check_cancel, stop_if}
use longshot.Tasks.Monad.{
  Result, ok, Job, Run, Exec, Reply, answer, pure, lift, ◌>>=◌, ◌>>◌, continue, attempt, handle,
  emit, new_event, suspend, suspend_at, poll_flag, replied, cancel_set, Exn,
}

abbrev pub bodies : List Event → List Body
bodies events = map (λ e. e.body) events

-- The run after a part: what it has emitted, and what is left of its awaits.
pub record Leads (s : Run) (n : ℕ) (emitted : List Body) (t : Run) : Type 0 where
  pub left : t.awaits + n ≡ s.awaits
  pub log : bodies t.events ≡ bodies s.events ++ emitted

-- From a run with `n` awaits left, `m` returns `a` and emits these events.
pub record Does {A : Type 0} (m : Exec A) (n : ℕ) (a : A) (emitted : List Body) : Type 0 where
  pub at : (s : Run) → n ≤ s.awaits → (t : Run) × (m s ≡ (ok a, t)) × Leads s n emitted t

Leads-none : (s : Run) → Leads s 0 [] s
Leads-none s = record { left = omega arith; log = sym (append-nil _) }

Leads-trans :
    {s t u : Run} {n k : ℕ} {bs cs : List Body}
    → Leads s n bs t
    → Leads t k cs u
    → Leads s (n + k) (bs ++ cs) u
Leads-trans {s} {t} {u} {n} {k} {bs} {cs} h g = record {
  left = omega (arith, h.left, g.left);
  log = g.log ∙ ap (λ l. l ++ cs) h.log ∙ append_assoc (bodies s.events) bs cs;
}

module _ {A : Type 0} where
  pub pure-Does : (a : A) → Does (pure a) 0 a []
  unfolding pure
  pure-Does a = record { at = λ s h. (s, refl, Leads-none s) }

  pub lift-Does : {r : Result A} {a : A} → r ≡ ok a → Does (lift r) 0 a []
  unfolding lift
  lift-Does e = record { at = λ s h. (s, rw e refl, Leads-none s) }

  -- A handler of what is not raised.
  pub attempt-Does :
      {m : Exec A} (handler : Exn → Exec A) {n : ℕ} {a : A} {bs : List Body}
      → Does m n a bs
      → Does (attempt m handler) n a bs
  unfolding attempt
  attempt-Does handler km = record { at = λ s h. let (t, e, l) = km.at s h in (t, rw e refl, l) }

  pub times :
      {m : Exec A} {n k : ℕ} {a : A} {bs : List Body} → n ≡ k → Does m n a bs → Does m k a bs
  times {m} {n} {k} {a} {bs} e d = rw (← e) d

module _ {A B : Type 0} where
  pub bind-Does :
      {m : Exec A} (f : A → Exec B) {n k : ℕ} {a : A} {b : B} {bs cs : List Body}
      → Does m n a bs
      → Does (f a) k b cs
      → Does (m >>= f) (n + k) b (bs ++ cs)
  unfolding ◌>>=◌
  bind-Does f km kf = record {
    at = λ s h.
        let (t, e, l) = km.at s (omega arith) in
        let (u, e', l') = kf.at t (omega (arith, l.left)) in (u, rw e e', Leads-trans l l');
  }

  pub map-Does :
      {m : Exec A} (f : A → B) {n : ℕ} {a : A} {bs : List Body}
      → Does m n a bs
      → Does (m >>= λ x. pure (f x)) n (f a) bs
  unfolding ◌>>=◌ pure
  map-Does f km = record { at = λ s h. let (t, e, l) = km.at s h in (t, rw e refl, l) }

  pub then-Does :
      {m : Exec A} {o : Exec B} {n k : ℕ} {a : A} {b : B} {bs cs : List Body}
      → Does m n a bs
      → Does o k b cs
      → Does (m >> o) (n + k) b (bs ++ cs)
  then-Does {m} {o} km ko = bind-Does (λ u. o) km ko

module _ (j : Job) where
  pub suspend-Does : Does (suspend j) 1 tt []
  unfolding suspend
  suspend-Does = record { at = λ s h. waits s s.awaits refl h }
    where
      waits :
          (s : Run) (n : ℕ)
          → s.awaits ≡ n
          → 1 ≤ n
          → (t : Run) × (suspend_at j n s ≡ (ok tt, t)) × Leads s 1 [] t
      waits s zero e h = absurd (omega arith)
      waits s (suc n) e h =
          (record s { awaits = n }, refl, record { left = omega arith; log = sym (append-nil _) })

  pub emit-Does : (body : Body) → valid_body body ≡ true → Does (emit j body) 0 tt (body ∷ [])
  unfolding emit valid new_event
  emit-Does body fits = record {
    at = λ s h. (
      record s { events = s.events ++ new_event j (length s.events) body ∷ [] },
      rw fits refl,
      record { left = omega arith; log = map-append (λ e. e.body) s.events _ },
    );
  }

  module _ (unset : (n : ℕ) → j.poll n ≡ answer false) where
    poll-Does : Does (poll_flag j) 0 false []
    unfolding poll_flag replied
    poll-Does = record {
      at = λ s h. (
        record s { polls = s.polls + 1 },
        rw (unset s.polls) refl,
        record { left = omega arith; log = sym (append-nil _) },
      );
    }

    pub check_cancel-Does : Does (check_cancel j) 1 tt []
    unfolding check_cancel cancel_set stop_if
    check_cancel-Does = bind-Does _ (then-Does suspend-Does poll-Does) (pure-Does tt)
