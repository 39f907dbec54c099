-- ===== src/Tasks/Triples.antt =====
-- app/tasks.py: what a part of a run does to the log of its events, one rule for each way to build
-- a run.
use longshot.Common.{List}
use longshot.Events.{Event}
use longshot.Tasks.Monad.{
  Exn, Result, ok, err, Run, Exec, continue, pure, raise, lift, ◌>>=◌, ◌>>◌, attempt, handle,
  Raises,
}

-- What stands in the log where a part returns, and where it raises.
abbrev pub Logs : Type 1
Logs = List Event → Type 0

abbrev pub Exits : Type 1
Exits = Exn → Logs

module _ {A : Type 0} where
  abbrev pub After : Exits → (A → Logs) → Result A → Logs
  After E Q (ok a) events = Q a events
  After E Q (err e) events = E e events

  -- From a log in `P`, `m` returns with a log in `Q`, or raises with one in `E`.
  pub record Triple (P : Logs) (E : Exits) (Q : A → Logs) (m : Exec A) : Type 0 where
    pub at : (s : Run) → P s.events → After E Q (m s).0 (m s).1.events

  abbrev pub Keeps : Logs → Exits → Exec A → Type 0
  Keeps P E m = Triple P E (λ a. P) m

  pub pure-Triple :
      {P : Logs} {E : Exits} {Q : A → Logs} (a : A)
      → ((events : List Event) → P events → Q a events)
      → Triple P E Q (pure a)
  unfolding pure
  pure-Triple a f = record { at = λ s h. f s.events h }

  pub pure-Keeps : {P : Logs} {E : Exits} (a : A) → Keeps P E (pure a)
  pure-Keeps a = pure-Triple a (λ events h. h)

  pub raise-Triple :
      {P : Logs} {E : Exits} {Q : A → Logs} (e : Exn)
      → ((events : List Event) → P events → E e events)
      → Triple P E Q (raise e)
  unfolding raise
  raise-Triple e f = record { at = λ s h. f s.events h }

  -- What is known beside the log is a premise.
  pub known :
      {P : Logs} {F : Type 0} {E : Exits} {Q : A → Logs} {m : Exec A}
      → (F → Triple P E Q m)
      → Triple (λ events. P events × F) E Q m
  known k = record { at = λ s h. (k h.1).at s h.0 }

  pub lift-Keeps :
      {P : Logs} {E : Exits} (R : Exn → Type 0) (r : Result A)
      → Raises R r
      → ((e : Exn) (events : List Event) → R e → P events → E e events)
      → Keeps P E (lift r)
  unfolding lift
  lift-Keeps R (ok a) h f = record { at = λ s p. p }
  lift-Keeps R (err e) h f = record { at = λ s p. f e s.events h p }

  handled :
      {E F : Exits} {Q : A → Logs} (handler : Exn → Exec A)
      → ((e : Exn) → Triple (E e) F Q (handler e))
      → (r : Result A) (s : Run) → After E Q r s.events
      → After F Q (handle r handler s).0 (handle r handler s).1.events
  handled handler kh (ok a) s h = h
  handled handler kh (err e) s h = (kh e).at s h

  pub attempt-Triple :
      {P : Logs} {E F : Exits} {Q : A → Logs} (m : Exec A) (handler : Exn → Exec A)
      → Triple P E Q m
      → ((e : Exn) → Triple (E e) F Q (handler e))
      → Triple P F Q (attempt m handler)
  unfolding attempt
  attempt-Triple m handler km kh = record {
    at = λ s h. handled handler kh (m s).0 (m s).1 (km.at s h);
  }

module _ {A B : Type 0} {E : Exits} {R : A → Logs} {Q : B → Logs} where
  continue-After :
      (f : A → Exec B)
      → ((a : A) → Triple (R a) E Q (f a))
      → (r : Result A) (s : Run) → After E R r s.events
      → After E Q (continue r f s).0 (continue r f s).1.events
  continue-After f kf (ok a) s h = (kf a).at s h
  continue-After f kf (err e) s h = h

  pub bind-Triple :
      {P : Logs} (m : Exec A) (f : A → Exec B)
      → Triple P E R m
      → ((a : A) → Triple (R a) E Q (f a))
      → Triple P E Q (m >>= f)
  unfolding ◌>>=◌
  bind-Triple m f km kf = record { at = λ s h. continue-After f kf (m s).0 (m s).1 (km.at s h) }

module _ {A B : Type 0} {P R : Logs} {E : Exits} {Q : B → Logs} where
  pub then-Triple :
      {m : Exec A} {n : Exec B} → Triple P E (λ a. R) m → Triple R E Q n → Triple P E Q (m >> n)
  then-Triple {m} {n} km kn = bind-Triple m (λ u. n) km (λ u. kn)
