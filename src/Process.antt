-- ===== src/Process.antt =====
-- app/broker.py and app/publish.py: the objects that a process builds once, on demand.
use longshot.Common.{ℕ, suc, ◌≤◌, ◌≡◌, refl, Option, none, some, List, [], ◌∷◌, ◌++◌, arith}

-- A client of Redis is known by its number: `Redis.from_url` returns one more at each call.
pub record Process : Type 0 where
  pub clients : ℕ
  pub redis_singleton : Option ℕ
  pub publisher : Option ℕ

-- `get_redis` and `redis_dependency`. There is no await between the test and the assignment.
unfoldable pub get_redis : Process → ℕ × Process
get_redis p = elim p.redis_singleton [
  | none ↦ (p.clients, record p { clients = suc p.clients; redis_singleton = some p.clients })
  | some redis ↦ (redis, p)
]

-- `get_publisher`: a publisher is known by the client that it writes to.
unfoldable pub get_publisher : (redis : ℕ) → Process → ℕ × Process
get_publisher redis p = elim p.publisher [
  | none ↦ (redis, record p { publisher = some redis })
  | some mine ↦ (mine, p)
]

-- What asks for them: a handler of the API, the startup of a worker, and a job, which takes its
-- client from the broker and its publisher for that client.
pub data Caller : Type 0 where
  handler startup job : Caller

abbrev publisher_for : ℕ × Process → List ℕ × Process
publisher_for (redis, p) = let (mine, q) = get_publisher redis p in (redis ∷ mine ∷ [], q)

abbrev only : ℕ × Process → List ℕ × Process
only (redis, p) = (redis ∷ [], p)

-- The clients that a caller then sends its commands to.
unfoldable pub called : Caller → Process → List ℕ × Process
unfolding get_redis get_publisher
called handler p = only (get_redis p)
called startup p = only (get_redis p)
called job p = publisher_for (get_redis p)

unfoldable pub calls : List Caller → Process → List ℕ × Process
unfolding called
calls [] p = ([], p)
calls (c ∷ cs) p =
    let (clients, q) = called c p in let (more, after) = calls cs q in (clients ++ more, after)

abbrev pub All : ℕ → List ℕ → Type 0
All c [] = Unit
All c (d ∷ ds) = (d ≡ c) × All c ds

All-append : (c : ℕ) (xs ys : List ℕ) → All c xs → All c ys → All c (xs ++ ys)
All-append c [] ys h k = k
All-append c (x ∷ xs) ys h k = (h.0, All-append c xs ys h.1 k)

-- No client has been built, or one, and the publisher, if there is one, has that.
abbrev Fits : (first : ℕ) → Option ℕ → Option ℕ → ℕ → Type 0
Fits first none none clients = clients ≡ first
Fits first none (some mine) clients = ⊥
Fits first (some redis) none clients = (redis ≡ first) × (clients ≡ suc first)
Fits first (some redis) (some mine) clients =
    (redis ≡ first) × (mine ≡ first) × (clients ≡ suc first)

bounded : (first : ℕ) (o m : Option ℕ) (clients : ℕ) → Fits first o m clients → clients ≤ suc first
bounded first none none clients h = omega arith
bounded first none (some m) clients h = absurd h
bounded first (some c) none clients h = omega arith
bounded first (some c) (some m) clients h = omega arith

module _ (first : ℕ) where
  abbrev One : Process → Type 0
  One p = Fits first p.redis_singleton p.publisher p.clients

  called-One :
      (c : Caller) (clients : ℕ) (o m : Option ℕ)
      → Fits first o m clients
      → (let p : Process = record { clients = clients; redis_singleton = o; publisher = m } in
          All first (called c p).0 × One (called c p).1)
  unfolding called get_redis get_publisher
  called-One handler clients none none h = ((h, tt), (h, omega arith))
  called-One handler clients none (some m) h = absurd h
  called-One handler clients (some c) none h = ((h.0, tt), h)
  called-One handler clients (some c) (some m) h = ((h.0, tt), h)
  called-One startup clients none none h = ((h, tt), (h, omega arith))
  called-One startup clients none (some m) h = absurd h
  called-One startup clients (some c) none h = ((h.0, tt), h)
  called-One startup clients (some c) (some m) h = ((h.0, tt), h)
  called-One job clients none none h = ((h, (h, tt)), (h, h, omega arith))
  called-One job clients none (some m) h = absurd h
  called-One job clients (some c) none h = ((h.0, (h.0, tt)), (h.0, h.0, h.1))
  called-One job clients (some c) (some m) h = ((h.0, (h.1, tt)), h)

  calls-One :
      (cs : List Caller) (p : Process) → One p → All first (calls cs p).0 × One (calls cs p).1
  unfolding calls
  calls-One [] p h = (tt, h)
  calls-One (c ∷ cs) p h =
      let (same, after) = called-One c p.clients p.redis_singleton p.publisher h in
      let (more, last) = calls-One cs (called c p).1 after in
      (All-append first (called c p).0 (calls cs (called c p).1).0 same more, last)

-- In a process in which nothing has been built yet, in whatever order handlers, the startup and
-- jobs ask for them, all commands go to one client of Redis: the first that is built, and no other
-- is ever built. The publisher of every job writes to the client that the job itself uses.
calls-one_client :
    (cs : List Caller) (first : ℕ)
    → (let fresh : Process = record { clients = first; redis_singleton = none; publisher = none } in
        All first (calls cs fresh).0 × ((calls cs fresh).1.clients ≤ suc first))
calls-one_client cs first =
    let fresh : Process = record { clients = first; redis_singleton = none; publisher = none } in
    let (same, one) = calls-One first cs fresh refl in (same, bounded first _ _ _ one)
