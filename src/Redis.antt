-- ===== src/Redis.antt =====
-- Redis, a service that the program calls: its commands, and what its documentation says of each.
pub mod Expiring
use longshot.Common.{
  ℕ, suc, ◌≡◌, Text, text_eq, Option, none, some, List, [], ◌∷◌, ◌++◌, if◌then◌else◌,
}

-- The commands that change something. The time to live of a key is the last argument.
pub data Command : Type 0 where
  incr : (key : Text) → Command
  rpush : (key value : Text) → Command
  expire : (key : Text) (seconds : ℕ) → Command
  set : (key value : Text) (ex : ℕ) → Command
  set_nx : (key value : Text) (ex : ℕ) → Command
  publish : (channel message : Text) → Command

-- What a command leaves at a key `k` where a counter, a list or a string stood before. No key
-- reaches its time to live while the program runs: Redis.Expiring has the passing of time.
abbrev pub counter_after : Command → Text → ℕ → ℕ
counter_after (incr key) k n = if text_eq key k then suc n else n
counter_after _ k n = n

abbrev pub items_after : Command → Text → List Text → List Text
items_after (rpush key v) k l = if text_eq key k then l ++ v ∷ [] else l
items_after _ k l = l

abbrev pub or_else : Option Text → Text → Option Text
or_else none v = some v
or_else (some w) v = some w

abbrev pub value_after : Command → Text → Option Text → Option Text
value_after (set key v _) k o = if text_eq key k then some v else o
value_after (set_nx key v _) k o = if text_eq key k then or_else o v else o
value_after _ k o = o

-- The messages of a channel, oldest first. A subscriber receives those from its place on.
abbrev pub messages_after : Command → Text → List Text → List Text
messages_after (publish channel m) k l = if text_eq channel k then l ++ m ∷ [] else l
messages_after _ k l = l

pub record Redis : Type 1 where
  pub State : Type 0
  pub exec : Command → State → State
  pub counter : State → Text → ℕ
  pub items : State → Text → List Text
  pub value : State → Text → Option Text
  pub messages : State → Text → List Text
  pub counter-exec :
      (c : Command) (s : State) (k : Text) → counter (exec c s) k ≡ counter_after c k (counter s k)
  pub items-exec :
      (c : Command) (s : State) (k : Text) → items (exec c s) k ≡ items_after c k (items s k)
  pub value-exec :
      (c : Command) (s : State) (k : Text) → value (exec c s) k ≡ value_after c k (value s k)
  pub messages-exec :
      (c : Command) (s : State) (k : Text)
      → messages (exec c s) k ≡ messages_after c k (messages s k)
