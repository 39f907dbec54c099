-- ===== src/Publish.antt =====
-- app/publish.py: the queue of a session, its drainer, and the publisher that routes events.
-- A drainer is shown at each place where it waits for Redis: between two such places other
-- coroutines and other clients may run. The four commands of its pipeline are sent together, but
-- `transaction=False` lets commands of other clients come between them, so each is a step.
pub mod Sessions
pub mod Flush
pub mod Traces
use longshot.Common.{ℕ, Text, Option, none, some, List, [], ◌∷◌, ◌++◌, if◌then◌else◌}
use longshot.Keys.{events_list, progress_snapshot, channel, sequence}
use longshot.Events.{Event, with_seq, is_terminal}
use longshot.Events.Codec.{Codec}
use longshot.Redis.{Redis, Command, incr, rpush, expire, set, publish}

-- `_QueueItem`; `stop` is the sentinel `_DRAINER_STOP`.
pub data Item : Type 0 where
  event : Event → Item
  stop : Item

-- Where the drainer of a session stands, with its local variables.
pub data Drainer : Type 0 where
  waiting : Drainer  -- at `queue.get()`
  taken : (item : Event) → Drainer  -- before INCR
  stamped : (item : Event) (seq : ℕ) → Drainer  -- before RPUSH
  pushed : (item : Event) (seq : ℕ) → Drainer  -- before EXPIRE
  kept : (item : Event) (seq : ℕ) → Drainer  -- before SET
  saved : (item : Event) (seq : ℕ) → Drainer  -- before PUBLISH
  finished : Drainer  -- before the EXPIRE that follows a terminal event
  stopped : Drainer

-- `_SessionPublisher`
pub record SessionPublisher : Type 0 where
  pub queue : List Item
  pub drainer : Drainer

abbrev pub fresh : SessionPublisher
fresh = record { queue = []; drainer = waiting }

-- `publisher.queue.put(item)`; the queue has no bound, so that this never waits.
unfoldable pub put : Item → SessionPublisher → SessionPublisher
put item p = record p { queue = p.queue ++ item ∷ [] }

-- The JSON text of an event with its number.
unfoldable pub payload : Codec → Event → ℕ → Text
unfolding with_seq
payload c item seq = c.dump (with_seq seq item)

module _ (c : Codec) (ttl : ℕ) (session_id : Text) where
  -- The command that the drainer sends next, where it sends one.
  unfoldable pub next_command : Drainer → Option Command
  unfolding payload
  next_command (taken item) = some (incr (sequence session_id))
  next_command (stamped item seq) = some (rpush (events_list session_id) (payload c item seq))
  next_command (pushed item seq) = some (expire (events_list session_id) ttl)
  next_command (kept item seq) = some (set (progress_snapshot session_id) (payload c item seq) ttl)
  next_command (saved item seq) = some (publish (channel session_id) (payload c item seq))
  next_command finished = some (expire (events_list session_id) ttl)
  next_command waiting = none
  next_command stopped = none

-- Where the drainer stands after its command; `reply` is what INCR returned.
unfoldable pub advance : ℕ → Drainer → Drainer
unfolding is_terminal
advance reply (taken item) = stamped item reply
advance reply (stamped item seq) = pushed item seq
advance reply (pushed item seq) = kept item seq
advance reply (kept item seq) = saved item seq
advance reply (saved item seq) = if is_terminal item then finished else waiting
advance reply finished = waiting
advance reply waiting = waiting
advance reply stopped = stopped

-- `await queue.get()`: an empty queue leaves the drainer where it is.
unfoldable pub get : List Item → SessionPublisher
get [] = record { queue = []; drainer = waiting }
get (stop ∷ q) = record { queue = q; drainer = stopped }
get (event e ∷ q) = record { queue = q; drainer = taken e }

unfoldable pub send : (r : Redis) → Option Command → r.State → r.State
send r none s = s
send r (some command) s = r.exec command s

-- One turn of `_drain`, up to the next place where it waits.
module _ (r : Redis) (c : Codec) (ttl : ℕ) (session_id : Text) where
  unfoldable pub drain_from : Drainer → List Item → r.State → r.State × SessionPublisher
  unfolding next_command advance get send
  drain_from waiting queue s = (s, get queue)
  drain_from stopped queue s = (s, record { queue = queue; drainer = stopped })
  drain_from d queue s =
      let s' = send r (next_command c ttl session_id d) s in
      (s', record { queue = queue; drainer = advance (r.counter s' (sequence session_id)) d })

  unfoldable pub drain : r.State × SessionPublisher → r.State × SessionPublisher
  unfolding drain_from
  drain (s, p) = drain_from p.drainer p.queue s
