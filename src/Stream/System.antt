-- ===== src/Stream/System.antt =====
-- A session as it runs: Redis, the drainer of app/publish.py and one reader of app/api.py, in any
-- order of their steps, beside the commands of other sessions.
-- Readers send no command that changes Redis, so that one reader stands for any number of them.
use longshot.Common.{ℕ, ◌≡◌, Text, text_eq, false, List, [], ◌∷◌, ◌++◌}
use longshot.Keys.{events_list, channel, sequence}
use longshot.Events.{Event}
use longshot.Events.Codec.{Codec}
use longshot.Redis.{Redis, Command, incr, rpush, expire, set, set_nx, publish}
use longshot.Publish.{Item, event, stop, SessionPublisher, fresh, put, drain}
use longshot.Stream.{
  Frame, Phase, connecting, Client, subscribe, read_backlog, receive, idle, disconnect,
}

pub data Action : Type 0 where
  enqueue : Item → Action  -- `emit` or `close` reaches the queue
  drain_next : Action
  reader_subscribe : Action
  reader_backlog : Action
  reader_receive : Action
  reader_idle : Action
  reader_disconnect : Action
  other : Command → Action  -- another client of Redis

-- The key, or the channel, that a command is about.
abbrev pub key_of : Command → Text
key_of (incr k) = k
key_of (rpush k v) = k
key_of (expire k n) = k
key_of (set k v n) = k
key_of (set_nx k v n) = k
key_of (publish k v) = k

-- The command is not about the counter, the list or the channel of the session.
pub record Foreign (session_id : Text) (command : Command) : Type 0 where
  pub no_counter : text_eq (key_of command) (sequence session_id) ≡ false
  pub no_events : text_eq (key_of command) (events_list session_id) ≡ false
  pub no_channel : text_eq (key_of command) (channel session_id) ≡ false

pub record System (r : Redis) : Type 0 where
  pub redis : r.State
  pub publisher : SessionPublisher
  pub client : Client

abbrev pub start : (r : Redis) → r.State → System r
start r s = record {
  redis = s;
  publisher = fresh;
  client = record { phase = connecting; out = [] };
}

module _ (r : Redis) (c : Codec) (ttl : ℕ) (session_id : Text) where
  abbrev with_phase : System r → Phase → System r
  with_phase s phase = record s { client = record { phase = phase; out = s.client.out } }

  unfoldable pub step : Action → System r → System r
  unfolding put drain subscribe read_backlog receive idle disconnect
  step (enqueue item) s = record s { publisher = put item s.publisher }
  step drain_next s =
      let (redis, publisher) = drain r c ttl session_id (s.redis, s.publisher) in
      record { redis = redis; publisher = publisher; client = s.client }
  step reader_subscribe s =
      with_phase s (subscribe (r.messages s.redis (channel session_id)) s.client.phase)
  step reader_backlog s = record s {
    client = read_backlog c (r.items s.redis (events_list session_id)) s.client.phase s.client.out;
  }
  step reader_receive s = record s {
    client = receive c (r.messages s.redis (channel session_id)) s.client.phase s.client.out;
  }
  step reader_idle s = record s {
    client = record { phase = s.client.phase; out = idle s.client.phase s.client.out };
  }
  step reader_disconnect s = with_phase s (disconnect s.client.phase)
  step (other command) s = record s { redis = r.exec command s.redis }

  unfoldable pub run : List Action → System r → System r
  run [] s = s
  run (a ∷ acts) s = run acts (step a s)

-- The events that a schedule puts into the queue, in order.
abbrev pub put_event : Item → List Event
put_event (event e) = e ∷ []
put_event stop = []

abbrev pub action_events : Action → List Event
action_events (enqueue item) = put_event item
action_events _ = []

abbrev pub enqueued : List Action → List Event
enqueued [] = []
enqueued (a ∷ acts) = action_events a ++ enqueued acts

-- The other clients of a schedule leave the keys of the session alone.
abbrev pub ActionForeign : Text → Action → Type 0
ActionForeign session_id (other command) = Foreign session_id command
ActionForeign session_id _ = Unit

abbrev pub OthersForeign : Text → List Action → Type 0
OthersForeign session_id [] = Unit
OthersForeign session_id (a ∷ acts) = ActionForeign session_id a × OthersForeign session_id acts

-- The events among the frames.
abbrev pub delivered : List Frame → List Frame
delivered [] = []
delivered (Frame.event t text ∷ fs) = Frame.event t text ∷ delivered fs
delivered (Frame.keepalive ∷ fs) = delivered fs
