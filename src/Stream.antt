-- ===== src/Stream.antt =====
-- app/api.py, `event_source` of `stream_job`: SUBSCRIBE, replay of the stored events, live tail.
-- A subscription is the place in the channel's history from which its messages are received.
pub mod System
pub mod Writer
pub mod Environment
pub mod Backlog
pub mod Reader
pub mod Tailing
pub mod Receiving
pub mod Invariant
pub mod Delivery
pub mod Cancelled
pub mod Late
pub mod Keepalive
pub mod Others
use longshot.Common.{
  ℕ, ◌+◌, ◌==◌, Text, Bool, true, false, ◌||◌, Option, none, some, List, [], ◌∷◌, ◌++◌, length,
  get_elem?, if◌then◌else◌,
}
use longshot.Events.{EventType, Event, body_type, is_terminal}
use longshot.Events.Codec.{Codec}

-- What the generator yields.
pub data Frame : Type 0 where
  event : EventType → (text : Text) → Frame
  keepalive : Frame

-- Where the generator stands, with its local variables.
pub data Phase : Type 0 where
  connecting : Phase
  subscribed : (cursor : ℕ) → Phase
  tailing : (cursor : ℕ) (replayed_seqs : List ℕ) → Phase
  closed : Phase

pub record Client : Type 0 where
  pub phase : Phase
  pub out : List Frame

-- `seq in replayed_seqs`
unfoldable pub contains : ℕ → List ℕ → Bool
contains n [] = false
contains n (m ∷ ms) = n == m || contains n ms

-- The frames and numbers of a replay; `ended` where it returned or raised before the end.
pub record Replay : Type 0 where
  pub frames : List Frame
  pub seqs : List ℕ
  pub ended : Bool

-- `await pubsub.subscribe(...)`, with the channel's history so far
unfoldable pub subscribe : List Text → Phase → Phase
subscribe messages connecting = subscribed (length messages)
subscribe messages phase = phase

module _ (c : Codec) where
  unfoldable pub frame_of : Event → Frame
  frame_of e = event (body_type e.body) (c.dump e)

  -- One round of the loop over the backlog, before the rounds that follow it.
  unfoldable pub replay_event : Option Event → Replay → Replay
  unfolding frame_of
  replay_event none rest = record { frames = []; seqs = []; ended = true }
  replay_event (some e) rest =
      if is_terminal e
      then record { frames = frame_of e ∷ []; seqs = e.seq ∷ []; ended = true }
      else record {
        frames = frame_of e ∷ rest.frames;
        seqs = e.seq ∷ rest.seqs;
        ended = rest.ended;
      }

  unfoldable pub replay : List Text → Replay
  unfolding replay_event
  replay [] = record { frames = []; seqs = []; ended = false }
  replay (raw ∷ rest) = replay_event (c.validate raw) (replay rest)

  after_replay : ℕ → List Frame → Replay → Client
  after_replay cursor out b = record {
    phase = if b.ended then closed else tailing cursor b.seqs;
    out = out ++ b.frames;
  }

  -- `lrange(...)` and the loop over its reply
  unfoldable pub read_backlog : List Text → Phase → List Frame → Client
  unfolding after_replay replay
  read_backlog items (subscribed cursor) out = after_replay cursor out (replay items)
  read_backlog items phase out = record { phase = phase; out = out }

  -- A message of the live tail, decoded.
  unfoldable pub tail_event : Option Event → ℕ → List ℕ → List Frame → Client
  unfolding frame_of
  tail_event none cursor seqs out = record { phase = closed; out = out }
  tail_event (some e) cursor seqs out =
      if contains e.seq seqs
      then record { phase = tailing (cursor + 1) seqs; out = out }
      else record {
        phase = if is_terminal e then closed else tailing (cursor + 1) seqs;
        out = out ++ frame_of e ∷ [];
      }

  unfoldable pub tail_message : Option Text → ℕ → List ℕ → List Frame → Client
  unfolding tail_event
  tail_message none cursor seqs out = record { phase = tailing cursor seqs; out = out }
  tail_message (some raw) cursor seqs out = tail_event (c.validate raw) cursor seqs out

  -- One round of the live tail in which `get_message` returns the next message of the channel.
  unfoldable pub receive : List Text → Phase → List Frame → Client
  unfolding tail_message
  receive messages (tailing cursor seqs) out =
      tail_message (get_elem? messages cursor) cursor seqs out
  receive messages phase out = record { phase = phase; out = out }

-- One round of the live tail in which `get_message` returns nothing.
unfoldable pub idle : Phase → List Frame → List Frame
idle (tailing cursor seqs) out = out ++ keepalive ∷ []
idle phase out = out

-- The request goes away: `is_disconnected`, or the server cancels the generator.
unfoldable pub disconnect : Phase → Phase
disconnect phase = closed
