-- ===== src/Stream/Keepalive.antt =====
-- app/api.py, `event_source`: the clock of the live tail, in milliseconds. A round of the tail
-- lasts as long as its `get_message`; the code between two of these takes no time here.
pub mod Gaps
use longshot.Common.{
  ℕ, suc, ◌+◌, ◌-◌, ◌*◌, max, Text, Bool, ltb, Option, none, some, List, [], ◌∷◌, length,
  if◌then◌else◌,
}
use longshot.Events.Codec.{Codec}
use longshot.Stream.{Frame, Phase, tailing, Client, tail_message, idle, disconnect}

-- What the outside does in a round: whether the client has gone, and how `get_message` answers
-- when it is given a timeout, after how long and with which message.
pub record Round : Type 0 where
  pub is_disconnected : Bool
  pub get_message : (timeout : ℕ) → ℕ × Option Text

-- The generator with its clock. What it does not keep itself: when it yielded last, or began its
-- tail, how many messages it has left out since, as the replay had sent them, and when it sent a
-- keepalive last, or began.
pub record Tail : Type 0 where
  pub now : ℕ
  pub heartbeat_at : ℕ
  pub client : Client
  pub sent_at : ℕ
  pub skipped : ℕ
  pub kept_at : ℕ

-- `max(0.1, heartbeat_at - loop.time())`
unfoldable pub timeout : Tail → ℕ
timeout s = max 100 (s.heartbeat_at - s.now)

-- The moment at which the next `get_message` answers.
unfoldable pub answered_at : Round → Tail → ℕ
unfolding timeout
answered_at r s = s.now + (r.get_message (timeout s)).0

-- A message has been dealt with, which left this client.
after_message : ℕ → Client → Tail → Tail
after_message now client s =
    if ltb (length s.client.out) (length client.out)
    then record s { now = now; client = client; sent_at = now; skipped = 0 }
    else record s { now = now; client = client; skipped = suc s.skipped }

module _ (c : Codec) (sse_heartbeat : ℕ) where
  -- `heartbeat_at = loop.time() + settings.sse_heartbeat_seconds` at the start of the stream,
  -- whose replay lasts until `now`
  unfoldable pub begin_tail : (started now : ℕ) → Client → Tail
  begin_tail started now client = record {
    now = now;
    heartbeat_at = started + sse_heartbeat;
    client = client;
    sent_at = now;
    skipped = 0;
    kept_at = started;
  }

  hear : ℕ → Option Text → (cursor : ℕ) (replayed_seqs : List ℕ) → Tail → Tail
  unfolding after_message
  hear now none cursor seqs s = record {
    now = now;
    heartbeat_at = now + sse_heartbeat;
    client = record { phase = s.client.phase; out = idle s.client.phase s.client.out };
    sent_at = now;
    skipped = 0;
    kept_at = now;
  }
  hear now (some raw) cursor seqs s =
      after_message now (tail_message c (some raw) cursor seqs s.client.out) s

  turn : Round → Phase → Tail → Tail
  unfolding hear answered_at
  turn r (tailing cursor seqs) s =
      if r.is_disconnected
      then record s { client = record { phase = disconnect s.client.phase; out = s.client.out } }
      else hear (answered_at r s) (r.get_message (timeout s)).1 cursor seqs s
  turn r phase s = s

  -- The rounds of `while True`, one after the other; a stream that has ended stays as it is.
  unfoldable pub rounds : List Round → Tail → Tail
  unfolding turn
  rounds [] s = s
  rounds (r ∷ rs) s = rounds rs (turn r s.client.phase s)
