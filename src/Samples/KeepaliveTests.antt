-- ===== src/Samples/KeepaliveTests.antt =====
-- The clock of a live tail: a frame, a message left out, a pause.
use longshot.Common.{
  ℕ, ◌+◌, ◌*◌, ◌≤◌, ◌≡◌, refl, Text, codes, Option, some, none, List, [], ◌∷◌, length, leb,
  if◌then◌else◌, arith, false,
}
use longshot.Events.{Event, Body, valid, is_terminal}
use longshot.Settings.{defaults, valid_settings}
use longshot.Stream.{Client, tailing, frame_of, tail_message, idle, contains}
use longshot.Stream.Keepalive.{Round, timeout, answered_at, begin_tail, rounds}
use longshot.Stream.Keepalive.Gaps.{InTime, AllInTime, gap_bounded}
use longshot.Samples.Codec.{sample_codec}
use longshot.Samples.ProcessTests.{tenths}

abbrev chunk : ℕ → Event
chunk n = record { seq = n; session_id = codes "s1"; ts = 7; body = Body.queued }

abbrev silent : Round
silent = record { is_disconnected = false; get_message = λ t. (t, none) }

-- The confirmation of the subscription, for which a keepalive is sent at once.
abbrev confirmation : Round
confirmation = record { is_disconnected = false; get_message = λ t. (0, none) }

silent-InTime : InTime silent
silent-InTime t = omega arith

abbrev reply_after : ℕ → Text → ℕ → ℕ × Option Text
reply_after wait raw t = if leb wait t then (wait, some raw) else (t, none)

abbrev arrival : ℕ → Event → Round
arrival wait e = record {
  is_disconnected = false;
  get_message = reply_after wait (sample_codec.dump e);
}

arrival-InTime : (wait : ℕ) (e : Event) → InTime (arrival wait e)
arrival-InTime wait e t = ground arith

-- Event 1 was replayed.
abbrev client : Client
client = record { phase = tailing 0 (1 ∷ []); out = frame_of sample_codec (chunk 1) ∷ [] }

abbrev tail : List Round
tail = confirmation ∷ arrival 40 (chunk 1) ∷ arrival 25000 (chunk 2) ∷ silent ∷ []

-- A keepalive at once, the second event after 25045 ms and another keepalive at 30005 ms.
tail_end :
    let s = rounds sample_codec 30000 tail (begin_tail sample_codec 30000 0 5 client) in
    (s.now ≡ 30005) × (s.heartbeat_at ≡ 60005) × (length s.client.out ≡ 4)
unfolding rounds begin_tail timeout tail_message contains idle answered_at sample_codec valid
    is_terminal
tail_end = (refl, refl, refl)

tail-AllInTime : AllInTime tail
tail-AllInTime = (
  (λ t. omega arith),
  (arrival-InTime 40 (chunk 1), (arrival-InTime 25000 (chunk 2), (silent-InTime, tt))),
)

gap_bounded_example :
    let s = rounds sample_codec 30000 tail (begin_tail sample_codec 30000 0 5 client) in
    (answered_at silent s ≤ s.sent_at + (30000 + 100 * s.skipped))
    × ((silent.get_message (timeout s)).0 ≡ timeout s → s.kept_at + 30000 ≤ answered_at silent s)
unfolding valid_settings
gap_bounded_example =
    gap_bounded sample_codec tenths (defaults tenths) refl 0 5 client tail silent (omega arith)
      (silent-InTime, tail-AllInTime)
