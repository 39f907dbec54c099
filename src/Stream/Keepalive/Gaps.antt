-- ===== src/Stream/Keepalive/Gaps.antt =====
-- app/api.py: how long a client of the live tail waits for its next frame, keepalives included.
use longshot.Common.{
  ℕ, zero, suc, ◌+◌, ◌-◌, ◌*◌, ◌≤◌, ◌≡◌, refl, max, true, Text, Option, none, some, List, [], ◌∷◌,
  length, ltb, arith, Bool-cases, inl, inr,
}
use longshot.Events.Codec.{Codec}
use mathlib.Core.Path.{subst}
use longshot.Settings.{Floats, Settings, valid_settings}
use longshot.Stream.{Client, Phase, connecting, subscribed, tailing, closed}
use longshot.Stream.Keepalive.{
  Round, Tail, timeout, answered_at, after_message, begin_tail, hear, turn, rounds,
}

-- `get_message` waits no longer than its timeout. It may return nothing before that: it does so
-- for the confirmation of a subscription, which `ignore_subscribe_messages` leaves out.
abbrev pub InTime : Round → Type 0
InTime r = (t : ℕ) → (r.get_message t).0 ≤ t

abbrev pub AllInTime : List Round → Type 0
AllInTime [] = Unit
AllInTime (r ∷ rs) = InTime r × AllInTime rs

-- How far the clock can be from the last frame when a round begins.
slack : ℕ → ℕ → ℕ
slack sse_heartbeat zero = 0
slack sse_heartbeat (suc n) = sse_heartbeat + 100 * n

record Timely (sse_heartbeat : ℕ) (s : Tail) : Type 0 where
  forward : s.sent_at ≤ s.now
  near : s.now ≤ s.sent_at + slack sse_heartbeat s.skipped
  kept : s.heartbeat_at ≡ s.kept_at + sse_heartbeat
  due : s.heartbeat_at ≤ s.sent_at + sse_heartbeat

module _ (c : Codec) (sse_heartbeat : ℕ) (long : 100 ≤ sse_heartbeat) where
  soon :
      (skipped sent_at now heartbeat_at waited : ℕ)
      → now ≤ sent_at + slack sse_heartbeat skipped
      → heartbeat_at ≤ sent_at + sse_heartbeat
      → waited ≤ max 100 (heartbeat_at - now)
      → now + waited ≤ sent_at + (sse_heartbeat + 100 * skipped)
  unfolding slack
  soon zero sent_at now heartbeat_at waited h k w = omega arith
  soon (suc n) sent_at now heartbeat_at waited h k w = omega arith

  answered_soon :
      (r : Round) (s : Tail)
      → InTime r
      → Timely sse_heartbeat s
      → answered_at r s ≤ s.sent_at + (sse_heartbeat + 100 * s.skipped)
  unfolding answered_at timeout
  answered_soon r s in_time h =
      soon s.skipped s.sent_at s.now s.heartbeat_at _ h.near h.due (in_time _)

  answered_after : (r : Round) (s : Tail) → s.now ≤ answered_at r s
  unfolding answered_at
  answered_after r s = omega arith

  -- A timeout that runs out is over when a keepalive is due.
  answered_due :
      (r : Round) (s : Tail)
      → (r.get_message (timeout s)).0 ≡ timeout s
      → s.heartbeat_at ≤ answered_at r s
  unfolding answered_at timeout
  answered_due r s silent = omega (arith, silent)

  after_message-Timely :
      (now : ℕ) (client : Client) (s : Tail)
      → Timely sse_heartbeat s
      → s.now ≤ now
      → now ≤ s.sent_at + (sse_heartbeat + 100 * s.skipped)
      → Timely sse_heartbeat (after_message now client s)
  unfolding after_message slack
  after_message-Timely now client s h later bound =
      elim (Bool-cases (ltb (length s.client.out) (length client.out))) [
        | inl sent ↦ rw sent (record {
          forward = omega arith;
          near = omega arith;
          kept = h.kept;
          due = omega (arith, h.due, h.forward);
        })
        | inr skipped ↦ rw skipped (record {
          forward = omega (arith, h.forward);
          near = bound;
          kept = h.kept;
          due = h.due;
        })
      ]

  hear-Timely :
      (now : ℕ) (answer : Option Text) (cursor : ℕ) (seqs : List ℕ) (s : Tail)
      → Timely sse_heartbeat s
      → s.now ≤ now
      → now ≤ s.sent_at + (sse_heartbeat + 100 * s.skipped)
      → Timely sse_heartbeat (hear c sse_heartbeat now answer cursor seqs s)
  unfolding hear slack
  hear-Timely now none cursor seqs s h later bound = record {
    forward = omega arith;
    near = omega arith;
    kept = refl;
    due = omega arith;
  }
  hear-Timely now (some raw) cursor seqs s h later bound =
      after_message-Timely now _ s h later bound

  turn-Timely :
      (r : Round) (phase : Phase) (s : Tail)
      → InTime r
      → Timely sse_heartbeat s
      → Timely sse_heartbeat (turn c sse_heartbeat r phase s)
  unfolding turn
  turn-Timely r connecting s in_time h = h
  turn-Timely r (subscribed cursor) s in_time h = h
  turn-Timely r closed s in_time h = h
  turn-Timely r (tailing cursor seqs) s in_time h = elim (Bool-cases r.is_disconnected) [
    | inl gone ↦ rw gone (record { forward = h.forward; near = h.near; kept = h.kept; due = h.due })
    | inr here ↦ rw here (
        hear-Timely (answered_at r s) _ cursor seqs s h (answered_after r s)
          (answered_soon r s in_time h))
  ]

  rounds-Timely :
      (rs : List Round) (s : Tail)
      → AllInTime rs
      → Timely sse_heartbeat s
      → Timely sse_heartbeat (rounds c sse_heartbeat rs s)
  unfolding rounds
  rounds-Timely [] s in_time h = h
  rounds-Timely (r ∷ rs) s (first, others) h =
      rounds-Timely rs _ others (turn-Timely r s.client.phase s first h)

begin_tail-Timely :
    (c : Codec) (sse_heartbeat started now : ℕ) (client : Client)
    → started ≤ now
    → Timely sse_heartbeat (begin_tail c sse_heartbeat started now client)
unfolding begin_tail slack
begin_tail-Timely c sse_heartbeat started now client later = record {
  forward = omega arith;
  near = omega arith;
  kept = refl;
  due = omega arith;
}

in_seconds :
    (f : Floats) (settings : Settings f)
    → valid_settings f settings ≡ true
    → 100 ≤ 1000 * settings.sse_heartbeat_seconds
unfolding valid_settings
in_seconds f settings valid = ground arith

-- With settings within their limits, at any point of the live tail and whatever has happened in
-- it, the next `get_message` answers no later than `sse_heartbeat_seconds`, and a tenth of a second
-- for each message left out in between, after the client was last sent a frame or its tail began.
-- A keepalive that is sent because the timeout has run out is not sent before that many seconds
-- have passed since the last keepalive, or since the start of the stream.
pub gap_bounded :
    (c : Codec) (f : Floats) (settings : Settings f)
    → valid_settings f settings ≡ true
    → (started now : ℕ) (client : Client) (rs : List Round) (r : Round) → started ≤ now
    → AllInTime (r ∷ rs)
    → let sse_heartbeat = 1000 * settings.sse_heartbeat_seconds in
      let s = rounds c sse_heartbeat rs (begin_tail c sse_heartbeat started now client) in
      (answered_at r s ≤ s.sent_at + (sse_heartbeat + 100 * s.skipped))
      × ((r.get_message (timeout s)).0 ≡ timeout s → s.kept_at + sse_heartbeat ≤ answered_at r s)
gap_bounded c f settings valid started now client rs r later (first, others) =
    let heartbeat = 1000 * settings.sse_heartbeat_seconds in
    let long = in_seconds f settings valid in
    let s = rounds c heartbeat rs (begin_tail c heartbeat started now client) in
    let h =
      rounds-Timely c heartbeat long rs _ others
        (begin_tail-Timely c heartbeat started now client later) in
    (
      answered_soon c heartbeat long r s first h,
      λ silent. subst (λ t. t ≤ answered_at r s) h.kept (answered_due c heartbeat long r s silent),
    )
