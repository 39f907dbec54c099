-- ===== src/Stream/Others.antt =====
-- app/publish.py and app/keys.py: the drainers of different sessions do not touch one another's keys.
use longshot.Common.{
  ℕ, ◌≡◌, ◌≢◌, refl, ap, sym, ◌∙◌, Text, text_eq, text_eq_iff, false, Bool-cases, inl, inr, some,
  arith,
}
use mathlib.Core.Option.{some-injective}
use longshot.Events.Codec.{Codec}
use longshot.Keys.{events_list, channel, sequence}
use longshot.Keys.Distinct.{Key, name, name-injective}
use longshot.Publish.{
  Drainer, waiting, taken, stamped, pushed, kept, saved, finished, stopped, next_command,
}
use longshot.Redis.{Command}
use longshot.Stream.System.{Foreign, key_of}

names_differ : (k j : Key) → k ≢ j → text_eq (name k) (name j) ≡ false
names_differ k j ne = elim (Bool-cases (text_eq (name k) (name j))) [
  | inl same ↦ absurd (ne (name-injective k j ((text_eq_iff (name k) (name j)).0 same)))
  | inr other ↦ other
]

-- A key of another session, or of another kind.
key-Foreign :
    (session_id : Text) (k : Key)
    → k ≢ Key.counter session_id
    → k ≢ Key.events session_id
    → k ≢ Key.live session_id
    → (command : Command) → key_of command ≡ name k
    → Foreign session_id command
unfolding name
key-Foreign session_id k a b d command e = record {
  no_counter =
      ap (λ t. text_eq t (sequence session_id)) e ∙ names_differ k (Key.counter session_id) a;
  no_events =
      ap (λ t. text_eq t (events_list session_id)) e ∙ names_differ k (Key.events session_id) b;
  no_channel = ap (λ t. text_eq t (channel session_id)) e ∙ names_differ k (Key.live session_id) d;
}

module _ (c : Codec) (ttl : ℕ) (session_id : Text) {another : Text}
    (differ : another ≢ session_id) where
  sends :
      (k : Key) {given command : Command}
      → k ≢ Key.counter session_id
      → k ≢ Key.events session_id
      → k ≢ Key.live session_id
      → key_of given ≡ name k
      → some given ≡ some command
      → Foreign session_id command
  sends k {command} a b d e h =
      key-Foreign session_id k a b d command (sym (ap key_of (some-injective _ _ h)) ∙ e)

  -- Whatever the drainer of another session sends leaves the counter, the list and the channel of
  -- this session alone, so that it may stand among the commands of the other clients.
  pub drainer-Foreign :
      (d : Drainer) (command : Command)
      → next_command c ttl another d ≡ some command
      → Foreign session_id command
  unfolding next_command name
  drainer-Foreign (taken e) command h =
      sends (Key.counter another) (ground arith) (ground arith) (ground arith) refl h
  drainer-Foreign (stamped e k) command h =
      sends (Key.events another) (ground arith) (ground arith) (ground arith) refl h
  drainer-Foreign (pushed e k) command h =
      sends (Key.events another) (ground arith) (ground arith) (ground arith) refl h
  drainer-Foreign (kept e k) command h =
      sends (Key.snapshot another) (ground arith) (ground arith) (ground arith) refl h
  drainer-Foreign (saved e k) command h =
      sends (Key.live another) (ground arith) (ground arith) (ground arith) refl h
  drainer-Foreign finished command h =
      sends (Key.events another) (ground arith) (ground arith) (ground arith) refl h
  drainer-Foreign waiting command h = cc
  drainer-Foreign stopped command h = cc
