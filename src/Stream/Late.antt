-- ===== src/Stream/Late.antt =====
-- app/api.py, `event_source`: a reader that comes when the job is over.
use longshot.Common.{
  ℕ, ◌+◌, ◌≡◌, refl, ap, ap₂, sym, if◌then◌else◌, ◌∙◌, Text, true, List, [], ◌∷◌, ◌++◌, map, length,
}
use mathlib.Core.Path.{subst}
use longshot.Events.{Event, with_seq, is_terminal, valid}
use longshot.Events.Codec.{Codec}
use longshot.Events.Stamp.{stamp, stamp-append, AllValid, AllValid-stamp, valid-with_seq}
use longshot.Stream.{
  connecting, tailing, closed, Client, Replay, subscribe, frame_of, replay_event, replay,
  after_replay, read_backlog,
}
use longshot.Stream.Backlog.{AllLive}

-- The generator up to its first wait for a message: SUBSCRIBE, LRANGE, replay.
unfoldable pub open_stream : Codec → (items messages : List Text) → Client
unfolding subscribe read_backlog
open_stream c items messages = read_backlog c items (subscribe messages connecting) []

AllLive-stamp : (n : ℕ) (es : List Event) → AllLive es → AllLive (stamp n es)
unfolding stamp with_seq is_terminal
AllLive-stamp n [] h = tt
AllLive-stamp n (e ∷ es) h = (h.0, AllLive-stamp (n + 1) es h.1)

module _ (c : Codec) where
  abbrev Whole : List Event → Replay → Type 0
  Whole es b = (b.frames ≡ map (frame_of c) es) × (b.ended ≡ true)

  replay-Whole :
      (before : List Event) (last : Event)
      → AllLive before
      → AllValid before
      → is_terminal last ≡ true
      → valid last ≡ true
      → Whole (before ++ last ∷ []) (replay c (map c.dump (before ++ last ∷ [])))
  unfolding replay replay_event
  replay-Whole [] last h v t w = rw (c.validate-dump last w) (rw t (refl, refl))
  replay-Whole (e ∷ es) last h v t w =
      let (frames, ended) = replay-Whole es last h.1 v.1 t w in
      rw (c.validate-dump e v.0) (rw h.0 (ap (λ l. frame_of c e ∷ l) frames, ended))

  after-Whole :
      (cursor : ℕ) (es : List Event) (b : Replay)
      → Whole es b
      → after_replay c cursor [] b ≡ record { phase = closed; out = map (frame_of c) es }
  unfolding after_replay
  after-Whole cursor es b (frames, ended) =
      ap₂ (λ e fs. record { phase = if e then closed else tailing cursor b.seqs; out = fs }) ended
        frames

  stamp-Whole :
      (before : List Event) (last : Event)
      → AllLive before
      → AllValid before
      → is_terminal last ≡ true
      → valid last ≡ true
      → Whole
          (stamp 0 (before ++ last ∷ []))
          (replay c (map c.dump (stamp 0 (before ++ last ∷ []))))
  unfolding stamp is_terminal with_seq
  stamp-Whole before last h v t w =
      subst (λ es. Whole es (replay c (map c.dump es))) (sym (stamp-append 0 before (last ∷ [])))
        (replay-Whole (stamp 0 before) (with_seq (0 + length before + 1) last)
          (AllLive-stamp 0 before h) (AllValid-stamp 0 before v) t (valid-with_seq _ last ∙ w))

  -- Where the list holds live events and a terminal one behind them, a reader that comes then is
  -- sent all of them and the stream is closed, with no message of the channel.
  pub open_stream-closed :
      (before : List Event) (last : Event) (messages : List Text)
      → AllLive before
      → AllValid before
      → is_terminal last ≡ true
      → valid last ≡ true
      → open_stream c (map c.dump (stamp 0 (before ++ last ∷ []))) messages
        ≡ record { phase = closed; out = map (frame_of c) (stamp 0 (before ++ last ∷ [])) }
  unfolding open_stream subscribe read_backlog
  open_stream-closed before last messages h v t w =
      after-Whole (length messages) _ _ (stamp-Whole before last h v t w)
