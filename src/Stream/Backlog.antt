-- ===== src/Stream/Backlog.antt =====
-- app/api.py, the loop of `event_source` over the backlog.
use longshot.Common.{
  ℕ, suc, ◌+◌, ◌≤◌, ◌≡◌, refl, ap, false, ◌&&◌, leb, List, [], ◌∷◌, ◌++◌, map, arith, length, take,
  Bool-cases, inl, inr, some,
}
use longshot.Events.{Event, with_seq, is_terminal}
use longshot.Events.Codec.{Codec}
use longshot.Events.Stamp.{stamp, AllValid}
use longshot.Stream.{Frame, contains, Replay, frame_of, replay_event, replay}
use longshot.Stream.System.{delivered}

abbrev pub seqs_of : List Event → List ℕ
seqs_of es = map (λ e. e.seq) es

-- The numbers of a stamped list are those after `n`, as many as there are events.
pub contains-stamp :
    (x n : ℕ) (es : List Event)
    → contains x (seqs_of (stamp n es)) ≡ (leb (suc n) x && leb x (n + length es))
unfolding contains stamp with_seq
contains-stamp x n [] = ground arith
contains-stamp x n (e ∷ es) = ground (arith, contains-stamp x (n + 1) es)

abbrev pub AllLive : List Event → Type 0
AllLive [] = Unit
AllLive (e ∷ es) = (is_terminal e ≡ false) × AllLive es

pub AllLive-append : (xs ys : List Event) → AllLive xs → AllLive ys → AllLive (xs ++ ys)
AllLive-append [] ys h k = k
AllLive-append (x ∷ xs) ys h k = (h.0, AllLive-append xs ys h.1 k)

pub delivered-append : (fs gs : List Frame) → delivered (fs ++ gs) ≡ delivered fs ++ delivered gs
delivered-append [] gs = refl
delivered-append (Frame.event t x ∷ fs) gs = ap (λ l. Frame.event t x ∷ l) (delivered-append fs gs)
delivered-append (Frame.keepalive ∷ fs) gs = delivered-append fs gs

module _ (c : Codec) where
  pub delivered-frames : (es : List Event) → delivered (map (frame_of c) es) ≡ map (frame_of c) es
  unfolding frame_of
  delivered-frames [] = refl
  delivered-frames (e ∷ es) = ap (λ l. frame_of c e ∷ l) (delivered-frames es)

  -- A replay yields the stored events up to the first terminal one, and ends there.
  pub record Replayed (es : List Event) (b : Replay) : Type 0 where
    pub count : ℕ
    pub within : count ≤ length es
    pub shown : b.frames ≡ map (frame_of c) (take count es)
    pub whole : b.ended ≡ false → (count ≡ length es) × (b.seqs ≡ seqs_of es) × AllLive es

  replay_more :
      (e : Event) (es : List Event) (b : Replay)
      → Replayed es b
      → Replayed (e ∷ es) (replay_event c (some e) b)
  unfolding replay_event
  replay_more e es b h = elim (Bool-cases (is_terminal e)) [
    | inl ends ↦ rw ends (record { count = 1; within = omega arith; shown = refl; whole = λ p. cc })
    | inr live ↦ rw live (record {
      count = suc h.count;
      within = omega (arith, h.within);
      shown = ap (λ l. frame_of c e ∷ l) h.shown;
      whole = λ p. let (n, s, l) = h.whole p in (omega arith, ap (λ l. e.seq ∷ l) s, (live, l));
    })
  ]

  pub replay-Replayed : (es : List Event) → AllValid es → Replayed es (replay c (map c.dump es))
  unfolding replay
  replay-Replayed [] v = record {
    count = 0;
    within = omega arith;
    shown = refl;
    whole = λ p. (refl, refl, tt);
  }
  replay-Replayed (e ∷ es) v =
      rw (c.validate-dump e v.0)
        (replay_more e es (replay c (map c.dump es)) (replay-Replayed es v.1))
