-- ===== src/Stream/Reader.antt =====
-- app/api.py, `event_source`: what a reader has yielded at each place where it waits.
use longshot.Common.{
  ℕ, ◌≤◌, ◌≡◌, sym, ap, ◌∙◌, ◌&&◌, leb, Text, List, [], ◌++◌, map, append-nil, arith, max, length,
  take, take-append_of_le,
}
use longshot.Events.{Event}
use longshot.Events.Codec.{Codec}
use longshot.Events.Stamp.{stamp}
use longshot.Stream.{
  Frame, Phase, connecting, subscribed, tailing, closed, contains, frame_of, subscribe, idle,
}
use longshot.Stream.System.{delivered}
use longshot.Stream.Backlog.{AllLive, delivered-append}

module _ (c : Codec) (all : List Event) where
  -- The frames of the first `k` events, numbered from 1.
  abbrev pub frames : ℕ → List Frame
  frames k = map (frame_of c) (stamp 0 (take k all))

  -- A reader in the live tail has yielded the events of the list or those of the channel up to its
  -- cursor, whichever are more, and none of them was terminal.
  pub record Tail (n p cursor : ℕ) (seqs : List ℕ) (out : List Frame) : Type 0 where
    pub stored : ℕ
    pub in_list : stored ≤ p
    pub heard : cursor ≤ n
    pub seen : (x : ℕ) → contains x seqs ≡ (leb 1 x && leb x stored)
    pub shown : delivered out ≡ frames (max stored cursor)
    pub live : AllLive (stamp 0 (take (max stored cursor) all))

  pub record Shown (p : ℕ) (out : List Frame) : Type 0 where
    pub count : ℕ
    pub within : count ≤ p
    pub shown : delivered out ≡ frames count

  -- With `n` events in the channel and `p` in the list.
  abbrev pub ClientOk : ℕ → ℕ → Phase → List Frame → Type 0
  ClientOk n p connecting out = delivered out ≡ []
  ClientOk n p (subscribed cursor) out = (cursor ≤ n) × (delivered out ≡ [])
  ClientOk n p (tailing cursor seqs) out = Tail n p cursor seqs out
  ClientOk n p closed out = Shown p out

  pub ClientOk-mono :
      {n p m q : ℕ} (phase : Phase) (out : List Frame)
      → n ≤ m
      → p ≤ q
      → ClientOk n p phase out
      → ClientOk m q phase out
  ClientOk-mono connecting out h k ok = ok
  ClientOk-mono (subscribed cursor) out h k ok = (omega (arith, ok.0), ok.1)
  ClientOk-mono (tailing cursor seqs) out h k ok = record {
    stored = ok.stored;
    in_list = omega (arith, ok.in_list);
    heard = omega (arith, ok.heard);
    seen = ok.seen;
    shown = ok.shown;
    live = ok.live;
  }
  ClientOk-mono closed out h k ok = record {
    count = ok.count;
    within = omega (arith, ok.within);
    shown = ok.shown;
  }

  -- However it ends, the reader has yielded a prefix.
  pub ClientOk-Shown :
      {n p : ℕ} (phase : Phase) (out : List Frame) → n ≤ p → ClientOk n p phase out → Shown p out
  unfolding stamp
  ClientOk-Shown connecting out h ok = record { count = 0; within = omega arith; shown = ok }
  ClientOk-Shown (subscribed cursor) out h ok = record {
    count = 0;
    within = omega arith;
    shown = ok.1;
  }
  ClientOk-Shown (tailing cursor seqs) out h ok = record {
    count = max ok.stored cursor;
    within = omega (arith, ok.in_list, ok.heard);
    shown = ok.shown;
  }
  ClientOk-Shown closed out h ok = ok

  pub subscribe-ClientOk :
      (n p : ℕ) (messages : List Text) (phase : Phase) (out : List Frame)
      → length messages ≤ n
      → ClientOk n p phase out
      → ClientOk n p (subscribe messages phase) out
  unfolding subscribe
  subscribe-ClientOk n p messages connecting out h ok = (h, ok)
  subscribe-ClientOk n p messages (subscribed cursor) out h ok = ok
  subscribe-ClientOk n p messages (tailing cursor seqs) out h ok = ok
  subscribe-ClientOk n p messages closed out h ok = ok

  pub idle-ClientOk :
      (n p : ℕ) (phase : Phase) (out : List Frame)
      → ClientOk n p phase out
      → ClientOk n p phase (idle phase out)
  unfolding idle
  idle-ClientOk n p connecting out ok = ok
  idle-ClientOk n p (subscribed cursor) out ok = ok
  idle-ClientOk n p (tailing cursor seqs) out ok = record {
    stored = ok.stored;
    in_list = ok.in_list;
    heard = ok.heard;
    seen = ok.seen;
    shown = simp (delivered-append, append-nil) ok.shown;
    live = ok.live;
  }
  idle-ClientOk n p closed out ok = ok

module _ (c : Codec) (all more : List Event) where
  frames-append : (k : ℕ) → k ≤ length all → frames c (all ++ more) k ≡ frames c all k
  frames-append k h = ap (λ l. map (frame_of c) (stamp 0 l)) (take-append_of_le k all more h)

  -- Events that come later change nothing of what a reader has yielded.
  pub ClientOk-append :
      {n p : ℕ} (phase : Phase) (out : List Frame)
      → n ≤ p
      → p ≤ length all
      → ClientOk c all n p phase out
      → ClientOk c (all ++ more) n p phase out
  ClientOk-append connecting out h k ok = ok
  ClientOk-append (subscribed cursor) out h k ok = ok
  ClientOk-append (tailing cursor seqs) out h k ok =
      let short : max ok.stored cursor ≤ length all = omega (arith, ok.in_list, ok.heard) in
      record {
        stored = ok.stored;
        in_list = ok.in_list;
        heard = ok.heard;
        seen = ok.seen;
        shown = ok.shown ∙ sym (frames-append (max ok.stored cursor) short);
        live = rw (take-append_of_le (max ok.stored cursor) all more short) ok.live;
      }
  ClientOk-append closed out h k ok = record {
    count = ok.count;
    within = ok.within;
    shown = ok.shown ∙ sym (frames-append ok.count (omega (arith, ok.within)));
  }
