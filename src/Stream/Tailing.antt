-- ===== src/Stream/Tailing.antt =====
-- app/api.py, `event_source`: the replay and the live tail keep what is known of a reader.
use longshot.Common.{
  ℕ, ◌≤◌, ◌≡◌, sym, ap, ◌∙◌, false, if◌then◌else◌, Text, List, [], ◌++◌, map, arith, max, length,
  take, take-take, length-take, Bool-cases, inl, inr,
}
use longshot.Events.{Event}
use longshot.Events.Codec.{Codec}
use longshot.Events.Stamp.{stamp, AllValid, AllValid-stamp, AllValid-take, take-stamp, length-stamp}
use longshot.Stream.{
  Frame, Phase, connecting, subscribed, tailing, closed, Replay, frame_of, read_backlog,
}
use longshot.Stream.System.{delivered}
use longshot.Stream.Backlog.{
  contains-stamp, delivered-append, delivered-frames, Replayed, replay-Replayed,
}
use longshot.Stream.Reader.{frames, Tail, ClientOk}

module _ (c : Codec) (all : List Event) (valid_all : AllValid all) {n p : ℕ} (ordered : n ≤ p)
    (bound : p ≤ length all) where
  shown_after :
      (count : ℕ) (out fs : List Frame)
      → count ≤ p
      → fs ≡ map (frame_of c) (take count (stamp 0 (take p all)))
      → delivered out ≡ []
      → delivered (out ++ fs) ≡ frames c all count
  shown_after count out fs h e none_yet =
      simp (delivered-append, none_yet, e, delivered-frames)
        (ap (map (frame_of c))
          (take-stamp count 0 (take p all) ∙ ap (stamp 0) (take-take count p all h)))

  length-stored : length (stamp 0 (take p all)) ≡ p
  length-stored = omega (arith, length-stamp 0 (take p all), length-take p all, bound)

  -- A replay that reached the end of the list leaves its numbers for the live tail.
  goes_on :
      (cursor : ℕ) (out : List Frame) (b : Replay)
      → cursor ≤ n
      → delivered out ≡ []
      → Replayed c (stamp 0 (take p all)) b
      → b.ended ≡ false
      → Tail c all n p cursor b.seqs (out ++ b.frames)
  goes_on cursor out b h none_yet y e =
      let (whole, numbers, live) = y.whole e in
      let count_p : y.count ≡ p = whole ∙ length-stored in
      let most : max p cursor ≡ p = omega arith in
      record {
        stored = p;
        in_list = omega arith;
        heard = h;
        seen =
            λ x. rw numbers (contains-stamp x 0 (take p all) ∙ ground (arith, length-take p all));
        shown =
            shown_after y.count out b.frames (omega arith) y.shown none_yet
            ∙ ap (frames c all) (count_p ∙ sym most);
        live = rw most live;
      }

  after_backlog :
      (cursor : ℕ) (out : List Frame) (b : Replay)
      → cursor ≤ n
      → delivered out ≡ []
      → Replayed c (stamp 0 (take p all)) b
      → ClientOk c all n p (if b.ended then closed else tailing cursor b.seqs) (out ++ b.frames)
  after_backlog cursor out b h none_yet y = elim (Bool-cases b.ended) [
    | inl ends ↦ rw ends (record {
      count = y.count;
      within = omega (arith, y.within, length-stored);
      shown =
          shown_after y.count out b.frames (omega (arith, y.within, length-stored)) y.shown
            none_yet;
    })
    | inr on ↦ rw on (goes_on cursor out b h none_yet y on)
  ]

  pub backlog-ClientOk :
      (items : List Text) (phase : Phase) (out : List Frame)
      → items ≡ map c.dump (stamp 0 (take p all))
      → ClientOk c all n p phase out
      → ClientOk c all n p
          (read_backlog c items phase out).phase
          (read_backlog c items phase out).out
  unfolding read_backlog
  backlog-ClientOk items connecting out e ok = ok
  backlog-ClientOk items (subscribed cursor) out e ok = rw e (
      after_backlog cursor out _ ok.0 ok.1
        (replay-Replayed c _ (AllValid-stamp 0 _ (AllValid-take p all valid_all))))
  backlog-ClientOk items (tailing cursor seqs) out e ok = ok
  backlog-ClientOk items closed out e ok = ok
