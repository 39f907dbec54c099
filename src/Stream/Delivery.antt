-- ===== src/Stream/Delivery.antt =====
-- app/publish.py and app/api.py together: what a reader of a session is sent, in any order of the
-- steps of the drainer, the reader and the other clients of Redis.
use longshot.Common.{
  ℕ, ◌≤◌, ◌≡◌, refl, sym, ap, ap₂, ◌∙◌, max, drop, Text, List, [], ◌++◌, map, arith, length, take,
  take_of_le, drop-nil_le, length-map,
}
use longshot.Keys.{events_list, channel}
use longshot.Events.Codec.{Codec}
use longshot.Events.Stamp.{stamp, AllValid, length-stamp, take-stamp}
use longshot.Redis.{Redis}
use longshot.Publish.{Drainer, waiting, finished, stopped, taken, stamped, pushed, kept, saved}
use longshot.Stream.{tailing, frame_of}
use longshot.Stream.System.{Action, System, start, run, enqueued, OthersForeign, delivered}
use longshot.Stream.Writer.{pending, queued, listed}
use longshot.Stream.Environment.{listed-le}
use longshot.Stream.Backlog.{AllLive}
use longshot.Stream.Reader.{Tail, ClientOk-Shown}
use longshot.Stream.Invariant.{Fresh, Inv, Inv-start, run-Inv, listed_mono}
use longshot.Stream.Environment.{listed-le}

-- A drainer with no event in its hands that is not published.
abbrev pub AtRest : Drainer → Type 0
AtRest waiting = Unit
AtRest finished = Unit
AtRest stopped = Unit
AtRest _ = ⊥

pending-AtRest : (d : Drainer) → AtRest d → pending d ≡ []
pending-AtRest waiting h = refl
pending-AtRest finished h = refl
pending-AtRest stopped h = refl
pending-AtRest (taken e) h = absurd h
pending-AtRest (stamped e k) h = absurd h
pending-AtRest (pushed e k) h = absurd h
pending-AtRest (kept e k) h = absurd h
pending-AtRest (saved e k) h = absurd h

listed-AtRest : (d : Drainer) (n : ℕ) → AtRest d → listed d n ≡ n
listed-AtRest waiting n h = refl
listed-AtRest finished n h = refl
listed-AtRest stopped n h = refl
listed-AtRest (taken e) n h = absurd h
listed-AtRest (stamped e k) n h = absurd h
listed-AtRest (pushed e k) n h = absurd h
listed-AtRest (kept e k) n h = absurd h
listed-AtRest (saved e k) n h = absurd h

module _ (r : Redis) (c : Codec) (ttl : ℕ) (session_id : Text) (s : r.State) (acts : List Action)
    (fresh : Fresh r session_id s) (valid : AllValid (enqueued acts))
    (foreign : OthersForeign session_id acts) where
  abbrev final : System r
  final = run r c ttl session_id acts (start r s)

  pub final-Inv : Inv r c ttl session_id (enqueued acts) final
  final-Inv =
      run-Inv r c ttl session_id acts (start r s) tt valid foreign
        (Inv-start r c ttl session_id s fresh)

  -- From a session with no event yet, whatever the order of the steps of the drainer, the reader and
  -- the other clients (whose commands leave the session's keys alone), the reader has been sent a
  -- prefix of the valid events that were put into the queue, in that order, numbered 1, 2, 3 and so
  -- on: none is left out and none comes twice.
  pub delivery_prefix :
      (m : ℕ) × (m ≤ length (enqueued acts))
      × (delivered final.client.out ≡ map (frame_of c) (take m (stamp 0 (enqueued acts))))
  delivery_prefix =
      let i = final-Inv in
      let shown =
        ClientOk-Shown c (enqueued acts) final.client.phase final.client.out
          (listed_mono r c ttl session_id _ _) i.client in
      (
        shown.count,
        omega (arith, shown.within, listed-le r c session_id final.publisher.drainer i.writer),
        shown.shown ∙ ap (map (frame_of c)) (sym (take-stamp shown.count 0 (enqueued acts))),
      )

  module _ (empty : final.publisher.queue ≡ []) (rests : AtRest final.publisher.drainer) where
    all_published : (final-Inv).published ≡ length (enqueued acts)
    all_published =
        let w = (final-Inv).writer in
        let none_left : drop (final-Inv).published (enqueued acts) ≡ [] =
          w.rest ∙ ap₂ (λ p q. p ++ queued q) (pending-AtRest _ rests) empty in
        omega (arith, w.bound, drop-nil_le (final-Inv).published (enqueued acts) none_left)

    whole : take (final-Inv).published (enqueued acts) ≡ enqueued acts
    whole = take_of_le _ (enqueued acts) (omega (arith, all_published))

    -- In such a run, once the queue is empty and the drainer has no event in its hands that is not
    -- published, the list and the channel both hold every event that was put into the queue, in
    -- that order, numbered 1, 2, 3 and so on.
    pub storage_complete :
        (r.items final.redis (events_list session_id) ≡ map c.dump (stamp 0 (enqueued acts)))
        × (r.messages final.redis (channel session_id) ≡ map c.dump (stamp 0 (enqueued acts)))
    storage_complete =
        let w = (final-Inv).writer in
        let listed_n = listed-AtRest final.publisher.drainer (final-Inv).published rests in
        (
          w.items
              ∙ ap (λ k. map c.dump (stamp 0 (take k (enqueued acts)))) listed_n
              ∙ ap (λ l. map c.dump (stamp 0 l)) whole,
          w.messages ∙ ap (λ l. map c.dump (stamp 0 l)) whole,
        )

    caught_up :
        {cursor : ℕ} {seqs : List ℕ} {p : ℕ}
        → p ≡ (final-Inv).published
        → length (r.messages final.redis (channel session_id)) ≤ cursor
        → Tail c (enqueued acts) (final-Inv).published p cursor seqs final.client.out
        → (delivered final.client.out ≡ map (frame_of c) (stamp 0 (enqueued acts)))
          × AllLive (stamp 0 (enqueued acts))
    caught_up {cursor} e all_heard t =
        let count : length (r.messages final.redis (channel session_id)) ≡ length (enqueued acts) =
          ap length storage_complete.1
          ∙ length-map c.dump (stamp 0 (enqueued acts))
          ∙ length-stamp 0 (enqueued acts) in
        let everything : take (max t.stored cursor) (enqueued acts) ≡ enqueued acts =
          take_of_le _ (enqueued acts) (omega arith) in
        (t.shown ∙ ap (λ l. map (frame_of c) (stamp 0 l)) everything, rw everything at t.live)

    -- In such a run, once the queue is empty and the drainer has no event in its hands that is not
    -- published, a reader that is still in the live tail and has received every message of the
    -- channel has been sent every event that was put into the queue, in that order, numbered 1, 2,
    -- 3 and so on, each once; and none of them is terminal.
    pub delivery_complete :
        (cursor : ℕ) (seqs : List ℕ)
        → final.client.phase ≡ tailing cursor seqs
        → length (r.messages final.redis (channel session_id)) ≤ cursor
        → (delivered final.client.out ≡ map (frame_of c) (stamp 0 (enqueued acts)))
          × AllLive (stamp 0 (enqueued acts))
    delivery_complete cursor seqs e all_heard =
        caught_up (listed-AtRest final.publisher.drainer _ rests) all_heard
          (rw e at (final-Inv).client)
