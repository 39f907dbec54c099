-- ===== src/Stream/Receiving.antt =====
-- app/api.py, `event_source`: the live tail keeps what is known of a reader.
use longshot.Common.{
  ℕ, suc, ◌+◌, ◌≤◌, ◌<◌, ◌≡◌, sym, ap, ◌∙◌, true, false, Text, List, [], ◌∷◌, ◌++◌, map, map-append,
  arith, max, length, take, get_elem?, get_elem?-take, get_elem?-none, get_elem?-map, length-take,
  length-map, Bool-cases, inl, inr, some,
}
use longshot.Events.{Event, with_seq, is_terminal}
use longshot.Events.Codec.{Codec}
use longshot.Events.Stamp.{
  stamp, stamp-take-suc, AllValid, get_elem?-stamp, AllValid-take, length-stamp, valid-with_seq,
}
use longshot.Stream.{
  Frame, Phase, connecting, subscribed, tailing, closed, contains, frame_of, receive,
}
use longshot.Stream.System.{delivered}
use longshot.Stream.{tail_event}
use longshot.Stream.Backlog.{AllLive-append, delivered-append, delivered-frames}
use longshot.Stream.Reader.{frames, Tail, ClientOk}
use longshot.Common.{dec_lt}
use native.Mathlib.Numerals.{add-one}
use longshot.Stream.{tail_message}

module _ (c : Codec) (all : List Event) {n p : ℕ} (ordered : n ≤ p) {cursor : ℕ} (e : Event)
    (number : e.seq ≡ suc cursor) (next : cursor < n)
    (more : stamp 0 (take (suc cursor) all) ≡ stamp 0 (take cursor all) ++ e ∷ []) where
  -- An event that the replay has yielded is passed over.
  repeated :
      (seqs : List ℕ) (out : List Frame) (t : Tail c all n p cursor seqs out)
      → contains e.seq seqs ≡ true
      → Tail c all n p (suc cursor) seqs out
  repeated seqs out t old =
      let below : suc cursor ≤ t.stored = ground (arith, t.seen e.seq) in
      let same : max t.stored (suc cursor) ≡ max t.stored cursor = omega arith in
      record {
        stored = t.stored;
        in_list = t.in_list;
        heard = next;
        seen = t.seen;
        shown = rw same t.shown;
        live = rw same t.live;
      }

  reached :
      (seqs : List ℕ) (out : List Frame) (t : Tail c all n p cursor seqs out)
      → contains e.seq seqs ≡ false
      → t.stored ≤ cursor
  reached seqs out t new = ground (arith, t.seen e.seq)

  -- Any other event is the one that comes next.
  shown_next :
      (seqs : List ℕ) (out : List Frame)
      → Tail c all n p cursor seqs out
      → contains e.seq seqs ≡ false
      → delivered (out ++ frame_of c e ∷ []) ≡ frames c all (suc cursor)
  shown_next seqs out t new =
      let here : max t.stored cursor ≡ cursor = omega (arith, reached seqs out t new) in
      delivered-append out (frame_of c e ∷ [])
      ∙ rw (t.shown, here)
          (rw (delivered-frames c (e ∷ [])) (rw more (sym (map-append (frame_of c) _ _))))

  continued :
      (seqs : List ℕ) (out : List Frame)
      → Tail c all n p cursor seqs out
      → contains e.seq seqs ≡ false
      → is_terminal e ≡ false
      → Tail c all n p (suc cursor) seqs (out ++ frame_of c e ∷ [])
  continued seqs out t new goes_on =
      let here : max t.stored cursor ≡ cursor = omega (arith, reached seqs out t new) in
      let there : max t.stored (suc cursor) ≡ suc cursor = omega (arith, reached seqs out t new) in
      record {
        stored = t.stored;
        in_list = t.in_list;
        heard = next;
        seen = t.seen;
        shown = shown_next seqs out t new ∙ ap (frames c all) (sym there);
        live = rw (there, more) (AllLive-append _ (e ∷ []) (rw here at t.live) (goes_on, tt));
      }

  tail_event-ClientOk :
      (seqs : List ℕ) (out : List Frame)
      → Tail c all n p cursor seqs out
      → ClientOk c all n p
          (tail_event c (some e) cursor seqs out).phase
          (tail_event c (some e) cursor seqs out).out
  unfolding tail_event
  tail_event-ClientOk seqs out t = elim (Bool-cases (contains e.seq seqs)) [
    | inl old ↦ rw (old, add-one) (repeated seqs out t old)
    | inr new ↦
        rw (new, add-one)
          (elim (Bool-cases (is_terminal e)) [
            | inl ends ↦ rw ends (record {
              count = suc cursor;
              within = omega arith;
              shown = shown_next seqs out t new;
            })
            | inr goes_on ↦ rw goes_on (continued seqs out t new goes_on)
          ])
  ]

module _ (c : Codec) (all : List Event) (valid_all : AllValid all) {n p : ℕ} (ordered : n ≤ p)
    (bound : p ≤ length all) where
  -- The message at the cursor, decoded, and its place among the events.
  message_at :
      (cursor : ℕ)
      → cursor < n
      → (e : Event) × (get_elem? (map c.dump (stamp 0 (take n all))) cursor ≡ some (c.dump e))
        × (c.validate (c.dump e) ≡ some e)
        × (e.seq ≡ suc cursor)
        × (stamp 0 (take (suc cursor) all) ≡ stamp 0 (take cursor all) ++ e ∷ [])
  unfolding with_seq
  message_at cursor h =
      let short : length (take n all) ≡ n = omega (arith, length-take n all) in
      let (x, at, stamped, fits) =
        get_elem?-stamp 0 cursor (take n all) (omega arith) (AllValid-take n all valid_all) in
      (
        with_seq (0 + cursor + 1) x,
        get_elem?-map c.dump cursor (stamp 0 (take n all)) stamped,
        c.validate-dump _ (valid-with_seq (0 + cursor + 1) x ∙ fits),
        omega arith,
        stamp-take-suc cursor all (sym (get_elem?-take cursor n all h) ∙ at)
            ∙ ap (λ k. stamp 0 (take cursor all) ++ with_seq k x ∷ []) (omega arith),
      )

  pub receive-ClientOk :
      (messages : List Text) (phase : Phase) (out : List Frame)
      → messages ≡ map c.dump (stamp 0 (take n all))
      → ClientOk c all n p phase out
      → ClientOk c all n p (receive c messages phase out).phase (receive c messages phase out).out
  unfolding receive tail_message
  receive-ClientOk messages connecting out e ok = ok
  receive-ClientOk messages (subscribed cursor) out e ok = ok
  receive-ClientOk messages (tailing cursor seqs) out e ok = elim (dec_lt cursor n) [
    | yes next ↦
        let (ev, at, parsed, number, more) = message_at cursor next in
        rw (e, at, parsed) (tail_event-ClientOk c all ordered ev number next more seqs out ok)
    | no none_yet ↦
        rw
          (
            e,
            get_elem?-none cursor (map c.dump (stamp 0 (take n all))) (
                omega (
                  arith,
                  length-map c.dump (stamp 0 (take n all)),
                  length-stamp 0 (take n all),
                  length-take n all,
                )),
          )
          ok
  ]
  receive-ClientOk messages closed out e ok = ok
