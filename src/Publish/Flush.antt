-- ===== src/Publish/Flush.antt =====
-- app/publish.py, `ProgressPublisher._drain`: the drainer left to itself empties its queue and ends.
use longshot.Common.{
  ℕ, zero, suc, ◌+◌, suc-add, zero-add, ◌≡◌, refl, sym, ap, ◌∙◌, Text, text_eq_refl, Bool-cases,
  inl, inr, if◌then◌else◌, Option, some, List, [], ◌∷◌, ◌++◌, append-nil, append_assoc, map,
  map-append, length, length-append, arith,
}
use mathlib.Core.Path.{subst}
use longshot.Keys.{events_list, progress_snapshot, channel, sequence}
use longshot.Events.{Event, with_seq, is_terminal}
use longshot.Events.Codec.{Codec}
use longshot.Events.Stamp.{stamp, stamp-append}
use longshot.Redis.{Redis, incr, rpush, expire, set, publish}
use longshot.Publish.{send, Item, event, stop, waiting, stopped, SessionPublisher, payload, drain}

-- The turns that an event takes: `get`, five commands, and one more EXPIRE behind a terminal event.
abbrev pub turns_of : Event → ℕ
turns_of e = if is_terminal e then 7 else 6

abbrev pub turns : List Event → ℕ
turns [] = 0
turns (e ∷ es) = turns_of e + turns es

-- What is kept at a key to which these texts are written, one after the other.
abbrev pub latest : Option Text → List Text → Option Text
latest o [] = o
latest o (v ∷ vs) = latest (some v) vs

module _ (r : Redis) (c : Codec) (ttl : ℕ) (session_id : Text) where
  unfoldable pub drain_times : ℕ → r.State × SessionPublisher → r.State × SessionPublisher
  drain_times zero x = x
  drain_times (suc n) x = drain_times n (drain r c ttl session_id x)

  drain_times-add :
      (m n : ℕ) (x : r.State × SessionPublisher)
      → drain_times (m + n) x ≡ drain_times n (drain_times m x)
  unfolding drain_times
  drain_times-add zero n x = ap (λ k. drain_times k x) (zero-add n)
  drain_times-add (suc m) n x =
      ap (λ k. drain_times k x) (suc-add m n) ∙ drain_times-add m n (drain r c ttl session_id x)

  -- What Redis holds of the session after texts have been written to a list and a channel, of which
  -- `n` events had been numbered before.
  pub record Written (n : ℕ) (es : List Event) (s t : r.State) : Type 0 where
    pub counted : r.counter t (sequence session_id) ≡ n + length es
    pub listed :
        r.items t (events_list session_id)
        ≡ r.items s (events_list session_id) ++ map c.dump (stamp n es)
    pub sent :
        r.messages t (channel session_id)
        ≡ r.messages s (channel session_id) ++ map c.dump (stamp n es)
    pub snapshot :
        r.value t (progress_snapshot session_id)
        ≡ latest (r.value s (progress_snapshot session_id)) (map c.dump (stamp n es))

  -- The commands of one event.
  stored : ℕ → Event → r.State → r.State
  stored seq e s = r.exec (publish (channel session_id) (payload c e seq)) (
      r.exec (set (progress_snapshot session_id) (payload c e seq) ttl) (
        r.exec (expire (events_list session_id) ttl)
          (r.exec (rpush (events_list session_id) (payload c e seq)) s)))

  one_event : Event → r.State → r.State
  unfolding stored
  one_event e s =
      let s' = r.exec (incr (sequence session_id)) s in
      let t = stored (r.counter s' (sequence session_id)) e s' in
      if is_terminal e then r.exec (expire (events_list session_id) ttl) t else t

  drain-one_event :
      (e : Event) (q : List Item) (s : r.State)
      → drain_times (turns_of e) (s, record { queue = event e ∷ q; drainer = waiting })
        ≡ (one_event e s, record { queue = q; drainer = waiting })
  unfolding drain_times drain one_event send
  drain-one_event e q s = elim (Bool-cases (is_terminal e)) [
    | inl ends ↦ rw ends (rw ends refl)
    | inr goes_on ↦ rw goes_on (rw goes_on refl)
  ]

  stored-Written :
      (n : ℕ) (e : Event) (s : r.State)
      → r.counter s (sequence session_id) ≡ suc n
      → Written n (e ∷ []) s (stored (n + 1) e s)
  unfolding stored stamp payload
  stored-Written n e s h = record {
    counted =
        r.counter-exec _ _ _
        ∙ r.counter-exec _ _ _
        ∙ r.counter-exec _ _ _
        ∙ r.counter-exec _ _ _
        ∙ h
        ∙ omega arith;
    listed =
        r.items-exec _ _ _
        ∙ r.items-exec _ _ _
        ∙ r.items-exec _ _ _
        ∙ r.items-exec _ _ _
        ∙ rw text_eq_refl refl;
    sent =
        r.messages-exec _ _ _
        ∙ rw text_eq_refl (
            ap (λ l. l ++ c.dump (with_seq (n + 1) e) ∷ [])
              (r.messages-exec _ _ _ ∙ r.messages-exec _ _ _ ∙ r.messages-exec _ _ _));
    snapshot = r.value-exec _ _ _ ∙ r.value-exec _ _ _ ∙ rw text_eq_refl refl;
  }

  -- The EXPIRE behind a terminal event changes nothing of this.
  expired :
      (n : ℕ) (es : List Event) {s t : r.State}
      → Written n es s t
      → Written n es s (r.exec (expire (events_list session_id) ttl) t)
  expired n es w = record {
    counted = r.counter-exec _ _ _ ∙ w.counted;
    listed = r.items-exec _ _ _ ∙ w.listed;
    sent = r.messages-exec _ _ _ ∙ w.sent;
    snapshot = r.value-exec _ _ _ ∙ w.snapshot;
  }

  one_event-Written :
      (n : ℕ) (e : Event) (s : r.State)
      → r.counter s (sequence session_id) ≡ n
      → Written n (e ∷ []) s (one_event e s)
  unfolding one_event
  one_event-Written n e s h =
      let drawn : r.counter (r.exec (incr (sequence session_id)) s) (sequence session_id) ≡ suc n =
        r.counter-exec _ s _ ∙ rw text_eq_refl (ap suc h) in
      let w = stored-Written n e (r.exec (incr (sequence session_id)) s) drawn in
      let v : Written n (e ∷ []) s (stored (n + 1) e (r.exec (incr (sequence session_id)) s)) =
        record {
          counted = w.counted;
          listed = w.listed ∙ ap (λ l. l ++ map c.dump (stamp n (e ∷ []))) (r.items-exec _ s _);
          sent = w.sent ∙ ap (λ l. l ++ map c.dump (stamp n (e ∷ []))) (r.messages-exec _ s _);
          snapshot =
              w.snapshot ∙ ap (λ o. latest o (map c.dump (stamp n (e ∷ [])))) (r.value-exec _ s _);
        } in
      let seq : r.counter (r.exec (incr (sequence session_id)) s) (sequence session_id) ≡ n + 1 =
        omega (arith, drawn) in
      rw seq (elim (Bool-cases (is_terminal e)) [
        | inl ends ↦ rw ends (expired n (e ∷ []) v)
        | inr goes_on ↦ rw goes_on v
      ])

  latest-append :
      (o : Option Text) (vs ws : List Text) → latest o (vs ++ ws) ≡ latest (latest o vs) ws
  latest-append o [] ws = refl
  latest-append o (v ∷ vs) ws = latest-append (some v) vs ws

  dumped-append :
      (n : ℕ) (es fs : List Event)
      → map c.dump (stamp n (es ++ fs))
        ≡ map c.dump (stamp n es) ++ map c.dump (stamp (n + length es) fs)
  dumped-append n es fs = ap (map c.dump) (stamp-append n es fs) ∙ map-append c.dump (stamp n es) _

  Written-trans :
      (n : ℕ) (es fs : List Event) {s t u : r.State}
      → Written n es s t
      → Written (n + length es) fs t u
      → Written n (es ++ fs) s u
  Written-trans n es fs {s} w v = record {
    counted = omega (arith, v.counted, length-append es fs);
    listed =
        v.listed
        ∙ ap (λ l. l ++ map c.dump (stamp (n + length es) fs)) w.listed
        ∙ append_assoc _ (map c.dump (stamp n es)) _
        ∙ ap (λ l. r.items s (events_list session_id) ++ l) (sym (dumped-append n es fs));
    sent =
        v.sent
        ∙ ap (λ l. l ++ map c.dump (stamp (n + length es) fs)) w.sent
        ∙ append_assoc _ (map c.dump (stamp n es)) _
        ∙ ap (λ l. r.messages s (channel session_id) ++ l) (sym (dumped-append n es fs));
    snapshot =
        v.snapshot
        ∙ ap (λ o. latest o (map c.dump (stamp (n + length es) fs))) w.snapshot
        ∙ sym (latest-append _ (map c.dump (stamp n es)) _)
        ∙ ap (latest _) (sym (dumped-append n es fs));
  }

  Written-none : (s : r.State) → Written (r.counter s (sequence session_id)) [] s s
  unfolding stamp
  Written-none s = record {
    counted = omega arith;
    listed = sym (append-nil _);
    sent = sym (append-nil _);
    snapshot = refl;
  }

  -- The queue of events, and the sentinel behind it.
  abbrev closing_queue : List Event → List Item
  closing_queue es = map event es ++ stop ∷ []

  -- Left to itself, the drainer of a closed session writes every event of its queue, in order, each
  -- with the next number, and ends: it takes six turns for an event, seven for a terminal one, and
  -- one for the sentinel. Then the queue is empty, the list and the channel have the numbered
  -- events behind what they had, and the snapshot is the last of them.
  pub drain_times-stopped :
      (es : List Event) (s : r.State)
      → (t : r.State) × (drain_times
            (turns es + 1)
            (s, record { queue = closing_queue es; drainer = waiting })
          ≡ (t, record { queue = []; drainer = stopped }))
        × Written (r.counter s (sequence session_id)) es s t
  unfolding drain_times drain
  drain_times-stopped [] s = (s, refl, Written-none s)
  drain_times-stopped (e ∷ es) s =
      let t = one_event e s in
      let w = one_event-Written (r.counter s (sequence session_id)) e s refl in
      let (u, steps, v) = drain_times-stopped es t in
      let start : r.State × SessionPublisher =
        (s, record { queue = closing_queue (e ∷ es); drainer = waiting }) in
      let count : turns (e ∷ es) + 1 ≡ turns_of e + (turns es + 1) = omega arith in
      (
        u,
        ap (λ k. drain_times k start) count
            ∙ drain_times-add (turns_of e) (turns es + 1) start
            ∙ ap (drain_times (turns es + 1)) (drain-one_event e (closing_queue es) s)
            ∙ steps,
        Written-trans _ (e ∷ []) es w (subst (λ k. Written k es t u) w.counted v),
      )
