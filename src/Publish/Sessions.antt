-- ===== src/Publish/Sessions.antt =====
-- app/publish.py, `ProgressPublisher`: the dict of sessions, `emit` and `close`.
-- The body of `_get_or_create` holds its lock over no await, so that it runs in one piece.
use longshot.Common.{
  ◌≡◌, refl, ap, sym, ◌∙◌, Text, text_eq, text_eq_iff, text_eq_refl, Bool-cases, inl, inr, ◌≢◌,
  false, if◌then◌else◌, Option, none, some, List, [], ◌∷◌, ◌++◌, append-nil, append_assoc,
}
use longshot.Events.{Event}
use longshot.Publish.{Item, event, stop, stopped, SessionPublisher, fresh, put}

-- `self._sessions`
abbrev pub Sessions : Type 0
Sessions = Text → Option SessionPublisher

update : Sessions → Text → Option SessionPublisher → Sessions
update m k v j = if text_eq k j then v else m j

or_fresh : Option SessionPublisher → SessionPublisher
or_fresh none = fresh
or_fresh (some p) = p

-- `_get_or_create`: the publisher of the session, which is in the dict afterwards.
unfoldable pub get_or_create : Text → Sessions → SessionPublisher × Sessions
unfolding or_fresh update
get_or_create session_id m = let p = or_fresh (m session_id) in (p, update m session_id (some p))

-- `emit`; the queue is shared by the dict and by its drainer.
unfoldable pub emit : Event → Sessions → Sessions
unfolding get_or_create put
emit e m =
    let (p, m') = get_or_create e.session_id m in update m' e.session_id (some (put (event e) p))

closing : Option SessionPublisher → Option SessionPublisher
unfolding put
closing none = none
closing (some p) = some (put stop p)

-- `close`: the session leaves the dict, and its drainer, if it has one, is told to stop.
unfoldable pub close : Text → Sessions → Option SessionPublisher × Sessions
unfolding closing update
close session_id m = (closing (m session_id), update m session_id none)

-- `publisher.drainer.cancel()`, where the drainer has not ended within five seconds.
unfoldable pub cancel_drainer : SessionPublisher → SessionPublisher
cancel_drainer p = record p { drainer = stopped }

unfoldable pub emit_all : List Event → Sessions → Sessions
emit_all [] m = m
emit_all (e ∷ es) m = emit_all es (emit e m)

queue_in : Option SessionPublisher → List Item
queue_in none = []
queue_in (some p) = p.queue

-- What waits in the queue of a session.
unfoldable pub queue_of : Sessions → Text → List Item
unfolding queue_in
queue_of m session_id = queue_in (m session_id)

-- The events of a session among others.
abbrev pub of_session : Text → List Event → List Item
of_session session_id [] = []
of_session session_id (e ∷ es) =
    if text_eq e.session_id session_id
    then event e ∷ of_session session_id es
    else of_session session_id es

queue-or_fresh : (o : Option SessionPublisher) → (or_fresh o).queue ≡ queue_in o
unfolding or_fresh queue_in
queue-or_fresh none = refl
queue-or_fresh (some p) = refl

-- One event goes to the queue of its own session, and to no other.
queue-emit :
    (e : Event) (m : Sessions) (session_id : Text)
    → queue_of (emit e m) session_id ≡ (
        if text_eq e.session_id session_id
        then queue_of m session_id ++ event e ∷ []
        else queue_of m session_id)
unfolding queue_of emit
queue-emit e m session_id = elim (Bool-cases (text_eq e.session_id session_id)) [
  | inl own ↦ rw own (
      ap (λ q. q ++ event e ∷ [])
        (queue-or_fresh (m e.session_id)
          ∙ ap (λ k. queue_in (m k)) ((text_eq_iff e.session_id session_id).0 own)))
  | inr another ↦ rw another
]

-- What an `emit` leaves at a key depends on what was at that key.
pub emit_local :
    (e : Event) (m n : Sessions) (session_id : Text)
    → m session_id ≡ n session_id
    → emit e m session_id ≡ emit e n session_id
unfolding emit
emit_local e m n session_id h = elim (Bool-cases (text_eq e.session_id session_id)) [
  | inl own ↦ rw own (
      ap (λ o. some (put (event e) (or_fresh o)))
        (ap m ((text_eq_iff e.session_id session_id).0 own)
          ∙ h
          ∙ sym (ap n ((text_eq_iff e.session_id session_id).0 own))))
  | inr another ↦ rw another h
]

pub emit-another :
    (e : Event) (m : Sessions) (session_id : Text)
    → text_eq e.session_id session_id ≡ false
    → emit e m session_id ≡ m session_id
unfolding emit
emit-another e m session_id another = rw another

-- Whatever is emitted, in any order of the sessions, the queue of a session gains exactly the
-- events of that session, in the order of their `emit`.
pub queue-emit_all :
    (es : List Event) (m : Sessions) (session_id : Text)
    → queue_of (emit_all es m) session_id ≡ queue_of m session_id ++ of_session session_id es
unfolding emit_all
queue-emit_all [] m session_id = sym (append-nil _)
queue-emit_all (e ∷ es) m session_id =
    queue-emit_all es (emit e m) session_id
    ∙ rw queue-emit (elim (Bool-cases (text_eq e.session_id session_id)) [
      | inl own ↦
          rw own (append_assoc (queue_of m session_id) (event e ∷ []) (of_session session_id es))
      | inr another ↦ rw another
    ])

-- `close` of a session in the dict takes it out and leaves every other as it is; its queue ends
-- with the sentinel, behind all that it held, with the same drainer, and the dict has nothing
-- queued for the session any more.
close_lem :
    (m : Sessions) (session_id other : Text) {p : SessionPublisher}
    → m session_id ≡ some p
    → other ≢ session_id
    → ((q : SessionPublisher) × ((close session_id m).0 ≡ some q)
        × (q.queue ≡ p.queue ++ stop ∷ [])
        × (q.drainer ≡ p.drainer))
      × (queue_of (close session_id m).1 session_id ≡ [])
      × ((close session_id m).1 other ≡ m other)
unfolding close queue_of
close_lem m session_id other {p} h ne = (
  (put stop p, rw h, refl, refl),
  rw text_eq_refl,
  elim (Bool-cases (text_eq session_id other)) [
    | inl same ↦ absurd (ne (sym ((text_eq_iff session_id other).0 same)))
    | inr differs ↦ rw differs
  ],
)
