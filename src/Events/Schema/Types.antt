-- ===== src/Events/Schema/Types.antt =====
-- app/events.py: the event that the adapter returns is the one that the JSON object tells: `type`
-- names its class, and the fields of the class are those of the object.
use longshot.Common.{
  ℕ, ◌≡◌, refl, ap, sym, ◌∙◌, Text, true, Option, some, none, [], Bool-cases, inl, inr,
}
use longshot.Events.{EventType, ErrorReason, CancelledBy, Body, Event, body_type, valid}
use longshot.Events.Schema.{
  Fields, Value, type, text, number, other, validate_fields, own_fields, within_limits, read_body,
  read_envelope, and_then, required, or_default, seq, session_id, ts, read_text, read_count,
  read_seq, read_ts, Conversions, by_value, bys, reason_value, reasons, input, url, chars, index,
  total, summary, chunks, length, delta, by, reason, message, lookup, member, read_member,
  type_value, types,
}
use longshot.Events.Schema.Returns.{Returns, Returns-some, Returns-and_then, member-Returns}
use longshot.Events.Schema.Stands.{AllStand, read_body-AllStand}
use mathlib.Core.Option.{some-injective}
use mathlib.Core.Path.{subst}

required_given :
    {A : Type 0} (read : Value → Option A) (o : Option Value) (a : A)
    → required read o ≡ some a
    → (v : Value) × (o ≡ some v) × (read v ≡ some a)
unfolding required
required_given read none a h = cc h
required_given read (some v) a h = (v, refl, h)

module _ (conversions : Conversions) (now : ℕ) (fs : Fields) where
  read_body-Returns :
      (t : EventType) → Returns (λ body. body_type body ≡ t) (read_body conversions now t fs)
  unfolding read_body body_type
  read_body-Returns EventType.queued = Returns-some _ Body.queued refl
  read_body-Returns EventType.started =
      Returns-and_then _ (required read_text (lookup input fs)) (λ s. some (Body.started s))
        (λ s _. Returns-some _ (Body.started s) refl)
  read_body-Returns EventType.fetch_started =
      Returns-and_then _ (required read_text (lookup url fs)) (λ s. some (Body.fetch_started s))
        (λ s _. Returns-some _ (Body.fetch_started s) refl)
  read_body-Returns EventType.fetch_done =
      Returns-and_then _ (required (read_count conversions now) (lookup chars fs))
        (λ n. some (Body.fetch_done n)) (λ n _. Returns-some _ (Body.fetch_done n) refl)
  read_body-Returns EventType.chunk_summarized =
      Returns-and_then _ (required (read_count conversions now) (lookup index fs))
        (λ i. and_then (required (read_count conversions now) (lookup total fs)) (λ n.
          and_then (required read_text (lookup summary fs))
            (λ s. some (Body.chunk_summarized i n s))))
        (λ i _.
          Returns-and_then _ (required (read_count conversions now) (lookup total fs))
            (λ n.
              and_then (required read_text (lookup summary fs))
                (λ s. some (Body.chunk_summarized i n s)))
            (λ n _.
              Returns-and_then _ (required read_text (lookup summary fs))
                (λ s. some (Body.chunk_summarized i n s))
                (λ s _. Returns-some _ (Body.chunk_summarized i n s) refl)))
  read_body-Returns EventType.final_started =
      Returns-and_then _ (required (read_count conversions now) (lookup chunks fs))
        (λ n. some (Body.final_started n)) (λ n _. Returns-some _ (Body.final_started n) refl)
  read_body-Returns EventType.final_done =
      Returns-and_then _ (required (read_count conversions now) (lookup length fs))
        (λ n. some (Body.final_done n)) (λ n _. Returns-some _ (Body.final_done n) refl)
  read_body-Returns EventType.answer_started = Returns-some _ Body.answer_started refl
  read_body-Returns EventType.token =
      Returns-and_then _ (required read_text (lookup delta fs)) (λ s. some (Body.token s))
        (λ s _. Returns-some _ (Body.token s) refl)
  read_body-Returns EventType.answer_done =
      Returns-and_then _ (required (read_count conversions now) (lookup length fs))
        (λ n. some (Body.answer_done n)) (λ n _. Returns-some _ (Body.answer_done n) refl)
  read_body-Returns EventType.heartbeat = Returns-some _ Body.heartbeat refl
  read_body-Returns EventType.cancelled =
      Returns-and_then _ (or_default CancelledBy.client (read_member by_value bys) (lookup by fs))
        (λ who. some (Body.cancelled who)) (λ who _. Returns-some _ (Body.cancelled who) refl)
  read_body-Returns EventType.error =
      Returns-and_then _
        (or_default ErrorReason.unknown (read_member reason_value reasons) (lookup reason fs))
        (λ why.
          and_then (or_default [] read_text (lookup message fs)) (λ s. some (Body.error why s)))
        (λ why _.
          Returns-and_then _ (or_default [] read_text (lookup message fs))
            (λ s. some (Body.error why s)) (λ s _. Returns-some _ (Body.error why s) refl))
  read_body-Returns EventType.done =
      Returns-and_then _ (required read_text (lookup summary fs))
        (λ s.
          and_then (required (read_count conversions now) (lookup chunks fs))
            (λ n. some (Body.done s n)))
        (λ s _.
          Returns-and_then _ (required (read_count conversions now) (lookup chunks fs))
            (λ n. some (Body.done s n)) (λ n _. Returns-some _ (Body.done s n) refl))

  member-Returns_at :
      (s : Text) (t : EventType) → member type_value types s ≡ some t → type_value t ≡ s
  unfolding Returns
  member-Returns_at s t h = member-Returns type_value types s t h

  -- The text of a member of an enumeration.
  read_member-Returns :
      (v : Value) → Returns (λ t. v ≡ text (type_value t)) (read_member type_value types v)
  unfolding read_member Returns
  read_member-Returns (text s) t h = ap text (sym (member-Returns_at s t h))
  read_member-Returns (number z) t h = cc h
  read_member-Returns (other json) t h = cc h

  read_envelope-Returns :
      (body : Body) → Returns (λ e. e.body ≡ body) (read_envelope conversions now fs body)
  unfolding read_envelope
  read_envelope-Returns body =
      Returns-and_then _ (or_default 0 (read_seq conversions now) (lookup seq fs))
        (λ n. and_then (required read_text (lookup session_id fs)) (λ s.
          and_then (or_default now (read_ts conversions now) (lookup ts fs))
            (λ t. some (record { seq = n; session_id = s; ts = t; body = body }))))
        (λ n _.
          Returns-and_then _ (required read_text (lookup session_id fs))
            (λ s.
              and_then (or_default now (read_ts conversions now) (lookup ts fs))
                (λ t. some (record { seq = n; session_id = s; ts = t; body = body })))
            (λ s _.
              Returns-and_then _ (or_default now (read_ts conversions now) (lookup ts fs))
                (λ t. some (record { seq = n; session_id = s; ts = t; body = body }))
                (λ t _.
                  Returns-some _ (record { seq = n; session_id = s; ts = t; body = body }) refl)))

  within_limits-Returns :
      (body : Body) (f : Event)
      → f.body ≡ body
      → Returns (λ e. (e.body ≡ body) × (valid e ≡ true)) (within_limits f)
  unfolding within_limits Returns
  within_limits-Returns body f same e h = elim (Bool-cases (valid f)) [
    | inl fits ↦
        subst (λ g. (g.body ≡ body) × (valid g ≡ true)) (some-injective f e (rw fits at h))
          (same, fits)
    | inr broken ↦ cc (rw broken at h)
  ]

  checked : Body → Option Event
  checked body = and_then (read_envelope conversions now fs body) within_limits

  checked-Returns : (body : Body) → Returns (λ e. (e.body ≡ body) × (valid e ≡ true)) (checked body)
  unfolding checked Returns
  checked-Returns body =
      Returns-and_then _ (read_envelope conversions now fs body) within_limits
        (λ f given. within_limits-Returns body f (read_envelope-Returns body f given))

  Typed : EventType → Event → Type 0
  Typed t e = (body_type e.body ≡ t) × (valid e ≡ true) × AllStand fs (own_fields e.body)

  classed : EventType → Option Event
  unfolding checked
  classed t = and_then (read_body conversions now t fs) checked

  classed-Returns : (t : EventType) → Returns (Typed t) (classed t)
  unfolding classed Returns Typed
  classed-Returns t =
      Returns-and_then (Typed t) (read_body conversions now t fs) checked (λ body given e h.
        let (same, fits) = checked-Returns body e h in
        (
          ap body_type same ∙ read_body-Returns t body given,
          fits,
          subst (λ b. AllStand fs (own_fields b)) (sym same)
              (read_body-AllStand conversions now fs t body given),
        ))

  Named : Event → Type 0
  Named e =
      (lookup type fs ≡ some (text (type_value (body_type e.body))))
      × (valid e ≡ true)
      × AllStand fs (own_fields e.body)

  classed-Named :
      (t : EventType)
      → required (read_member type_value types) (lookup type fs) ≡ some t
      → Returns Named (classed t)
  unfolding Named Returns Typed
  classed-Named t named e h =
      let (v, there, read) =
        required_given (read_member type_value types) (lookup type fs) t named in
      let (same, fits, stand) = classed-Returns t e h in
      (
        there ∙ ap some (read_member-Returns v t read ∙ ap (λ u. text (type_value u)) (sym same)),
        fits,
        stand,
      )

  -- Whatever JSON object comes through the adapter as an event (one with a negative `seq` does not,
  -- as the model's events have none), the field `type` of the object names the class of that event,
  -- the event is within the limits of its class, and the fields of its class are those of the
  -- object: a count is never missing there, and is the very integer of the object unless the object
  -- has none, so no negative one; a text is the very text of the object, or a default where the
  -- object has no such field.
  pub validate_fields-Named :
      (e : Event)
      → validate_fields conversions now fs ≡ some e
      → (lookup type fs ≡ some (text (type_value (body_type e.body))))
        × (valid e ≡ true)
        × AllStand fs (own_fields e.body)
  unfolding validate_fields Returns Named classed checked
  validate_fields-Named e h =
      Returns-and_then Named (required (read_member type_value types) (lookup type fs)) classed
        classed-Named e h
