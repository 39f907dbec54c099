-- ===== src/Publish/Traces.antt =====
-- app/publish.py: which order of the calls of `emit` the publisher keeps, and which it forgets.
use longshot.Common.{
  ◌≡◌, ◌≢◌, refl, ap, sym, ◌∙◌, Text, text_eq, ◌↔◌, text_eq_iff, text_eq_refl, Bool-cases, inl, inr,
  Option, true, false, List, [], ◌∷◌,
}
use longshot.Publish.{Item, event, SessionPublisher}
use longshot.Publish.Sessions.{
  Sessions, emit, emit_all, emit_local, emit-another, of_session, queue_of, queue-emit_all,
}
use longshot.Events.{Event}
use mathlib.Core.Bool.{true≢false}
use mathlib.Core.List.{append_cancel_left, head-eq_of_cons-eq, tail-eq_of_cons-eq, cons≢nil}
use mathlib.Core.Path.{fun_ext}
use mathlib.Core.Quot
use mathlib.Core.Quot.{Quot, Quot-set}

-- Two neighbours of different sessions change places.
pub data Swapped : List Event → List Event → Type 0 where
  here :
      (e f : Event) (es : List Event)
      → e.session_id ≢ f.session_id
      → Swapped (e ∷ f ∷ es) (f ∷ e ∷ es)
  there : (e : Event) (xs ys : List Event) → Swapped xs ys → Swapped (e ∷ xs) (e ∷ ys)

-- The calls of `emit` up to the order between sessions.
abbrev pub Trace : Type 0
Trace = Quot Swapped

emit_comm :
    (e f : Event) (m : Sessions)
    → e.session_id ≢ f.session_id
    → emit f (emit e m) ≡ emit e (emit f m)
emit_comm e f m ne = fun_ext (λ k. elim (Bool-cases (text_eq e.session_id k)) [
  | inr other ↦
      emit_local f (emit e m) m k (emit-another e m k other)
      ∙ sym (emit-another e (emit f m) k other)
  | inl own ↦ elim (Bool-cases (text_eq f.session_id k)) [
    | inr other ↦
        emit-another f (emit e m) k other
        ∙ emit_local e m (emit f m) k (sym (emit-another f m k other))
    | inl both ↦
        absurd (ne ((text_eq_iff e.session_id k).0 own ∙ sym ((text_eq_iff f.session_id k).0 both)))
  ]
])

emit_all-Swapped :
    (m : Sessions) (xs ys : List Event) → Swapped xs ys → emit_all xs m ≡ emit_all ys m
unfolding emit_all
emit_all-Swapped m _ _ (here e f es ne) = ap (emit_all es) (emit_comm e f m ne)
emit_all-Swapped m _ _ (there e xs ys s) = emit_all-Swapped (emit e m) xs ys s

Sessions-set : IsSet (Text → Option SessionPublisher)
Sessions-set = hlevel

-- The dict that a trace leaves.
pub emit_trace : Sessions → Trace → Sessions
emit_trace m = Quot.lift Sessions-set (λ es. emit_all es m) (emit_all-Swapped m)

Items-set : IsSet (List Item)
Items-set = hlevel

of_session-Swapped :
    (session_id : Text) (xs ys : List Event)
    → Swapped xs ys
    → of_session session_id xs ≡ of_session session_id ys
of_session-Swapped session_id _ _ (here e f es ne) =
    elim (Bool-cases (text_eq e.session_id session_id)) [
      | inr other ↦ rw other
      | inl own ↦ elim (Bool-cases (text_eq f.session_id session_id)) [
        | inr other ↦ rw other
        | inl both ↦ absurd (
            ne (
              (text_eq_iff e.session_id session_id).0 own
              ∙ sym ((text_eq_iff f.session_id session_id).0 both)))
      ]
    ]
of_session-Swapped session_id _ _ (there e xs ys s) = rw (of_session-Swapped session_id xs ys s)

-- The events of a session in a trace.
unfoldable events_of : Text → Trace → List Item
events_of session_id = Quot.lift Items-set (of_session session_id) (of_session-Swapped session_id)

unfoldable emit_first : Event → Trace → Trace
emit_first e = Quot.lift Quot-set (λ es. Quot.mk (e ∷ es)) (λ xs ys s. Quot.sound (there e xs ys s))

of_session-own :
    (session_id : Text) (e : Event) (es : List Event)
    → text_eq e.session_id session_id ≡ true
    → of_session session_id (e ∷ es) ≡ event e ∷ of_session session_id es
of_session-own session_id e es own = rw own

of_session-another :
    (session_id : Text) (e : Event) (es : List Event)
    → text_eq e.session_id session_id ≡ false
    → of_session session_id (e ∷ es) ≡ of_session session_id es
of_session-another session_id e es another = rw another

event_inj : {e f : Event} → event e ≡ event f → e ≡ f
event_inj h = cc

Pulled : Event → List Event → Type 0
Pulled e ys = (zs : List Event) × (◌≡◌ {A = Trace} (Quot.mk ys) (Quot.mk (e ∷ zs)))

-- An event is pulled past one of another session.
pull_past :
    (e f : Event) (ys : List Event) → e.session_id ≢ f.session_id → Pulled e ys → Pulled e (f ∷ ys)
unfolding Pulled emit_first
pull_past e f ys ne (zs, h) = (f ∷ zs, ap (emit_first f) h ∙ sym (Quot.sound (here e f zs ne)))

-- The first event of a session can be taken to the front.
pull :
    (e : Event) (ys : List Event) (q : List Item)
    → of_session e.session_id ys ≡ event e ∷ q
    → Pulled e ys
unfolding Pulled
pull e [] q h = absurd (cons≢nil (sym h))
pull e (f ∷ ys) q h = elim (Bool-cases (text_eq f.session_id e.session_id)) [
  | inl own ↦ (
    ys,
    ap (λ g. Quot.mk (g ∷ ys))
        (event_inj (head-eq_of_cons-eq (sym (of_session-own e.session_id f ys own) ∙ h))),
  )
  | inr other ↦
      pull_past e f ys
        (λ same. true≢false (sym ((text_eq_iff f.session_id e.session_id).1 (sym same)) ∙ other))
        (pull e ys q (sym (of_session-another e.session_id f ys other) ∙ h))
]

of_session_cancel :
    (session_id : Text) (e : Event) (xs ys : List Event)
    → of_session session_id (e ∷ xs) ≡ of_session session_id (e ∷ ys)
    → of_session session_id xs ≡ of_session session_id ys
of_session_cancel session_id e xs ys h = elim (Bool-cases (text_eq e.session_id session_id)) [
  | inl own ↦
      tail-eq_of_cons-eq
        (sym (of_session-own session_id e xs own) ∙ h ∙ of_session-own session_id e ys own)
  | inr other ↦
      sym (of_session-another session_id e xs other) ∙ h ∙ of_session-another session_id e ys other
]

-- What each session sees decides the trace.
by_session :
    (xs ys : List Event)
    → ((session_id : Text) → of_session session_id xs ≡ of_session session_id ys)
    → ◌≡◌ {A = Trace} (Quot.mk xs) (Quot.mk ys)
unfolding emit_first Pulled events_of
by_session [] [] h = refl
by_session [] (f ∷ ys) h =
    absurd (
      cons≢nil
        (sym (h f.session_id ∙ of_session-own f.session_id f ys (text_eq_refl f.session_id))))
by_session (e ∷ xs) ys h =
    let own = of_session-own e.session_id e xs (text_eq_refl e.session_id) in
    let (zs, pulled) = pull e ys (of_session e.session_id xs) (sym (h e.session_id) ∙ own) in
    ap (emit_first e)
      (by_session xs zs (λ k. of_session_cancel k e xs zs (h k ∙ ap (events_of k) pulled)))
    ∙ sym pulled

same_dict :
    (m : Sessions) (xs ys : List Event)
    → emit_all xs m ≡ emit_all ys m
    → ◌≡◌ {A = Trace} (Quot.mk xs) (Quot.mk ys)
same_dict m xs ys h = by_session xs ys (λ k.
    append_cancel_left (queue_of m k) (of_session k xs) (of_session k ys)
      (sym (queue-emit_all xs m k) ∙ ap (λ n. queue_of n k) h ∙ queue-emit_all ys m k))

-- The dict that the publisher comes to tells two traces of calls of `emit` apart, whatever was in
-- the dict before: they leave the same dict exactly when they are the same up to the order of the
-- calls for different sessions. So the order within a session is kept in full, and of the order
-- between sessions nothing is.
pub emit_trace-faithful : (m : Sessions) (s t : Trace) → (emit_trace m s ≡ emit_trace m t) ↔ (s ≡ t)
unfolding emit_trace
emit_trace-faithful m s t = (
  Quot.ind {β = λ s. emit_trace m s ≡ emit_trace m t → s ≡ t} (λ _. hlevel (Quot-set))
      (λ xs.
        Quot.ind {β = λ t. emit_all xs m ≡ emit_trace m t → Quot.mk xs ≡ t} (λ _. hlevel (Quot-set))
          (λ ys. same_dict m xs ys) t)
      s,
  λ same. ap (emit_trace m) same,
)
