-- ===== src/Tasks/Protocol/Tally.antt =====
-- app/tasks.py: what the events of a job add up to, by induction on the walk of its state machine.
use longshot.Common.{
  ℕ, ◌+◌, Text, ◌≡◌, refl, sym, ap, ap₂, ◌∙◌, List, [], ◌∷◌, ◌++◌, ◌⊎◌, some, none, append-nil,
  append_assoc, arith,
}
use mathlib.Core.Path.{subst}
use longshot.Events.{Event, Body}
use longshot.Contract.{TaskResult, TaskStatus}
use longshot.Tasks.Monad.{ok, Job}
use longshot.Tasks.Terminal.{Answered, Settled, run_terminal}
use longshot.Tasks.RunJob.{Params, body}
use longshot.Tasks.Protocol.Refines.{body-Walk}
use longshot.Tasks.Protocol.{
  Stage, summarized, combining, answering, answered, combined, over, Next, Walk,
}

-- What an event adds to the text of the tokens, and to the number of summaries.
abbrev pub delta_of : Body → Text
delta_of (Body.token delta) = delta
delta_of _ = []

abbrev pub summary_of : Body → ℕ
summary_of (Body.chunk_summarized _ _ _) = 1
summary_of _ = 0

abbrev pub spoken : List Event → Text
spoken [] = []
spoken (e ∷ es) = delta_of e.body ++ spoken es

abbrev pub summaries : List Event → ℕ
summaries [] = 0
summaries (e ∷ es) = summary_of e.body + summaries es

spoken-snoc : (es : List Event) (e : Event) → spoken (es ++ e ∷ []) ≡ spoken es ++ delta_of e.body
spoken-snoc [] e = append-nil (delta_of e.body)
spoken-snoc (x ∷ es) e =
    ap (λ t. delta_of x.body ++ t) (spoken-snoc es e)
    ∙ sym (append_assoc (delta_of x.body) (spoken es) (delta_of e.body))

summaries-snoc :
    (es : List Event) (e : Event) → summaries (es ++ e ∷ []) ≡ summaries es + summary_of e.body
summaries-snoc [] e = omega arith
summaries-snoc (x ∷ es) e = omega (arith, summaries-snoc es e)

-- The text and the number of summaries at a stage.
abbrev text_at : Stage → Text
text_at (answering total text) = text
text_at (answered total text) = text
text_at (combined total text) = text
text_at _ = []

abbrev count_at : Stage → ℕ
count_at (summarized count total) = count
count_at (combining total) = total
count_at (answering total text) = total
count_at (answered total text) = total
count_at (combined total text) = total
count_at _ = 0

abbrev Sums : Text → ℕ → List Event → Type 0
Sums text count events = (spoken events ≡ text) × (summaries events ≡ count)

-- The last event of a job that is over, if it is a DoneEvent, says what the others add up to.
abbrev Says : Body → List Event → Type 0
Says (Body.done text count) events = Sums text count events
Says _ events = Unit

says : {b c : Body} (events : List Event) → b ≡ c → Says c events → Says b events
says events h s = subst (λ b. Says b events) (sym h) s

abbrev Tally : Stage → List Event → Type 0
Tally over events =
    (before : List Event) × (last : Event) × (events ≡ before ++ last ∷ []) × Says last.body events
Tally stage events = Sums (text_at stage) (count_at stage) events

module _ (events : List Event) (e : Event) {b : Body} (h : e.body ≡ b) {text : Text}
    {count : ℕ} where
  grown :
      Sums text count events → Sums (text ++ delta_of b) (count + summary_of b) (events ++ e ∷ [])
  grown (spoke, counted) = (
    spoken-snoc events e ∙ ap₂ (λ t c. t ++ delta_of c) spoke h,
    summaries-snoc events e ∙ ap₂ (λ n c. n + summary_of c) counted h,
  )

  silent :
      delta_of b ≡ []
      → summary_of b ≡ 0
      → Sums text count events
      → Sums text count (events ++ e ∷ [])
  silent no_delta no_summary s =
      let (spoke, counted) = grown s in
      (spoke ∙ ap (λ d. text ++ d) no_delta ∙ append-nil text, omega arith)

module _ (p : Params) where
  Tally-Next :
      {stage after : Stage} {b : Body} (next : Next p stage b after) (events : List Event)
      (e : Event)
      → e.body ≡ b
      → Tally stage events
      → Tally after (events ++ e ∷ [])
  Tally-Next (Next.start_chat c) events e h t = silent events e h refl refl t
  Tally-Next (Next.start_url u) events e h t = silent events e h refl refl t
  Tally-Next (Next.fetch u) events e h t = silent events e h refl refl t
  Tally-Next (Next.text chars) events e h t = silent events e h refl refl t
  Tally-Next (Next.first_summary total s) events e h t = grown events e h t
  Tally-Next (Next.next_summary count total s lt) events e h t =
      let (spoke, counted) = grown events e h t in (spoke, omega arith)
  Tally-Next (Next.combine count total all) events e h t =
      let (spoke, counted) = silent events e h refl refl t in (spoke, omega arith)
  Tally-Next (Next.answer_chat c) events e h t = silent events e h refl refl t
  Tally-Next (Next.answer_url total) events e h t = silent events e h refl refl t
  Tally-Next (Next.token total text delta) events e h t =
      let (spoke, counted) = grown events e h t in (spoke, omega arith)
  Tally-Next (Next.answer_done total text) events e h t = silent events e h refl refl t
  Tally-Next (Next.finish_chat total text c) events e h t =
      (events, e, refl, says (events ++ e ∷ []) h (silent events e h refl refl t))
  Tally-Next (Next.final_done total text u) events e h t = silent events e h refl refl t
  Tally-Next (Next.finish_url total text) events e h t =
      (events, e, refl, says (events ++ e ∷ []) h (silent events e h refl refl t))
  Tally-Next (Next.fail reason message f) events e h t =
      (events, e, refl, says (events ++ e ∷ []) h tt)
  Tally-Next (Next.cancel o) events e h t = (events, e, refl, says (events ++ e ∷ []) h tt)

  Walk-Tally : {events : List Event} {stage : Stage} → Walk p events stage → Tally stage events
  Walk-Tally Walk.nothing = (refl, refl)
  Walk-Tally (Walk.more e w next all) = rw all (Tally-Next next _ e refl (Walk-Tally w))

-- The last of a list is known by the list.
last-eq : (xs ys : List Event) {x y : Event} → xs ++ x ∷ [] ≡ ys ++ y ∷ [] → x ≡ y
last-eq [] [] h = cc h
last-eq [] (z ∷ []) h = cc h
last-eq [] (z ∷ w ∷ ys) h = cc h
last-eq (z ∷ []) [] h = cc h
last-eq (z ∷ w ∷ xs) [] h = cc h
last-eq (z ∷ xs) (w ∷ ys) h = last-eq xs ys (cc h)

module _ (p : Params) (j : Job) (awaits : ℕ) {result : TaskResult} where
  settled_answer :
      (body j p awaits).0 ≡ ok result
      → result.status ≡ TaskStatus.ok
      → Answered result (body j p awaits).1.events
  settled_answer h k =
      subst (λ st. Settled j p st result (body j p awaits).1.events) k
        (rw h at (run_terminal j p awaits))

  at_end : (body j p awaits).0 ≡ ok result → Tally over (body j p awaits).1.events
  at_end h = Walk-Tally p (rw h at (body-Walk p j awaits))

  -- The answer that a run returns is what its TokenEvents put together come to, and the number of
  -- chunks that its DoneEvent tells is the number of its ChunkSummarizedEvents.
  pub body-Sums :
      (body j p awaits).0 ≡ ok result
      → result.status ≡ TaskStatus.ok
      → (answer : Text) × (count : ℕ) × (result.summary ≡ some answer)
        × (spoken (body j p awaits).1.events ≡ answer)
        × (summaries (body j p awaits).1.events ≡ count)
        × ((result.chunks ≡ some count) ⊎ ((result.chunks ≡ none) × (count ≡ 0)))
  body-Sums h k =
      let a = settled_answer h k in
      let (before, last, split, said) = at_end h in
      let same : last.body ≡ Body.done a.answer a.count =
        ap (λ e. e.body) (last-eq before a.ended.before (sym split ∙ a.ended.split))
        ∙ a.ended.last_body in
      let (spoke, counted) = subst (λ b. Says b (body j p awaits).1.events) same said in
      (a.answer, a.count, a.summary, spoke, counted, a.chunks)
