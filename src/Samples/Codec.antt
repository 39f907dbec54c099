-- ===== src/Samples/Codec.antt =====
-- A codec that meets the law asked of Pydantic's JSON: numbers first, texts last.
use longshot.Common.{
  ℕ, ◌≡◌, refl, ap, ◌∙◌, Text, true, Option, none, some, [], ◌∷◌, ◌++◌, if◌then◌else◌, ◌==◌, length,
  take, drop, take-append_of_le, take-length, drop-append_of_le, drop_of_le, arith,
}
use longshot.Events.{Event, Body, ErrorReason, CancelledBy, valid}
use longshot.Events.Codec.{Codec}

reason_code : ErrorReason → ℕ
reason_code ErrorReason.fetch = 0
reason_code ErrorReason.chunk = 1
reason_code ErrorReason.summarize = 2
reason_code ErrorReason.synthesize = 3
reason_code ErrorReason.timeout = 4
reason_code ErrorReason.unknown = 5

reason_of : ℕ → ErrorReason
reason_of n =
    if n == 0
    then ErrorReason.fetch
    else if n == 1
    then ErrorReason.chunk
    else if n == 2
    then ErrorReason.summarize
    else if n == 3
    then ErrorReason.synthesize
    else if n == 4
    then ErrorReason.timeout
    else ErrorReason.unknown

by_code : CancelledBy → ℕ
by_code CancelledBy.client = 0
by_code CancelledBy.user = 1
by_code CancelledBy.timeout = 2

by_of : ℕ → CancelledBy
by_of n =
    if n == 0 then CancelledBy.client else if n == 1 then CancelledBy.user else CancelledBy.timeout

-- A tag, two numbers and a text.
dump_body : Body → Text
unfolding reason_code by_code
dump_body Body.queued = 0 ∷ 0 ∷ 0 ∷ []
dump_body (Body.started input) = 1 ∷ 0 ∷ 0 ∷ input
dump_body (Body.fetch_started u) = 2 ∷ 0 ∷ 0 ∷ u
dump_body (Body.fetch_done n) = 3 ∷ n ∷ 0 ∷ []
dump_body (Body.chunk_summarized i n t) = 4 ∷ i ∷ n ∷ t
dump_body (Body.final_started n) = 5 ∷ n ∷ 0 ∷ []
dump_body (Body.final_done n) = 6 ∷ n ∷ 0 ∷ []
dump_body Body.heartbeat = 7 ∷ 0 ∷ 0 ∷ []
dump_body Body.answer_started = 8 ∷ 0 ∷ 0 ∷ []
dump_body (Body.token t) = 9 ∷ 0 ∷ 0 ∷ t
dump_body (Body.answer_done n) = 10 ∷ n ∷ 0 ∷ []
dump_body (Body.cancelled by) = 11 ∷ by_code by ∷ 0 ∷ []
dump_body (Body.error r m) = 12 ∷ reason_code r ∷ 0 ∷ m
dump_body (Body.done t n) = 13 ∷ n ∷ 0 ∷ t

body_of : (tag m n : ℕ) → Text → Body
unfolding reason_of by_of
body_of tag m n t =
    if tag == 0
    then Body.queued
    else if tag == 1
    then Body.started t
    else if tag == 2
    then Body.fetch_started t
    else if tag == 3
    then Body.fetch_done m
    else if tag == 4
    then Body.chunk_summarized m n t
    else if tag == 5
    then Body.final_started m
    else if tag == 6
    then Body.final_done m
    else if tag == 7
    then Body.heartbeat
    else if tag == 8
    then Body.answer_started
    else if tag == 9
    then Body.token t
    else if tag == 10
    then Body.answer_done m
    else if tag == 11
    then Body.cancelled (by_of m)
    else if tag == 12
    then Body.error (reason_of m) t
    else Body.done t m

parse_body : Text → Option Body
unfolding body_of
parse_body (tag ∷ m ∷ n ∷ t) = some (body_of tag m n t)
parse_body _ = none

parse-dump_body : (b : Body) → parse_body (dump_body b) ≡ some b
unfolding parse_body dump_body
parse-dump_body (Body.cancelled CancelledBy.client) = refl
parse-dump_body (Body.cancelled CancelledBy.user) = refl
parse-dump_body (Body.cancelled CancelledBy.timeout) = refl
parse-dump_body (Body.error ErrorReason.fetch m) = refl
parse-dump_body (Body.error ErrorReason.chunk m) = refl
parse-dump_body (Body.error ErrorReason.summarize m) = refl
parse-dump_body (Body.error ErrorReason.synthesize m) = refl
parse-dump_body (Body.error ErrorReason.timeout m) = refl
parse-dump_body (Body.error ErrorReason.unknown m) = refl
parse-dump_body _ = refl

unfoldable pub dump_event : Event → Text
unfolding dump_body
dump_event e = e.seq ∷ e.ts ∷ length e.session_id ∷ (e.session_id ++ dump_body e.body)

checked : Event → Option Event
checked e = if valid e then some e else none

assemble : ℕ → ℕ → Text → Option Body → Option Event
unfolding checked
assemble seq ts session_id none = none
assemble seq ts session_id (some b) =
    checked (record { seq = seq; session_id = session_id; ts = ts; body = b })

unfoldable pub parse_event : Text → Option Event
unfolding assemble parse_body
parse_event (seq ∷ ts ∷ n ∷ rest) = assemble seq ts (take n rest) (parse_body (drop n rest))
parse_event _ = none

take-own : (s t : Text) → take (length s) (s ++ t) ≡ s
take-own s t = take-append_of_le (length s) s t (omega arith) ∙ take-length s

drop-own : (s t : Text) → drop (length s) (s ++ t) ≡ t
drop-own s t =
    drop-append_of_le (length s) s t (omega arith)
    ∙ ap (λ l. l ++ t) (drop_of_le (length s) s (omega arith))

pub parse-dump_event : (e : Event) → valid e ≡ true → parse_event (dump_event e) ≡ some e
unfolding parse_event dump_event assemble
parse-dump_event e fits =
    rw (take-own e.session_id (dump_body e.body), drop-own e.session_id (dump_body e.body))
      (rw (parse-dump_body e.body) (rw fits))

unfoldable pub sample_codec : Codec
unfolding dump_event parse_event
sample_codec = record {
  dump = dump_event;
  validate = parse_event;
  validate-dump = parse-dump_event;
}
