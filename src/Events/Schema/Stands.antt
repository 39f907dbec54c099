-- ===== src/Events/Schema/Stands.antt =====
-- app/events.py: the fields of the event that the adapter returns are those of the JSON object.
use longshot.Common.{ℕ, ◌≡◌, ap, sym, Text, Option, some, none, List, [], ◌∷◌}
use longshot.Events.{EventType, ErrorReason, CancelledBy, Body}
use longshot.Events.Schema.{
  ℤ, pos, negsuc, Fields, Value, text, number, other, read_body, and_then, required, or_default,
  read_text, read_count, read_integer, at_least_zero, Conversions, by_value, bys, reason_value,
  reasons, input, url, chars, index, total, summary, chunks, length, delta, by, reason, message,
  lookup, read_member, own_fields,
}
use longshot.Events.Schema.Returns.{Returns, Returns-some, Returns-and_then, member-Returns}
use mathlib.Core.Option.{some-injective}

-- The field of an event, against that of the object: an integer and a text stand as they are, a
-- count may also come from another value, but is never missing.
Stands : Option Value → Value → Type 0
Stands none (number w) = ⊥
Stands none _ = Unit
Stands (some (number z)) v = v ≡ number z
Stands (some (text s)) (text t) = t ≡ s
Stands (some (text s)) _ = Unit
Stands (some (other json)) (text t) = ⊥
Stands (some (other json)) _ = Unit

pub AllStand : Fields → Fields → Type 0
unfolding Stands
AllStand fs [] = Unit
AllStand fs ((k, v) ∷ own) = Stands (lookup k fs) v × AllStand fs own

at_least_zero-pos : (z : ℤ) (n : ℕ) → at_least_zero z ≡ some n → pos n ≡ z
unfolding at_least_zero
at_least_zero-pos (pos m) n h = ap pos (sym (some-injective m n h))
at_least_zero-pos (negsuc m) n h = cc h

count-Stands :
    (conversions : Conversions) (now : ℕ) (o : Option Value) (n : ℕ)
    → required (read_count conversions now) o ≡ some n
    → Stands o (number (pos n))
unfolding required read_count read_integer and_then Stands
count-Stands conversions now none n h = cc h
count-Stands conversions now (some (number z)) n h = ap number (at_least_zero-pos z n h)
count-Stands conversions now (some (text s)) n h = tt
count-Stands conversions now (some (other json)) n h = tt

text-Stands : (o : Option Value) (s : Text) → required read_text o ≡ some s → Stands o (text s)
unfolding required read_text Stands
text-Stands none s h = tt
text-Stands (some (number z)) s h = cc h
text-Stands (some (text t)) s h = sym (some-injective t s h)
text-Stands (some (other json)) s h = cc h

default-Stands :
    (d : Text) (o : Option Value) (s : Text) → or_default d read_text o ≡ some s → Stands o (text s)
unfolding or_default read_text Stands
default-Stands d none s h = tt
default-Stands d (some (number z)) s h = cc h
default-Stands d (some (text t)) s h = sym (some-injective t s h)
default-Stands d (some (other json)) s h = cc h

member-Stands :
    {A : Type 0} (value : A → Text) (all : List A) (d : A) (o : Option Value) (a : A)
    → or_default d (read_member value all) o ≡ some a
    → Stands o (text (value a))
unfolding or_default read_member Returns Stands
member-Stands value all d none a h = tt
member-Stands value all d (some (number z)) a h = cc h
member-Stands value all d (some (text t)) a h = member-Returns value all t a h
member-Stands value all d (some (other json)) a h = cc h

module _ (conversions : Conversions) (now : ℕ) (fs : Fields) where
  pub read_body-AllStand :
      (t : EventType)
      → Returns (λ body. AllStand fs (own_fields body)) (read_body conversions now t fs)
  unfolding read_body own_fields AllStand
  read_body-AllStand EventType.queued = Returns-some _ Body.queued tt
  read_body-AllStand EventType.started =
      Returns-and_then _ (required read_text (lookup input fs)) (λ s. some (Body.started s))
        (λ s s_read. Returns-some _ (Body.started s) (text-Stands (lookup input fs) s s_read, tt))
  read_body-AllStand EventType.fetch_started =
      Returns-and_then _ (required read_text (lookup url fs)) (λ s. some (Body.fetch_started s))
        (λ s s_read.
          Returns-some _ (Body.fetch_started s) (text-Stands (lookup url fs) s s_read, tt))
  read_body-AllStand EventType.fetch_done =
      Returns-and_then _ (required (read_count conversions now) (lookup chars fs))
        (λ n. some (Body.fetch_done n))
        (λ n n_read.
          Returns-some _ (Body.fetch_done n)
            (count-Stands conversions now (lookup chars fs) n n_read, tt))
  read_body-AllStand EventType.chunk_summarized =
      Returns-and_then _ (required (read_count conversions now) (lookup index fs))
        (λ i. and_then (required (read_count conversions now) (lookup total fs)) (λ n.
          and_then (required read_text (lookup summary fs))
            (λ s. some (Body.chunk_summarized i n s))))
        (λ i i_read.
          Returns-and_then _ (required (read_count conversions now) (lookup total fs))
            (λ n.
              and_then (required read_text (lookup summary fs))
                (λ s. some (Body.chunk_summarized i n s)))
            (λ n n_read.
              Returns-and_then _ (required read_text (lookup summary fs))
                (λ s. some (Body.chunk_summarized i n s))
                (λ s s_read. Returns-some _ (Body.chunk_summarized i n s) (
                  count-Stands conversions now (lookup index fs) i i_read,
                  (
                    count-Stands conversions now (lookup total fs) n n_read,
                    (text-Stands (lookup summary fs) s s_read, tt),
                  ),
                ))))
  read_body-AllStand EventType.final_started =
      Returns-and_then _ (required (read_count conversions now) (lookup chunks fs))
        (λ n. some (Body.final_started n))
        (λ n n_read.
          Returns-some _ (Body.final_started n)
            (count-Stands conversions now (lookup chunks fs) n n_read, tt))
  read_body-AllStand EventType.final_done =
      Returns-and_then _ (required (read_count conversions now) (lookup length fs))
        (λ n. some (Body.final_done n))
        (λ n n_read.
          Returns-some _ (Body.final_done n)
            (count-Stands conversions now (lookup length fs) n n_read, tt))
  read_body-AllStand EventType.answer_started = Returns-some _ Body.answer_started tt
  read_body-AllStand EventType.token =
      Returns-and_then _ (required read_text (lookup delta fs)) (λ s. some (Body.token s))
        (λ s s_read. Returns-some _ (Body.token s) (text-Stands (lookup delta fs) s s_read, tt))
  read_body-AllStand EventType.answer_done =
      Returns-and_then _ (required (read_count conversions now) (lookup length fs))
        (λ n. some (Body.answer_done n))
        (λ n n_read.
          Returns-some _ (Body.answer_done n)
            (count-Stands conversions now (lookup length fs) n n_read, tt))
  read_body-AllStand EventType.heartbeat = Returns-some _ Body.heartbeat tt
  read_body-AllStand EventType.cancelled =
      Returns-and_then _ (or_default CancelledBy.client (read_member by_value bys) (lookup by fs))
        (λ who. some (Body.cancelled who))
        (λ who who_read.
          Returns-some _ (Body.cancelled who)
            (member-Stands by_value bys CancelledBy.client (lookup by fs) who who_read, tt))
  read_body-AllStand EventType.error =
      Returns-and_then _
        (or_default ErrorReason.unknown (read_member reason_value reasons) (lookup reason fs))
        (λ why.
          and_then (or_default [] read_text (lookup message fs)) (λ s. some (Body.error why s)))
        (λ why why_read.
          Returns-and_then _ (or_default [] read_text (lookup message fs))
            (λ s. some (Body.error why s))
            (λ s s_read. Returns-some _ (Body.error why s) (
              member-Stands reason_value reasons ErrorReason.unknown (lookup reason fs) why
                  why_read,
              (default-Stands [] (lookup message fs) s s_read, tt),
            )))
  read_body-AllStand EventType.done =
      Returns-and_then _ (required read_text (lookup summary fs))
        (λ s.
          and_then (required (read_count conversions now) (lookup chunks fs))
            (λ n. some (Body.done s n)))
        (λ s s_read.
          Returns-and_then _ (required (read_count conversions now) (lookup chunks fs))
            (λ n. some (Body.done s n))
            (λ n n_read. Returns-some _ (Body.done s n) (
              text-Stands (lookup summary fs) s s_read,
              (count-Stands conversions now (lookup chunks fs) n n_read, tt),
            )))
