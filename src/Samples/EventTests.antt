-- ===== src/Samples/EventTests.antt =====
-- Events as JSON objects and back.
use longshot.Common.{ℕ, ◌≡◌, refl, true, codes, some, none, [], ◌∷◌, text_eq, if◌then◌else◌}
use longshot.Events.{Body, Event, valid, body_type}
use longshot.Events.Schema.{
  Conversions, number, pos, negsuc, index, total, session_id, summary, fields_of, validate_fields,
  lookup, type, text, type_value, own_fields,
}
use longshot.Events.Schema.Adapter.{validate_fields-fields_of}
use longshot.Events.Schema.Stands.{AllStand}
use longshot.Events.Schema.Types.{validate_fields-Named}

abbrev nothing : Conversions
nothing = record { to_integer = λ v. none; to_ts = λ v. none }

abbrev chunk : ℕ → Event
chunk of = record {
  seq = 4;
  session_id = codes "s1";
  ts = 7;
  body = Body.chunk_summarized 0 of (codes "short");
}

-- A chunk out of none breaks `ge=1`.
none_of_none : validate_fields nothing 0 (fields_of (chunk 0)) ≡ none
unfolding valid
none_of_none = validate_fields-fields_of nothing 0 (chunk 0)

validate_fields-fields_of_example :
    validate_fields nothing 0 (fields_of (chunk 3))
    ≡ (if valid (chunk 3) then some (chunk 3) else none)
validate_fields-fields_of_example = validate_fields-fields_of nothing 0 (chunk 3)

validate_fields-Named_example :
    (lookup type (fields_of (chunk 3)) ≡ some (text (type_value (body_type (chunk 3).body))))
    × (valid (chunk 3) ≡ true)
    × AllStand (fields_of (chunk 3)) (own_fields (chunk 3).body)
unfolding valid
validate_fields-Named_example =
    validate_fields-Named nothing 0 (fields_of (chunk 3)) (chunk 3)
      (validate_fields-fields_of nothing 0 (chunk 3))

-- The index -1 is refused, by `ge=0`.
index_below :
    validate_fields nothing 0 (
      (type, text (codes "chunk_summarized"))
      ∷ (session_id, text (codes "s1"))
      ∷ (index, number (negsuc 0))
      ∷ (total, number (pos 3))
      ∷ (summary, text (codes "short"))
      ∷ [])
    ≡ none
unfolding validate_fields text_eq
index_below = refl
