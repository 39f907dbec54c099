-- ===== src/Samples/PartTests.antt =====
-- The theorems about the keys, the chunks and the drainers of other sessions, at one input each.
use longshot.Common.{
  ◌≡◌, ◌≢◌, ◌≤◌, refl, Text, codes, List, [], ◌∷◌, some, length, take, flatten, arith,
}
use longshot.Events.{Event, Body}
use longshot.Keys.{sequence}
use longshot.Keys.Distinct.{Key, name-injective}
use longshot.Pipeline.Chunk.{chunk_text, flatten-chunk_text, chunk_text-AllSized, AllSized}
use longshot.Publish.{taken, next_command}
use longshot.Redis.{incr}
use longshot.Stream.System.{Foreign}
use longshot.Stream.Others.{drainer-Foreign}
use longshot.Samples.Codec.{sample_codec}

name-injective_example : Key.events (codes "a") ≡ Key.events (codes "a")
name-injective_example = name-injective (Key.events (codes "a")) (Key.events (codes "a")) refl

abbrev windows : List Text
windows = codes "abc" ∷ codes "def" ∷ []

chunks_of : chunk_text (codes "abcdefgh") 3 2 ≡ some windows
unfolding chunk_text
chunks_of = refl

flatten-chunk_text_example : flatten windows ≡ take 6 (codes "abcdefgh")
flatten-chunk_text_example = flatten-chunk_text (codes "abcdefgh") 3 2 chunks_of

chunk_text-AllSized_example : AllSized 3 windows × (length windows ≤ 2)
chunk_text-AllSized_example = chunk_text-AllSized (codes "abcdefgh") 3 2 chunks_of

differ : codes "s2" ≢ codes "s1"
differ e = ground arith

abbrev first_event : Event
first_event = record { seq = 0; session_id = codes "s2"; ts = 7; body = Body.queued }

drainer-Foreign_example : Foreign (codes "s1") (incr (sequence (codes "s2")))
unfolding next_command
drainer-Foreign_example =
    drainer-Foreign sample_codec 3600 (codes "s1") differ (taken first_event)
      (incr (sequence (codes "s2"))) refl
