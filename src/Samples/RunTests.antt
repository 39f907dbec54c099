-- ===== src/Samples/RunTests.antt =====
-- The theorems about whole runs, at a chat and at a URL job.
use longshot.Common.{ℕ, leb, ◌≤◌, ◌≡◌, ◌⊎◌, refl, Text, codes, some, none, List, [], ◌∷◌, arith}
use longshot.Contract.{url}
use longshot.Pipeline.Chunk.{chunk_text}
use longshot.Tasks.Monad.{ok, Job, answer}
use longshot.Tasks.Cut.{spared}
use longshot.Tasks.Cut.Cancelled.{CutShort, body-CutShort}
use longshot.Tasks.RunJob.{Params, ok_result, body}
use longshot.Tasks.Triples.{After}
use longshot.Tasks.Protocol.{over}
use longshot.Tasks.Protocol.Moves.{At}
use longshot.Tasks.Protocol.Refines.{Leaves, body-Walk}
use longshot.Tasks.Protocol.Tally.{spoken, summaries, body-Sums}
use longshot.Tasks.Success.{bodies}
use longshot.Tasks.Success.Stages.{chat_bodies}
use longshot.Tasks.Success.Complete.{url_bodies, chat_complete, url_complete}
use longshot.Samples.Services.{sample_job}
use longshot.Samples.JobTests.{params}

abbrev deltas : List Text
deltas = codes "so " ∷ codes "be it" ∷ []

abbrev url_params : Params
url_params = record params { mode = url }

body-Walk_example :
    After
      (Leaves url_params sample_job)
      (λ result. At url_params over)
      (body sample_job url_params 4).0
      (body sample_job url_params 4).1.events
body-Walk_example = body-Walk url_params sample_job 4

chat_complete_example :
    ((body sample_job params 6).0 ≡ ok (ok_result sample_job params (codes "so be it") none))
    × (bodies (body sample_job params 6).1.events ≡ chat_bodies (codes "hello") deltas)
chat_complete_example = chat_complete params sample_job (λ n. refl) 6 refl refl refl (omega arith)

page_chunks : chunk_text (codes "some text") 1500 3 ≡ some (codes "some text" ∷ [])
unfolding chunk_text
page_chunks = refl

url_complete_example :
    ((body sample_job url_params 11).0
      ≡ ok (ok_result sample_job url_params (codes "so be it") (some 1)))
    × (bodies (body sample_job url_params 11).1.events
        ≡ url_bodies (codes "hello") 9 (codes "short" ∷ []) deltas)
url_complete_example =
    url_complete url_params sample_job (λ n. refl) 11 (codes "short") [] refl refl page_chunks
      (refl, tt) refl refl (omega arith)

body-Sums_example :
    (answer : Text) × (count : ℕ) × ((ok_result sample_job url_params
        (codes "so be it")
        (some 1)).summary
      ≡ some answer)
    × (spoken (body sample_job url_params 11).1.events ≡ answer)
    × (summaries (body sample_job url_params 11).1.events ≡ count)
    × (((ok_result sample_job url_params (codes "so be it") (some 1)).chunks ≡ some count)
        ⊎ (((ok_result sample_job url_params (codes "so be it") (some 1)).chunks ≡ none)
            × (count ≡ 0)))
body-Sums_example = body-Sums url_params sample_job 11 url_complete_example.0 refl

-- The flag is there from the second poll on.
abbrev cancelled_job : Job
cancelled_job = record sample_job { poll = λ n. answer (leb 1 n) }

body-CutShort_example :
    ((body cancelled_job url_params 100 ≡ body (spared 1 cancelled_job) url_params 100)
      × ((body cancelled_job url_params 100).1.polls ≤ 1))
    ⊎ CutShort 1 cancelled_job url_params refl
        (body cancelled_job url_params 100)
        (body (spared 1 cancelled_job) url_params 100).1.events
body-CutShort_example = body-CutShort 1 cancelled_job url_params refl 100
