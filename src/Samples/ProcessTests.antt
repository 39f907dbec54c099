-- ===== src/Samples/ProcessTests.antt =====
-- The theorems about settings, requests to LM Studio and the objects of a process, at one input each.
use longshot.Common.{ℕ, ◌≤◌, ◌≡◌, refl, Text, codes, true, leb, some, List, [], ◌∷◌, length, ◌↔◌}
use longshot.Jobs.Accepted.{accepted_chunks}
use longshot.Pipeline.Chunk.{chunk_text, AllSized}
use longshot.Settings.{Floats, Settings, defaults, valid_settings}
use longshot.Settings.Payloads.{summary_request, stream_request}
use longshot.Settings.Payloads.Requests.{Asks, requests-Asks}
use longshot.Samples.ApiTests.{request, accepted_request, validated}

-- The four numbers of the source, in tenths.
abbrev pub tenths : Floats
tenths = record {
  Float = ℕ;
  at_most = leb;
  f0_0 = 0;
  f0_3 = 3;
  f2_0 = 20;
  f120_0 = 1200;
  low = refl;
  high = refl;
}

-- Within their limits in any arithmetic, and a lock that outlives the run.
defaults-valid : (f : Floats) → valid_settings f (defaults f) ≡ true
unfolding valid_settings
defaults-valid f = rw (f.low, f.high) refl

abbrev hot : Settings tenths
hot = record (defaults tenths) { lmstudio_temperature = 21 }

abbrev slow : Settings tenths
slow = record (defaults tenths) { task_hard_timeout_seconds = 240 }

requests-Asks_example :
    Asks tenths slow (codes "why?") (summary_request tenths slow (codes "why?"))
    × Asks tenths slow (codes "why?") (stream_request tenths slow (codes "why?") [])
unfolding valid_settings
requests-Asks_example = requests-Asks tenths slow refl (codes "why?") []

accepted_chunks_example :
    (chunks : List Text) × (chunk_text
        (codes "some text")
        accepted_request.chunk_size_chars
        accepted_request.max_chunks
      ≡ some chunks)
    × AllSized accepted_request.chunk_size_chars chunks
    × (length chunks ≤ 50)
    × ((chunks ≡ []) ↔ (codes "some text" ≡ []))
accepted_chunks_example = accepted_chunks (λ c. c ∷ []) request validated (codes "some text")
