-- ===== src/Jobs/Accepted.antt =====
-- app/contract.py, app/pipeline.py and app/tasks.py: what the limits of a request mean for its job.
use longshot.Common.{ℕ, ◌≤◌, ◌≡◌, ◌↔◌, Text, some, List, [], length, arith}
use longshot.Contract.{JobRequest, validate_request}
use longshot.Contract.Requests.{WithinLimits, Validated, validate_request-Validated}
use mathlib.Core.Path.{subst}
use longshot.Pipeline.Chunk.{chunk_text, chunk_text-total, chunk_text-AllSized, AllSized}

-- A job whose request passed validation splits any page without an exception: into at most 50
-- chunks, none of them empty or longer than the request says, and into no chunk for a page without
-- text only.
pub accepted_chunks :
    (lower_other : ℕ → Text) (q : JobRequest) {payload : JobRequest}
    → validate_request lower_other q ≡ some payload
    → (text : Text)
    → (chunks : List Text) × (chunk_text text payload.chunk_size_chars payload.max_chunks
        ≡ some chunks)
      × AllSized payload.chunk_size_chars chunks
      × (length chunks ≤ 50)
      × ((chunks ≡ []) ↔ (text ≡ []))
accepted_chunks lower_other q {payload} accepted text =
    let (input, few_chars, size, small, some_chunk, few) : WithinLimits payload =
      (subst (Validated lower_other q) accepted (validate_request-Validated lower_other q)).0 in
    let (chunks, e, empty) =
      chunk_text-total text payload.chunk_size_chars payload.max_chunks (omega arith)
        (omega arith) in
    let (sized, count) = chunk_text-AllSized text payload.chunk_size_chars payload.max_chunks e in
    (chunks, e, sized, omega arith, empty)
