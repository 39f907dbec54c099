-- ===== src/Contract.antt =====
-- app/contract.py: what crosses HTTP and Redis, and the choice of a pipeline from the input.
pub mod Requests
use longshot.Common.{
  strip, lower, ℕ, ◌+◌, Text, codes, starts_with, Bool, ◌&&◌, ◌||◌, leb, ◌==◌, if◌then◌else◌,
  length, Option, none, some, [], ◌∷◌, ◌++◌,
}

pub data JobMode : Type 0 where
  url chat : JobMode

module _ (lower_other : ℕ → Text) where
  unfoldable pub detect_mode : Text → JobMode
  unfolding strip lower starts_with
  detect_mode text =
      let s = lower lower_other (strip text) in
      if starts_with s (codes "http://") || starts_with s (codes "https://") then url else chat

-- `JobRequest`, as it is after validation.
pub record JobRequest : Type 0 where
  pub input : Text
  pub mode : Option JobMode
  pub chunk_size_chars : ℕ
  pub max_chunks : ℕ

-- The `Field` constraints of `JobRequest`.
unfoldable pub in_limits : JobRequest → Bool
in_limits q =
    leb 1 (length q.input)
    && leb (length q.input) 8000
    && leb 200 q.chunk_size_chars
    && leb q.chunk_size_chars 20000
    && leb 1 q.max_chunks
    && leb q.max_chunks 50

or_detected : Option JobMode → JobMode → JobMode
or_detected none detected = detected
or_detected (some m) detected = m

-- `_resolve_mode`
resolve : (Text → JobMode) → JobRequest → JobRequest
unfolding or_detected
resolve detect q = record q { mode = some (or_detected q.mode (detect q.input)) }

-- The model built from a payload: the constraints, then `_resolve_mode`. `none` is a
-- `ValidationError`. A field that the payload leaves out comes here with its default.
unfoldable pub validate_request : (ℕ → Text) → JobRequest → Option JobRequest
unfolding in_limits detect_mode resolve
validate_request lower_other q =
    if in_limits q then some (resolve (detect_mode lower_other) q) else none

pub data TaskStatus : Type 0 where
  ok duplicate_delivery timeout cancelled error : TaskStatus

-- `TaskResult`
pub record TaskResult : Type 0 where
  pub status : TaskStatus
  pub session_id : Text
  pub mode : Option JobMode
  pub summary : Option Text
  pub chunks : Option ℕ
  pub error : Option Text
