-- ===== src/Settings.antt =====
-- app/settings.py: the settings with their limits, and `get_settings`, which keeps the first.
pub mod Payloads
pub mod Cached
use longshot.Common.{
  ℕ, ◌≡◌, Text, codes, Bool, true, ◌&&◌, leb, Option, none, some, List, [], ◌∷◌, if◌then◌else◌,
}
use longshot.Pipeline.Summarize.{LlmMode, mock}

-- Python's floating-point numbers: their order, and the constants of the source.
pub record Floats : Type 1 where
  pub Float : Type 0
  pub at_most : Float → Float → Bool
  pub f0_0 : Float
  pub f0_3 : Float
  pub f2_0 : Float
  pub f120_0 : Float
  pub low : at_most f0_0 f0_3 ≡ true
  pub high : at_most f0_3 f2_0 ≡ true

module _ (f : Floats) where
  -- A number below zero stands here as 0, which the limits refuse as well.
  pub record Settings : Type 0 where
    pub redis_url : Text
    pub llm_mode : LlmMode
    pub anthropic_api_key : Text
    pub anthropic_model : Text
    pub lmstudio_base_url : Text
    pub lmstudio_model : Text
    pub lmstudio_timeout_seconds : f.Float
    pub lmstudio_max_tokens : ℕ
    pub lmstudio_temperature : f.Float
    pub lmstudio_strip_thinking : Bool
    pub worker_consumer_name : Text
    pub consumer_group : Text
    pub stream_name : Text
    pub task_hard_timeout_seconds : ℕ
    pub idempotency_lock_ttl_seconds : ℕ
    pub result_ttl_seconds : ℕ
    pub progress_snapshot_ttl_seconds : ℕ
    pub sse_heartbeat_seconds : ℕ

  -- What holds where the environment says nothing.
  abbrev pub defaults : Settings
  defaults = record {
    redis_url = codes "redis://localhost:6379/0";
    llm_mode = mock;
    anthropic_api_key = [];
    anthropic_model = codes "claude-haiku-4-5-20251001";
    lmstudio_base_url = codes "http://host.docker.internal:1234/v1";
    lmstudio_model = [];
    lmstudio_timeout_seconds = f.f120_0;
    lmstudio_max_tokens = 2048;
    lmstudio_temperature = f.f0_3;
    lmstudio_strip_thinking = true;
    worker_consumer_name = codes "worker-1";
    consumer_group = codes "longshot-workers";
    stream_name = codes "longshot:tasks";
    task_hard_timeout_seconds = 120;
    idempotency_lock_ttl_seconds = 600;
    result_ttl_seconds = 3600;
    progress_snapshot_ttl_seconds = 3600;
    sse_heartbeat_seconds = 30;
  }

  -- `ge=` and `le=` of the fields
  unfoldable pub valid_settings : Settings → Bool
  valid_settings s =
      leb 64 s.lmstudio_max_tokens
      && f.at_most f.f0_0 s.lmstudio_temperature
      && f.at_most s.lmstudio_temperature f.f2_0
      && leb 1 s.task_hard_timeout_seconds
      && leb 1 s.idempotency_lock_ttl_seconds
      && leb 1 s.result_ttl_seconds
      && leb 1 s.progress_snapshot_ttl_seconds
      && leb 1 s.sse_heartbeat_seconds

  -- `Settings()`: what the environment says, or Pydantic's ValidationError.
  unfoldable pub read_settings : Settings → Option Settings
  unfolding valid_settings
  read_settings s = if valid_settings s then some s else none

  -- `get_settings`, behind a cache of one place. An exception is not kept.
  abbrev kept : Option Settings → Option Settings × Option Settings
  kept o = (o, o)

  unfoldable pub get_settings :
      (cache : Option Settings) (environment : Settings) → Option Settings × Option Settings
  unfolding read_settings
  get_settings (some s) environment = (some s, some s)
  get_settings none environment = kept (read_settings environment)

  -- The calls of a process, one after the other; the environment can change in between.
  unfoldable pub all_settings : Option Settings → List Settings → List (Option Settings)
  unfolding get_settings
  all_settings cache [] = []
  all_settings cache (e ∷ es) =
      let (result, cache') = get_settings cache e in result ∷ all_settings cache' es
