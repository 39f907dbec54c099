-- ===== src/Keys.antt =====
-- app/keys.py: the Redis keys of a session, and the worker's heartbeat key.
pub mod Distinct
use longshot.Common.{◌++◌, Text, codes}

unfoldable pub events_list : Text → Text
events_list session_id = codes "task_events:" ++ session_id

unfoldable pub progress_snapshot : Text → Text
progress_snapshot session_id = codes "task_progress:" ++ session_id

unfoldable pub channel : Text → Text
channel session_id = codes "task_channel:" ++ session_id

unfoldable pub sequence : Text → Text
sequence session_id = codes "task_seq:" ++ session_id

unfoldable pub idempotency_lock : Text → Text
idempotency_lock session_id = codes "task_lock:" ++ session_id

unfoldable pub cancel_flag : Text → Text
cancel_flag session_id = codes "task_cancel:" ++ session_id

unfoldable pub worker_heartbeat : Text
worker_heartbeat = codes "worker:heartbeat"
