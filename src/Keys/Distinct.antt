-- ===== src/Keys/Distinct.antt =====
-- app/keys.py: no two keys of the program collide.
use longshot.Common.{Text, ◌≡◌, arith}
use longshot.Keys.{
  events_list, progress_snapshot, channel, sequence, idempotency_lock, cancel_flag,
  worker_heartbeat,
}

-- Every key that the program uses.
pub data Key : Type 0 where
  events snapshot live counter lock cancel : Text → Key
  heartbeat : Key

unfoldable pub name : Key → Text
unfolding events_list progress_snapshot channel sequence idempotency_lock cancel_flag
    worker_heartbeat
name (events s) = events_list s
name (snapshot s) = progress_snapshot s
name (live s) = channel s
name (counter s) = sequence s
name (lock s) = idempotency_lock s
name (cancel s) = cancel_flag s
name heartbeat = worker_heartbeat

-- Two keys with the same name are the same key of the same session.
pub name-injective : (k j : Key) → name k ≡ name j → k ≡ j
unfolding name
name-injective k j h = ground arith
