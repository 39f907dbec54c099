-- ===== src/Samples/StreamTests.antt =====
-- Runs of a drainer and a reader, and the theorems about them at such a run.
use longshot.Common.{
  ℕ, suc, ◌≡◌, ◌≤◌, refl, Text, codes, text_eq, List, [], ◌∷◌, map, length, take, arith,
}
use longshot.Events.{Event, Body, valid}
use longshot.Events.Stamp.{stamp, AllValid}
use longshot.Keys.{events_list, channel, sequence}
use longshot.Publish.{event}
use longshot.Publish.Flush.{drain_times}
use longshot.Publish.Sessions.{cancel_drainer}
use longshot.Redis.{incr}
use longshot.Stream.{frame_of, contains}
use longshot.Stream.Backlog.{AllLive}
use longshot.Stream.Invariant.{Fresh}
use longshot.Stream.Delivery.{delivery_prefix, storage_complete, delivery_complete}
use longshot.Stream.Cancelled.{cancel_drainer-prefix}
use longshot.Stream.System.{
  Action, enqueue, drain_next, reader_subscribe, reader_backlog, reader_receive, reader_idle, other,
  System, start, run, step, enqueued, OthersForeign, delivered,
}
use longshot.Samples.Codec.{sample_codec}
use longshot.Samples.Services.{memory, empty}

abbrev pub session : Text
session = codes "s1"

abbrev new : Body → Event
new b = record { seq = 0; session_id = session; ts = 7; body = b }

abbrev drains : List Action → List Action
drains acts = drain_next ∷ drain_next ∷ drain_next ∷ acts

-- The reader subscribes, reads the list between RPUSH and PUBLISH, and sees both.
abbrev pub schedule : List Action
schedule =
    enqueue (event (new (Body.started (codes "hi"))))
    ∷ reader_subscribe
    ∷ drains (
        reader_backlog
        ∷ other (incr (codes "task_seq:s2"))
        ∷ reader_idle
        ∷ drains (
            enqueue (event (new (Body.token (codes "ok"))))
            ∷ reader_receive
            ∷ drains (drains (reader_receive ∷ reader_receive ∷ []))))

abbrev final : System memory
final = run memory sample_codec 3600 session schedule (start memory empty)

pub empty-Fresh : Fresh memory session empty
empty-Fresh = record { no_counter = refl; no_items = refl; no_messages = refl }

schedule-AllValid : AllValid (enqueued schedule)
unfolding valid
schedule-AllValid = (refl, (refl, tt))

schedule-OthersForeign : OthersForeign session schedule
unfolding text_eq events_list channel sequence
schedule-OthersForeign = (
  tt,
  (
    tt,
    (
      tt,
      (
        tt,
        (
          tt,
          (
            tt,
            (
              record { no_counter = refl; no_events = refl; no_channel = refl },
              (
                tt,
                (tt, (tt, (tt, (tt, (tt, (tt, (tt, (tt, (tt, (tt, (tt, (tt, (tt, tt))))))))))))),
              ),
            ),
          ),
        ),
      ),
    ),
  ),
)

-- What the reader was sent at the end: the two events, and the keepalive.
final_out : length final.client.out ≡ 3
unfolding run step sample_codec text_eq events_list channel sequence stamp valid contains
final_out = refl

delivery_prefix_example :
    (m : ℕ) × (m ≤ 2)
    × (delivered final.client.out
        ≡ map (frame_of sample_codec) (take m (stamp 0 (enqueued schedule))))
delivery_prefix_example =
    delivery_prefix memory sample_codec 3600 session empty schedule empty-Fresh schedule-AllValid
      schedule-OthersForeign

storage_complete_example :
    (memory.items final.redis (events_list session)
      ≡ map sample_codec.dump (stamp 0 (enqueued schedule)))
    × (memory.messages final.redis (channel session)
        ≡ map sample_codec.dump (stamp 0 (enqueued schedule)))
unfolding run step sample_codec text_eq events_list channel sequence
storage_complete_example =
    storage_complete memory sample_codec 3600 session empty schedule empty-Fresh schedule-AllValid
      schedule-OthersForeign refl tt

delivery_complete_example :
    (delivered final.client.out ≡ map (frame_of sample_codec) (stamp 0 (enqueued schedule)))
    × AllLive (stamp 0 (enqueued schedule))
unfolding run step sample_codec text_eq events_list channel sequence valid contains
delivery_complete_example =
    delivery_complete memory sample_codec 3600 session empty schedule empty-Fresh schedule-AllValid
      schedule-OthersForeign refl tt 2 (1 ∷ []) refl (omega arith)

cancel_drainer-prefix_example :
    (published stored : ℕ) × (published ≤ stored)
    × (stored ≤ suc published)
    × (stored ≤ 2)
    × ((drain_times memory sample_codec 3600 session 5
          (final.redis, cancel_drainer final.publisher)).0
        ≡ final.redis)
    × (memory.items final.redis (events_list session)
        ≡ map sample_codec.dump (stamp 0 (take stored (enqueued schedule))))
    × (memory.messages final.redis (channel session)
        ≡ map sample_codec.dump (stamp 0 (take published (enqueued schedule))))
cancel_drainer-prefix_example =
    cancel_drainer-prefix memory sample_codec 3600 session empty schedule empty-Fresh
      schedule-AllValid schedule-OthersForeign 5
