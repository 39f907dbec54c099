-- ===== src/Stream/Cancelled.antt =====
-- app/publish.py, `close`: what a drainer leaves that is cancelled before its queue is empty.
use longshot.Common.{ℕ, zero, suc, ◌≤◌, ◌≡◌, refl, Text, List, map, arith, length, take}
use longshot.Keys.{events_list, channel}
use longshot.Events.Codec.{Codec}
use longshot.Events.Stamp.{stamp, AllValid}
use longshot.Publish.{
  Drainer, waiting, finished, stopped, taken, stamped, pushed, kept, saved, SessionPublisher, drain,
}
use longshot.Publish.Flush.{drain_times}
use longshot.Publish.Sessions.{cancel_drainer}
use longshot.Redis.{Redis}
use longshot.Stream.Delivery.{final-Inv}
use longshot.Stream.Environment.{listed-le}
use longshot.Stream.Invariant.{Fresh}
use longshot.Stream.System.{Action, System, start, run, enqueued, OthersForeign}
use longshot.Stream.Writer.{listed}

listed-near : (d : Drainer) (n : ℕ) → (n ≤ listed d n) × (listed d n ≤ suc n)
listed-near waiting n = (omega arith, omega arith)
listed-near finished n = (omega arith, omega arith)
listed-near stopped n = (omega arith, omega arith)
listed-near (taken e) n = (omega arith, omega arith)
listed-near (stamped e k) n = (omega arith, omega arith)
listed-near (pushed e k) n = (omega arith, omega arith)
listed-near (kept e k) n = (omega arith, omega arith)
listed-near (saved e k) n = (omega arith, omega arith)

module _ (r : Redis) (c : Codec) (ttl : ℕ) (session_id : Text) where
  drain_times-cancelled :
      (n : ℕ) (s : r.State) (p : SessionPublisher)
      → (drain_times r c ttl session_id n (s, cancel_drainer p)).0 ≡ s
  unfolding drain_times drain cancel_drainer
  drain_times-cancelled zero s p = refl
  drain_times-cancelled (suc n) s p = drain_times-cancelled n s p

  module _ (s : r.State) (acts : List Action) (fresh : Fresh r session_id s)
      (valid : AllValid (enqueued acts)) (foreign : OthersForeign session_id acts) where
    abbrev at_cancel : System r
    at_cancel = run r c ttl session_id acts (start r s)

    -- Cancel the drainer of a session that had no event, after any order of steps of the drainer,
    -- the reader and the other clients (whose commands leave the session's keys alone). However
    -- many turns it would still have, it writes nothing more. The list has a prefix of the events
    -- that were put into the queue, in order and numbered from 1, and the channel has the same
    -- prefix or one event less: none is published that is not stored.
    pub cancel_drainer-prefix :
        (n : ℕ)
        → (published stored : ℕ) × (published ≤ stored)
          × (stored ≤ suc published)
          × (stored ≤ length (enqueued acts))
          × ((drain_times r c ttl session_id n
                (at_cancel.redis, cancel_drainer at_cancel.publisher)).0
              ≡ at_cancel.redis)
          × (r.items at_cancel.redis (events_list session_id)
              ≡ map c.dump (stamp 0 (take stored (enqueued acts))))
          × (r.messages at_cancel.redis (channel session_id)
              ≡ map c.dump (stamp 0 (take published (enqueued acts))))
    cancel_drainer-prefix n =
        let i = final-Inv r c ttl session_id s acts fresh valid foreign in
        let (at_least, at_most) = listed-near at_cancel.publisher.drainer i.published in
        (
          i.published,
          listed at_cancel.publisher.drainer i.published,
          at_least,
          at_most,
          listed-le r c session_id at_cancel.publisher.drainer i.writer,
          drain_times-cancelled n at_cancel.redis at_cancel.publisher,
          i.writer.items,
          i.writer.messages,
        )
