-- ===== src/Stream/Invariant.antt =====
-- app/publish.py and app/api.py together: what every step of a session keeps.
use longshot.Common.{
  ℕ, ◌≤◌, ◌≡◌, refl, ap, Text, List, [], ◌∷◌, ◌++◌, append_assoc, append-nil, arith, length, take,
  length-map, length-take,
}
use longshot.Keys.{events_list, channel, sequence}
use longshot.Events.{Event}
use longshot.Events.Codec.{Codec}
use longshot.Events.Stamp.{stamp, AllValid, AllValid-append, AllValid-split, length-stamp}
use longshot.Redis.{Redis}
use longshot.Publish.{Item, Drainer, drain}
use longshot.Stream.System.{
  Action, enqueue, drain_next, reader_subscribe, reader_backlog, reader_receive, reader_idle,
  reader_disconnect, other, System, start, step, run, put_event, action_events, enqueued,
  ActionForeign, OthersForeign,
}
use longshot.Stream.Writer.{listed, Writer, drain-Turn}
use longshot.Stream.Environment.{listed-le, put-Writer, other-Writer}
use longshot.Stream.Reader.{
  ClientOk, ClientOk-mono, ClientOk-Shown, ClientOk-append, subscribe-ClientOk, idle-ClientOk,
}
use longshot.Stream.Tailing.{backlog-ClientOk}
use longshot.Stream.Receiving.{receive-ClientOk}

-- No event of the session has been published yet: `uuid4` gives every job keys of its own.
pub record Fresh (r : Redis) (session_id : Text) (s : r.State) : Type 0 where
  pub no_counter : r.counter s (sequence session_id) ≡ 0
  pub no_items : r.items s (events_list session_id) ≡ []
  pub no_messages : r.messages s (channel session_id) ≡ []

module _ (r : Redis) (c : Codec) (ttl : ℕ) (session_id : Text) where
  pub record Inv (all : List Event) (s : System r) : Type 0 where
    pub published : ℕ
    pub writer : Writer r c session_id all published s.redis s.publisher.queue s.publisher.drainer
    pub client :
        ClientOk c all published (listed s.publisher.drainer published) s.client.phase s.client.out

  pub Inv-start : (s : r.State) → Fresh r session_id s → Inv [] (start r s)
  unfolding stamp
  Inv-start s f = record {
    published = 0;
    writer = record {
      bound = omega arith;
      rest = refl;
      counter = f.no_counter;
      items = f.no_items;
      messages = f.no_messages;
      numbered = tt;
    };
    client = refl;
  }

  pub listed_mono : (d : Drainer) (n : ℕ) → n ≤ listed d n
  listed_mono d n = ground arith

  drain-Inv :
      {all : List Event} (s : System r) → Inv all s → Inv all (step r c ttl session_id drain_next s)
  unfolding step drain
  drain-Inv {all} s i =
      let t =
        drain-Turn r c ttl session_id all i.published s.publisher.drainer s.publisher.queue s.redis
          i.writer in
      record {
        published = t.now;
        writer = t.writer;
        client = ClientOk-mono c all s.client.phase s.client.out t.more t.kept_items i.client;
      }

  enqueue-Inv :
      {all : List Event} (s : System r) (item : Item)
      → Inv all s
      → Inv (all ++ put_event item) (step r c ttl session_id (enqueue item) s)
  unfolding step
  enqueue-Inv {all} s item i = record {
    published = i.published;
    writer = put-Writer r c session_id item i.writer;
    client =
        ClientOk-append c all (put_event item) s.client.phase s.client.out (listed_mono _ _)
          (listed-le r c session_id s.publisher.drainer i.writer) i.client;
  }

  module _ {all : List Event} (valid_all : AllValid all) (s : System r) (i : Inv all s) where
    open i use {published, writer, client}

    abbrev stored : ℕ
    stored = listed s.publisher.drainer published

    short : stored ≤ length all
    short = listed-le r c session_id s.publisher.drainer writer

    -- Every other step keeps the invariant as it is.
    quiet-Inv :
        (a : Action)
        → action_events a ≡ []
        → ActionForeign session_id a
        → Inv all (step r c ttl session_id a s)
    unfolding step
    quiet-Inv (enqueue item) e f = rw (e, append-nil) at (enqueue-Inv s item i)
    quiet-Inv drain_next e f = drain-Inv s i
    quiet-Inv reader_subscribe e f = record {
      published = published;
      writer = writer;
      client =
          subscribe-ClientOk c all published stored _ s.client.phase s.client.out
            (omega (
              arith,
              ap length writer.messages,
              length-map c.dump (stamp 0 (take published all)),
              length-stamp 0 (take published all),
              length-take published all,
            ))
            client;
    }
    quiet-Inv reader_backlog e f = record {
      published = published;
      writer = writer;
      client =
          backlog-ClientOk c all valid_all (listed_mono _ _) short _ s.client.phase s.client.out
            writer.items client;
    }
    quiet-Inv reader_receive e f = record {
      published = published;
      writer = writer;
      client =
          receive-ClientOk c all valid_all (listed_mono _ _) short _ s.client.phase s.client.out
            writer.messages client;
    }
    quiet-Inv reader_idle e f = record {
      published = published;
      writer = writer;
      client = idle-ClientOk c all published stored s.client.phase s.client.out client;
    }
    quiet-Inv reader_disconnect e f = record {
      published = published;
      writer = writer;
      client = ClientOk-Shown c all s.client.phase s.client.out (listed_mono _ _) client;
    }
    quiet-Inv (other command) e f = record {
      published = published;
      writer = other-Writer r c session_id command f writer;
      client = client;
    }

    step-Inv :
        (a : Action)
        → ActionForeign session_id a
        → Inv (all ++ action_events a) (step r c ttl session_id a s)
    step-Inv (enqueue item) f = enqueue-Inv s item i
    step-Inv a f = rw append-nil (quiet-Inv a refl f)

  pub run-Inv :
      {all : List Event} (acts : List Action) (s : System r)
      → AllValid all
      → AllValid (enqueued acts)
      → OthersForeign session_id acts
      → Inv all s
      → Inv (all ++ enqueued acts) (run r c ttl session_id acts s)
  unfolding run
  run-Inv [] s v w f i = rw append-nil i
  run-Inv {all} (a ∷ acts) s v w f i =
      let (now, later) = AllValid-split (action_events a) (enqueued acts) w in
      rw (← append_assoc all (action_events a) (enqueued acts)) (
        run-Inv acts (step r c ttl session_id a s) (AllValid-append all (action_events a) v now)
          later f.1 (step-Inv v s i a f.0))
