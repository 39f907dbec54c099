-- ===== src/Stream/Writer.antt =====
-- The drainer of app/publish.py: what Redis holds at each place where the drainer waits.
use longshot.Common.{
  ℕ, suc, ◌+◌, ◌≤◌, ◌≡◌, refl, ap, ◌∙◌, Text, text_eq_refl, List, [], ◌∷◌, ◌++◌, map, map-append,
  arith, length, take, drop, drop-cons, get_elem?-lt, Bool-cases, inl, inr, sym, ◌≡⟨◌⟩◌, ◌∎,
}
use longshot.Keys.{events_list, channel, sequence}
use longshot.Events.{Event, with_seq, is_terminal}
use longshot.Events.Codec.{Codec}
use longshot.Events.Stamp.{stamp, stamp-take-suc}
use longshot.Redis.{Redis, incr, publish}
use longshot.Publish.{
  Item, event, stop, Drainer, waiting, taken, stamped, pushed, kept, saved, finished, stopped,
  SessionPublisher, payload, drain_from,
}
use longshot.Stream.System.{put_event}

-- The event in the drainer's hands that is not published yet.
abbrev pub pending : Drainer → List Event
pending (taken e) = e ∷ []
pending (stamped e k) = e ∷ []
pending (pushed e k) = e ∷ []
pending (kept e k) = e ∷ []
pending (saved e k) = e ∷ []
pending waiting = []
pending finished = []
pending stopped = []

abbrev pub queued : List Item → List Event
queued [] = []
queued (item ∷ q) = put_event item ++ queued q

-- With `n` events published: how many have a number, and how many are in the list.
abbrev pub drawn : Drainer → ℕ → ℕ
drawn (stamped e k) n = suc n
drawn (pushed e k) n = suc n
drawn (kept e k) n = suc n
drawn (saved e k) n = suc n
drawn _ n = n

abbrev pub listed : Drainer → ℕ → ℕ
listed (pushed e k) n = suc n
listed (kept e k) n = suc n
listed (saved e k) n = suc n
listed _ n = n

abbrev pub Numbered : Drainer → ℕ → Type 0
Numbered (stamped e k) n = k ≡ suc n
Numbered (pushed e k) n = k ≡ suc n
Numbered (kept e k) n = k ≡ suc n
Numbered (saved e k) n = k ≡ suc n
Numbered _ n = Unit

pub queued-append : (q : List Item) (i : Item) → queued (q ++ i ∷ []) ≡ queued q ++ put_event i
queued-append [] (event e) = refl
queued-append [] stop = refl
queued-append (stop ∷ q) i = queued-append q i
queued-append (event e ∷ q) i = ap (λ t. e ∷ t) (queued-append q i)

module _ (r : Redis) (c : Codec) (session_id : Text) where
  -- The first `k` of the events, numbered from 1, as they are stored and sent.
  abbrev pub texts : List Event → ℕ → List Text
  texts all k = map c.dump (stamp 0 (take k all))

  -- `n` of the events `all` are published; `queue` and `d` hold the others, in order.
  pub record Writer (all : List Event) (n : ℕ) (s : r.State) (queue : List Item) (d : Drainer)
      : Type 0 where
    pub bound : n ≤ length all
    pub rest : drop n all ≡ pending d ++ queued queue
    pub counter : r.counter s (sequence session_id) ≡ drawn d n
    pub items : r.items s (events_list session_id) ≡ texts all (listed d n)
    pub messages : r.messages s (channel session_id) ≡ texts all n
    pub numbered : Numbered d n

  texts-suc :
      (n : ℕ) (all : List Event) {e : Event} {k : ℕ} {q : List Event}
      → drop n all ≡ e ∷ q
      → k ≡ suc n
      → texts all n ++ payload c e k ∷ [] ≡ texts all (suc n)
  unfolding payload
  texts-suc n all {e} {k} h p =
      texts all n ++ c.dump (with_seq k e) ∷ []
      ≡⟨ ap (λ t. texts all n ++ c.dump (with_seq t e) ∷ []) (omega arith) ⟩
        texts all n ++ map c.dump (with_seq (n + 1) e ∷ [])
      ≡⟨ sym (map-append c.dump (stamp 0 (take n all)) (with_seq (n + 1) e ∷ [])) ⟩
        map c.dump (stamp 0 (take n all) ++ with_seq (n + 1) e ∷ [])
      ≡⟨ ap (map c.dump) (sym (stamp-take-suc n all (drop-cons n all h).0)) ⟩ texts all (suc n) ∎

module _ (r : Redis) (c : Codec) (ttl : ℕ) (session_id : Text) (all : List Event) where
  -- A turn of the drainer from `d`, with `n` events published before it.
  pub record Turn (n : ℕ) (d : Drainer) (s : r.State) (p : SessionPublisher) : Type 0 where
    pub now : ℕ
    pub more : n ≤ now
    pub kept_items : listed d n ≤ listed p.drainer now
    pub writer : Writer r c session_id all now s p.queue p.drainer

  -- A turn that publishes nothing.
  quiet :
      {n : ℕ} {d : Drainer} {s : r.State} {p : SessionPublisher}
      → listed d n ≤ listed p.drainer n
      → Writer r c session_id all n s p.queue p.drainer
      → Turn n d s p
  quiet {n} h w = record { now = n; more = omega arith; kept_items = h; writer = w }

  incr_counter :
      {n : ℕ} (s : r.State)
      → r.counter s (sequence session_id) ≡ n
      → r.counter (r.exec (incr (sequence session_id)) s) (sequence session_id) ≡ suc n
  incr_counter s h = r.counter-exec _ s _ ∙ rw text_eq_refl (ap suc h)

  -- The turn that publishes leaves the drainer with nothing in its hands.
  published :
      {n : ℕ} {e : Event} {k : ℕ} {q : List Item} {s : r.State}
      → Writer r c session_id all n s q (saved e k)
      → Writer r c session_id all
          (suc n)
          (r.exec (publish (channel session_id) (payload c e k)) s)
          q
          waiting
  published {n} {e} {k} {s} w = record {
    bound = get_elem?-lt n all (drop-cons n all w.rest).0;
    rest = (drop-cons n all w.rest).1;
    counter = r.counter-exec _ s _ ∙ w.counter;
    items = r.items-exec _ s _ ∙ w.items;
    messages =
        r.messages-exec _ s _
        ∙ rw text_eq_refl (
            ap (λ l. l ++ payload c e k ∷ []) w.messages
            ∙ texts-suc r c session_id n all w.rest w.numbered);
    numbered = tt;
  }

  -- A terminal event has one more EXPIRE behind it.
  finishing :
      {n : ℕ} {q : List Item} {s : r.State}
      → Writer r c session_id all n s q waiting
      → Writer r c session_id all n s q finished
  finishing w = record {
    bound = w.bound;
    rest = w.rest;
    counter = w.counter;
    items = w.items;
    messages = w.messages;
    numbered = tt;
  }

  pub drain-Turn :
      (n : ℕ) (d : Drainer) (q : List Item) (s : r.State)
      → Writer r c session_id all n s q d
      → Turn n d (drain_from r c ttl session_id d q s).0 (drain_from r c ttl session_id d q s).1
  unfolding drain_from
  drain-Turn n waiting [] s w = quiet (omega arith) w
  drain-Turn n waiting (stop ∷ q) s w = quiet (omega arith) (record {
    bound = w.bound;
    rest = w.rest;
    counter = w.counter;
    items = w.items;
    messages = w.messages;
    numbered = tt;
  })
  drain-Turn n waiting (event e ∷ q) s w = quiet (omega arith) (record {
    bound = w.bound;
    rest = w.rest;
    counter = w.counter;
    items = w.items;
    messages = w.messages;
    numbered = tt;
  })
  drain-Turn n stopped q s w = quiet (omega arith) w
  drain-Turn n (taken e) q s w = quiet (omega arith) (record {
    bound = w.bound;
    rest = w.rest;
    counter = incr_counter s w.counter;
    items = r.items-exec _ s _ ∙ w.items;
    messages = r.messages-exec _ s _ ∙ w.messages;
    numbered = incr_counter s w.counter;
  })
  drain-Turn n (stamped e k) q s w = quiet (omega arith) (record {
    bound = w.bound;
    rest = w.rest;
    counter = r.counter-exec _ s _ ∙ w.counter;
    items =
        r.items-exec _ s _
        ∙ rw text_eq_refl (
            ap (λ l. l ++ payload c e k ∷ []) w.items
            ∙ texts-suc r c session_id n all w.rest w.numbered);
    messages = r.messages-exec _ s _ ∙ w.messages;
    numbered = w.numbered;
  })
  drain-Turn n (pushed e k) q s w = quiet (omega arith) (record {
    bound = w.bound;
    rest = w.rest;
    counter = r.counter-exec _ s _ ∙ w.counter;
    items = r.items-exec _ s _ ∙ w.items;
    messages = r.messages-exec _ s _ ∙ w.messages;
    numbered = w.numbered;
  })
  drain-Turn n (kept e k) q s w = quiet (omega arith) (record {
    bound = w.bound;
    rest = w.rest;
    counter = r.counter-exec _ s _ ∙ w.counter;
    items = r.items-exec _ s _ ∙ w.items;
    messages = r.messages-exec _ s _ ∙ w.messages;
    numbered = w.numbered;
  })
  drain-Turn n (saved e k) q s w = elim (Bool-cases (is_terminal e)) [
    | inl ends ↦ rw ends (record {
      now = suc n;
      more = omega arith;
      kept_items = omega arith;
      writer = finishing (published w);
    })
    | inr goes_on ↦
        rw goes_on (record {
          now = suc n;
          more = omega arith;
          kept_items = omega arith;
          writer = published w;
        })
  ]
  drain-Turn n finished q s w = quiet (omega arith) (record {
    bound = w.bound;
    rest = w.rest;
    counter = r.counter-exec _ s _ ∙ w.counter;
    items = r.items-exec _ s _ ∙ w.items;
    messages = r.messages-exec _ s _ ∙ w.messages;
    numbered = tt;
  })
