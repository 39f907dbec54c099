-- ===== src/Stream/Environment.antt =====
-- app/publish.py and other clients of Redis: what reaches a session's queue and keys from outside.
use longshot.Common.{
  text_eq, append_assoc, ℕ, ◌≤◌, ◌≡◌, refl, ap, ◌∙◌, false, Text, List, [], ◌∷◌, ◌++◌, map, arith,
  length, take-append_of_le, drop-append_of_le, drop-cons, length-append, get_elem?-lt, sym,
}
use longshot.Events.{Event}
use longshot.Events.Codec.{Codec}
use longshot.Events.Stamp.{stamp}
use longshot.Redis.{
  rpush, counter_after, items_after, messages_after, Redis, Command, incr, rpush, publish,
}
use longshot.Publish.{Item, Drainer, pushed, kept, saved}
use longshot.Stream.System.{Foreign, key_of, put_event}
use longshot.Stream.Writer.{listed, queued-append, texts, Writer}

-- A command on another key leaves a counter, a list and a channel as they are.
foreign_counter :
    (k : Text) (command : Command) (n : ℕ)
    → text_eq (key_of command) k ≡ false
    → counter_after command k n ≡ n
foreign_counter k (incr key) n h = rw h
foreign_counter k _ n h = refl

foreign_items :
    (k : Text) (command : Command) (l : List Text)
    → text_eq (key_of command) k ≡ false
    → items_after command k l ≡ l
foreign_items k (rpush key v) l h = rw h
foreign_items k _ l h = refl

foreign_messages :
    (k : Text) (command : Command) (l : List Text)
    → text_eq (key_of command) k ≡ false
    → messages_after command k l ≡ l
foreign_messages k (publish key v) l h = rw h
foreign_messages k _ l h = refl

module _ (r : Redis) (c : Codec) (session_id : Text) where
  take-put :
      (all : List Event) (n : ℕ) (more : List Event)
      → n ≤ length all
      → texts r c session_id (all ++ more) n ≡ texts r c session_id all n
  take-put all n more h = ap (λ l. map c.dump (stamp 0 l)) (take-append_of_le n all more h)

  pub listed-le :
      {all : List Event} {n : ℕ} {s : r.State} {q : List Item} (d : Drainer)
      → Writer r c session_id all n s q d
      → listed d n ≤ length all
  listed-le {all} {n} (pushed e k) w = get_elem?-lt n all (drop-cons n all w.rest).0
  listed-le {all} {n} (kept e k) w = get_elem?-lt n all (drop-cons n all w.rest).0
  listed-le {all} {n} (saved e k) w = get_elem?-lt n all (drop-cons n all w.rest).0
  listed-le _ w = w.bound

  -- What comes into the queue comes behind everything that came before it.
  pub put-Writer :
      {all : List Event} {n : ℕ} {s : r.State} {q : List Item} {d : Drainer} (i : Item)
      → Writer r c session_id all n s q d
      → Writer r c session_id (all ++ put_event i) n s (q ++ i ∷ []) d
  put-Writer {all} {n} {q} {d} i w = record {
    bound = omega (arith, w.bound, length-append all (put_event i));
    rest =
        drop-append_of_le n all (put_event i) w.bound ∙ simp (w.rest, queued-append, append_assoc);
    counter = w.counter;
    items = w.items ∙ sym (take-put all (listed d n) (put_event i) (listed-le d w));
    messages = w.messages ∙ sym (take-put all n (put_event i) w.bound);
    numbered = w.numbered;
  }

  -- Commands of other clients on other keys change nothing of the session.
  pub other-Writer :
      {all : List Event} {n : ℕ} {s : r.State} {q : List Item} {d : Drainer} (command : Command)
      → Foreign session_id command
      → Writer r c session_id all n s q d
      → Writer r c session_id all n (r.exec command s) q d
  other-Writer {s} command f w = record {
    bound = w.bound;
    rest = w.rest;
    counter = r.counter-exec command s _ ∙ foreign_counter _ command _ f.no_counter ∙ w.counter;
    items = r.items-exec command s _ ∙ foreign_items _ command _ f.no_events ∙ w.items;
    messages = r.messages-exec command s _ ∙ foreign_messages _ command _ f.no_channel ∙ w.messages;
    numbered = w.numbered;
  }
