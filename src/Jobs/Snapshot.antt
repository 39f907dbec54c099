-- ===== src/Jobs/Snapshot.antt =====
-- app/tasks.py and app/publish.py together: what a finished job leaves in Redis.
use longshot.Common.{
  ℕ, ◌+◌, ◌≡◌, ◌≢◌, refl, ap, ◌∙◌, sym, none, some, Option, Text, true, List, [], ◌∷◌, ◌++◌, map,
  map-append, length,
}
use mathlib.Core.Path.{subst}
use longshot.Events.{Event, Body, with_seq, is_terminal}
use longshot.Events.Codec.{Codec}
use longshot.Events.Stamp.{stamp, stamp-append}
use longshot.Keys.{events_list, progress_snapshot, idempotency_lock}
use longshot.Publish.{event, stop, waiting, stopped}
use longshot.Publish.Flush.{drain_times, drain_times-stopped, turns, latest, Written}
use longshot.Redis.{Redis}
use longshot.Stream.Invariant.{Fresh}
use longshot.Stream.Writer.{queued}
use longshot.Tasks.Monad.{Exn, err, Job}
use longshot.Tasks.Rules.{Ended}
use longshot.Tasks.RunJob.{Params, body, run_job, after_lock}
use longshot.Tasks.Terminal.{run_terminal}
use longshot.Jobs.{Settles-Ended, outcome, outcome-body}

latest-snoc : (o : Option Text) (vs : List Text) (v : Text) → latest o (vs ++ v ∷ []) ≡ some v
latest-snoc o [] v = refl
latest-snoc o (w ∷ vs) v = latest-snoc (some w) vs v

module _ (r : Redis) (c : Codec) (ttl : ℕ) (j : Job) (p : Params) (awaits : ℕ) (s t : r.State) where
  abbrev emitted : List Event
  emitted = (body j p awaits).1.events

  -- The last text of a finished run is that of its terminal event.
  last_text :
      (o : Option Text) {b : Body} {events : List Event}
      → Ended b events
      → (last : Event) × (latest o (map c.dump (stamp 0 events)) ≡ some (c.dump last))
        × (is_terminal last ≡ true)
  unfolding stamp is_terminal with_seq
  last_text o e =
      let last = with_seq (0 + length e.before + 1) e.last in
      (
        last,
        ap (λ es. latest o (map c.dump (stamp 0 es))) e.split
            ∙ ap (λ es. latest o (map c.dump es)) (stamp-append 0 e.before (e.last ∷ []))
            ∙ ap (latest o) (map-append c.dump (stamp 0 e.before) (last ∷ []))
            ∙ latest-snoc o (map c.dump (stamp 0 e.before)) (c.dump last),
        e.terminal,
      )

  module _ (free : r.value s (idempotency_lock j.session_id) ≡ none)
      (completes : (outcome r c ttl j p awaits s t []).result ≢ err Exn.shutdown)
      (fresh : Fresh r j.session_id t) where
    items-run_job : (outcome r c ttl j p awaits s t []).items ≡ map event emitted ++ stop ∷ []
    unfolding run_job after_lock
    items-run_job = rw free refl

    run-Ended : (b : Body) × Ended b emitted
    run-Ended =
        Settles-Ended j p (body j p awaits).0 emitted (run_terminal j p awaits)
          (λ e. completes ((outcome-body r c ttl j p awaits s t [] free).0 ∙ e))

    -- Take a delivery that got the lock and was not ended by a shutdown, and the drainer of its
    -- fresh session, alone with the items that the run left in its queue. After a number of turns
    -- it has ended with its queue empty; then the list has the events of the run in order, numbered
    -- from 1, and the snapshot is a terminal event.
    pub job_snapshot :
        (n : ℕ) × (u : r.State) × (last : Event) × (drain_times r c ttl j.session_id n
            (t, record { queue = (outcome r c ttl j p awaits s t []).items; drainer = waiting })
          ≡ (u, record { queue = []; drainer = stopped }))
        × (r.items u (events_list j.session_id)
            ≡ map c.dump (stamp 0 (queued (outcome r c ttl j p awaits s t []).items)))
        × (r.value u (progress_snapshot j.session_id) ≡ some (c.dump last))
        × (is_terminal last ≡ true)
    job_snapshot =
        let (u, steps, w) = drain_times-stopped r c ttl j.session_id emitted t in
        let v : Written r c ttl j.session_id 0 emitted t u =
          subst (λ k. Written r c ttl j.session_id k emitted t u) fresh.no_counter w in
        let (last, text, ends) =
          last_text (r.value t (progress_snapshot j.session_id)) run-Ended.1 in
        (
          turns emitted + 1,
          u,
          last,
          ap
                (λ q.
                  drain_times r c ttl j.session_id (turns emitted + 1)
                    (t, record { queue = q; drainer = waiting }))
                items-run_job
              ∙ steps,
          v.listed
              ∙ ap (λ l. l ++ map c.dump (stamp 0 emitted)) fresh.no_items
              ∙ ap (λ es. map c.dump (stamp 0 es))
                  (sym (outcome-body r c ttl j p awaits s t [] free).1),
          v.snapshot ∙ text,
          ends,
        )
