-- ===== src/Tasks/Cut/Poll.antt =====
-- app/tasks.py, `_check_cancel`: the poll that finds the flag.
use longshot.Common.{
  ℕ, suc, zero, ◌+◌, ◌≤◌, ◌≡◌, inl, inr, refl, sym, ap, ◌∙◌, Bool-cases, true, false, ltb, arith,
}
use longshot.Tasks.Cut.{Prefix, Prefix-refl, spared, Related, Cut}
use longshot.Tasks.{check_cancel, stop_if}
use longshot.Tasks.Monad.{
  Job, Run, Exec, Reply, answer, failed, replied, continue, pure, raise, ◌>>=◌, ◌>>◌, suspend,
  suspend_at, poll_flag, cancel_set,
}

module _ (k : ℕ) (j : Job) where
  -- The test of the flag, from its reply on.
  abbrev after_reply : Job → Reply → Exec (Unit {0})
  after_reply i r s = continue (replied i r) (stop_if i) s

  same_reply :
      (r : Reply) (s : Run)
      → s.polls ≤ k
      → Related k (after_reply j r s) (after_reply (spared k j) r s)
  unfolding replied stop_if raise pure
  same_reply (answer true) s le = inl (refl, le)
  same_reply (answer false) s le = inl (refl, le)
  same_reply (failed name message) s le = inl (refl, le)

  reply_grows : (r : Reply) (s : Run) → Prefix s.events (after_reply (spared k j) r s).1.events
  unfolding replied stop_if raise pure
  reply_grows (answer true) s = Prefix-refl s.events
  reply_grows (answer false) s = Prefix-refl s.events
  reply_grows (failed name message) s = Prefix-refl s.events

  module _ (found : j.poll k ≡ answer true) where
    abbrev polled : Run → Run
    polled s = record s { polls = s.polls + 1 }

    cut_here :
        (s : Run)
        → ltb s.polls k ≡ false
        → s.polls ≤ k
        → Related k
            (after_reply j (j.poll s.polls) (polled s))
            (after_reply (spared k j) (answer false) (polled s))
    unfolding replied stop_if raise pure
    cut_here s reached le =
        let here : k ≡ s.polls = ground arith in
        let asked : j.poll s.polls ≡ answer true = ap j.poll (sym here) ∙ found in
        rw asked (inr (refl, Prefix-refl s.events))

    poll-Related :
        (s : Run)
        → s.polls ≤ k
        → Related k
            (after_reply j (j.poll s.polls) (polled s))
            (after_reply (spared k j) ((spared k j).poll s.polls) (polled s))
    poll-Related s le = elim (Bool-cases (ltb s.polls k)) [
      | inl before ↦ rw before (same_reply (j.poll s.polls) (polled s) (ground arith))
      | inr reached ↦ rw reached (cut_here s reached le)
    ]

    check_at : Job → ℕ → Exec (Unit {0})
    check_at i n = (suspend_at i n >> poll_flag i) >>= stop_if i

    check_at-Related :
        (n : ℕ) (s : Run) → s.polls ≤ k → Related k (check_at j n s) (check_at (spared k j) n s)
    unfolding check_at suspend_at poll_flag ◌>>=◌
    check_at-Related zero s le = inl (refl, le)
    check_at-Related (suc n) s le = poll-Related (record s { awaits = n }) le

    check_at-grows : (n : ℕ) (s : Run) → Prefix s.events (check_at (spared k j) n s).1.events
    unfolding check_at suspend_at poll_flag ◌>>=◌
    check_at-grows zero s = Prefix-refl s.events
    check_at-grows (suc n) s =
        reply_grows ((spared k j).poll s.polls) (polled (record s { awaits = n }))

    pub check_cancel-Cut : Cut k (check_cancel j) (check_cancel (spared k j))
    unfolding check_cancel cancel_set suspend check_at ◌>>=◌
    check_cancel-Cut = record {
      at = λ s le. check_at-Related s.awaits s le;
      grows = λ s. check_at-grows s.awaits s;
    }
