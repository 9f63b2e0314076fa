-- ===== src/Refresher/Cycle.antt =====
-- `refreshEntry` and `refreshCycle` of refresher.go. The refreshes that the goroutines of a cycle
-- make are a list of attempts, in the order in which they take effect. A stop of the server cuts
-- the list short.
pub mod Renew
pub mod Reorder
pub mod Order
pub mod Steps
pub mod Pool
pub mod Whole
use dns_cache.Prelude.{ℕ, List, [], ◌∷◌, ◌==◌, if◌then◌else◌}
use dns_cache.Prelude.Decimal.{Bytes}
use dns_cache.Prelude.Int.{ℤ, pos}
use dns_cache.Time.{Instant, Duration}
use dns_cache.Dns.{Dns, Msg, rcode_success}
use dns_cache.Entry.{Entry}
use dns_cache.Cache.{Cache}
use dns_cache.Cache.Insert.{set, entry_key}
use dns_cache.Resolver.{
  Network, Resolution, resolved, no_upstreams, all_failed, out_of_range, resolve,
}
use dns_cache.Handler.{first_ttl}
use dns_cache.Refresher.{
  Refresher, Snapshot, Candidate, SortSlice, note_failure, note_success, prune_failures,
  prune_unused, select_candidates,
}

-- One refresh: the identifier of its query, what the network does, and the clock's readings in
-- `Set`, `evictOne` (with the order of its range) and `noteFailure`
pub record Attempt (RR Err : Type 0) : Type 0 where
  pub id : ℕ
  pub net : Network RR Err
  pub set_now : ℕ
  pub evict_now : ℕ
  pub range : List (Bytes × Entry RR)
  pub failed_now : ℕ

module _ {RR Err : Type 0} (dns : Dns RR) (zone : Instant → ℤ) (us : List Bytes) where
  -- The query of a refresh
  abbrev pub query : Attempt RR Err → Entry RR → Msg RR
  query a e = dns.set_question a.id e.question_name e.question_type

  -- `refreshEntry`
  unfoldable pub refresh_entry :
      Attempt RR Err → Entry RR → Cache RR → Refresher → Cache RR × Refresher
  unfolding resolve note_failure note_success set first_ttl
  refresh_entry a e c rf =
      let k = entry_key dns e in
      let failure : Cache RR × Refresher = (c, note_failure k a.failed_now rf) in
      elim (resolve dns a.net us (query a e)) [
        | resolved resp upstream rtt ↦
            if resp.rcode == rcode_success
            then (
              set dns zone a.set_now a.evict_now a.range e.question_name e.question_type resp
                  (if first_ttl dns resp == 0 then 60 else first_ttl dns resp) c,
              note_success k rf,
            )
            else failure
        | no_upstreams ↦ failure
        | all_failed errs ↦ failure
        | out_of_range ↦ (c, rf)
      ]

  -- The refreshes of a cycle
  unfoldable pub refresh_all :
      List (Attempt RR Err) → List (Entry RR) → Cache RR → Refresher → Cache RR × Refresher
  unfolding refresh_entry
  refresh_all [] es c rf = (c, rf)
  refresh_all (a ∷ later) [] c rf = (c, rf)
  refresh_all (a ∷ later) (e ∷ es) c rf =
      let (c', rf') = refresh_entry a e c rf in refresh_all later es c' rf'

  -- `refreshCycle`; `prune_order` and `select_order` are the snapshot in the orders in which
  -- `pruneUnused` and `selectCandidates` meet it.
  unfoldable pub refresh_cycle :
      (Duration → ℕ → Duration)
      → SortSlice (Candidate RR)
      → ℕ
      → Snapshot RR
      → Snapshot RR
      → List (Attempt RR Err)
      → Cache RR
      → Refresher
      → Cache RR × Refresher
  unfolding refresh_all prune_failures prune_unused select_candidates
  refresh_cycle fraction sorting now prune_order select_order attempts c rf = elim c.entries [
    | [] ↦ (c, rf)
    | _ ∷ _ ↦
        let rf' = prune_failures c.entries rf in
        let c' = prune_unused prune_order (pos now) c in
        refresh_all attempts
          (select_candidates zone fraction c.config sorting rf' (pos now) select_order).0 c' rf'
  ]
