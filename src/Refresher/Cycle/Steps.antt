-- ===== src/Refresher/Cycle/Steps.antt =====
-- A cycle of the refresher is a sequence of calls on the cache.
use dns_cache.Prelude.{ℕ, ◌-◌, ◌^◌, ◌<◌, ◌≡◌, refl, inl, inr, List, [], ◌∷◌, ◌==◌, Bool-cases}
use dns_cache.Prelude.Decimal.{Bytes}
use dns_cache.Prelude.Int.{ℤ, pos}
use dns_cache.Time.{Instant, Duration}
use dns_cache.Dns.{Dns, rcode_success}
use dns_cache.Entry.{Entry}
use dns_cache.Cache.{Cache}
use dns_cache.Cache.Insert.Victim.{IsRange}
use dns_cache.Cache.Run.{Reach, here, next, sets, deletes}
use dns_cache.Resolver.{resolve}
use dns_cache.Handler.Serve.{Resolution-cases}
use dns_cache.Handler.Serve.Steps.{Reach-trans}
use dns_cache.Refresher.{
  Refresher, Snapshot, Candidate, SortSlice, unused, prune_unused, prune_failures,
  select_candidates,
}
use dns_cache.Refresher.Cycle.{Attempt, query, refresh_entry, refresh_all, refresh_cycle}

module _ {RR : Type 0} (dns : Dns RR) (zone : Instant → ℤ) where
  prune_unused-Reach :
      (snapshot : Snapshot RR) (now : Instant) (c : Cache RR)
      → Reach dns zone c (prune_unused snapshot now c)
  unfolding prune_unused
  prune_unused-Reach [] now c = here
  prune_unused-Reach ((k, e) ∷ rest) now c = elim (Bool-cases (unused c.config e now)) [
    | inl old ↦
        rw (prune_unused, old)
          (Reach-trans dns zone (next here (deletes k c)) (prune_unused-Reach rest now _))
    | inr good ↦ rw (prune_unused, good) (prune_unused-Reach rest now c)
  ]

module _ {RR Err : Type 0} (dns : Dns RR) (zone : Instant → ℤ) (us : List Bytes) where
  -- Each refresh reads the clock in time, and its eviction ranges over the entries it finds.
  abbrev pub IsOrderly : List (Attempt RR Err) → List (Entry RR) → Cache RR → Refresher → Type 0
  IsOrderly [] es c rf = Unit
  IsOrderly (a ∷ later) [] c rf = Unit
  IsOrderly (a ∷ later) (e ∷ es) c rf =
      (a.set_now < 2 ^ 63 - 1)
      × IsRange a.range c.entries
      × IsOrderly later es (refresh_entry dns zone us a e c rf).0
          (refresh_entry dns zone us a e c rf).1

  refresh_entry-Reach :
      (a : Attempt RR Err) (e : Entry RR) (c : Cache RR) (rf : Refresher)
      → a.set_now < 2 ^ 63 - 1
      → IsRange a.range c.entries
      → Reach dns zone c (refresh_entry dns zone us a e c rf).0
  unfolding refresh_entry
  refresh_entry-Reach a e c rf h r =
      elim (Resolution-cases (resolve dns a.net us (query dns zone us a e))) [
        | inl (resp, u, rtt, got) ↦ elim (Bool-cases (resp.rcode == rcode_success)) [
          | inl good ↦
              rw (refresh_entry, got, good)
                (next here
                  (sets a.set_now a.evict_now a.range e.question_name e.question_type resp _ c h r))
          | inr bad ↦ rw (refresh_entry, got, bad) here
        ]
        | inr (inl got) ↦ rw (refresh_entry, got) here
        | inr (inr (inl (errs, got))) ↦ rw (refresh_entry, got) here
        | inr (inr (inr got)) ↦ rw (refresh_entry, got) here
      ]

  refresh_all-Reach :
      (attempts : List (Attempt RR Err)) (es : List (Entry RR)) (c : Cache RR) (rf : Refresher)
      → IsOrderly attempts es c rf
      → Reach dns zone c (refresh_all dns zone us attempts es c rf).0
  unfolding refresh_all
  refresh_all-Reach [] es c rf h = here
  refresh_all-Reach (a ∷ later) [] c rf h = here
  refresh_all-Reach (a ∷ later) (e ∷ es) c rf h =
      Reach-trans dns zone (refresh_entry-Reach a e c rf h.0 h.1)
        (refresh_all-Reach later es _ _ h.2)

  -- A cycle of the refresher, whatever the network answers, is a sequence of calls of `Delete` and
  -- `Set`. (Each `Set` reads the clock before the end of int64's nanoseconds, and its eviction
  -- ranges over the entries that it finds.)
  pub refresh_cycle-Reach :
      (fraction : Duration → ℕ → Duration) (sorting : SortSlice (Candidate RR)) (now : ℕ)
      (prune_order select_order : Snapshot RR) (attempts : List (Attempt RR Err)) (c : Cache RR)
      (rf : Refresher)
      → IsOrderly attempts
          (select_candidates zone fraction c.config sorting
            (prune_failures c.entries rf)
            (pos now)
            select_order).0
          (prune_unused prune_order (pos now) c)
          (prune_failures c.entries rf)
      → Reach dns zone c
          (refresh_cycle dns zone us fraction sorting now prune_order select_order attempts c rf).0
  unfolding refresh_cycle
  refresh_cycle-Reach fraction sorting now prune_order select_order attempts c rf h =
      cycle c.entries refl
    where
      cycle :
          (l : Snapshot RR)
          → c.entries ≡ l
          → Reach dns zone c
              (refresh_cycle dns zone us fraction sorting now prune_order select_order attempts c
                rf).0
      cycle [] empty = simp (refresh_cycle, empty) here
      cycle (x ∷ l) some_entries =
          let run =
            Reach-trans dns zone (prune_unused-Reach dns zone prune_order (pos now) c)
              (refresh_all-Reach attempts _ _ _ h) in
          simp (refresh_cycle, some_entries) (simp some_entries at run)
