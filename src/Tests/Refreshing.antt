-- ===== src/Tests/Refreshing.antt =====
-- The refresher on the small cache: the next day, "a.it." is usual and due.
use dns_cache.Prelude.{
  ℕ, ◌+◌, ◌-◌, ◌*◌, ◌≤◌, ◌≡◌, refl, arith, ◌⊎◌, inl, true, false, [], ◌∷◌, All, In, length,
}
use mathlib.Core.List.{lookup}
use dns_cache.Prelude.Decimal.{Bytes-discrete, codes, decimal}
use dns_cache.Prelude.Int.{pos, ◌+ℤ◌, ◌-ℤ◌, ◌*ℤ◌, ltb_ℤ, quot, floor_div}
use dns_cache.Time.{Instant, Duration, second, add, sub, local_day}
use dns_cache.Entry.{Entry}
use dns_cache.Entry.Days.{days_used}
use dns_cache.CacheConfig.{Config}
use dns_cache.Entry.Key.{key}
use dns_cache.Resolver.{resolve, resolved}
use dns_cache.Refresher.{
  Refresher, Candidate, due, judge, chosen, less, backing_off, backoff_wait, note_failure,
  max_refresh_per_cycle,
}
use dns_cache.Refresher.Backoff.{backing_off-fail_at, fail_at}
use dns_cache.Refresher.Choice.{IsDue, chosen-IsDue, chosen-best}
use dns_cache.Refresher.Cycle.{Attempt}
use dns_cache.Refresher.Cycle.Renew.{Renewed, refresh_entry-Renewed}
use dns_cache.Tests.Fixtures.{Rr, lower_case, utc, noon, reply, full, settings, entry_a, key_a}
use dns_cache.Tests.Sorting.{insertion}
use dns_cache.Tests.Upstream.{servers, half_down}

abbrev pub refresher : Refresher
refresher = record { interval = pos (30 * second); failures = [] }

backing_off-fail_at_example :
    backing_off
      (Refresher.failures
        (note_failure key_a noon (fail_at key_a ((noon - second) ∷ []) refresher)))
      key_a
      (pos (noon + 100 * second))
    ≡ ltb_ℤ (pos (noon + 100 * second)) (add (pos noon) (backoff_wait (pos (30 * second)) 2))
unfolding lookup Bytes-discrete
backing_off-fail_at_example =
    backing_off-fail_at key_a ((noon - second) ∷ []) noon (pos (noon + 100 * second)) refresher refl
      (omega arith)

-- The product in whole nanoseconds
abbrev pub hundredths : Duration → ℕ → Duration
hundredths d n = quot (d *ℤ pos n) 100

abbrev tomorrow : Instant
tomorrow = pos (noon + 86400 * second)

abbrev pub every_day : Config
every_day = record settings { keep_min_days = pos 1 }

chosen-IsDue_example :
    let cs =
      chosen utc hundredths every_day (insertion (Candidate Rr)) refresher tomorrow full.entries in
    (length cs ≤ max_refresh_per_cycle)
    × ((c : Candidate Rr)
        → In c cs
        → IsDue utc hundredths every_day refresher tomorrow full.entries c)
chosen-IsDue_example =
    chosen-IsDue utc hundredths every_day refresher tomorrow (insertion (Candidate Rr)) full.entries

a_is_due : judge utc hundredths every_day refresher tomorrow key_a entry_a ≡ due true
unfolding judge ◌+ℤ◌ ◌-ℤ◌ sub lookup Bytes-discrete days_used local_day quot floor_div ◌*ℤ◌
a_is_due = refl

chosen-best_example :
    let cs =
      chosen utc hundredths every_day (insertion (Candidate Rr)) refresher tomorrow full.entries in
    let c : Candidate Rr = record { entry = entry_a; overdue = true } in
    In c cs ⊎ ((length cs ≡ max_refresh_per_cycle) × All (λ x. less c x ≡ false) cs)
chosen-best_example =
    chosen-best utc hundredths every_day refresher tomorrow (insertion (Candidate Rr)) full.entries
      key_a entry_a true (inl refl) a_is_due

abbrev pub attempt : Attempt Rr ℕ
attempt = record {
  id = 5;
  net = half_down;
  set_now = noon + 86400 * second;
  evict_now = noon + 86400 * second;
  range = full.entries;
  failed_now = noon + 86400 * second;
}

a_answers :
    resolve lower_case half_down servers (lower_case.set_question 5 (codes "a.it.") 1)
    ≡ resolved reply (codes "10.0.0.2:53") (pos 30)
unfolding resolve
a_answers = refl

refresh_entry-Renewed_example :
    (e : Entry Rr) × Renewed lower_case utc servers attempt entry_a full refresher reply entry_a e
unfolding lookup Bytes-discrete key decimal
refresh_entry-Renewed_example =
    refresh_entry-Renewed lower_case utc servers attempt entry_a full refresher reply
      (codes "10.0.0.2:53") (pos 30) entry_a a_answers refl (omega arith) refl
