-- ===== src/Refresher/Backoff.antt =====
-- How long an entry is left alone after failed refreshes.
use dns_cache.Prelude.{
  ℕ, ◌+◌, ◌-◌, ◌*◌, ◌^◌, ◌%◌, ◌≤◌, ◌<◌, ◌≡◌, ◌≢◌, refl, ap, ◌∙◌, arith, false, List, [], ◌∷◌, none,
  some, length, min,
}
use native.Mathlib.Nat.{pow-le-pow_right, mul-le-mul}
use dns_cache.Prelude.Assoc.{
  lookup-store_self, lookup-store_ne, lookup-remove_self, lookup-remove_ne,
}
use dns_cache.Prelude.Decimal.{Bytes, Bytes-discrete}
use dns_cache.Prelude.Int.{pos, ◌*ℤ◌, ◌<ℤ◌, ◌≤ℤ◌, ltb_ℤ, wrap64_id}
use dns_cache.Time.{Instant, Duration, second, add}
use dns_cache.Refresher.{
  Refresher, count_of, failure_of, backing_off, backoff_wait, note_failure, note_success,
  refresh_backoff_max, refresh_backoff_shift,
}

-- Whatever the interval and the number of failures, and even where the shift overflows, the wait
-- is positive and at most 30 minutes.
pub backoff_wait-bounds :
    (interval : Duration) (count : ℕ)
    → (pos 0 <ℤ backoff_wait interval count) × (backoff_wait interval count ≤ℤ refresh_backoff_max)
unfolding backoff_wait
backoff_wait-bounds interval count = ground arith

shift_bounds :
    (n : ℕ) → (1 ≤ 2 ^ min n refresh_backoff_shift) × (2 ^ min n refresh_backoff_shift ≤ 1024)
shift_bounds n =
    let least : 2 ^ 0 ≤ 2 ^ min n refresh_backoff_shift =
      pow-le-pow_right (omega arith) {i = 0} (omega arith) in
    let most : 2 ^ min n refresh_backoff_shift ≤ 2 ^ 10 =
      pow-le-pow_right (omega arith) {j = 10} (omega arith) in
    (omega arith, omega arith)

-- The interval doubles with each failure in a row, ten times at most, up to 30 minutes, when it is
-- positive and at most 100 days.
pub backoff_wait-doubles :
    (n count : ℕ)
    → 0 < n
    → n ≤ 8_640_000 * second
    → backoff_wait (pos n) count
      ≡ pos (min (n * 2 ^ min count refresh_backoff_shift) (1800 * second))
unfolding backoff_wait ◌*ℤ◌
backoff_wait-doubles n count p h =
    let k : ℕ = 2 ^ min count refresh_backoff_shift in
    let (least, most) = shift_bounds count in
    let large : 1 * 1 ≤ n * k = mul-le-mul {n₁ = 1} (omega arith) least in
    let small : n * k ≤ 8_640_000 * second * 1024 = mul-le-mul h most in
    let exact : pos n *ℤ pos k ≡ pos (n * k) = ground arith in
    rw (exact, wrap64_id (pos (n * k)) (omega arith)) (ground arith)

abbrev pub failed_before : Bytes → Refresher → ℕ
failed_before k rf = count_of (failure_of k rf.failures)

module _ (k : Bytes) (now : ℕ) (rf : Refresher) where
  failure_of-note_failure :
      failed_before k rf < 2 ^ 64 - 1
      → failure_of k (note_failure k now rf).failures
        ≡ some (record {
          count = failed_before k rf + 1;
          next_try = add (pos now) (backoff_wait rf.interval (failed_before k rf + 1));
        })
  unfolding note_failure
  failure_of-note_failure few =
      let next : (failed_before k rf + 1) % 2 ^ 64 ≡ failed_before k rf + 1 = omega arith in
      rw next (lookup-store_self Bytes-discrete k _ rf.failures)

  -- A failure or a success of one entry leaves the others' backoff alone, and a success ends the
  -- entry's own.
  pub backing_off-note_failure_ne :
      (j : Bytes) (t : Instant)
      → k ≢ j
      → (backing_off (note_failure k now rf).failures j t ≡ backing_off rf.failures j t)
        × (backing_off (note_success k rf).failures j t ≡ backing_off rf.failures j t)
        × (backing_off (note_success k rf).failures k t ≡ false)
  unfolding backing_off note_failure note_success
  backing_off-note_failure_ne j t other = (
    rw (backing_off, lookup-store_ne Bytes-discrete k j _ rf.failures other) refl,
    rw (backing_off, lookup-remove_ne Bytes-discrete k j rf.failures other) refl,
    rw (backing_off, lookup-remove_self Bytes-discrete k rf.failures) refl,
  )

-- Failures of the same entry at the given times
abbrev pub fail_at : Bytes → List ℕ → Refresher → Refresher
fail_at k [] rf = rf
fail_at k (t ∷ ts) rf = fail_at k ts (note_failure k t rf)

interval-note_failure :
    (k : Bytes) (t : ℕ) (rf : Refresher) → (note_failure k t rf).interval ≡ rf.interval
unfolding note_failure
interval-note_failure k t rf = refl

fail_at-count :
    (k : Bytes) (ts : List ℕ) (rf : Refresher)
    → failed_before k rf + length ts < 2 ^ 64
    → (failed_before k (fail_at k ts rf) ≡ failed_before k rf + length ts)
      × ((fail_at k ts rf).interval ≡ rf.interval)
fail_at-count k [] rf few = (omega arith, refl)
fail_at-count k (t ∷ ts) rf few =
    let one : failed_before k (note_failure k t rf) ≡ failed_before k rf + 1 =
      ap count_of (failure_of-note_failure k t rf (omega arith)) in
    let (counted, same) = fail_at-count k ts (note_failure k t rf) (omega arith) in
    (omega arith, same ∙ interval-note_failure k t rf)

-- After failures in a row, and none before them, the entry is not tried until the last failure's
-- time plus the wait for their number, and from then on it is. (There are fewer than 2^64
-- failures.)
pub backing_off-fail_at :
    (k : Bytes) (ts : List ℕ) (last : ℕ) (now : Instant) (rf : Refresher)
    → failure_of k rf.failures ≡ none
    → length ts < 2 ^ 64 - 1
    → backing_off (note_failure k last (fail_at k ts rf)).failures k now
      ≡ ltb_ℤ now (add (pos last) (backoff_wait rf.interval (length ts + 1)))
unfolding backing_off
backing_off-fail_at k ts last now rf fresh few =
    let zero_before : failed_before k rf ≡ 0 = ap count_of fresh in
    let (counted, same) = fail_at-count k ts rf (omega arith) in
    let number : failed_before k (fail_at k ts rf) ≡ length ts = omega arith in
    rw (backing_off, failure_of-note_failure k last (fail_at k ts rf) (omega arith), number, same)
      refl
