-- ===== src/Refresher/Prune/Keeps.antt =====
-- `pruneUnused` against `Usual`: no usual domain is deleted.
use mathlib.Core.List.{lookup}
use dns_cache.Prelude.{
  ℕ, ◌+◌, ◌-◌, ◌*◌, ◌/◌, ◌≤◌, ◌<◌, ◌≡◌, refl, sym, ap, ◌∙◌, arith, true, false, inl, inr, some,
  Bool-cases,
}
use dns_cache.Prelude.Assoc.{Distinct}
use dns_cache.Prelude.Decimal.{Bytes, Bytes-discrete}
use dns_cache.Prelude.Int.{ℤ, pos, negsuc, ◌+ℤ◌, ◌-ℤ◌, ◌≤ℤ◌, ltb_ℤ, leb_ℤ, quot, floor_div}
use dns_cache.Time.{Instant, second, unix, sub, local_day, hour}
use dns_cache.Entry.{Entry}
use dns_cache.Entry.Days.{days_used}
use dns_cache.Entry.Days.Word.{last_day}
use dns_cache.CacheConfig.{Config, usual, keep_window}
use dns_cache.Cache.{Cache, find}
use dns_cache.Config.Bounds.{of_units-exact}
use dns_cache.Refresher.{Snapshot, unused, prune_unused}
use dns_cache.Refresher.Prune.{prune_unused-finds}

add_later : (m n a : ℕ) (z : ℤ) → m ≤ n → pos m +ℤ z ≡ pos a → pos n +ℤ z ≡ pos (a + (n - m))
unfolding ◌+ℤ◌
add_later m n a (pos k) h e = ground arith
add_later m n a (negsuc k) h e = ground arith

module _ (zone : Instant → ℤ) (now last a w : ℕ) where
  local_seconds :
      zone (pos now) ≡ zone (pos last)
      → unix (pos last) +ℤ zone (pos last) ≡ pos a
      → last ≤ now
      → unix (pos now) +ℤ zone (pos now) ≡ pos (a + (now / second - last / second))
  unfolding floor_div
  local_seconds steady at_last later =
      rw steady (
        add_later (last / second) (now / second) a (zone (pos last)) (omega (arith, later)) at_last)

  -- A window of days after the last use, its day has left the window.
  local_day-later :
      zone (pos now) ≡ zone (pos last)
      → unix (pos last) +ℤ zone (pos last) ≡ pos a
      → last + w * (24 * hour) < now
      → (b : ℕ) × (local_day zone (pos now) ≡ pos b) × (a / 86400 + w ≤ b)
  unfolding local_day quot
  local_day-later steady at_last later =
      let at_now = local_seconds steady at_last (omega (arith, later)) in
      ((a + (now / second - last / second)) / 86400, rw at_now refl, omega (arith, later))

days_used-none : (b w word : ℕ) → last_day word + w ≤ b → days_used (pos b) (pos w) word ≡ 0
unfolding days_used ◌-ℤ◌ ◌+ℤ◌
days_used-none b w word h = ground arith

keep_window-days :
    (cfg : Config) (w : ℕ)
    → cfg.keep_window_days ≡ pos w
    → w ≤ 32
    → keep_window cfg ≡ pos (w * (24 * hour))
unfolding keep_window
keep_window-days cfg w days h =
    let hours = of_units-exact w 24 (omega (arith, h)) in
    let whole = of_units-exact (w * 24) hour (omega (arith, h)) in
    rw (days, hours, whole) (ap pos (omega arith))

sub_later : (now last k : ℕ) → ltb_ℤ (pos k) (sub (pos now) (pos last)) ≡ true → last + k < now
unfolding sub ◌-ℤ◌ ◌+ℤ◌
sub_later now last k h = ground arith

module _ {RR : Type 0} (zone : Instant → ℤ) (c : Cache RR) (e : Entry RR) (now last a w : ℕ)
    (recency : e.last_hit_at ≡ pos last) (days : c.config.keep_window_days ≡ pos w) (most : w ≤ 32)
    (least : pos 1 ≤ℤ c.config.keep_min_days) (steady : zone (pos now) ≡ zone (pos last))
    (local : unix (pos last) +ℤ zone (pos last) ≡ pos a)
    (recorded : last_day e.used_days ≤ a / 86400) where
  unused-later : unused c.config e (pos now) ≡ true → last + w * (24 * hour) < now
  unfolding unused
  unused-later gone =
      let window = keep_window-days c.config w days most in
      let past = rw (recency, window) at gone in
      sub_later now last (w * (24 * hour)) (ground (arith, past))

  -- An entry that is unused for the whole window is of no usual domain.
  unused-usual : unused c.config e (pos now) ≡ true → usual zone c.config e (pos now) ≡ false
  unfolding usual
  unused-usual gone =
      let (b, today, left) = local_day-later zone now last a w steady local (unused-later gone) in
      let none_used : days_used (local_day zone (pos now)) c.config.keep_window_days e.used_days
          ≡ 0 =
        ap (λ d. days_used d c.config.keep_window_days e.used_days) today
        ∙ ap (λ v. days_used (pos b) v e.used_days) days
        ∙ days_used-none b w e.used_days (omega (arith, recorded, left)) in
      ap (λ n. leb_ℤ c.config.keep_min_days (pos n)) none_used ∙ ground (arith, least)

  -- `pruneUnused` deletes no entry of a usual domain: over a snapshot that holds what the cache
  -- holds, an entry that `Usual` accepts is found afterwards as before. (The window has at most 32
  -- days, and the least number of days is positive; the word of days records nothing after the
  -- local day of the last request, and the offset of the time zone is the same now as then.)
  pub prune_unused-usual :
      (snapshot : Snapshot RR) (k : Bytes)
      → Distinct Bytes-discrete snapshot
      → ((j : Bytes) → lookup Bytes-discrete j snapshot ≡ find j c)
      → find k c ≡ some e
      → usual zone c.config e (pos now) ≡ true
      → find k (prune_unused snapshot (pos now) c) ≡ some e
  prune_unused-usual snapshot k d held found kept =
      let left = prune_unused-finds snapshot (pos now) c k d held in
      elim (Bool-cases (unused c.config e (pos now))) [
        | inl gone ↦ let clash = sym kept ∙ unused-usual gone in absurd (ground arith)
        | inr used ↦ left ∙ rw (found, used) refl
      ]
