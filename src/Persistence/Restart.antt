-- ===== src/Persistence/Restart.antt =====
-- What a restart keeps of an entry: its row, saved and loaded again.
use dns_cache.Prelude.{ℕ, ◌+◌, ◌*◌, ◌/◌, ◌^◌, ◌≤◌, ◌<◌, ◌≡◌, refl, sym, ap, ◌∙◌, arith, false, some}
use dns_cache.Prelude.Int.{ℤ, pos, ◌*ℤ◌, ◌+ℤ◌, ◌≤ℤ◌, ltb_ℤ, quot, floor_div, to_u64, to_i64, wrap64}
use dns_cache.Time.{Instant, Duration, add, sub, second, unix, of_unix, of_units}
use dns_cache.Dns.{Msg}
use dns_cache.Entry.{Entry}
use dns_cache.Persistence.{Row, Wire, loaded, row_of, row_ttl, row_last_hit, row_days, load_row}

-- A number of nanoseconds, cut to whole seconds
abbrev pub whole : ℕ → ℕ
whole n = n / second * second

of_units-quot : (t : ℕ) → t < 2 ^ 63 → of_units (quot (pos t) second) second ≡ pos (whole t)
unfolding of_units quot ◌*ℤ◌ wrap64 to_u64 to_i64
of_units-quot t h = ground arith

of_unix-unix : (s : ℕ) → of_unix (unix (pos s)) ≡ pos (whole s)
unfolding floor_div ◌*ℤ◌
of_unix-unix s = ground arith

add_pos : (a b : ℕ) → pos a +ℤ pos b ≡ pos (a + b)
unfolding ◌+ℤ◌
add_pos a b = ground arith

-- The entry that a row gives, with its times, recency and days as the row is read
abbrev pub entry_from :
    {RR Blob : Type 0} → Row Blob → Msg RR → Instant → Duration → ℤ → ℕ → Entry RR
entry_from row msg stored ttl last days = record {
  question_name = row.question_name;
  question_type = row.question_type;
  response = msg;
  stored_at = stored;
  original_ttl = row.original_ttl;
  cached_ttl = ttl;
  expires_at = add stored ttl;
  hit_count = row.hit_count;
  last_hit_at = last;
  used_days = days;
}

pub load_row-readable :
    {RR Blob : Type 0} (wire : Wire RR Blob) (zone : Instant → ℤ) (now : Instant)
    (keep_window : Duration) (row : Row Blob) (msg : Msg RR)
    → ltb_ℤ keep_window (sub now (row_last_hit row)) ≡ false
    → Wire.unpack wire row.response_data ≡ some msg
    → load_row wire zone now keep_window row
      ≡ loaded (
          entry_from row msg
            (of_unix row.stored_at)
            (row_ttl row)
            (row_last_hit row)
            (to_u64 (row_days zone row)))
unfolding load_row
load_row-readable wire zone now keep_window row msg recent readable =
    simp (load_row, recent, readable) refl

module _ {RR Blob : Type 0} (wire : Wire RR Blob) (zone : Instant → ℤ) (e : Entry RR)
    (b : Blob) where
  row_ttl-row_of :
      (t : ℕ)
      → e.cached_ttl ≡ pos t
      → second ≤ t
      → t < 2 ^ 63
      → row_ttl (row_of e b) ≡ pos (whole t)
  unfolding row_of
  row_ttl-row_of t ttl least small = let cut = of_units-quot t small in rw (ttl, cut) (ground arith)

  row_last_hit-row_of : (l : ℕ) → e.last_hit_at ≡ pos l → 0 < l → row_last_hit (row_of e b) ≡ pos l
  unfolding row_of
  row_last_hit-row_of l last some_use = rw last (ground arith)

  row_days-row_of :
      0 < e.used_days → e.used_days < 2 ^ 63 → to_u64 (row_days zone (row_of e b)) ≡ e.used_days
  unfolding row_of to_i64 to_u64
  row_days-row_of least small = ground arith

  -- The entry after a restart: its times cut to whole seconds, all else the same
  abbrev pub restarted : ℕ → ℕ → Entry RR
  restarted s t = record e {
    response = record e.response { compress = false };
    stored_at = pos (whole s);
    cached_ttl = pos (whole t);
    expires_at = pos (whole s + whole t);
  }

  -- Loading the row that was saved for an entry gives the entry back, with its response, its
  -- history of use and its counters; the fetch and the TTL are cut to whole seconds, and the
  -- entry expires at their sum. (The response can be packed, the entry was asked for within the
  -- window, its times lie after 1970, its TTL is at least a second and below 2^63 nanoseconds,
  -- and its word of days is neither 0 nor above int64.)
  pub load_row-row_of :
      (now : Instant) (keep_window : Duration) (s t l : ℕ)
      → Wire.pack wire e.response ≡ some b
      → e.stored_at ≡ pos s
      → e.cached_ttl ≡ pos t
      → second ≤ t
      → t < 2 ^ 63
      → e.last_hit_at ≡ pos l
      → 0 < l
      → 0 < e.used_days
      → e.used_days < 2 ^ 63
      → sub now (pos l) ≤ℤ keep_window
      → load_row wire zone now keep_window (row_of e b) ≡ loaded (restarted s t)
  unfolding row_of
  load_row-row_of now keep_window s t l packed stored ttl least small last some_use days_least
        days_small recent =
      let row = row_of e b in
      let msg : Msg RR = record e.response { compress = false } in
      let hit = row_last_hit-row_of l last some_use in
      let time : of_unix (Row.stored_at row) ≡ pos (whole s) =
        ap (λ z. of_unix (unix z)) stored ∙ of_unix-unix s in
      let life = row_ttl-row_of t ttl least small in
      let days = row_days-row_of days_least days_small in
      let fresh : ltb_ℤ keep_window (sub now (row_last_hit row)) ≡ false = rw hit (ground arith) in
      load_row-readable wire zone now keep_window row msg fresh
        (wire.unpack-pack e.response b packed)
      ∙ ap
          (λ (i : Instant).
            loaded
              (entry_from row msg i (row_ttl row) (row_last_hit row) (to_u64 (row_days zone row))))
          time
      ∙ ap
          (λ (d : Duration).
            loaded (
              entry_from row msg (pos (whole s)) d (row_last_hit row) (to_u64 (row_days zone row))))
          life
      ∙ ap
          (λ (h : ℤ).
            loaded
              (entry_from row msg (pos (whole s)) (pos (whole t)) h (to_u64 (row_days zone row))))
          (hit ∙ sym last)
      ∙ ap (λ (w : ℕ). loaded (entry_from row msg (pos (whole s)) (pos (whole t)) e.last_hit_at w))
          days
      ∙ ap (λ (x : Instant). loaded (record (restarted s t) { expires_at = x }))
          (add_pos (whole s) (whole t))
