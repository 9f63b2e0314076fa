-- ===== src/Persistence/Reload.antt =====
-- What `LoadAll` makes of the rows that were saved for entries.
use mathlib.Core.Option
use dns_cache.Prelude.{
  ℕ, ◌^◌, ◌<◌, ◌≡◌, refl, sym, ap, ◌∙◌, arith, Bool, true, false, ◌⊎◌, inl, inr, List, [], ◌∷◌,
  Option, none, some, In, if◌then◌else◌, Bool-cases,
}
use dns_cache.Prelude.Int.{ℤ, pos, ◌<ℤ◌, ltb_ℤ, quot, to_u64, to_i64}
use dns_cache.Time.{Instant, Duration, add, sub, second, unix, of_unix, of_units}
use dns_cache.Dns.{Msg}
use dns_cache.Entry.{Entry}
use dns_cache.Persistence.{
  Row, Wire, Loaded, loaded, skipped, unreadable, row_of, row_ttl, row_last_hit, row_days, load_row,
  load_rows,
}
use dns_cache.Persistence.Restart.{entry_from, load_row-readable}

module _ {RR Blob : Type 0} (wire : Wire RR Blob) where
  -- An entry that a row can hold: its response can be packed, its TTL has a whole second, and its
  -- recency and its word of days are there.
  pub record IsSavable (e : Entry RR) : Type 0 where
    pub packed : (b : Blob) × (Wire.pack wire e.response ≡ some b)
    pub lives : pos 0 <ℤ of_units (quot e.cached_ttl second) second
    pub hit : pos 0 <ℤ e.last_hit_at
    pub days_least : 0 < e.used_days
    pub days_most : e.used_days < 2 ^ 63

-- The entry after a restart: its fetch and its TTL cut to whole seconds, all else the same
abbrev pub reload : {RR : Type 0} → Entry RR → Entry RR
reload e =
    let ttl = of_units (quot e.cached_ttl second) second in
    record e {
      response = record e.response { compress = false };
      stored_at = of_unix (unix e.stored_at);
      cached_ttl = ttl;
      expires_at = add (of_unix (unix e.stored_at)) ttl;
    }

-- A client has asked for it within the window.
abbrev pub recent : {RR : Type 0} → Instant → Duration → Entry RR → Bool
recent now keep_window e = if ltb_ℤ keep_window (sub now e.last_hit_at) then false else true

Loaded-cases :
    {RR : Type 0} (l : Loaded RR)
    → (l ≡ skipped) ⊎ (l ≡ unreadable) ⊎ ((e : Entry RR) × (l ≡ loaded e))
Loaded-cases skipped = inl refl
Loaded-cases unreadable = inr (inl refl)
Loaded-cases (loaded e) = inr (inr (e, refl))

load_row-skipped :
    {RR Blob : Type 0} (wire : Wire RR Blob) (zone : Instant → ℤ) (now : Instant)
    (keep_window : Duration) (row : Row Blob)
    → ltb_ℤ keep_window (sub now (row_last_hit row)) ≡ true
    → load_row wire zone now keep_window row ≡ skipped
unfolding load_row
load_row-skipped wire zone now keep_window row old = rw (load_row, old) refl

module _ {RR Blob : Type 0} (wire : Wire RR Blob) (zone : Instant → ℤ) (now : Instant)
    (keep_window : Duration) where
  row_last_hit-row_of :
      (e : Entry RR) (b : Blob) → IsSavable wire e → row_last_hit (row_of e b) ≡ e.last_hit_at
  unfolding row_of
  row_last_hit-row_of e b s = ground (arith, s.hit)

  row_ttl-row_of :
      (e : Entry RR) (b : Blob)
      → IsSavable wire e
      → row_ttl (row_of e b) ≡ of_units (quot e.cached_ttl second) second
  unfolding row_of
  row_ttl-row_of e b s = ground (arith, s.lives)

  row_days-row_of :
      (e : Entry RR) (b : Blob)
      → IsSavable wire e
      → to_u64 (row_days zone (row_of e b)) ≡ e.used_days
  unfolding row_of to_i64 to_u64
  row_days-row_of e b s = ground (arith, s.days_least, s.days_most)

  pub load_row-reload :
      (e : Entry RR) (b : Blob)
      → IsSavable wire e
      → Wire.pack wire e.response ≡ some b
      → load_row wire zone now keep_window (row_of e b)
        ≡ (if recent now keep_window e then loaded (reload e) else skipped)
  unfolding row_of
  load_row-reload e b s p =
      let row = row_of e b in
      let hit = row_last_hit-row_of e b s in
      let msg : Msg RR = record e.response { compress = false } in
      let time : Instant = of_unix (unix e.stored_at) in
      let ttl : Duration = of_units (quot e.cached_ttl second) second in
      elim (Bool-cases (ltb_ℤ keep_window (sub now e.last_hit_at))) [
        | inl old ↦ rw old (load_row-skipped wire zone now keep_window row (rw hit old))
        | inr young ↦ rw young (
            load_row-readable wire zone now keep_window row msg (rw hit young)
              (wire.unpack-pack e.response b p)
            ∙ ap
                (λ (d : Duration).
                  loaded
                    (entry_from row msg time d (row_last_hit row) (to_u64 (row_days zone row))))
                (row_ttl-row_of e b s)
            ∙ ap (λ (h : ℤ). loaded (entry_from row msg time ttl h (to_u64 (row_days zone row))))
                hit
            ∙ ap (λ (w : ℕ). loaded (entry_from row msg time ttl e.last_hit_at w))
                (row_days-row_of e b s))
      ]

  -- The entries that are loaded are those of the rows that load.
  pub In-load_rows :
      (rows : List (Option (Row Blob))) (e : Entry RR)
      → In e (load_rows wire zone now keep_window rows)
      → (row : Row Blob) × In (some row) rows × (load_row wire zone now keep_window row ≡ loaded e)
  unfolding load_rows
  In-load_rows [] e m = absurd m
  In-load_rows (none ∷ rows) e m =
      let (row, there, l) = In-load_rows rows e m in (row, inr there, l)
  In-load_rows (some row ∷ rows) e m =
      let later : In e (load_rows wire zone now keep_window rows)
          → (row' : Row Blob) × In (some row') (some row ∷ rows)
            × (load_row wire zone now keep_window row' ≡ loaded e) =
        λ n. let (row', there, l) = In-load_rows rows e n in (row', inr there, l) in
      elim (Loaded-cases (load_row wire zone now keep_window row)) [
        | inl l ↦ later (rw (load_rows, l) at m)
        | inr (inl l) ↦ later (rw (load_rows, l) at m)
        | inr (inr (e', l)) ↦ elim (rw (load_rows, l) at m) [
          | inl same ↦ (row, inl refl, l ∙ ap loaded (sym same))
          | inr n ↦ later n
        ]
      ]

  pub load_rows-In :
      (rows : List (Option (Row Blob))) (row : Row Blob) (e : Entry RR)
      → In (some row) rows
      → load_row wire zone now keep_window row ≡ loaded e
      → In e (load_rows wire zone now keep_window rows)
  unfolding load_rows
  load_rows-In [] row e m l = absurd m
  load_rows-In (none ∷ rows) row e (inl same) l = absurd (ground arith)
  load_rows-In (none ∷ rows) row e (inr m) l = load_rows-In rows row e m l
  load_rows-In (some row' ∷ rows) row e (inl same) l =
      let same_row = Option.some-injective _ _ same in
      let l' = ap (load_row wire zone now keep_window) (sym same_row) ∙ l in
      rw (load_rows, l') (inl refl)
  load_rows-In (some row' ∷ rows) row e (inr m) l =
      let later = load_rows-In rows row e m l in
      elim (Loaded-cases (load_row wire zone now keep_window row')) [
        | inl w ↦ rw (load_rows, w) later
        | inr (inl w) ↦ rw (load_rows, w) later
        | inr (inr (e', w)) ↦ rw (load_rows, w) (inr later)
      ]
