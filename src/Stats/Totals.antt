-- ===== src/Stats/Totals.antt =====
-- The statistics count every entry once.
use dns_cache.Prelude.{
  ℕ, ◌+◌, ◌≤◌, ◌≡◌, ap, ◌∙◌, arith, List, [], ◌∷◌, length, length-append, length-take, min,
}
use mathlib.Core.Logic.{ite}
use mathlib.Core.List.{lookup}
use dns_cache.Prelude.Assoc.{lookup-store_self, lookup-store_ne}
use dns_cache.Prelude.Decimal.{Bytes, Bytes-discrete}
use dns_cache.Prelude.Int.{ℤ}
use dns_cache.Time.{Instant}
use dns_cache.Entry.{Entry}
use dns_cache.CacheConfig.{Config}
use dns_cache.Refresher.{SortSlice}
use dns_cache.Stats.{
  DomainStat, Figures, no_figures, number_of, count_name, qtype_name, more_hits, add_entry,
  add_entries, build_snapshot,
}

module _ {RR : Type 0} where
  -- The entries whose type has the name
  abbrev pub of_kind : Bytes → List (Instant × Entry RR) → ℕ
  of_kind name [] = 0
  of_kind name ((t, e) ∷ rest) =
      ite (Bytes-discrete (qtype_name e.question_type) name) 1 0 + of_kind name rest

lookup-count_name :
    (j name : Bytes) (dist : List (Bytes × ℕ))
    → number_of (lookup Bytes-discrete name (count_name j dist))
      ≡ number_of (lookup Bytes-discrete name dist) + ite (Bytes-discrete j name) 1 0
lookup-count_name j name dist =
    elim (Bytes-discrete j name)
      as (λ (d : Dec (j ≡ name)).
        number_of (lookup Bytes-discrete name (count_name j dist))
        ≡ number_of (lookup Bytes-discrete name dist) + ite d 1 0) [
          | yes p ↦ rw p (ap number_of (lookup-store_self Bytes-discrete name _ dist))
          | no ne ↦ ap number_of (lookup-store_ne Bytes-discrete j name _ dist ne) ∙ omega arith
        ]

module _ {RR : Type 0} (zone : Instant → ℤ) (cfg : Config) (now : Instant) where
  -- How the loop's figures stand to the entries that it has seen
  pub record Grown (entries : List (Instant × Entry RR)) (f g : Figures) : Type 0 where
    pub all : g.active + g.expired ≡ f.active + f.expired + length entries
    pub usual_entries : g.usual_entries ≤ f.usual_entries + length entries
    pub listed : length g.top ≡ length f.top + length entries
    pub kinds :
        (name : Bytes)
        → number_of (lookup Bytes-discrete name g.qtype_dist)
          ≡ number_of (lookup Bytes-discrete name f.qtype_dist) + of_kind name entries

  add_entry-Grown :
      (t : Instant) (e : Entry RR) (f : Figures)
      → Grown ((t, e) ∷ []) f (add_entry zone cfg now t e f)
  unfolding add_entry
  add_entry-Grown t e f = record {
    all = ground arith;
    usual_entries = ground arith;
    listed = length-append f.top _;
    kinds = λ name. lookup-count_name (qtype_name e.question_type) name f.qtype_dist ∙ omega arith;
  }

  add_entries-Grown :
      (entries : List (Instant × Entry RR)) (f : Figures)
      → Grown entries f (add_entries zone cfg now entries f)
  unfolding add_entries
  add_entries-Grown [] f = record {
    all = omega arith;
    usual_entries = omega arith;
    listed = omega arith;
    kinds = λ name. omega arith;
  }
  add_entries-Grown ((t, e) ∷ rest) f =
      let one = add_entry-Grown t e f in
      let more = add_entries-Grown rest (add_entry zone cfg now t e f) in
      record {
        all = omega (arith, one.all, more.all);
        usual_entries = omega (arith, one.usual_entries, more.usual_entries);
        listed = omega (arith, one.listed, more.listed);
        kinds = λ name. omega (arith, one.kinds name, more.kinds name);
      }

  -- `BuildSnapshot` counts every entry once, as active or as expired, and once under the name of
  -- its type; it lists 20 domains, or all if there are fewer.
  pub build_snapshot-counts :
      (sorting : SortSlice DomainStat) (entries : List (Instant × Entry RR))
      → let f = build_snapshot zone cfg now sorting entries in
        (f.active + f.expired ≡ length entries)
        × (f.usual_entries ≤ length entries)
        × (length f.top ≡ min 20 (length entries))
        × ((name : Bytes)
            → number_of (lookup Bytes-discrete name f.qtype_dist) ≡ of_kind name entries)
  unfolding build_snapshot lookup
  build_snapshot-counts sorting entries =
      let g = add_entries-Grown entries no_figures in
      let sorted =
        SortSlice.length-sort_slice sorting more_hits
          (add_entries zone cfg now entries no_figures).top in
      (
        omega (arith, g.all),
        omega (arith, g.usual_entries),
        length-take 20 _ ∙ ap (λ n. min 20 n) (sorted ∙ g.listed ∙ omega arith),
        λ name. g.kinds name ∙ omega arith,
      )
