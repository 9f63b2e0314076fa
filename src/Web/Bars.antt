-- ===== src/Web/Bars.antt =====
-- The bars of the page (`percent`, `colorForType` and the loops of the template of web/server.go).
use mathlib.Core.Logic.{ite}
use mathlib.Core.Path.{subst}
use dns_cache.Prelude.{
  ℕ, ◌+◌, ◌^◌, ◌≤◌, ◌<◌, ◌≡◌, refl, sym, arith, inl, inr, List, [], ◌∷◌, map, All, length, ltb,
  if◌then◌else◌, Bool-cases,
}
use dns_cache.Prelude.Decimal.{Bytes, Bytes-discrete, codes}
use dns_cache.Prelude.Int.{ℤ, pos, negsuc}
use dns_cache.Time.{Instant}
use dns_cache.Dns.{Dns}
use dns_cache.Cache.{Cache}
use dns_cache.Cache.Run.{IsBounded}
use dns_cache.Window.{window_stats}
use dns_cache.Stats.Ratios.{
  Floats, Rounds, CacheStats, cache_stats, percent_of, InRange, IsShare, nought-InRange,
  percent_of-InRange, cache_stats-IsShare,
}

-- `colorForType`
unfoldable pub color_for_type : Bytes → Bytes
color_for_type t = ite (Bytes-discrete t (codes "A")) (codes "#38bdf8") (
    ite (Bytes-discrete t (codes "AAAA")) (codes "#a78bfa") (
      ite (Bytes-discrete t (codes "MX")) (codes "#facc15") (
        ite (Bytes-discrete t (codes "TXT")) (codes "#22d3ee") (
          ite (Bytes-discrete t (codes "CNAME")) (codes "#4ade80") (
            ite (Bytes-discrete t (codes "NS")) (codes "#fb923c") (
              ite (Bytes-discrete t (codes "SOA")) (codes "#f87171")
                (ite (Bytes-discrete t (codes "SRV")) (codes "#e879f9") (codes "#94a3b8"))))))))

-- The loop that finds the greatest count, `$max`
unfoldable pub greatest : List (Bytes × ℕ) → ℕ → ℕ
greatest [] most = most
greatest ((t, n) ∷ dist) most = greatest dist (if ltb most n then n else most)

-- A row of the distribution, with the width that is printed
pub record Bar (F : Type 0) : Type 0 where
  pub label : Bytes
  pub width : F
  pub color : Bytes
  pub count : ℕ

greatest-above :
    (dist : List (Bytes × ℕ)) (most : ℕ)
    → (most ≤ greatest dist most) × All (λ p. p.1 ≤ greatest dist most) dist
unfolding greatest
greatest-above [] most = (omega arith, tt)
greatest-above ((t, n) ∷ dist) most = elim (Bool-cases (ltb most n)) [
  | inl more ↦
      let (above, rest) = greatest-above dist n in
      above_all n (rw (greatest, more) refl) (ground arith, (above, rest))
  | inr less ↦
      let (above, rest) = greatest-above dist most in
      above_all most (rw (greatest, less) refl) (above, (ground arith, rest))
]
  where
    above_all :
        (next : ℕ)
        → greatest ((t, n) ∷ dist) most ≡ greatest dist next
        → (most ≤ greatest dist next)
          × ((n ≤ greatest dist next) × All (λ p. p.1 ≤ greatest dist next) dist)
        → (most ≤ greatest ((t, n) ∷ dist) most)
          × ((n ≤ greatest ((t, n) ∷ dist) most)
              × All (λ p. p.1 ≤ greatest ((t, n) ∷ dist) most) dist)
    above_all next e a = subst (λ z. (most ≤ z) × ((n ≤ z) × All (λ p. p.1 ≤ z) dist)) (sym e) a

greatest-below :
    (dist : List (Bytes × ℕ)) (most bound : ℕ)
    → most < bound
    → All (λ p. p.1 < bound) dist
    → greatest dist most < bound
unfolding greatest
greatest-below [] most bound small a = small
greatest-below ((t, n) ∷ dist) most bound small a = elim (Bool-cases (ltb most n)) [
  | inl more ↦ rw more (greatest-below dist n bound a.0 a.1)
  | inr less ↦ rw less (greatest-below dist most bound small a.1)
]

module _ {F : Type 0} (fl : Floats F) where
  -- `percent`
  unfoldable pub percent : ℤ → ℤ → F
  percent a (pos n) = if ltb 0 n then percent_of fl a (pos n) else fl.nought
  percent a (negsuc n) = percent_of fl a (negsuc n)

  -- The rows, in the order of the map's keys
  unfoldable pub dist_bars : List (Bytes × ℕ) → List (Bar F)
  unfolding percent greatest color_for_type
  dist_bars dist =
      map
        (λ p. record {
          label = p.0;
          width = percent (pos p.1) (pos (greatest dist 0));
          color = color_for_type p.0;
          count = p.1;
        })
        dist

  -- The bar of the cache's size
  unfoldable pub fill_width : CacheStats F → F
  unfolding percent
  fill_width st = percent (pos st.entries) st.max_entries

  module _ (laws : Rounds fl) where
    percent-InRange : (a b : ℕ) → a ≤ b → b < 2 ^ 64 → InRange fl (percent (pos a) (pos b))
    unfolding percent
    percent-InRange a b le small = elim (Bool-cases (ltb 0 b)) [
      | inl some_b ↦ rw some_b (percent_of-InRange fl laws a b le (ground arith, small))
      | inr none_b ↦ rw none_b (nought-InRange fl laws)
    ]

    rows-InRange :
        (dist : List (Bytes × ℕ)) (most : ℕ)
        → All (λ p. p.1 ≤ most) dist
        → most < 2 ^ 64
        → All
            (λ b. InRange fl (Bar.width b))
            (map
              (λ (p : Bytes × ℕ). record {
                label = p.0;
                width = percent (pos p.1) (pos most);
                color = color_for_type p.0;
                count = p.1;
              })
              dist)
    rows-InRange [] most a small = tt
    rows-InRange ((t, n) ∷ dist) most a small =
        (percent-InRange n most a.0 small, rows-InRange dist most a.1 small)

    fill_width-InRange :
        {RR : Type 0} (limit : ℕ) (c : Cache RR) (qps_now : Instant) (now : ℕ)
        → c.config.max_entries ≡ pos limit
        → length c.entries ≤ limit
        → limit < 2 ^ 64
        → InRange fl (fill_width (cache_stats fl qps_now now c))
    unfolding fill_width cache_stats
    fill_width-InRange limit c qps_now now at le small =
        rw at (percent-InRange (length c.entries) limit le small)

    -- Every percentage of the page lies between 0 and 100: the width of each row of the
    -- distribution and of the bar of the cache's size, and the two hit ratios, which are 0 where no
    -- request was counted. (The cache is within its limit, which is at least one, and the limit, the
    -- counts of the distribution and the numbers of requests are below 2^64.)
    pub bars-InRange :
        {RR : Type 0} (dns : Dns RR) (zone : Instant → ℤ) (dist : List (Bytes × ℕ)) (limit : ℕ)
        (c : Cache RR) (qps_now : Instant) (now : ℕ)
        → IsBounded dns zone (pos limit) c
        → 0 < limit
        → limit < 2 ^ 64
        → All (λ p. p.1 < 2 ^ 64) dist
        → c.hits + c.misses < 2 ^ 64
        → (window_stats now c.window).0 + (window_stats now c.window).1 < 2 ^ 64
        → All (λ b. InRange fl (Bar.width b)) (dist_bars dist)
          × InRange fl (fill_width (cache_stats fl qps_now now c))
          × IsShare fl (c.hits + c.misses) (cache_stats fl qps_now now c).hit_ratio
          × IsShare fl
              (cache_stats fl qps_now now c).window_queries
              (cache_stats fl qps_now now c).hit_ratio_window
    unfolding dist_bars fill_width
    bars-InRange dns zone dist limit c qps_now now b some_limit small counts few w_few =
        let shares = cache_stats-IsShare fl laws qps_now now c few w_few in
        (
          rows-InRange dist (greatest dist 0) (greatest-above dist 0).1
              (greatest-below dist 0 (2 ^ 64) (omega arith) counts),
          fill_width-InRange limit c qps_now now b.configured (ground (arith, b.fits)) small,
          shares.0,
          shares.1,
        )
