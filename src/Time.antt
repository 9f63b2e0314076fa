-- ===== src/Time.antt =====
-- Go's `time` as the source uses it. An instant and a duration are counts of nanoseconds, an
-- instant from the Unix epoch on. A reading of the clock is a number: the server runs after 1970.
use dns_cache.Prelude.{ℕ, ◌-◌, ◌*◌, ◌^◌, Bool}
use dns_cache.Prelude.Int.{
  ℤ, pos, negsuc, ◌+ℤ◌, ◌-ℤ◌, ◌*ℤ◌, ltb_ℤ, max_ℤ, min_ℤ, wrap64, floor_div, quot,
}

abbrev pub Instant : Type 0
Instant = ℤ

abbrev pub Duration : Type 0
Duration = ℤ

abbrev pub second : ℕ
second = 1_000_000_000

abbrev pub hour : ℕ
hour = 3600 * second

abbrev pub max_duration : Duration
max_duration = pos (2 ^ 63 - 1)

abbrev pub min_duration : Duration
min_duration = negsuc (2 ^ 63 - 1)

-- `t.Add(d)`
abbrev pub add : Instant → Duration → Instant
add t d = t +ℤ d

-- `t.Sub(u)`, which stops at the largest and the smallest duration
unfoldable pub sub : Instant → Instant → Duration
sub t u = max_ℤ min_duration (min_ℤ max_duration (t -ℤ u))

-- `t.After(u)`
abbrev pub after : Instant → Instant → Bool
after t u = ltb_ℤ u t

-- `time.Duration(n) * unit`, an int64 product
unfoldable pub of_units : ℤ → ℕ → Duration
of_units n unit = wrap64 (n *ℤ pos unit)

-- `t.Unix()`
abbrev pub unix : Instant → ℤ
unix t = floor_div t second

-- `time.Unix(s, 0)`
abbrev pub of_unix : ℤ → Instant
of_unix s = s *ℤ pos second

-- The number of the local calendar day (`localDay` of the entries). `zone t` is the offset of the
-- local time zone from UTC at `t`, in seconds.
unfoldable pub local_day : (Instant → ℤ) → Instant → ℤ
local_day zone t = quot (unix t +ℤ zone t) 86400
