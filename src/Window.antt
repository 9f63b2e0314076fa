-- ===== src/Window.antt =====
-- The sliding window of outcomes (`recordWindow`, `windowStats` of cache/cache.go): 15 buckets,
-- one to a minute, each reused when its slot comes round again.
pub mod Counts
pub mod Race
use dns_cache.Prelude.{
  ℕ, zero, suc, ◌+◌, ◌/◌, ◌%◌, ◌^◌, Bool, true, false, List, [], ◌∷◌, ◌==◌, ltb, if◌then◌else◌,
}
use dns_cache.Time.{second}

abbrev pub window_minutes : ℕ
window_minutes = 15

pub record Bucket : Type 0 where
  pub minute : ℕ
  pub hits : ℕ
  pub misses : ℕ

-- `atomic.AddUint64(&x, 1)`
abbrev pub incr : ℕ → ℕ
incr x = (x + 1) % 2 ^ 64

abbrev pub minute_of : ℕ → ℕ
minute_of now = now / second / 60

-- The buckets of a fresh cache
abbrev pub empty_from : ℕ → List Bucket
empty_from zero = []
empty_from (suc n) = record { minute = 0; hits = 0; misses = 0 } ∷ empty_from n

abbrev pub empty_window : List Bucket
empty_window = empty_from window_minutes

-- A bucket that belongs to another minute starts from zero.
unfoldable pub current : ℕ → Bucket → Bucket
current minute b =
    if b.minute == minute then b else record { minute = minute; hits = 0; misses = 0 }

-- One more hit, or one more miss
abbrev pub bump : Bool → Bucket → Bucket
bump true b = record b { hits = incr b.hits }
bump false b = record b { misses = incr b.misses }

unfoldable pub record_bucket : ℕ → Bool → Bucket → Bucket
unfolding current
record_bucket minute hit b = bump hit (current minute b)

-- The update of the element at an index
unfoldable pub update_at : ℕ → (Bucket → Bucket) → List Bucket → List Bucket
update_at i f [] = []
update_at zero f (b ∷ bs) = f b ∷ bs
update_at (suc i) f (b ∷ bs) = b ∷ update_at i f bs

-- `recordWindow` at a reading of the clock
unfoldable pub record_window : ℕ → Bool → List Bucket → List Bucket
unfolding update_at record_bucket
record_window now hit w =
    let minute = minute_of now in update_at (minute % window_minutes) (record_bucket minute hit) w

-- `minute > cutoff`, with the cutoff 15 minutes back
abbrev pub in_window : ℕ → Bucket → Bool
in_window minute b = ltb minute (b.minute + window_minutes)

-- `windowStats`: the sums of the buckets in the window, as uint64
unfoldable pub sum_window : ℕ → ℕ → ℕ → List Bucket → ℕ × ℕ
sum_window minute hits misses [] = (hits, misses)
sum_window minute hits misses (b ∷ bs) =
    if in_window minute b
    then sum_window minute ((hits + b.hits) % 2 ^ 64) ((misses + b.misses) % 2 ^ 64) bs
    else sum_window minute hits misses bs

unfoldable pub window_stats : ℕ → List Bucket → ℕ × ℕ
unfolding sum_window
window_stats now w = sum_window (minute_of now) 0 0 w
