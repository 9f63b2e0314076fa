-- ===== src/Window/Counts.antt =====
-- The window's totals against the list of all recorded outcomes.
pub mod Slots
pub mod Totals
use dns_cache.Prelude.{
  ℕ, suc, Bool, true, false, ◌&&◌, ◌==◌, ◌%◌, ◌+◌, List, [], ◌∷◌, ltb, if◌then◌else◌,
}
use dns_cache.Window.{Bucket, minute_of, record_window, window_minutes}

-- A request: the time, and whether it was a hit
abbrev pub Outcome : Type 0
Outcome = ℕ × Bool

abbrev pub minute : Outcome → ℕ
minute o = minute_of o.0

abbrev pub slot : Outcome → ℕ
slot o = minute o % window_minutes

-- The outcomes in the order of their recording
unfoldable pub record_all : List Outcome → List Bucket → List Bucket
record_all [] w = w
record_all ((t, hit) ∷ later) w = record_all later (record_window t hit w)

abbrev pub agrees : Bool → Outcome → Bool
agrees true o = o.1
agrees false o = if o.1 then false else true

-- How many outcomes pass a test
unfoldable pub count : (Outcome → Bool) → List Outcome → ℕ
count p [] = 0
count p (o ∷ os) = (if p o then 1 else 0) + count p os

-- Hits (or misses) of the slot in the minute
abbrev pub of_minute : Bool → ℕ → ℕ → Outcome → Bool
of_minute hit i m o = agrees hit o && (slot o == i && minute o == m)

-- Hits (or misses) of the last 15 minutes
abbrev pub recent : Bool → ℕ → Outcome → Bool
recent hit now o = agrees hit o && ltb now (minute o + window_minutes)
