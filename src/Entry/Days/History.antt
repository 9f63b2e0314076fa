-- ===== src/Entry/Days/History.antt =====
-- The word of used days against the list of all days on which a client asked.
use dns_cache.Prelude.{
  ℕ, zero, suc, ◌+◌, ◌-◌, ◌^◌, ◌≤◌, ◌<◌, ◌≡◌, refl, ◌∙◌, arith, Bool, false, ◌&&◌, ◌||◌, ◌==◌, ltb,
  if◌then◌else◌, max, List, [], ◌∷◌,
}
use dns_cache.Prelude.Int.{pos}
use dns_cache.Entry.Days.{pack_used_days, mark_used_next, days_used}
use dns_cache.Entry.Days.Word.{last_day, join, join_parts, pack_used_days_lem}
use dns_cache.Entry.Days.View.{
  used_on, used_on-mark_used_next, last_day-mark_used_next, used_on-first,
}
use dns_cache.Entry.Days.Count.{days_recorded, days_used-days_recorded}

-- The word after a use on each of the days in turn
unfoldable pub mark_all : ℕ → List ℕ → ℕ
mark_all w [] = w
mark_all w (d ∷ ds) = mark_all (mark_used_next (pos d) w) ds

unfoldable pub asked_on : ℕ → List ℕ → Bool
asked_on e [] = false
asked_on e (d ∷ ds) = e == d || asked_on e ds

-- The days do not go back, from `a` on, and fit the word.
abbrev pub IsChronicle : ℕ → List ℕ → Type 0
IsChronicle a [] = a < 2 ^ 32
IsChronicle a (d ∷ ds) = (a ≤ d) × IsChronicle d ds

unfoldable pub latest : ℕ → List ℕ → ℕ
latest a [] = a
latest a (d ∷ ds) = latest d ds

-- How many of the `n` days up to `ref` are in the list
unfoldable pub days_asked : List ℕ → ℕ → ℕ → ℕ
days_asked ds ref zero = 0
days_asked ds ref (suc n) = (if asked_on (ref - n) ds then 1 else 0) + days_asked ds ref n

IsChronicle-small : (a : ℕ) (ds : List ℕ) → IsChronicle a ds → a < 2 ^ 32
IsChronicle-small a [] h = h
IsChronicle-small a (d ∷ ds) h = omega (arith, IsChronicle-small d ds h.1)

history_from :
    (e a w : ℕ) (was : Bool) (ds : List ℕ)
    → last_day w ≡ a
    → used_on w e ≡ (was && ltb a (e + 32))
    → IsChronicle a ds
    → (used_on (mark_all w ds) e ≡ ((was || asked_on e ds) && ltb (latest a ds) (e + 32)))
      × (last_day (mark_all w ds) ≡ latest a ds)
unfolding mark_all asked_on latest
history_from e a w was [] last here h = (ground arith, last)
history_from e a w was (d ∷ ds) last here h =
    let small : d < 2 ^ 32 = IsChronicle-small d ds h.1 in
    let ref : max d (last_day w) ≡ d = omega arith in
    let (now, then_last) =
      history_from e d (mark_used_next (pos d) w) (was || e == d) ds
        (last_day-mark_used_next d w small ∙ ref)
        (ground (arith, used_on-mark_used_next d w e small, ref)) h.1 in
    (ground arith, then_last)

-- Of a name that is first asked for on one day and then on others, never back in time, the word
-- records exactly the days of those requests that lie less than 32 days before the latest.
pub used_on-mark_all :
    (first e : ℕ) (ds : List ℕ)
    → IsChronicle first ds
    → used_on (mark_all (pack_used_days (pos first)) ds) e
      ≡ (asked_on e (first ∷ ds) && ltb (latest first ds) (e + 32))
unfolding asked_on
used_on-mark_all first e ds h =
    let small : first < 2 ^ 32 = IsChronicle-small first ds h in
    rw (pack_used_days_lem first small)
      (history_from e first (join first 1) (e == first) ds (join_parts first 1 (omega arith)).0
        (used_on-first first e ∙ ground arith) h).0

last_day-mark_all :
    (first : ℕ) (ds : List ℕ)
    → IsChronicle first ds
    → last_day (mark_all (pack_used_days (pos first)) ds) ≡ latest first ds
last_day-mark_all first ds h =
    let small : first < 2 ^ 32 = IsChronicle-small first ds h in
    rw (pack_used_days_lem first small)
      (history_from first first (join first 1) (first == first) ds
        (join_parts first 1 (omega arith)).0 (used_on-first first first ∙ ground arith) h).1

recorded-asked :
    (w ref last n : ℕ) (l : List ℕ)
    → ((e : ℕ) → used_on w e ≡ (asked_on e l && ltb last (e + 32)))
    → last ≤ ref
    → n ≤ 32
    → n ≤ ref
    → days_recorded w ref n ≡ days_asked l ref n
unfolding days_recorded days_asked
recorded-asked w ref last zero l same p q r = refl
recorded-asked w ref last (suc n) l same p q r =
    ground (arith, same (ref - n), recorded-asked w ref last n l same p)

-- `DaysUsed` is the number of the last `window` days, today included, on which a client asked for
-- the name: of its whole history, when neither the requests nor today go back in time. The window
-- has at most 32 days, and lies after the epoch.
pub days_used-days_asked :
    (first today window : ℕ) (ds : List ℕ)
    → IsChronicle first ds
    → latest first ds ≤ today
    → window ≤ 32
    → window ≤ today
    → days_used (pos today) (pos window) (mark_all (pack_used_days (pos first)) ds)
      ≡ days_asked (first ∷ ds) today window
days_used-days_asked first today window ds h late small past =
    let w : ℕ = mark_all (pack_used_days (pos first)) ds in
    let ref : max today (last_day w) ≡ today = omega (arith, last_day-mark_all first ds h) in
    days_used-days_recorded today window w small past
    ∙ rw ref (
        recorded-asked w today (latest first ds) window (first ∷ ds)
          (λ e. used_on-mark_all first e ds h) late small past)
