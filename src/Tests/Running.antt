-- ===== src/Tests/Running.antt =====
-- A run of the whole program: a request, a round of saving, an hour's cleaning.
use mathlib.Core.List.{lookup}
use dns_cache.Prelude.{ℕ, ◌+◌, ◌*◌, ◌≡◌, refl, arith, false, List, [], ◌∷◌, none}
use dns_cache.Prelude.Int.{pos}
use dns_cache.Time.{second}
use dns_cache.Dns.{Msg, Question}
use dns_cache.Entry.Key.{key}
use dns_cache.Cache.{new, get, incr_queries}
use dns_cache.Cache.Insert.Victim.{IsRange}
use dns_cache.Config.{default_config}
use dns_cache.Handler.{Readings}
use dns_cache.Handler.Serve.Steps.{IsTimely}
use dns_cache.Refresher.{Candidate}
use dns_cache.Persistence.{QueryResult, load_all, load_rows}
use dns_cache.Main.{load_entries, start_cache}
use dns_cache.Main.System.{System, start_system, serves, saves, cleans, Run, idle, then_move}
use dns_cache.Main.System.Sound.{IsSound}
use dns_cache.Main.System.Start.{Run-IsSound_from_start}
use dns_cache.Tests.Fixtures.{Rr, lower_case, utc, noon}
use dns_cache.Tests.Refreshing.{hundredths}
use dns_cache.Tests.Restarting.{all_written, has_database}
use dns_cache.Tests.Saving.{wire}
use dns_cache.Tests.Sorting.{insertion}
use dns_cache.Tests.Upstream.{half_down, asked_c, readings}

abbrev no_rows : QueryResult (Msg Rr) ℕ
no_rows = record { query_err = none; rows = []; rows_err = none }

abbrev begin : System Rr (Msg Rr)
begin = start_system lower_case wire utc default_config noon noon noon no_rows []

-- The cache is empty when the first request comes.
abbrev first : Readings Rr
first = record readings { range = [] }

nothing_yet :
    (q : Question) (qs : List Question)
    → asked_c.question ≡ q ∷ qs
    → IsRange []
        (get utc noon noon (key lower_case q.name q.qtype) (incr_queries begin.cache)).0.entries
unfolding start_system start_cache load_all load_rows load_entries new get incr_queries lookup
nothing_yet q qs asks = record { once = tt; found = tt; complete = refl }

first-IsTimely : IsTimely first
first-IsTimely = record {
  get_early = omega arith;
  set_early = omega arith;
  stale_early = omega arith;
}

abbrev ExampleRun : System Rr (Msg Rr) → System Rr (Msg Rr) → Type 0
ExampleRun = Run lower_case wire utc default_config ℕ hundredths (insertion (Candidate Rr))

-- The state at the end of the run
abbrev morning : (s : System Rr (Msg Rr)) × ExampleRun begin s
morning = (
  _,
  then_move
      (then_move
        (then_move idle
          (serves false first none half_down asked_c begin first-IsTimely nothing_yet))
        (saves all_written (noon + 30 * second) _ has_database))
      (cleans none (noon + 3600 * second) _ has_database (omega arith)),
)

Run-IsSound_from_start_example : IsSound lower_case wire utc default_config (pos 10000) morning.0
Run-IsSound_from_start_example =
    Run-IsSound_from_start lower_case wire utc default_config noon noon noon no_rows [] tt tt
      (λ row m. absurd m) (omega arith) hundredths (insertion (Candidate Rr)) morning.0 morning.1
