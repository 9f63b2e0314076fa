-- ===== src/Handler/Serve/Shared.antt =====
-- A request that waits for the query of another (`inflight.Do` in `ServeDNS`).
use mathlib.Core.Option
use dns_cache.Prelude.{◌≡◌}
use dns_cache.Prelude.Decimal.{Bytes}
use dns_cache.Dns.{Dns}
use dns_cache.Cache.{Cache, find}
use dns_cache.Cache.Reads.{answer}

-- Every answer stored, under any key, is the one stored before, and no other is.
abbrev pub KeepsAnswers : {RR : Type 0} → Cache RR → Cache RR → Type 0
KeepsAnswers c d = (j : Bytes) → Option.map answer (find j d) ≡ Option.map answer (find j c)
