-- ===== src/Tests/Shared.antt =====
-- A request for "c.it.", which is not in the cache, waits for the query of another.
use dns_cache.Prelude.{ℕ}
use dns_cache.Prelude.Decimal.{codes}
use dns_cache.Prelude.Int.{pos}
use dns_cache.Resolver.{Resolution, resolved}
use dns_cache.Tests.Fixtures.{Rr, reply}

abbrev answered : Resolution Rr ℕ
answered = resolved reply (codes "10.0.0.2:53") (pos 30)
