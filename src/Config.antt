-- ===== src/Config.antt =====
-- The configuration file's values (config.go): the defaults, `normalize`, and the durations that
-- the cache is given.
pub mod Bounds
pub mod Load
use dns_cache.Prelude.{ℕ, Bool, true, List, [], ◌∷◌, ◌||◌, if◌then◌else◌}
use dns_cache.Prelude.Decimal.{Bytes, codes}
use dns_cache.Prelude.Int.{ℤ, pos, ltb_ℤ, max_ℤ, min_ℤ}
use dns_cache.Time.{Duration, of_units, second}
use dns_cache.CacheConfig as Cache

pub record CacheSection : Type 0 where
  pub ttl_min : ℤ
  pub ttl_max : ℤ
  pub refresh_interval : ℤ
  pub stale_serving : Bool
  pub max_entries : ℤ
  pub max_age : ℤ
  pub keep_min_days : ℤ
  pub keep_window_days : ℤ

pub record Config : Type 0 where
  pub listen : Bytes
  pub upstreams : List Bytes
  pub cache : CacheSection
  pub db_path : Bytes
  pub cleanup_after : ℤ
  pub socket_path : Bytes
  pub web_listen : Bytes

-- `DefaultConfig`
abbrev pub default_config : Config
default_config = record {
  listen = codes ":53";
  upstreams = codes "1.1.1.1:53" ∷ codes "9.9.9.9:53" ∷ [];
  cache = record {
    ttl_min = pos 60;
    ttl_max = pos 86400;
    refresh_interval = pos 30;
    stale_serving = true;
    max_entries = pos 10000;
    max_age = pos 1800;
    keep_min_days = pos 2;
    keep_window_days = pos 7;
  };
  db_path = codes "/var/cache/dns-cache/cache.db";
  cleanup_after = pos 48;
  socket_path = codes "/var/run/dns-cache.sock";
  web_listen = codes ":8053";
}

-- The three steps of `normalize`, in order
unfoldable pub normalize_window : CacheSection → CacheSection
normalize_window cc =
    if ltb_ℤ cc.keep_window_days (pos 1) || ltb_ℤ (pos 32) cc.keep_window_days
    then record cc { keep_window_days = pos 7 }
    else cc

unfoldable pub normalize_min_days : CacheSection → CacheSection
normalize_min_days cc =
    if ltb_ℤ cc.keep_min_days (pos 1) || ltb_ℤ cc.keep_window_days cc.keep_min_days
    then record cc { keep_min_days = min_ℤ (max_ℤ cc.keep_min_days (pos 1)) cc.keep_window_days }
    else cc

unfoldable pub normalize_max_age : CacheSection → CacheSection
normalize_max_age cc = if ltb_ℤ cc.max_age (pos 0) then record cc { max_age = pos 0 } else cc

-- `normalize`
unfoldable pub normalize : Config → Config
unfolding normalize_window normalize_min_days normalize_max_age
normalize c = record c { cache = normalize_max_age (normalize_min_days (normalize_window c.cache)) }

-- `CacheTTLMin`, `CacheTTLMax`, `CacheRefreshInterval` and `CacheMaxAge`
abbrev pub cache_ttl_min : Config → Duration
cache_ttl_min c = of_units c.cache.ttl_min second

abbrev pub cache_ttl_max : Config → Duration
cache_ttl_max c = of_units c.cache.ttl_max second

abbrev pub cache_refresh_interval : Config → Duration
cache_refresh_interval c = of_units c.cache.refresh_interval second

abbrev pub cache_max_age : Config → Duration
cache_max_age c = of_units c.cache.max_age second

-- The configuration of the cache that `runServer` (main.go) builds
unfoldable pub cache_config : Config → Cache.Config
cache_config c = record {
  ttl_min = cache_ttl_min c;
  ttl_max = cache_ttl_max c;
  max_entries = c.cache.max_entries;
  stale_serving = c.cache.stale_serving;
  max_age = cache_max_age c;
  keep_min_days = c.cache.keep_min_days;
  keep_window_days = c.cache.keep_window_days;
}
