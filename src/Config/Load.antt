-- ===== src/Config/Load.antt =====
-- `LoadConfig` (config.go), `loadConfigOrDefault` and `getSocketPath` (main.go). The file system
-- and the YAML package are parameters.
use dns_cache.Prelude.{◌≡◌, refl, arith, Bool, ◌⊎◌, inl, inr, if◌then◌else◌, Bool-cases, sum-cases}
use dns_cache.Prelude.Decimal.{Bytes, codes}
use dns_cache.Config.{Config, default_config, normalize}
use dns_cache.Config.Bounds.{IsUsable, normalize-IsUsable}

-- `os.ReadFile`, `os.IsNotExist`, and `yaml.Unmarshal` over a configuration that is there
pub record Files (Err : Type 0) : Type 0 where
  pub read_file : Bytes → Err ⊎ Bytes
  pub is_not_exist : Err → Bool
  pub unmarshal : Bytes → Config → Err ⊎ Config

-- A step after which the program goes on, or `log.Fatalf` ends it
pub data Started (Err A : Type 0) : Type 0 where
  exits : Err → Started Err A
  goes : A → Started Err A

default-IsUsable : IsUsable default_config.cache
default-IsUsable = record {
  window_least = omega arith;
  window_most = omega arith;
  days_least = omega arith;
  days_most = omega arith;
  age_least = omega arith;
}

pub Started-cases :
    {Err A : Type 0} (s : Started Err A)
    → ((err : Err) × (s ≡ exits err)) ⊎ ((a : A) × (s ≡ goes a))
Started-cases (exits err) = inl (err, refl)
Started-cases (goes a) = inr (a, refl)

module _ {Err : Type 0} (files : Files Err) where
  -- `LoadConfig`
  unfoldable pub load_config : Bytes → Err ⊎ Config
  unfolding normalize
  load_config path = elim (Files.read_file files path) [
    | inl err ↦ inl err
    | inr text ↦ elim (Files.unmarshal files text default_config) [
      | inl err ↦ inl err
      | inr cfg ↦ inr (normalize cfg)
    ]
  ]

  -- `loadConfigOrDefault`
  unfoldable pub load_config_or_default : Bytes → Started Err Config
  unfolding load_config
  load_config_or_default path = elim (load_config path) [
    | inl err ↦ if Files.is_not_exist files err then goes default_config else exits err
    | inr cfg ↦ goes cfg
  ]

  -- `getSocketPath`
  unfoldable pub get_socket_path : Bytes → Bytes
  unfolding load_config
  get_socket_path path = elim (load_config path) [
    | inl err ↦ codes "/var/run/dns-cache.sock"
    | inr cfg ↦ cfg.socket_path
  ]

  load_config-IsUsable :
      (path : Bytes) (cfg : Config) → load_config path ≡ inr cfg → IsUsable cfg.cache
  unfolding load_config
  load_config-IsUsable path cfg h = elim (sum-cases (Files.read_file files path)) [
    | inl (err, bad) ↦
        let clash : inl err ≡ inr cfg = rw (load_config, bad) at h in absurd (ground arith)
    | inr (text, read) ↦ elim (sum-cases (Files.unmarshal files text default_config)) [
      | inl (err, bad) ↦
          let clash : inl err ≡ inr cfg = rw (load_config, read, bad) at h in absurd (ground arith)
      | inr (raw, parsed) ↦
          let made : inr (normalize raw) ≡ inr cfg = rw (load_config, read, parsed) at h in
          let same : normalize raw ≡ cfg = ground arith in rw (← same) (normalize-IsUsable raw)
    ]
  ]

  -- Whatever the file holds, the program either ends or goes on with a configuration whose days of
  -- use and greatest age the cache can work with, and the client that shows the counters connects
  -- to the socket of that configuration.
  pub load_config_or_default-IsUsable :
      (path : Bytes) (cfg : Config)
      → load_config_or_default path ≡ goes cfg
      → IsUsable cfg.cache × (get_socket_path path ≡ cfg.socket_path)
  unfolding load_config_or_default get_socket_path
  load_config_or_default-IsUsable path cfg h = elim (sum-cases (load_config path)) [
    | inl (err, bad) ↦ elim (Bool-cases (Files.is_not_exist files err)) [
      | inl gone ↦
          let made : goes default_config ≡ goes cfg = rw (load_config_or_default, bad, gone) at h in
          let same : default_config ≡ cfg = ground arith in
          rw (← same) (default-IsUsable, rw (get_socket_path, bad) refl)
      | inr other ↦
          let clash : exits err ≡ goes cfg = rw (load_config_or_default, bad, other) at h in
          absurd (ground arith)
    ]
    | inr (found, good) ↦
        let made : goes found ≡ goes cfg = rw (load_config_or_default, good) at h in
        let same : found ≡ cfg = ground arith in
        rw (← same) (load_config-IsUsable path found good, rw (get_socket_path, good) refl)
  ]
