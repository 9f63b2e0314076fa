-- ===== src/Main/Launch.antt =====
-- The order in which `runServer` of main.go starts and stops its parts. Its deferred calls run when
-- it returns, the last one first; `log.Fatalf` ends the program without them.
pub mod Stops
use dns_cache.Prelude.{
  ◌≡◌, refl, sym, ap, ◌∙◌, arith, Bool, true, false, ◌&&◌, not, ◌⊎◌, inl, inr, List, [], ◌∷◌, ◌++◌,
  Option, none, some, All, if◌then◌else◌, Bool-cases, Option-cases,
}
use dns_cache.Prelude.Decimal.{Bytes}
use dns_cache.Prelude.Int.{pos, ltb_ℤ}
use dns_cache.Config.{Config}
use dns_cache.Config.Load.{Files, Started, exits, goes, Started-cases, load_config_or_default}

-- What is started: the database, the loops over it (with `cleanupLoop` or without), the refresher,
-- the statistics socket and the web page
pub data Part : Type 0 where
  database : Part
  loops : Bool → Part
  refresher : Part
  stats_socket : Part
  web_page : Part

pub data Event : Type 0 where
  starts : Part → Event
  serves : Event
  stops : Part → Event

-- How the listeners end: an error, the end without an error, or a signal
pub data End (Err : Type 0) : Type 0 where
  failed : Err → End Err
  returned : End Err
  signalled : End Err

pub data Exit (Err : Type 0) : Type 0 where
  fatal : Err → Exit Err
  orderly : Exit Err

-- What the world answers: to `NewPersistence`, to the start of the socket, and to the listeners
pub record World (Err : Type 0) : Type 0 where
  pub open_err : Bytes → Option Err
  pub stats_err : Option Err
  pub ended : End Err

-- The web page; its `Start` returns no error.
unfoldable pub start_web : Config → List Event × List Event
start_web cfg = elim cfg.web_listen [
  | [] ↦ ([], [])
  | c ∷ rest ↦ (starts web_page ∷ [], stops web_page ∷ [])
]

abbrev pub same_part : Part → Part → Bool
same_part database database = true
same_part (loops true) (loops true) = true
same_part (loops false) (loops false) = true
same_part refresher refresher = true
same_part stats_socket stats_socket = true
same_part web_page web_page = true
same_part _ _ = false

-- The parts that run after the events, the last one started first. An event may stop only that one.
abbrev pub running : List Event → List Part → Option (List Part)
running [] up = some up
running (starts p ∷ es) up = running es (p ∷ up)
running (serves ∷ es) up = running es up
running (stops p ∷ es) [] = none
running (stops p ∷ es) (q ∷ up) = let rest = running es up in if same_part p q then rest else none

abbrev pub IsStop : Event → Type 0
IsStop (starts p) = ⊥
IsStop serves = ⊥
IsStop (stops p) = Unit

module _ {Err : Type 0} where
  -- The block of the database: what it starts, and what its deferred call stops
  unfoldable pub start_persistence : World Err → Config → Started Err (List Event × List Event)
  start_persistence w cfg = elim cfg.db_path [
    | [] ↦ goes ([], [])
    | c ∷ rest ↦ elim (World.open_err w (c ∷ rest)) [
      | some err ↦ exits err
      | none ↦
          let over = loops (ltb_ℤ (pos 0) cfg.cleanup_after) in
          goes (starts database ∷ starts over ∷ [], stops over ∷ stops database ∷ [])
    ]
  ]

  -- The statistics socket, whose error is only printed
  unfoldable pub start_stats : World Err → Config → List Event × List Event
  start_stats w cfg = elim cfg.socket_path [
    | [] ↦ ([], [])
    | c ∷ rest ↦ elim (World.stats_err w) [
      | some err ↦ ([], [])
      | none ↦ (starts stats_socket ∷ [], stops stats_socket ∷ [])
    ]
  ]

  -- The rest of `runServer` after the block of the database
  unfoldable pub serve_all : World Err → Config → List Event × List Event → List Event × Exit Err
  unfolding start_stats start_web
  serve_all w cfg (opened, closed) =
      let (socket, no_socket) = start_stats w cfg in
      let (page, no_page) = start_web cfg in
      let up : List Event → List Event =
        λ rest. opened ++ (starts refresher ∷ (socket ++ (page ++ (serves ∷ rest)))) in
      let down = no_page ++ (no_socket ++ (stops refresher ∷ closed)) in
      elim (World.ended w) [
        | failed err ↦ (up [], fatal err)
        | returned ↦ (up down, orderly)
        | signalled ↦ (up down, orderly)
      ]

  -- `runServer`
  unfoldable pub run_server : World Err → Files Err → Bytes → List Event × Exit Err
  unfolding load_config_or_default start_persistence serve_all
  run_server w files path = elim (load_config_or_default files path) [
    | exits err ↦ ([], fatal err)
    | goes cfg ↦ elim (start_persistence w cfg) [
      | exits err ↦ ([], fatal err)
      | goes part ↦ serve_all w cfg part
    ]
  ]
