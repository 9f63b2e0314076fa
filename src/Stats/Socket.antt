-- ===== src/Stats/Socket.antt =====
-- The life of the statistics socket (`Start` and `Stop` of stats/server.go).
pub mod Client
use dns_cache.Prelude.{
  ◌≡◌, refl, Bool, true, false, ◌⊎◌, inl, inr, Option, none, some, if◌then◌else◌, Option-cases,
}

-- `Server`, for the field that `Start` sets: whether it holds a listener
pub record Server : Type 0 where
  pub listener : Bool

-- What the system holds for the path: the socket's file, and an open listener
pub record Socket : Type 0 where
  pub file : Bool
  pub listening : Bool

-- What the calls of `Start` report
pub record Calls (Err : Type 0) : Type 0 where
  pub resolve_err : Option Err
  pub listen_err : Option Err
  pub chmod_err : Option Err

-- `os.Remove` of the path
abbrev pub remove_file : Socket → Socket
remove_file o = record o { file = false }

-- `net.ListenUnix`, which makes the file, and `Close`, which removes it
abbrev pub listen : Socket → Socket
listen o = record { file = true; listening = true }

abbrev pub close : Socket → Socket
close o = record { file = false; listening = false }

-- `Start`
unfoldable pub start : {Err : Type 0} → Calls Err → Server × Socket → (Server × Socket) × Option Err
start calls (s, o) =
    let free = remove_file o in
    elim (Calls.resolve_err calls) [
      | some err ↦ ((s, free), some err)
      | none ↦ elim (Calls.listen_err calls) [
        | some err ↦ ((s, free), some err)
        | none ↦ elim (Calls.chmod_err calls) [
          | some err ↦ ((s, close (listen free)), some err)
          | none ↦ ((record s { listener = true }, listen free), none)
        ]
      ]
    ]

-- `Stop`
unfoldable pub stop : Server × Socket → Server × Socket
stop (s, o) = if s.listener then (s, remove_file (close o)) else (s, o)

-- No listener is left, nor a file.
abbrev pub IsClean : Socket → Type 0
IsClean o = (o.listening ≡ false) × (o.file ≡ false)

-- Whatever file an earlier run has left at the path, `Start` either reports an error and leaves
-- neither a listener nor a file, or it listens, and then `Stop` leaves neither. (Nothing listens
-- at the path before.)
pub start-IsClean :
    {Err : Type 0} (calls : Calls Err) (o : Socket)
    → o.listening ≡ false
    → ((err : Err) × ((start calls (record { listener = false }, o)).1 ≡ some err)
        × IsClean (start calls (record { listener = false }, o)).0.1)
      ⊎ (((start calls (record { listener = false }, o)).1 ≡ none)
          × ((start calls (record { listener = false }, o)).0.1.listening ≡ true)
          × IsClean (stop (start calls (record { listener = false }, o)).0).1)
unfolding start stop
start-IsClean calls o quiet = elim (Option-cases (Calls.resolve_err calls)) [
  | inr (err, bad) ↦ rw (start, bad) (inl (err, refl, (quiet, refl)))
  | inl resolved ↦ elim (Option-cases (Calls.listen_err calls)) [
    | inr (err, bad) ↦ rw (start, resolved, bad) (inl (err, refl, (quiet, refl)))
    | inl listens ↦ elim (Option-cases (Calls.chmod_err calls)) [
      | inr (err, bad) ↦ rw (start, resolved, listens, bad) (inl (err, refl, (refl, refl)))
      | inl open_to_all ↦
          rw (start, resolved, listens, open_to_all) (inr (refl, refl, (refl, refl)))
    ]
  ]
]
