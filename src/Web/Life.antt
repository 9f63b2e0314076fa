-- ===== src/Web/Life.antt =====
-- The life of the web server (`New`, `Start` and `Stop` of web/server.go). A server of net/http
-- that was shut down does not listen any more, also when the goroutine of `Start` comes later.
use dns_cache.Prelude.{◌≡◌, refl, arith, Bool, true, false, ◌⊎◌, inl, inr, Option, none, some}

-- `Server`, for the field that `Start` sets; the goroutine that has yet to call `ListenAndServe`;
-- whether `Shutdown` was called; whether the port is listened on; and whether the goroutine has
-- printed an error
pub record WebServer : Type 0 where
  pub srv : Bool
  pub pending : Bool
  pub shut : Bool
  pub listening : Bool
  pub printed : Bool

-- `New`
abbrev pub new_web : WebServer
new_web = record { srv = false; pending = false; shut = false; listening = false; printed = false }

-- `Start`, which reports no error
abbrev pub start_server : WebServer → WebServer
start_server w = record w { srv = true; pending = true }

-- `Stop`
unfoldable pub stop_server : WebServer → WebServer
stop_server w = elim w.srv [ true ↦ record w { shut = true; listening = false } | false ↦ w ]

-- The goroutine: `ListenAndServe` reports `ErrServerClosed` after `Shutdown`, which is not printed.
unfoldable pub listen_and_serve : {Err : Type 0} → Option Err → WebServer → WebServer
listen_and_serve err w = elim w.shut [
  | true ↦ record w { pending = false }
  | false ↦ elim err [
    | none ↦ record w { pending = false; listening = true }
    | some e ↦ record w { pending = false; printed = true }
  ]
]

-- One start, and then the goroutine and `Stop` in any order
pub data WebRun (Err : Type 0) : WebServer → Type 0 where
  created : WebRun Err new_web
  started : (w : WebServer) → WebRun Err w → w.srv ≡ false → WebRun Err (start_server w)
  goroutine :
      (err : Option Err) (w : WebServer)
      → WebRun Err w
      → w.pending ≡ true
      → WebRun Err (listen_and_serve err w)
  stopped : (w : WebServer) → WebRun Err w → WebRun Err (stop_server w)

-- Whatever the order, the port is listened on only between `Start` and `Stop`: after a `Stop` that
-- follows `Start` nothing listens, nor will.
pub WebRun-listening :
    {Err : Type 0} {w : WebServer}
    → WebRun Err w
    → ((w.listening ≡ false) ⊎ ((w.srv ≡ true) × (w.shut ≡ false)))
      × ((w.srv ≡ true) ⊎ ((w.shut ≡ false) × (w.pending ≡ false)))
unfolding stop_server listen_and_serve
WebRun-listening created = (inl refl, inr (refl, refl))
WebRun-listening (started w r at) = let before = WebRun-listening r in ground (arith, before)
WebRun-listening (goroutine err w r at) = let before = WebRun-listening r in ground (arith, before)
WebRun-listening (stopped w r) = let before = WebRun-listening r in ground (arith, before)
