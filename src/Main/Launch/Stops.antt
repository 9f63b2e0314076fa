-- ===== src/Main/Launch/Stops.antt =====
-- `runServer` stops what it started, in the reverse order.
use dns_cache.Prelude.{
  ◌≡◌, refl, ◌∙◌, Bool, true, false, ◌⊎◌, inl, inr, List, [], ◌∷◌, ◌++◌, none, some, All,
  Option-cases,
}
use dns_cache.Prelude.Decimal.{Bytes}
use dns_cache.Prelude.Int.{pos, ltb_ℤ}
use dns_cache.Config.{Config}
use dns_cache.Config.Load.{Files, exits, goes, Started-cases, load_config_or_default}
use dns_cache.Main.Launch.{
  Part, Event, End, Exit, World, database, loops, refresher, stats_socket, web_page, starts, serves,
  stops, failed, returned, signalled, fatal, orderly, start_persistence, start_stats, start_web,
  serve_all, run_server, same_part, running, IsStop,
}

-- A part of the program that starts and stops the parts `ps`, whatever runs before
record Brackets (p : List Event × List Event) (ps : List Part) : Type 0 where
  opens : (es : List Event) (up : List Part) → running (p.0 ++ es) up ≡ running es (ps ++ up)
  closes : (es : List Event) (up : List Part) → running (p.1 ++ es) (ps ++ up) ≡ running es up
  ends : running p.1 (ps ++ []) ≡ some []
  quiet : (es : List Event) → All (λ e. ¬ IsStop e) es → All (λ e. ¬ IsStop e) (p.0 ++ es)

no_part-Brackets : Brackets ([], []) []
no_part-Brackets = record {
  opens = λ es up. refl;
  closes = λ es up. refl;
  ends = refl;
  quiet = λ es a. a;
}

one_part-Brackets :
    (q : Part) → same_part q q ≡ true → Brackets (starts q ∷ [], stops q ∷ []) (q ∷ [])
one_part-Brackets q h = record {
  opens = λ es up. refl;
  closes = λ es up. rw h refl;
  ends = rw h refl;
  quiet = λ es a. (λ f. f, a);
}

start_web-Brackets : (cfg : Config) → (ps : List Part) × Brackets (start_web cfg) ps
unfolding start_web
start_web-Brackets cfg = by_listen cfg.web_listen
  where
    by_listen :
        (l : Bytes)
        → (ps : List Part) × Brackets
            (elim l [ [] ↦ ([], []) | c ∷ rest ↦ (starts web_page ∷ [], stops web_page ∷ []) ])
            ps
    by_listen [] = ([], no_part-Brackets)
    by_listen (c ∷ rest) = (web_page ∷ [], one_part-Brackets web_page refl)

same_loops : (b : Bool) → same_part (loops b) (loops b) ≡ true
same_loops true = refl
same_loops false = refl

End-cases :
    {Err : Type 0} (e : End Err)
    → ((err : Err) × (e ≡ failed err)) ⊎ (e ≡ returned) ⊎ (e ≡ signalled)
End-cases (failed err) = inl (err, refl)
End-cases returned = inr (inl refl)
End-cases signalled = inr (inr refl)

-- How a run may end
abbrev Stopped : {Err : Type 0} → List Event × Exit Err → Type 0
Stopped {Err} (events, exit) =
    ((exit ≡ orderly) × (running events [] ≡ some []))
    ⊎ ((err : Err) × (exit ≡ fatal err) × All (λ e. ¬ IsStop e) events)

module _ {Err : Type 0} where
  start_stats-Brackets :
      (w : World Err) (cfg : Config) → (ps : List Part) × Brackets (start_stats w cfg) ps
  unfolding start_stats
  start_stats-Brackets w cfg = by_path cfg.socket_path
    where
      by_path :
          (l : Bytes)
          → (ps : List Part) × Brackets
              (elim l [
                | [] ↦ ([], [])
                | c ∷ rest ↦ elim (World.stats_err w) [
                  | some err ↦ ([], [])
                  | none ↦ (starts stats_socket ∷ [], stops stats_socket ∷ [])
                ]
              ])
              ps
      by_path [] = ([], no_part-Brackets)
      by_path (c ∷ rest) = elim (Option-cases (World.stats_err w)) [
        | inr (err, bad) ↦ rw bad ([], no_part-Brackets)
        | inl fine ↦ rw fine (stats_socket ∷ [], one_part-Brackets stats_socket refl)
      ]

  start_persistence-Brackets :
      (w : World Err) (cfg : Config)
      → ((err : Err) × (start_persistence w cfg ≡ exits err))
        ⊎ ((p : List Event × List Event) × (ps : List Part) × (start_persistence w cfg ≡ goes p)
            × Brackets p ps)
  unfolding start_persistence
  start_persistence-Brackets w cfg = by_path cfg.db_path refl
    where
      by_path :
          (l : Bytes)
          → cfg.db_path ≡ l
          → ((err : Err) × (start_persistence w cfg ≡ exits err))
            ⊎ ((p : List Event × List Event) × (ps : List Part) × (start_persistence w cfg ≡ goes p)
                × Brackets p ps)
      by_path [] at = inr (([], []), [], simp (start_persistence, at) refl, no_part-Brackets)
      by_path (c ∷ rest) at = elim (Option-cases (World.open_err w (c ∷ rest))) [
        | inr (err, bad) ↦ inl (err, simp (start_persistence, at, bad) refl)
        | inl fine ↦
            let b : Bool = ltb_ℤ (pos 0) cfg.cleanup_after in
            inr (
              (starts database ∷ starts (loops b) ∷ [], stops (loops b) ∷ stops database ∷ []),
              loops b ∷ database ∷ [],
              simp (start_persistence, at, fine) refl,
              record {
                opens = λ es up. refl;
                closes = λ es up. rw (same_loops b) refl;
                ends = rw (same_loops b) refl;
                quiet = λ es a. (λ f. f, (λ f. f, a));
              },
            )
      ]

  serve_all-stops :
      (w : World Err) (cfg : Config) (p : List Event × List Event) (ps : List Part)
      → Brackets p ps
      → Stopped (serve_all w cfg p)
  unfolding serve_all
  serve_all-stops w cfg (opened, closed) ps b =
      let (ss, s) = start_stats-Brackets w cfg in
      let (ws, g) = start_web-Brackets cfg in
      let up : List Event → List Event = λ rest.
        opened
        ++ (starts refresher ∷ ((start_stats w cfg).0 ++ ((start_web cfg).0 ++ (serves ∷ rest)))) in
      let down : List Event =
        (start_web cfg).1 ++ ((start_stats w cfg).1 ++ (stops refresher ∷ closed)) in
      let ordered : running (up down) [] ≡ some [] =
        b.opens _ [] ∙ s.opens _ _ ∙ g.opens _ _ ∙ g.closes _ _ ∙ s.closes _ _ ∙ b.ends in
      let quiet : All (λ e. ¬ IsStop e) (up []) =
        b.quiet _ (λ f. f, s.quiet _ (g.quiet _ (λ f. f, tt))) in
      elim (End-cases (World.ended w)) [
        | inl (err, bad) ↦ rw (serve_all, bad) (inr (err, refl, quiet))
        | inr (inl e) ↦ rw (serve_all, e) (inl (refl, ordered))
        | inr (inr e) ↦ rw (serve_all, e) (inl (refl, ordered))
      ]

  -- The program returns from `runServer` after it has stopped every part it started, each one
  -- before those that were started before it, so that the loops have ended when the database is
  -- closed; or it ends with an error, and then it has stopped nothing.
  pub run_server-stops :
      (w : World Err) (files : Files Err) (path : Bytes)
      → (((run_server w files path).1 ≡ orderly)
          × (running (run_server w files path).0 [] ≡ some []))
        ⊎ ((err : Err) × ((run_server w files path).1 ≡ fatal err)
            × All (λ e. ¬ IsStop e) (run_server w files path).0)
  unfolding run_server
  run_server-stops w files path = elim (Started-cases (load_config_or_default files path)) [
    | inl (err, bad) ↦ rw (run_server, bad) (inr (err, refl, tt))
    | inr (cfg, good) ↦ elim (start_persistence-Brackets w cfg) [
      | inl (err, bad) ↦ rw (run_server, good, bad) (inr (err, refl, tt))
      | inr (p, ps, fine, b) ↦ rw (run_server, good, fine) (serve_all-stops w cfg p ps b)
    ]
  ]
