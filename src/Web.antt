-- ===== src/Web.antt =====
-- The web page (web/server.go): which handler answers a path, and what it sends. The text of the
-- page and the JSON of the figures are parameters.
pub mod Bars
pub mod Life
use mathlib.Core.Logic.{ite, if_pos, if_neg}
use dns_cache.Prelude.{ℕ, ◌≡◌, ◌≢◌, ap, ◌∙◌, ◌⊎◌, inl, inr}
use dns_cache.Prelude.Decimal.{Bytes, Bytes-discrete, codes}
use dns_cache.Stats.Snapshot.{StatsSnapshot}

pub record Response : Type 0 where
  pub status : ℕ
  pub content_type : Bytes
  pub body : Bytes

-- `tmpl.Execute`, the encoder of JSON, and `http.NotFound`
pub record Pages (F : Type 0) : Type 0 where
  pub html : StatsSnapshot F → Bytes
  pub json : StatsSnapshot F → Bytes
  pub not_found : Response
  pub status-not_found : not_found.status ≡ 404

module _ {F : Type 0} (pages : Pages F) where
  -- `dashboard`
  unfoldable pub dashboard : Bytes → StatsSnapshot F → Response
  dashboard path snap =
      ite (Bytes-discrete path (codes "/"))
        (record {
          status = 200;
          content_type = codes "text/html; charset=utf-8";
          body = Pages.html pages snap;
        })
        (Pages.not_found pages)

  -- `apiStats`
  unfoldable pub api_stats : StatsSnapshot F → Response
  api_stats snap = record {
    status = 200;
    content_type = codes "application/json";
    body = Pages.json pages snap;
  }

  -- The routes that `Start` registers: a pattern without a slash at its end is that path alone, and
  -- "/" is every other path.
  unfoldable pub answer_path : Bytes → StatsSnapshot F → Response
  unfolding dashboard api_stats
  answer_path path snap =
      ite (Bytes-discrete path (codes "/api/stats")) (api_stats snap) (dashboard path snap)

  -- A path is answered with the figures if it is "/", as the page, or "/api/stats", as JSON, and
  -- with the code 404 otherwise.
  pub answer_path-pages :
      (path : Bytes) (snap : StatsSnapshot F)
      → ((path ≡ codes "/")
          × ((answer_path path snap).status ≡ 200)
          × ((answer_path path snap).body ≡ Pages.html pages snap))
        ⊎ ((path ≡ codes "/api/stats")
            × ((answer_path path snap).status ≡ 200)
            × ((answer_path path snap).body ≡ Pages.json pages snap))
        ⊎ ((path ≢ codes "/")
            × (path ≢ codes "/api/stats")
            × ((answer_path path snap).status ≡ 404))
  unfolding answer_path dashboard api_stats
  answer_path-pages path snap = elim (Bytes-discrete path (codes "/api/stats")) [
    | yes p ↦
        let sent =
          if_pos (Bytes-discrete path (codes "/api/stats")) p (api_stats snap)
            (dashboard path snap) in
        inr (inl (p, ap (λ (r : Response). r.status) sent, ap (λ (r : Response). r.body) sent))
    | no p ↦
        let passed =
          if_neg (Bytes-discrete path (codes "/api/stats")) p (api_stats snap)
            (dashboard path snap) in
        elim (Bytes-discrete path (codes "/")) [
          | yes q ↦
              let sent = passed ∙ if_pos (Bytes-discrete path (codes "/")) q _ _ in
              inl (q, ap (λ (r : Response). r.status) sent, ap (λ (r : Response). r.body) sent)
          | no q ↦
              let sent = passed ∙ if_neg (Bytes-discrete path (codes "/")) q _ _ in
              inr (inr (q, p, ap (λ (r : Response). r.status) sent ∙ Pages.status-not_found pages))
        ]
  ]
