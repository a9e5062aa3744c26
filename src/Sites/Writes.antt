-- ===== src/Sites/Writes.antt =====
-- src/sites.rs: the calls that write sites, as the rows that they commit.
use knievel.Base.{Bool-cases, Option-cases, nat_eq, int_eq, Text, text_eq, refl, inl, inr}
use knievel.Base.Result.{Result-cases}
use knievel.Auth.{Principal, Role}
use knievel.Inventory.{Env, open_tx, select_one}
use knievel.Inventory.Rows.{open_tx-project}
use knievel.Inventory.Handlers.{insert_one}
use knievel.Inventory.Handlers.Writes.{Call, committed, IsKept, committed-keeps, insert_one→}
use knievel.Sites.{
  Sites, CreateSiteRequest, UpsertSiteByUrlRequest, UpdateSiteRequest, BatchUpsertSiteRow, sites,
  row_of_upsert, upsert_by_url, is_at,
}

-- A call that may write.
pub data SiteCall : Type 0 where
  handler_call : Call CreateSiteRequest UpdateSiteRequest BatchUpsertSiteRow → SiteCall
  upsert_call : UpsertSiteByUrlRequest → SiteCall

module _ (env : Env) (principal : Principal) (project : Text) where
  unfoldable pub site_committed : SiteCall → Sites → Sites
  site_committed (handler_call call) rows = committed sites env principal project call rows
  site_committed (upsert_call req) rows = (upsert_by_url env principal project req rows).0

  module _ (P : Sites → Type 0) where
    upsert_by_url-keeps :
        IsKept sites env principal project P
        → (req : UpsertSiteByUrlRequest) (rows : Sites) → P rows
        → P (upsert_by_url env principal project req rows).0
    unfolding upsert_by_url
    upsert_by_url-keeps kept req rows p =
        elim (Result-cases (open_tx env principal project Role.editor)) [
          | inr (e, f) ↦ rw (f, upsert_by_url) p
          | inl (tx, f) ↦ elim (Option-cases (env.answers 0)) [
            | inr (e, a) ↦ rw (f, a, upsert_by_url) p
            | inl a ↦ elim (Option-cases (select_one tx (is_at req.url) rows)) [
              | inr (site, s) ↦ rw (f, a, s, upsert_by_url) p
              | inl s ↦
                  elim (Result-cases (
                    insert_one sites env principal project 1 tx
                      (row_of_upsert env principal project req) rows)) [
                        | inr (e, g) ↦ rw (f, a, s, g, upsert_by_url) p
                        | inl (written, g) ↦ elim (Bool-cases env.commits) [
                          | inr c ↦ rw (f, a, s, g, c, upsert_by_url) p
                          | inl c ↦
                              rw (f, a, s, g, c, upsert_by_url)
                                (kept.inserted tx (row_of_upsert env principal project req) rows
                                  written (open_tx-project env principal project Role.editor f) refl
                                  (insert_one→ sites env principal project 1 tx
                                    (row_of_upsert env principal project req) rows g)
                                  p)
                        ]
                      ]
            ]
          ]
        ]

    pub site_committed-keeps :
        IsKept sites env principal project P
        → (call : SiteCall) (rows : Sites) → P rows
        → P (site_committed call rows)
    unfolding site_committed
    site_committed-keeps kept (handler_call call) rows p =
        committed-keeps sites env principal project P kept call rows p
    site_committed-keeps kept (upsert_call req) rows p = upsert_by_url-keeps kept req rows p
