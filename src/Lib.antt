-- ===== src/Lib.antt =====
-- Knievel, an ad server: a snapshot of every project's configuration is kept in memory, a decision
-- picks ads from it and signs their impression and click URLs, and the hits on those URLs come back as
-- events. The files follow the program's parts.
--
-- Base: lists, integers, UTF-8 text as its bytes, byte strings, results, association lists for
--   HashMap. Numbers are natural numbers; i64 and u64 are converted where the code converts them, and
--   the wrap-around of the nonce is written out.
-- Selection (src/selection.rs): `filter_candidates` is `filter`, then `priority` and `weighted_random`.
--   The rounds of the draw are counted down from `count.min(candidates.len() as u32)`, so the loop ends
--   by structural recursion. `StdRng` is a parameter with the law that a roll is below its bound.
-- Hmac (src/hmac.rs): the record of a payload, `sign`, `verify`, and the keys cut from an HMAC. Base64
--   and HMAC-SHA256 are parameters; their laws are those of `IsLawful`. The assertion that a project id
--   has at most 255 bytes is a result `none`.
-- Auth (src/auth/role.rs, src/auth/principal.rs), Auth.Opaque (src/auth/opaque.rs, opaque tokens
--   without their hashes) and Auth.Tenancy (src/handlers.rs, src/db.rs and the policy in
--   migrations/0002_tenants.sql): who may open a transaction, and which project rows it sees.
--   The database is its projects table and the statements that it answers.
-- Auth.Jwt (src/auth/jwt.rs, and the issuers of src/config.rs) and Auth.Bearer (src/auth/security.rs):
--   the checks of a JWT, the cache of key sets, and from a bearer token to a principal. Base64, serde,
--   jsonwebtoken and argon2 are parameters.
-- Tokens (src/tokens.rs, src/audit.rs): minting, listing and revoking tokens, on the table that
--   Auth.Bearer reads and the audit log.
-- Snapshot (src/snapshot.rs): the store, the load and the refresh loop. What each query answers is a
--   parameter, and the loop is over the list of what its ticks are answered.
-- Decisions (src/decisions.rs, src/rendering.rs): Parts has the helpers, Serve the loop over the picks
--   of a placement, Decide `decide_pure`, and Handler the HTTP handler with its audit row and its
--   events, and Explain the explainer's handler. Loops are recursion on the lists of picks and
--   placements. Liquid, the hash builder, SHA-256, the clock and JSON values are parameters. A panic
--   is the result `panicked`.
-- Events (src/events.rs): the bounded channel and the flusher, whose `select!` is a data type of turns.
-- Endpoints (src/event_endpoints.rs): the impression and click endpoints.
-- Pagination (src/pagination.rs): the limit and the cursor of a list request; base64 and the JSON form
--   of a cursor are parameters.
-- Sql (src/sql.rs) and Batch (src/batch.rs): the classes of database errors, the details of a batch,
--   and `run_batch_with_savepoints` on a transaction with its savepoints (Batch.Savepoints).
-- Inventory (migrations/0006_demand.sql, migrations/0007_inventory.sql): the project-scoped tables as
--   lists of rows, and the statements of the handlers on them, under the tables' policy. The ids of the
--   sequence, the etags, the clock, failures of statements and of the commit are parameters.
--   Handlers has create, list, get, update and batch upsert, which the resources write alike, over a
--   `Resource` that says what differs; its walk is a client that follows the cursors, with fuel for its
--   requests.
-- Sites (src/sites.rs), Zones (src/zones.rs), Campaigns (src/campaigns.rs), Flights (src/flights.rs),
--   Advertisers (src/advertisers.rs) and Ads (src/ads.rs): the resources, the sites' upsert by URL and
--   the flights' check of ad types. The tables that they refer to and the casts of dates are parameters.
-- Tables: the six tables of these resources together, and any call that writes one of them.
-- Config (src/config.rs): `interpolate_env`, whose loop passes over the bytes of a match by a counter.
-- Idempotency (src/idempotency.rs) and Etag (src/etag.rs): the store of answers by `Idempotency-Key`,
--   and `If-Match`.
-- Orgs (src/orgs.rs) and Taxonomy (src/taxonomy.rs): `create_project` on the tables that it writes,
--   and the handlers that read them. JSON and SHA-256 are parameters.
-- Rollup (src/rollup.rs): `run_once` on the tables that it reads and writes. Which transaction commits
--   is a parameter, and the loop's fuel is the number of hours up to its target.
-- Partitions (src/partitions.rs): the names of the daily leaves by `ymd_from_epoch` (Civil and Names
--   have its laws), and `run_once` on the catalog of leaves. A decimal has at most ten digits.
-- Leader (src/leader.rs): all instances of the program as a step relation around the advisory lock,
--   which a connection of an instance's pool holds. A parameter of the steps says whether queries fail
--   on live connections too, whose session then leaves the lock with a connection of the pool.
-- Examples: a small deployment at which the theorems are applied.
--
-- A decision reads the snapshot through Selection, signs through Hmac and sends to the channel of
-- Events; a hit is verified by Hmac under the secret of the snapshot's project and goes to the same
-- channel; both routes to a project's rows pass Auth.Tenancy, and so does every handler of the
-- resources. The rollup reads the events that the flusher writes, under the leader's flag.
--
-- Not modelled: the handlers of creatives, templates and the ad library, and the server's start-up,
-- configuration beyond its interpolation, logging and input/output.
pub mod Base
pub mod Selection
pub mod Hmac
pub mod Auth
pub mod Snapshot
pub mod Events
pub mod Decisions
pub mod Endpoints
pub mod Rollup
pub mod Partitions
pub mod Sql
pub mod Batch
pub mod Inventory
pub mod Sites
pub mod Zones
pub mod Advertisers
pub mod Campaigns
pub mod Ads
pub mod Flights
pub mod Tokens
pub mod Leader
pub mod Examples
pub mod Pagination
pub mod Idempotency
pub mod Orgs
pub mod Config
pub mod Etag
pub mod Tables
pub mod Taxonomy
