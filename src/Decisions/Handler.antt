-- ===== src/Decisions/Handler.antt =====
-- src/decisions.rs: the handler of `POST /v1/projects/:project_id/decisions`. The hash of a request
-- body and the clock are parameters; what the database answers to the audit's statements is state.
pub mod Laws
use mathlib.Core.Option
use knievel.Base.{
  ltb, if◌then◌else◌, nat_eq, ℤ, int_eq, length, any, is_empty, Text, text, text_eq, ℕ, Bool, true,
  false, not, Option, none, some, List, [], ◌∷◌, ◌++◌,
}
use knievel.Base.Assoc.{get}
use knievel.Base.Result.{Result, ok, err}
use knievel.Auth.{Principal, Role}
use knievel.Auth.Tenancy.{
  AuthzError, wrong_tenant, wrong_project, role_insufficient, internal, Database, open_project_tx,
}
use knievel.Snapshot.{ProjectSnapshot, Snapshot}
use knievel.Events.{Event, Channel, try_send}
use knievel.Decisions.{
  DecisionPlacement, DecisionsRequest, DecisionsResponse, DecideOutcome, DecideError,
  placements_required, too_many_placements, ad_types_required, panicked, refused, Crates, Call,
}
use knievel.Decisions.Parts.{force_gate}
use knievel.Decisions.Decide.{decide_pure}

pub data DecisionsResp (J : Type 0) : Type 0 where
  responded : DecisionsResponse J → DecisionsResp J
  bad_request : Text → DecisionsResp J
  forbidden : Text → DecisionsResp J
  unavailable : Text → DecisionsResp J
  -- The assertion in `pack_record` unwinds the handler.
  aborted : DecisionsResp J

-- A row of `knievel.audit_log` with the operation 'force.honored'.
pub record AuditRow : Type 0 where
  pub org_id : Text
  pub project_id : Text
  pub actor : Text
  pub payload_hash : List ℕ

-- The application's state, and what the audit's statements are answered.
pub record AppState (J : Type 0) : Type 0 where
  pub db : Option Database
  pub snapshot : Snapshot J
  pub force_overrides_enabled : Bool
  pub events : Option Channel
  pub audit_inserts : Bool
  pub audit_commits : Bool
  pub audit_log : List AuditRow

unfoldable pub code : DecideError → Text
code placements_required = text "placements_required"
code too_many_placements = text "too_many_placements"
code ad_types_required = text "ad_types_required"

unfoldable pub authz_code : AuthzError → Text
authz_code wrong_tenant = text "wrong_tenant"
authz_code wrong_project = text "wrong_project"
authz_code role_insufficient = text "role_insufficient"
authz_code internal = text "internal_error"

-- The channel behind the sends, and whether all of them went through.
unfoldable pub drain_to_sender : Channel → List Event → Channel × Bool
unfolding try_send
drain_to_sender ch [] = (ch, true)
drain_to_sender ch (e ∷ es) =
    let (next, failure) = try_send ch e in
    let rest = drain_to_sender next es in elim failure [ none ↦ rest | some error ↦ (next, false) ]

unfoldable pub requests_force : DecisionsRequest → Bool
requests_force req =
    any (λ (p : DecisionPlacement). elim p.force [ none ↦ false | some f ↦ true ]) req.placements

-- The audit row and the commit of its transaction, which comes next: the log, or the error's code.
unfoldable pub audit_force_honored :
    {J : Type 0}
    → (DecisionsRequest → Option (List ℕ))
    → AppState J
    → Principal
    → Text
    → DecisionsRequest
    → Result Text (List AuditRow)
audit_force_honored body_hash state principal project_id req = elim (body_hash req) [
  | none ↦ err (text "internal_error")
  | some h ↦
      if not state.audit_inserts
      then err (text "db_error")
      else if not state.audit_commits
      then err (text "db_error")
      else ok (
          state.audit_log
          ++ (record {
            org_id = principal.org_id;
            project_id = project_id;
            actor = principal.actor_id;
            payload_hash = h;
          }
              ∷ []))
]

-- The events go into the channel when the response is composed.
unfoldable pub deliver : {J : Type 0} → AppState J → DecideOutcome J → AppState J × DecisionsResp J
unfolding drain_to_sender
deliver state outcome = elim state.events [
  | none ↦ (state, responded outcome.response)
  | some ch ↦
      let (next, sent) = drain_to_sender ch outcome.events in
      (
        record state { events = some next },
        (if sent then responded outcome.response else unavailable (text "event_channel_saturated")),
      )
]

module _ {J : Type 0} (crates : Crates J) where
  unfoldable pub decide_and_deliver : ℕ → AppState J → Call J → AppState J × DecisionsResp J
  unfolding deliver code
  decide_and_deliver seeded state call = elim (decide_pure crates seeded call) [
    | ok outcome ↦ deliver state outcome
    | err halt ↦ elim halt [
      | panicked ↦ (state, aborted)
      | refused e ↦ (state, bad_request (code e))
    ]
  ]

  module _ (body_hash : DecisionsRequest → Option (List ℕ)) where
    -- The request past the snapshot: the force gate, the audit, and the decision.
    unfoldable pub decide_with :
        ℕ
        → AppState J
        → Principal
        → Text
        → DecisionsRequest
        → ℤ
        → ProjectSnapshot J
        → AppState J × DecisionsResp J
    unfolding requests_force audit_force_honored decide_and_deliver force_gate
    decide_with seeded state principal pj req now_ms project =
        let call : Bool → Call J = λ force_active. record {
          project = project;
          snapshot_version = state.snapshot.config_version;
          principal = principal;
          project_id = pj;
          req = req;
          now_ms = now_ms;
          force_active = force_active;
        } in
        if not (requests_force req)
        then decide_and_deliver seeded state (call false)
        else if not (force_gate principal project state.force_overrides_enabled)
        then (state, forbidden (text "force_disabled"))
        else elim (audit_force_honored body_hash state principal pj req) [
          | err e ↦ (state, unavailable e)
          | ok log ↦ decide_and_deliver seeded (record state { audit_log = log }) (call true)
        ]

    unfoldable pub decisions :
        ℕ → AppState J → Principal → Text → DecisionsRequest → ℤ → AppState J × DecisionsResp J
    unfolding authz_code decide_with
    decisions seeded state principal pj req now_ms = elim state.db [
      | none ↦ (state, unavailable (text "no_db"))
      | some db ↦ elim (open_project_tx db principal pj Role.reader) [
        | err e ↦ (state, forbidden (authz_code e))
        | ok tx ↦
            if is_empty req.placements
            then (state, bad_request (code placements_required))
            else if ltb 32 (length req.placements)
            then (state, bad_request (code too_many_placements))
            else elim (get pj state.snapshot.projects) [
              | none ↦ (state, unavailable (text "snapshot_cold"))
              | some project ↦ decide_with seeded state principal pj req now_ms project
            ]
      ]
    ]
