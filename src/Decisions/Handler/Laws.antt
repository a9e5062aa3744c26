-- ===== src/Decisions/Handler/Laws.antt =====
-- What a successful decision went through, and what it left behind.
use mathlib.Core.List.{append-nil, append_assoc}
use knievel.Base.{
  ltb, Bool-cases, Option-cases, nat_eq, ℤ, int_eq, length, is_empty, Text, text_eq, ℕ, ◌≤◌, ◌<◌,
  ◌≡◌, refl, sym, ap, ◌∙◌, subst, ◌↔◌, ◌⊎◌, inl, inr, Bool, true, false, Option, none, some, List,
  [], ◌∷◌, ◌++◌, arith,
}
use knievel.Base.Assoc.{get}
use knievel.Base.Result.{Result-cases}
use knievel.Auth.{Principal, Role, has_role_at_least, rank}
use knievel.Auth.Tenancy.{Database, open_project_tx}
use knievel.Auth.Tenancy.Laws.{IsAllowed, open_project_tx→}
use knievel.Snapshot.{ProjectSnapshot}
use knievel.Events.{Event, Channel, SendError, try_send}
use knievel.Events.Flush.{try_send-cases}
use knievel.Decisions.{DecisionsRequest, DecisionsResponse, Crates, Call}
use knievel.Decisions.Parts.{force_gate}
use knievel.Decisions.Handler.{
  responded, AppState, drain_to_sender, requests_force, audit_force_honored, deliver,
  decide_and_deliver, decide_with, decisions,
}

-- The force gate opens exactly when the kill switch is off, the project allows overrides, and the
-- principal is a project admin or higher.
force_gate_iff :
    {J : Type 0} (p : Principal) (project : ProjectSnapshot J) (enabled : Bool)
    → (force_gate p project enabled ≡ true)
      ↔ ((enabled ≡ true) × (project.allow_force_decision ≡ true) × (rank Role.admin ≤ rank p.role))
unfolding force_gate has_role_at_least
force_gate_iff p project enabled = ground arith

-- What a drain left in the channel: some of the events, in order, from the first one on.
pub record IsDrained (ch : Channel) (es : List Event) (out : Channel × Bool) : Type 0 where
  pub sent : List Event
  pub rest : List Event
  pub split : es ≡ sent ++ rest
  pub queued : out.0.queue ≡ ch.queue ++ sent
  pub complete : (out.1 ≡ true) ↔ (rest ≡ [])

abbrev after_send : List Event → Channel × Option SendError → Channel × Bool
after_send es (ch, failure) = elim failure [
  | none ↦ drain_to_sender ch es
  | some error ↦ (ch, false)
]

drain_to_sender-cons :
    (ch : Channel) (e : Event) (es : List Event) {o : Channel × Option SendError}
    → try_send ch e ≡ o
    → after_send es o ≡ drain_to_sender ch (e ∷ es)
unfolding drain_to_sender
drain_to_sender-cons ch e es q = ap (after_send es) (sym q)

stopped : (ch : Channel) (e : Event) (es : List Event) → IsDrained ch (e ∷ es) (ch, false)
stopped ch e es = record {
  sent = [];
  rest = e ∷ es;
  split = refl;
  queued = sym (append-nil ch.queue);
  complete = (λ h. cc, λ h. cc);
}

-- Draining sends a prefix of the events, and all of them exactly when it succeeds.
drain_to_sender-IsDrained :
    (ch : Channel) (es : List Event) → IsDrained ch es (drain_to_sender ch es)
unfolding drain_to_sender
drain_to_sender-IsDrained ch [] = record {
  sent = [];
  rest = [];
  split = refl;
  queued = sym (append-nil ch.queue);
  complete = (λ h. refl, λ h. refl);
}
drain_to_sender-IsDrained ch (e ∷ es) = elim (try_send-cases ch e) [
  | inl (q, _, _) ↦
      let next = record ch { queue = ch.queue ++ e ∷ [] } in
      let w = drain_to_sender-IsDrained next es in
      subst (IsDrained ch (e ∷ es)) (drain_to_sender-cons ch e es q) (record {
        sent = e ∷ w.sent;
        rest = w.rest;
        split = ap (◌∷◌ e) w.split;
        queued = w.queued ∙ append_assoc ch.queue (e ∷ []) w.sent;
        complete = w.complete;
      })
  | inr (inl (q, _, _)) ↦
      subst (IsDrained ch (e ∷ es)) (drain_to_sender-cons ch e es q) (stopped ch e es)
  | inr (inr (q, _)) ↦
      subst (IsDrained ch (e ∷ es)) (drain_to_sender-cons ch e es q) (stopped ch e es)
]

nonempty : {A : Type 0} (xs : List A) → is_empty xs ≡ false → 0 < length xs
nonempty [] h = cc
nonempty (x ∷ xs) h = omega arith

module _ {J : Type 0} (crates : Crates J) (body_hash : DecisionsRequest → Option (List ℕ)) where
  -- What the audit log gained by a request.
  abbrev pub AuditFor :
      AppState J → AppState J → Principal → Text → DecisionsRequest → ProjectSnapshot J → Type 0
  AuditFor before after p pj req project =
      ((requests_force req ≡ false) × (after.audit_log ≡ before.audit_log))
      ⊎ ((requests_force req ≡ true)
          × (force_gate p project before.force_overrides_enabled ≡ true)
          × ((h : List ℕ) × ((body_hash req ≡ some h)
                × (after.audit_log
                    ≡ before.audit_log
                      ++ (record {
                        org_id = p.org_id;
                        project_id = pj;
                        actor = p.actor_id;
                        payload_hash = h;
                      }
                          ∷ [])))))

  decide_and_deliver-audit :
      (seeded : ℕ) (state after : AppState J) (call : Call J) (r : DecisionsResponse J)
      → decide_and_deliver crates seeded state call ≡ (after, responded r)
      → after.audit_log ≡ state.audit_log
  unfolding decide_and_deliver deliver
  decide_and_deliver-audit seeded state after call r h = ground arith

  decide_with-audit :
      (seeded : ℕ) (state after : AppState J) (p : Principal) (pj : Text) (req : DecisionsRequest)
      (now_ms : ℤ) (project : ProjectSnapshot J) (r : DecisionsResponse J)
      → decide_with crates body_hash seeded state p pj req now_ms project ≡ (after, responded r)
      → AuditFor state after p pj req project
  unfolding decide_with audit_force_honored
  decide_with-audit seeded state after p pj req now_ms project r h =
      ground (arith, decide_and_deliver-audit seeded state after _ r, Option-cases (body_hash req))

  -- What stands behind a response: the principal may open the project, which is loaded, and the
  -- request has from 1 to 32 placements. Either it forces nothing and leaves the audit log alone, or the
  -- force gate is open and the log gained exactly the row of this request.
  pub record IsAdmitted (before after : AppState J) (p : Principal) (pj : Text)
      (req : DecisionsRequest) : Type 0 where
    pub db : Database
    pub connected : before.db ≡ some db
    pub allowed : IsAllowed db p pj Role.reader
    pub placements : 0 < length req.placements
    pub few : length req.placements ≤ 32
    pub project : ProjectSnapshot J
    pub loaded : get pj before.snapshot.projects ≡ some project
    pub audited : AuditFor before after p pj req project

  -- A response is given only to a request that is admitted. The row of a request with overrides has the
  -- org, the project, the actor, the operation and the hash of the body, and no reason.
  pub decisions-IsAdmitted :
      (seeded : ℕ) (before after : AppState J) (p : Principal) (pj : Text) (req : DecisionsRequest)
      (now_ms : ℤ) (r : DecisionsResponse J)
      → decisions crates body_hash seeded before p pj req now_ms ≡ (after, responded r)
      → IsAdmitted before after p pj req
  unfolding decisions
  decisions-IsAdmitted seeded before after p pj req now_ms r h = elim (Option-cases before.db) [
    | inl e ↦ let q = rw (e, decisions) at h in cc
    | inr (db, e) ↦
        let q = rw (e, decisions) at h in
        elim (Result-cases (open_project_tx db p pj Role.reader)) [
          | inr (x, t) ↦ let r1 = rw t at q in cc
          | inl (tx, t) ↦
              let r1 = rw t at q in
              elim (Bool-cases (is_empty req.placements)) [
                | inl none_asked ↦ let r2 = rw none_asked at r1 in cc
                | inr asked ↦
                    let r2 = rw asked at r1 in
                    elim (Bool-cases (ltb 32 (length req.placements))) [
                      | inl many ↦ let r3 = rw many at r2 in cc
                      | inr few ↦
                          let r3 = rw few at r2 in
                          elim (Option-cases (get pj before.snapshot.projects)) [
                            | inl cold ↦ let r4 = rw cold at r3 in cc
                            | inr (project, warm) ↦
                                let r4 = rw warm at r3 in
                                let (_, ok_tx) = open_project_tx→ db p pj Role.reader t in
                                record {
                                  db = db;
                                  connected = e;
                                  allowed = ok_tx;
                                  placements = nonempty req.placements asked;
                                  few = ground arith;
                                  project = project;
                                  loaded = warm;
                                  audited =
                                      decide_with-audit seeded before after p pj req now_ms project
                                        r r4;
                                }
                          ]
                    ]
              ]
        ]
  ]
