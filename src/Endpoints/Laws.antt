-- ===== src/Endpoints/Laws.antt =====
-- What an accepted hit says: its project, its event, and where a click leads.
use knievel.Base.{nat_eq, int_eq, Text, text_eq, ℕ, ◌≡◌, refl, ap, ◌∙◌, ◌↔◌, Option, some, List}
use knievel.Base.Assoc.{get}
use knievel.Base.Result.{ok, ok_or-bind-elim, bind-elim}
use knievel.Hmac.{Crypto, SignaturePayload, malformed, bad_signature, verify, default_ttl_secs}
use knievel.Endpoints.Peek.{unpack-project_id}
use knievel.Hmac.Verify.{verify_iff}
use knievel.Snapshot.{ProjectSnapshot, Snapshot}
use knievel.Endpoints.{peek_project_id, verify_against_snapshot}

module _ (c : Crypto) where
  -- The project id that is peeked at before the verification is the one that is verified.
  verify-peek :
      (signed : Text) (current : List ℕ) (previous : Option (List ℕ)) (now ttl : ℕ)
      (p : SignaturePayload)
      → verify c signed current previous now ttl ≡ ok p
      → peek_project_id c signed ≡ some p.project_id
  unfolding peek_project_id
  verify-peek signed current previous now ttl p h =
      let a = (verify_iff c signed current previous now ttl p).0 h in
      rw (a.parts, peek_project_id) (rw a.decoded (unpack-project_id a.bytes p a.parsed))

  module _ {J : Type 0} (snap : Snapshot J) where
    -- The project that vouches for a hit.
    pub record IsVouched (signed : Text) (now : ℕ) (p : SignaturePayload) (project_id org_id : Text)
        : Type 0 where
      pub project : ProjectSnapshot J
      pub loaded : get project_id snap.projects ≡ some project
      pub named : p.project_id ≡ project_id
      pub owned : project.org_id_for_event ≡ org_id
      pub verified :
          verify c signed project.hmac_secret project.hmac_secret_previous now default_ttl_secs
          ≡ ok p

    vouched→ :
        (signed : Text) (now : ℕ) (p : SignaturePayload) (project_id org_id : Text)
        → verify_against_snapshot c snap signed now ≡ ok (p, (project_id, org_id))
        → IsVouched signed now p project_id org_id
    unfolding verify_against_snapshot
    vouched→ signed now p project_id org_id h =
        ok_or-bind-elim (peek_project_id c signed) malformed _ h λ pid peeked h1.
          ok_or-bind-elim (get pid snap.projects) bad_signature _ h1 λ project loaded h2.
            bind-elim
              (verify c signed project.hmac_secret project.hmac_secret_previous now
                default_ttl_secs)
              _ h2
              λ q verified h3.
                let back =
                  verify-peek signed project.hmac_secret project.hmac_secret_previous now
                    default_ttl_secs q verified in
                record {
                  project = project;
                  loaded = ap (λ i. get i snap.projects) (cc) ∙ loaded;
                  named = cc (back, peeked, h3);
                  owned = cc;
                  verified = verified ∙ cc;
                }

    →vouched :
        (signed : Text) (now : ℕ) (p : SignaturePayload) (project_id org_id : Text)
        → IsVouched signed now p project_id org_id
        → verify_against_snapshot c snap signed now ≡ ok (p, (project_id, org_id))
    unfolding verify_against_snapshot
    →vouched signed now p project_id org_id w =
        let peeked =
          verify-peek signed w.project.hmac_secret w.project.hmac_secret_previous now
            default_ttl_secs p w.verified
          ∙ ap some w.named in
        rw (peeked, verify_against_snapshot) (rw w.loaded (rw w.verified (rw w.owned refl)))

    -- A hit is accepted exactly when the project that its signed payload names is loaded and the URL
    -- verifies under that project's secrets; the org is that project's.
    pub verify_against_snapshot_iff :
        (signed : Text) (now : ℕ) (p : SignaturePayload) (project_id org_id : Text)
        → (verify_against_snapshot c snap signed now ≡ ok (p, (project_id, org_id)))
          ↔ IsVouched signed now p project_id org_id
    verify_against_snapshot_iff signed now p project_id org_id =
        (vouched→ signed now p project_id org_id, →vouched signed now p project_id org_id)
