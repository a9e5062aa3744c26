-- ===== src/Decisions/Parts.antt =====
-- src/decisions.rs: the parts of a decision that read the snapshot and the request only.
use mathlib.Core.Option
use knievel.Base.{
  ltb, if◌then◌else◌, ◌==◌, nat_eq, ℤ, pos_part, int_eq, as_u64, div_trunc, take, drop, any, find,
  is_empty, Text, text, text_eq, pos, ℕ, ◌+◌, ◌*◌, ◌%◌, ◌^◌, Bool, false, not, ◌||◌, Option, none,
  some, List, [], ◌∷◌, ◌++◌,
}
use knievel.Base.Bytes.{to_be_bytes}
use knievel.Auth.{Principal, Role, has_role_at_least}
use knievel.Selection.{Flight, Ad, Placement, BlockSet, Candidate}
use knievel.Snapshot.{SnapshotSite, ProjectSnapshot}
use knievel.Decisions.{DecisionPlacement, DecisionBlock, DecisionCreative, DecisionAd}

-- The three controls and the kill switch.
unfoldable pub force_gate : {J : Type 0} → Principal → ProjectSnapshot J → Bool → Bool
unfolding has_role_at_least
force_gate principal project global_enabled =
    if not global_enabled
    then false
    else if not project.allow_force_decision
    then false
    else has_role_at_least principal Role.admin

unfoldable pub forced_candidate : {J : Type 0} → ProjectSnapshot J → ℤ → Option Candidate
forced_candidate project ad_id = elim (find (λ (a : Ad). a.id == ad_id) project.ads) [
  | none ↦ none
  | some ad ↦
      Option.map (λ (f : Flight). record { ad = ad; flight = f })
        (find (λ (f : Flight). f.id == ad.flight_id) project.flights)
]

unfoldable pub build_block : Option DecisionBlock → BlockSet
build_block none = record { creative_ids = []; advertiser_ids = []; campaign_ids = [] }
build_block (some b) = record {
  creative_ids = Option.get_or b.creative_ids [];
  advertiser_ids = Option.get_or b.advertiser_ids [];
  campaign_ids = Option.get_or b.campaign_ids [];
}

site_named : {J : Type 0} → ProjectSnapshot J → Text → Option ℤ
site_named project url =
    Option.map SnapshotSite.id
      (find (λ (s : SnapshotSite). s.url == url || any (λ a. a == url) s.aliases) project.sites)

-- A site id takes precedence over a url; an external id alone resolves to nothing.
unfoldable pub resolve_site : {J : Type 0} → ProjectSnapshot J → DecisionPlacement → Option ℤ
unfolding site_named
resolve_site project p = elim p.site_id [
  | some id ↦ Option.map SnapshotSite.id (find (λ (s : SnapshotSite). s.id == id) project.sites)
  | none ↦ elim p.site_url [ some url ↦ site_named project url | none ↦ none ]
]

-- The part before the first '/', '?' or '#'.
host_end : Text → Text
host_end [] = []
host_end (x ∷ xs) =
    let rest = host_end xs in if x == b'/' || (x == b'?' || x == b'#') then [] else x ∷ rest

-- What follows the first "://".
unfoldable pub after_scheme : Text → Option Text
after_scheme [] = none
after_scheme (x ∷ xs) =
    let rest = after_scheme xs in
    if take 3 (x ∷ xs) == text "://" then some (drop 3 (x ∷ xs)) else rest

unfoldable pub referrer_host : Text → Option Text
unfolding after_scheme host_end
referrer_host referrer =
    let host = host_end (Option.get_or (after_scheme referrer) referrer) in
    if is_empty host then none else some host

-- `now_ms.wrapping_mul(2_654_435_761).wrapping_add(ad_id)`, big-endian.
unfoldable pub mint_nonce : ℤ → ℤ → List ℕ
mint_nonce now_ms ad_id = to_be_bytes 8 ((as_u64 now_ms * 2654435761 + as_u64 ad_id) % 2 ^ 64)

-- `count.unwrap_or(1).clamp(1, 10) as u32`
unfoldable pub clamp_count : Option ℤ → ℕ
clamp_count count =
    let n = pos_part (Option.get_or count (pos 1)) in
    if ltb n 1 then 1 else if ltb 10 n then 10 else n

unfoldable pub placement_of : DecisionPlacement → ℤ → Placement
unfolding clamp_count
placement_of placement resolved = record {
  site_id = resolved;
  zone_ids = Option.get_or placement.zone_ids [];
  ad_types = placement.ad_types;
  count = clamp_count placement.count;
}

-- The ad id of an override.
unfoldable pub forced_id : DecisionPlacement → Option ℤ
forced_id placement = elim placement.force [ none ↦ none | some f ↦ f.ad_id ]

-- `(now_ms / 1000) as u64`
unfoldable pub now_secs : ℤ → ℕ
now_secs now_ms = as_u64 (div_trunc now_ms 1000)

unfoldable pub ad_of :
    {J : Type 0} → ℤ → Candidate → Text → Option (DecisionCreative J) → DecisionAd J
ad_of resolved c signed creative = record {
  ad_id = c.ad.id;
  creative_id = Option.get_or c.ad.creative_id (pos 0);
  flight_id = c.flight.id;
  campaign_id = c.flight.campaign_id;
  advertiser_id = c.flight.advertiser_id;
  priority_id = c.flight.priority_tier;
  site_id = resolved;
  click_url = text "/e/c/" ++ signed;
  impression_url = text "/e/i/" ++ signed;
  creative = creative;
}
