-- ===== src/Snapshot/Load.antt =====
-- What a load puts into the slice of a project.
use mathlib.Core.Option
use knievel.Base.{
  if◌then◌else◌, Bool-cases, Option-cases, ◌==◌, nat_eq, ℤ, int_eq, Text, text_eq, ◌≡◌, refl, ap,
  ◌∙◌, inl, inr, true, Option, none, some, List, [], ◌∷◌, arith,
}
use knievel.Base.Assoc.{Assoc, get, insert, update, get-insert, get-update}
use knievel.Base.Result.{ok}
use knievel.Selection.{Flight, Ad}
use knievel.Snapshot.{
  SnapshotSite, SnapshotZone, ProjectSnapshot, Snapshot, ProjectRow, CreativeRow, LoaderDb,
  seed_project, seed_projects, add_rows, push_flight, push_ad, push_site, push_zone, insert_click,
  insert_creative, load_snapshot,
}

-- The rows of one project, in order.
abbrev pub rows_of {ℓ} : {R : Type ℓ} → Text → List (Text × R) → List R
rows_of pid [] = []
rows_of pid ((k, r) ∷ rows) = if k == pid then r ∷ rows_of pid rows else rows_of pid rows

-- The last project row with an id; ids are unique in the table.
abbrev pub project_row : Text → List ProjectRow → Option ProjectRow
project_row pid [] = none
project_row pid (r ∷ rows) = elim (project_row pid rows) [
  | some later ↦ some later
  | none ↦ if r.id == pid then some r else none
]

-- What the queries of a load return when all are answered.
pub record LoaderRows (J : Type 0) : Type 0 where
  pub config_version : ℤ
  pub projects : List ProjectRow
  pub flights : List (Text × Flight)
  pub ads : List (Text × Ad)
  pub sites : List (Text × SnapshotSite)
  pub zones : List (Text × SnapshotZone)
  pub clicks : List (Text × (ℤ × Text))
  pub creatives : List (Text × CreativeRow J)

module _ {J : Type 0} where
  abbrev pub apply_rows :
      {R : Type 0}
      → (R → ProjectSnapshot J → ProjectSnapshot J)
      → List R
      → ProjectSnapshot J
      → ProjectSnapshot J
  apply_rows put [] p = p
  apply_rows put (r ∷ rs) p = apply_rows put rs (put r p)

  map-apply :
      {R : Type 0} (put : R → ProjectSnapshot J → ProjectSnapshot J) (r : R) (rs : List R)
      (o : Option (ProjectSnapshot J))
      → Option.map (apply_rows put rs) (Option.map (put r) o)
        ≡ Option.map (apply_rows put (r ∷ rs)) o
  map-apply put r rs none = refl
  map-apply put r rs (some p) = refl

  map-none :
      {R : Type 0} (put : R → ProjectSnapshot J → ProjectSnapshot J)
      (o : Option (ProjectSnapshot J))
      → o ≡ Option.map (apply_rows put []) o
  map-none put none = refl
  map-none put (some p) = refl

  get-add_rows :
      {R : Type 0} (put : R → ProjectSnapshot J → ProjectSnapshot J) (pid : Text)
      (rows : List (Text × R)) (m : Assoc Text (ProjectSnapshot J))
      → get pid (add_rows put rows m) ≡ Option.map (apply_rows put (rows_of pid rows)) (get pid m)
  unfolding add_rows
  get-add_rows put pid [] m = map-none put (get pid m)
  get-add_rows put pid ((k, r) ∷ rows) m =
      let rest = get-add_rows put pid rows (update k (put r) m) in
      let one = get-update k pid (put r) m in
      elim (Bool-cases (k == pid)) [
        | inl e ↦
            rw (e, rows_of)
              (rest
                ∙ ap (Option.map (apply_rows put (rows_of pid rows))) (rw e at one)
                ∙ map-apply put r (rows_of pid rows) (get pid m))
        | inr e ↦
            rw (e, rows_of)
              (rest ∙ ap (Option.map (apply_rows put (rows_of pid rows))) (rw e at one))
      ]

  abbrev or_else :
      Option (ProjectSnapshot J) → Option (ProjectSnapshot J) → Option (ProjectSnapshot J)
  or_else none later = later
  or_else (some p) later = some p

  get-seed_projects :
      (pid : Text) (rows : List ProjectRow) (m : Assoc Text (ProjectSnapshot J))
      → get pid (seed_projects rows m)
        ≡ or_else (Option.map seed_project (project_row pid rows)) (get pid m)
  unfolding seed_projects
  get-seed_projects pid [] m = refl
  get-seed_projects pid (r ∷ rows) m = ground (
    arith,
    get-seed_projects pid rows (insert r.id (seed_project r) m),
    get-insert r.id pid (seed_project r) m,
    Option-cases (project_row pid rows),
  )

  abbrev pub answered : LoaderRows J → LoaderDb J
  answered rows = record {
    set_role = ok true;
    config_version = ok rows.config_version;
    projects = ok rows.projects;
    flights = ok rows.flights;
    ads = ok rows.ads;
    sites = ok rows.sites;
    zones = ok rows.zones;
    clicks = ok rows.clicks;
    creatives = ok rows.creatives;
    commit = ok true;
  }

  -- The slice of a project row: the rows of that project, and no others.
  abbrev pub slice_of : J → LoaderRows J → Text → ProjectRow → ProjectSnapshot J
  slice_of empty_object rows pid r =
      apply_rows (insert_creative empty_object) (rows_of pid rows.creatives) (
        apply_rows insert_click (rows_of pid rows.clicks) (
          apply_rows push_zone (rows_of pid rows.zones) (
            apply_rows push_site (rows_of pid rows.sites) (
              apply_rows push_ad (rows_of pid rows.ads)
                (apply_rows push_flight (rows_of pid rows.flights) (seed_project r))))))

  slice-fusion :
      (empty_object : J) (rows : LoaderRows J) (pid : Text) (o : Option ProjectRow)
      → Option.map (apply_rows (insert_creative empty_object) (rows_of pid rows.creatives)) (
          Option.map (apply_rows insert_click (rows_of pid rows.clicks)) (
            Option.map (apply_rows push_zone (rows_of pid rows.zones)) (
              Option.map (apply_rows push_site (rows_of pid rows.sites)) (
                Option.map (apply_rows push_ad (rows_of pid rows.ads)) (
                  Option.map
                    (apply_rows push_flight (rows_of pid rows.flights))
                    (or_else (Option.map seed_project o) none))))))
        ≡ Option.map (slice_of empty_object rows pid) o
  slice-fusion empty_object rows pid none = refl
  slice-fusion empty_object rows pid (some r) = refl

  -- One more loop behind those before it.
  then_rows :
      {R : Type 0} (put : R → ProjectSnapshot J → ProjectSnapshot J) (pid : Text)
      (rows : List (Text × R)) (m : Assoc Text (ProjectSnapshot J)) {o : Option (ProjectSnapshot J)}
      → get pid m ≡ o
      → get pid (add_rows put rows m) ≡ Option.map (apply_rows put (rows_of pid rows)) o
  then_rows put pid rows m e =
      get-add_rows put pid rows m ∙ ap (Option.map (apply_rows put (rows_of pid rows))) e

  -- A load whose queries are answered returns a snapshot at the version read, in which a project has
  -- exactly the slice of its own row and its own rows of the other tables: rows of other projects have
  -- no part in it.
  load_snapshot-slice :
      (empty_object : J) (rows : LoaderRows J) (pid : Text)
      → (snap : Snapshot J) × (load_snapshot empty_object (answered rows) ≡ ok snap)
        × (snap.config_version ≡ rows.config_version)
        × (get pid snap.projects
            ≡ Option.map (slice_of empty_object rows pid) (project_row pid rows.projects))
  unfolding load_snapshot get
  load_snapshot-slice empty_object rows pid = (
    _,
    refl,
    refl,
    then_rows (insert_creative empty_object) pid rows.creatives _ (
          then_rows insert_click pid rows.clicks _ (
            then_rows push_zone pid rows.zones _ (
              then_rows push_site pid rows.sites _ (
                then_rows push_ad pid rows.ads _ (
                  then_rows push_flight pid rows.flights _
                    (get-seed_projects pid rows.projects []))))))
        ∙ slice-fusion empty_object rows pid (project_row pid rows.projects),
  )
