-- ===== src/Partitions/Retained.antt =====
-- src/partitions.rs: what a maintenance pass keeps attached.
use knievel.Base.{
  Bool-cases, Option-cases, nat_eq, ℤ, ◌+ℤ◌, ◌-ℤ◌, int_eq, In, filter, any, filter-In, Text,
  eqb_text_iff, text_eq, pos, ℕ, zero, suc, ◌-◌, ◌*◌, ◌/◌, ◌≤◌, ◌<◌, ◌≡◌, ap, ◌∙◌, subst, inl, inr,
  true, false, not, ◌&&◌, Option, none, some, List, [], ◌∷◌, map, arith,
}
use knievel.Base.Result.{none≢some, some-injective}
use knievel.Sql.{starts_with}
use knievel.Partitions.{
  day_start_secs, leaf_prefix, leaf_name, ltb_text, Leaf, Catalog, DbAnswers, Failure, has_name,
  exists, overlaps, create_leaf, premake, is_aged, detach_leaf, detach_aged, cutoff_of, sweep,
  then_sweep, run_once, premake_days, like,
}
use knievel.Partitions.Civil.{last_day}
use knievel.Partitions.Names.{leaf_name-order}

create_leaf-keeps :
    (leaf : Leaf) (s : ℤ) (c : Catalog) {c' : Catalog}
    → create_leaf s c ≡ some c'
    → In leaf c.attached
    → In leaf c'.attached
unfolding create_leaf
create_leaf-keeps leaf s c {c'} e i = elim (Bool-cases (exists (leaf_name s) c)) [
  | inl t ↦ subst (λ k. In leaf k.attached) (some-injective (rw (t, create_leaf) at e)) i
  | inr f ↦ elim (Bool-cases (any (overlaps s (s +ℤ pos 86400)) c.attached)) [
    | inl t ↦ none≢some (rw (f, t, create_leaf) at e)
    | inr g ↦ subst (λ k. In leaf k.attached) (some-injective (rw (f, g, create_leaf) at e)) (inr i)
  ]
]

premake-keeps :
    (db : DbAnswers) (leaf : Leaf) (left : ℕ) (s : ℤ) (c : Catalog)
    → In leaf c.attached
    → In leaf (premake db left s c).0.attached
unfolding premake
premake-keeps db leaf zero s c i = i
premake-keeps db leaf (suc left) s c i = elim (Bool-cases (db.creates (leaf_name s))) [
  | inr f ↦ rw (f, premake) i
  | inl t ↦ elim (Option-cases (create_leaf s c)) [
    | inl e ↦ rw (t, e, premake) i
    | inr (c', e) ↦
        let j = create_leaf-keeps leaf s c e i in
        elim (Bool-cases (db.alters (leaf_name s))) [
          | inr f ↦ rw (t, e, f, premake) j
          | inl u ↦ rw (t, e, u, premake) (premake-keeps db leaf left (s +ℤ pos 86400) c' j)
        ]
  ]
]

detach_aged-keeps :
    (db : DbAnswers) (cutoff : Text) (leaf : Leaf) (leaves : List Text) (c : Catalog)
    → is_aged cutoff leaf.name ≡ false
    → In leaf c.attached
    → In leaf (detach_aged db cutoff leaves c).attached
unfolding detach_aged
detach_aged-keeps db cutoff leaf [] c kept i = i
detach_aged-keeps db cutoff leaf (n ∷ leaves) c kept i =
    elim (Bool-cases (is_aged cutoff n && db.detaches n)) [
      | inr f ↦ rw (f, detach_aged) (detach_aged-keeps db cutoff leaf leaves c kept i)
      | inl t ↦
          rw (t, detach_aged)
            (detach_aged-keeps db cutoff leaf leaves (detach_leaf n c) kept
              (filter-In (λ l. not (has_name n l)) leaf c.attached i (other n leaf t kept)))
    ]
  where
    other :
        (n : Text) (leaf : Leaf)
        → (is_aged cutoff n && db.detaches n) ≡ true
        → is_aged cutoff leaf.name ≡ false
        → not (has_name n leaf) ≡ true
    other n leaf t kept = elim (Bool-cases (has_name n leaf)) [
      | inr f ↦ ap not f
      | inl e ↦
          let same : leaf.name ≡ n = (eqb_text_iff leaf.name n).0 e in
          let kept' = subst (λ m. is_aged cutoff m ≡ false) same kept in ground (arith, t, kept')
    ]

day_start-whole : (n : ℕ) → day_start_secs (pos n) ≡ pos (n / 86400 * 86400)
unfolding day_start_secs ◌-ℤ◌
day_start-whole n = ground arith

cutoff-whole :
    (n retention : ℕ)
    → retention ≤ n / 86400
    → cutoff_of (pos n) (pos retention) ≡ pos ((n / 86400 - retention) * 86400)
unfolding ◌-ℤ◌
cutoff-whole n retention h =
    ap (λ s. s -ℤ pos (retention * 86400)) (day_start-whole n) ∙ ground arith

sweep-keeps :
    (db : DbAnswers) (cutoff : Text) (leaf : Leaf) (c : Catalog)
    → is_aged cutoff leaf.name ≡ false
    → In leaf c.attached
    → In leaf (sweep db cutoff c).0.attached
unfolding sweep
sweep-keeps db cutoff leaf c kept i = elim (Bool-cases db.lists) [
  | inr f ↦ simp (f, sweep) i
  | inl t ↦
      simp (t, sweep)
        (detach_aged-keeps db cutoff leaf (filter (like leaf_prefix) (map Leaf.name c.attached)) c
          kept i)
]

-- By the two parts of a pass: the first keeps every leaf, the second those that are not aged.
run_once-keeps :
    (db : DbAnswers) (now retention : ℤ) (c : Catalog) (leaf : Leaf)
    → is_aged (leaf_name (cutoff_of now retention)) leaf.name ≡ false
    → In leaf c.attached
    → In leaf (run_once db now retention c).0.attached
unfolding run_once
run_once-keeps db now retention c leaf kept i =
    go (premake db premake_days (day_start_secs now) c)
      (premake-keeps db leaf premake_days (day_start_secs now) c i)
  where
    go :
        (r : Catalog × Option Failure)
        → In leaf r.0.attached
        → In leaf (then_sweep db (leaf_name (cutoff_of now retention)) r).0.attached
    go (c', some f) j = j
    go (c', none) j = sweep-keeps db (leaf_name (cutoff_of now retention)) leaf c' kept j

-- A pass before the year 10000 leaves every leaf attached that is named for a day of the retention
-- window or a later one, whichever statements the database answers.
pub run_once-Retains :
    (db : DbAnswers) (now retention : ℕ) (c : Catalog) (leaf : Leaf) (a : ℕ)
    → now < last_day * 86400
    → retention ≤ now / 86400
    → a < last_day
    → now / 86400 - retention ≤ a
    → leaf.name ≡ leaf_name (pos (a * 86400))
    → In leaf c.attached
    → In leaf (run_once db (pos now) (pos retention) c).0.attached
run_once-Retains db now retention c leaf a h1 h2 h3 h4 named i =
    run_once-keeps db (pos now) (pos retention) c leaf kept i
  where
    not_aged : ltb_text leaf.name (leaf_name (cutoff_of (pos now) (pos retention))) ≡ false
    not_aged =
        ap (λ n. ltb_text n (leaf_name (cutoff_of (pos now) (pos retention)))) named
        ∙ ap (λ s. ltb_text (leaf_name (pos (a * 86400))) (leaf_name s))
            (cutoff-whole now retention h2)
        ∙ leaf_name-order a (now / 86400 - retention) h3 (omega (arith, h1))
        ∙ ground (arith, h4)

    kept : is_aged (leaf_name (cutoff_of (pos now) (pos retention))) leaf.name ≡ false
    kept = ap (λ b. b && starts_with leaf.name leaf_prefix) not_aged
