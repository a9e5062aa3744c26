-- ===== src/Partitions/Again.antt =====
-- src/partitions.rs: a second maintenance pass.
use knievel.Base.{
  Bool-cases, Option-cases, nat_eq, ==_refl, ℤ, ◌+ℤ◌, int_eq, In, All, filter, any, All-of_In,
  In-filter, filter-In, map-In, In-map, Text, eqb_text_iff, text_eq, pos, ℕ, zero, suc, ◌≡◌, refl,
  sym, ap, ◌∙◌, subst, inl, inr, Bool, true, false, not, ◌&&◌, ◌||◌, Option, none, some, List, [],
  ◌∷◌, ◌++◌, map, arith,
}
use knievel.Base.Result.{none≢some, some-injective}
use knievel.Partitions.{
  day_start_secs, leaf_prefix, leaf_name, Leaf, Catalog, DbAnswers, Failure, has_name, exists,
  overlaps, leaf_of, create_leaf, premake, is_aged, detach_leaf, detach_aged, cutoff_of, sweep,
  then_sweep, run_once, premake_days, like,
}

-- No table is lost from one catalog to the other.
abbrev Keeps : Catalog → Catalog → Type 0
Keeps c c' = (name : Text) → exists name c ≡ true → exists name c' ≡ true

exists-make : (s : ℤ) (c : Catalog) → Keeps c (record c { attached = leaf_of s ∷ c.attached })
unfolding any
exists-make s c name h = ground (arith, h)

exists-leaf_of :
    (s : ℤ) (c : Catalog)
    → exists (leaf_name s) (record c { attached = leaf_of s ∷ c.attached }) ≡ true
unfolding any
exists-leaf_of s c = rw (==_refl (leaf_name s)) refl

create_leaf-Keeps :
    (s : ℤ) (c : Catalog) {c' : Catalog}
    → create_leaf s c ≡ some c'
    → Keeps c c' × (exists (leaf_name s) c' ≡ true)
unfolding create_leaf
create_leaf-Keeps s c {c'} e = elim (Bool-cases (exists (leaf_name s) c)) [
  | inl t ↦
      subst (λ k. Keeps c k × (exists (leaf_name s) k ≡ true))
        (some-injective (rw (t, create_leaf) at e)) (λ name h. h, t)
  | inr f ↦ elim (Bool-cases (any (overlaps s (s +ℤ pos 86400)) c.attached)) [
    | inl t ↦ none≢some (rw (f, t, create_leaf) at e)
    | inr g ↦
        subst (λ k. Keeps c k × (exists (leaf_name s) k ≡ true))
          (some-injective (rw (f, g, create_leaf) at e)) (exists-make s c, exists-leaf_of s c)
  ]
]

-- Each of the days has its table, and its statements are answered.
Premade : DbAnswers → ℕ → ℤ → Catalog → Type 0
Premade db zero s c = Unit
Premade db (suc left) s c =
    (db.creates (leaf_name s) ≡ true)
    × (db.alters (leaf_name s) ≡ true)
    × (exists (leaf_name s) c ≡ true)
    × Premade db left (s +ℤ pos 86400) c

Premade-Keeps :
    (db : DbAnswers) (left : ℕ) (s : ℤ) (c c' : Catalog)
    → Keeps c c'
    → Premade db left s c
    → Premade db left s c'
unfolding Premade
Premade-Keeps db zero s c c' k p = tt
Premade-Keeps db (suc left) s c c' k (a, b, e, p) =
    (a, b, k (leaf_name s) e, Premade-Keeps db left (s +ℤ pos 86400) c c' k p)

Keeps-trans : (c c' c'' : Catalog) → Keeps c c' → Keeps c' c'' → Keeps c c''
Keeps-trans c c' c'' k l name h = l name (k name h)

premake-Premade :
    (db : DbAnswers) (left : ℕ) (s : ℤ) (c c' : Catalog)
    → premake db left s c ≡ (c', none)
    → Keeps c c' × Premade db left s c'
unfolding premake Premade
premake-Premade db zero s c c' e = subst (λ k. Keeps c k × Unit) (ap (λ r. r.0) e) (λ name h. h, tt)
premake-Premade db (suc left) s c c' e = elim (Bool-cases (db.creates (leaf_name s))) [
  | inr f ↦ none≢some (sym (ap (λ r. r.1) (rw (f, premake) at e)))
  | inl a ↦ elim (Option-cases (create_leaf s c)) [
    | inl n ↦ none≢some (sym (ap (λ r. r.1) (rw (a, n, premake) at e)))
    | inr (c1, m) ↦ elim (Bool-cases (db.alters (leaf_name s))) [
      | inr f ↦ none≢some (sym (ap (λ r. r.1) (rw (a, m, f, premake) at e)))
      | inl b ↦
          let (kept, made) = create_leaf-Keeps s c m in
          let (kept', rest) =
            premake-Premade db left (s +ℤ pos 86400) c1 c' (rw (a, m, b, premake) at e) in
          (Keeps-trans c c1 c' kept kept', (a, b, kept' (leaf_name s) made, rest))
    ]
  ]
]

Premade-premake :
    (db : DbAnswers) (left : ℕ) (s : ℤ) (c : Catalog)
    → Premade db left s c
    → premake db left s c ≡ (c, none)
unfolding premake Premade create_leaf
Premade-premake db zero s c p = refl
Premade-premake db (suc left) s c (a, b, e, p) =
    simp (a, b, e, premake, create_leaf) (Premade-premake db left (s +ℤ pos 86400) c p)

-- The names that a pass detaches.
abbrev goes : DbAnswers → Text → Text → Bool
goes db cutoff name = is_aged cutoff name && db.detaches name

any-moved :
    (p test : Leaf → Bool) (xs ys : List Leaf)
    → (any test xs || any test ys) ≡ true
    → (any test (filter (λ a. not (p a)) xs) || any test (filter p xs ++ ys)) ≡ true
unfolding any filter
any-moved p test [] ys h = h
any-moved p test (x ∷ xs) ys h = ground (arith, any-moved p test xs ys)

detach_leaf-Keeps : (n : Text) (c : Catalog) → Keeps c (detach_leaf n c)
detach_leaf-Keeps n c name h = any-moved (has_name n) (has_name name) c.attached c.detached h

detach_aged-Keeps :
    (db : DbAnswers) (cutoff : Text) (names : List Text) (c : Catalog)
    → Keeps c (detach_aged db cutoff names c)
unfolding detach_aged
detach_aged-Keeps db cutoff [] c = λ name h. h
detach_aged-Keeps db cutoff (n ∷ names) c = elim (Bool-cases (goes db cutoff n)) [
  | inr f ↦ rw (f, detach_aged) (detach_aged-Keeps db cutoff names c)
  | inl t ↦
      rw (t, detach_aged)
        (Keeps-trans c (detach_leaf n c) (detach_aged db cutoff names (detach_leaf n c))
          (detach_leaf-Keeps n c) (detach_aged-Keeps db cutoff names (detach_leaf n c)))
]

detach_aged-In :
    (db : DbAnswers) (cutoff : Text) (names : List Text) (c : Catalog) (leaf : Leaf)
    → In leaf (detach_aged db cutoff names c).attached
    → In leaf c.attached × (In leaf.name names → goes db cutoff leaf.name ≡ false)
unfolding detach_aged
detach_aged-In db cutoff [] c leaf i = (i, λ h. elim h [ ])
detach_aged-In db cutoff (n ∷ names) c leaf i = elim (Bool-cases (goes db cutoff n)) [
  | inr f ↦
      let (j, stays) = detach_aged-In db cutoff names c leaf (rw (f, detach_aged) at i) in
      (j, λ h. elim h [ inl e ↦ ap (goes db cutoff) e ∙ f | inr k ↦ stays k ])
  | inl t ↦
      let (j, stays) =
        detach_aged-In db cutoff names (detach_leaf n c) leaf (rw (t, detach_aged) at i) in
      let (k, differs) = In-filter (λ l. not (has_name n l)) leaf c.attached j in
      (
        k,
        λ h. elim h [
          | inl e ↦ let same = (eqb_text_iff leaf.name n).1 e in ground (arith, same, differs)
          | inr m ↦ stays m
        ],
      )
]

detach_aged-none :
    (db : DbAnswers) (cutoff : Text) (names : List Text) (c : Catalog)
    → All (λ n. goes db cutoff n ≡ false) names
    → detach_aged db cutoff names c ≡ c
unfolding detach_aged
detach_aged-none db cutoff [] c h = refl
detach_aged-none db cutoff (n ∷ names) c h =
    rw (h.0, detach_aged) (detach_aged-none db cutoff names c h.1)

-- The names that `sweep` lists.
listed : Catalog → List Text
listed c = filter (like leaf_prefix) (map Leaf.name c.attached)

-- After the retention, no listed name would be detached again.
stays :
    (db : DbAnswers) (cutoff : Text) (c : Catalog)
    → All (λ n. goes db cutoff n ≡ false) (listed (detach_aged db cutoff (listed c) c))
unfolding listed
stays db cutoff c =
    All-of_In (λ n. goes db cutoff n ≡ false) (listed (detach_aged db cutoff (listed c) c))
      (λ n i.
        let c' = detach_aged db cutoff (listed c) c in
        let (j, liked) = In-filter (like leaf_prefix) n (map Leaf.name c'.attached) i in
        let (leaf, k, named) = In-map Leaf.name n c'.attached j in
        let (before, stay) = detach_aged-In db cutoff (listed c) c leaf k in
        let was_listed =
          filter-In (like leaf_prefix) leaf.name (map Leaf.name c.attached)
            (map-In Leaf.name leaf c.attached before) (ap (like leaf_prefix) (sym named) ∙ liked) in
        ap (goes db cutoff) named ∙ stay was_listed)

sweep-listed :
    (db : DbAnswers) (cutoff : Text) (c : Catalog)
    → db.lists ≡ true
    → sweep db cutoff c ≡ (detach_aged db cutoff (listed c) c, none)
unfolding sweep listed
sweep-listed db cutoff c t = simp (t, sweep) refl

sweep-ends :
    (db : DbAnswers) (cutoff : Text) (c c' : Catalog)
    → sweep db cutoff c ≡ (c', none)
    → (db.lists ≡ true) × (detach_aged db cutoff (listed c) c ≡ c')
unfolding sweep
sweep-ends db cutoff c c' e = elim (Bool-cases db.lists) [
  | inr f ↦ none≢some (sym (ap (λ r. r.1) (simp (f, sweep) at e)))
  | inl t ↦ (t, ap (λ r. r.0) (sym (sweep-listed db cutoff c t) ∙ e))
]

sweep-again :
    (db : DbAnswers) (cutoff : Text) (c c' : Catalog)
    → sweep db cutoff c ≡ (c', none)
    → Keeps c c' × (sweep db cutoff c' ≡ (c', none))
sweep-again db cutoff c c' e =
    let (t, same) = sweep-ends db cutoff c c' e in
    subst (λ k. Keeps c k × (sweep db cutoff k ≡ (k, none))) same
      (detach_aged-Keeps db cutoff (listed c) c, again t)
  where
    again :
        db.lists ≡ true
        → sweep db cutoff (detach_aged db cutoff (listed c) c)
          ≡ (detach_aged db cutoff (listed c) c, none)
    again t =
        let c1 = detach_aged db cutoff (listed c) c in
        sweep-listed db cutoff c1 t
        ∙ ap (λ k. (k, none)) (detach_aged-none db cutoff (listed c1) c1 (stays db cutoff c))

-- A pass that ends well leaves nothing to do: a second pass of the same time, with the same
-- answers of the database, ends well and changes nothing.
pub run_once-again :
    (db : DbAnswers) (now retention : ℤ) (c c' : Catalog)
    → run_once db now retention c ≡ (c', none)
    → run_once db now retention c' ≡ (c', none)
unfolding run_once
run_once-again db now retention c c' e = go (premake db premake_days (day_start_secs now) c) refl e
  where
    go :
        (r : Catalog × Option Failure)
        → premake db premake_days (day_start_secs now) c ≡ r
        → then_sweep db (leaf_name (cutoff_of now retention)) r ≡ (c', none)
        → then_sweep db
            (leaf_name (cutoff_of now retention))
            (premake db premake_days (day_start_secs now) c')
          ≡ (c', none)
    go (c1, some f) p h = none≢some (sym (ap (λ r. r.1) h))
    go (c1, none) p h =
        let (_, made) = premake-Premade db premake_days (day_start_secs now) c c1 p in
        let (kept, again) = sweep-again db (leaf_name (cutoff_of now retention)) c1 c' h in
        let made' = Premade-Keeps db premake_days (day_start_secs now) c1 c' kept made in
        ap (then_sweep db (leaf_name (cutoff_of now retention)))
          (Premade-premake db premake_days (day_start_secs now) c' made')
        ∙ again
