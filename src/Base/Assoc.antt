-- ===== src/Base/Assoc.antt =====
-- `HashMap<K, V>` as an association list with one entry for a key. The program never depends on the
-- order of iteration.
use mathlib.Core.Option
use knievel.Base.{
  if◌then◌else◌, Eq, ◌==◌, nat_eq, int_eq, text_eq, ◌≡◌, refl, Option, none, some, List, [], ◌∷◌,
  arith,
}

abbrev pub Assoc {ℓ κ} : Type ℓ → Type κ → Type (ℓ ⊔ κ)
Assoc K V = List (K × V)

module _ {ℓ κ} {K : Type ℓ} {V : Type κ} ⦃e : Eq K⦄ where
  unfoldable pub get : K → Assoc K V → Option V
  get k [] = none
  get k ((j, v) ∷ m) = let rest = get k m in if j == k then some v else rest

  -- `m.insert(k, v)`
  unfoldable pub insert : K → V → Assoc K V → Assoc K V
  insert k v [] = (k, v) ∷ []
  insert k v ((j, w) ∷ m) = let rest = insert k v m in if j == k then (k, v) ∷ m else (j, w) ∷ rest

  -- `if let Some(v) = m.get_mut(k) { *v = f(v); }`
  unfoldable pub update : K → (V → V) → Assoc K V → Assoc K V
  update k f [] = []
  update k f ((j, w) ∷ m) =
      let rest = update k f m in if j == k then (j, f w) ∷ m else (j, w) ∷ rest

  pub get-insert :
      (k j : K) (v : V) (m : Assoc K V)
      → get j (insert k v m) ≡ (if k == j then some v else get j m)
  unfolding get insert
  get-insert k j v [] = refl
  get-insert k j v ((i, w) ∷ m) =
      ground (arith, e.eq_iff k j, e.eq_iff i k, e.eq_iff i j, get-insert k j v m)

  pub get-update :
      (k j : K) (f : V → V) (m : Assoc K V)
      → get j (update k f m) ≡ (if k == j then Option.map f (get j m) else get j m)
  unfolding get update
  get-update k j f [] = ground arith
  get-update k j f ((i, w) ∷ m) =
      ground (arith, e.eq_iff k j, e.eq_iff i k, e.eq_iff i j, get-update k j f m)
