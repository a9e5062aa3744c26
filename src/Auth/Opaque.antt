-- ===== src/Auth/Opaque.antt =====
-- src/auth/opaque.rs: the parts of an opaque API token. Hashing a secret and checking it are argon2's.
use knievel.Base.{
  eqb, if◌then◌else◌, eqb_iff, Bool-cases, Option-cases, nat_eq, ◌==◌, ==_refl, int_eq, All,
  is_empty, Text, text, eqb_text_iff, text_eq, split_once, split_once-append, splitn, ℕ, zero, suc,
  ◌≡◌, refl, ap, ◌∙◌, subst, ◌≢◌, ◌↔◌, ◌⊎◌, inl, inr, false, not, ◌&&◌, ◌||◌, Option, none, some,
  List, [], ◌∷◌, ◌++◌, arith,
}
use knievel.Base.Result.{Result, ok, err, err≢ok, none≢some, some-injective}

pub record ParsedOpaque : Type 0 where
  pub env : Text
  pub scope : Text
  pub id_short : Text
  pub secret : Text

abbrev pub id_db_prefix : Text
id_db_prefix = text "tok_"

unfoldable pub db_id : ParsedOpaque → Text
db_id p = id_db_prefix ++ p.id_short

-- The messages are left out.
pub data ParseError : Type 0 where
  missing_prefix empty_segment unknown_scope : ParseError

-- `.strip_prefix(prefix)`
unfoldable pub strip_prefix : Text → Text → Option Text
strip_prefix [] s = some s
strip_prefix (c ∷ cs) [] = none
strip_prefix (c ∷ cs) (x ∷ xs) = let rest = strip_prefix cs xs in if c == x then rest else none

abbrev pub underscore : ℕ
underscore = 95

-- The `i`-th `parts.next().unwrap_or("")`.
abbrev pub part : ℕ → List Text → Text
part i [] = []
part zero (s ∷ parts) = s
part (suc i) (s ∷ parts) = part i parts

unfoldable pub check_parts : ParsedOpaque → Result ParseError ParsedOpaque
check_parts p =
    if is_empty p.env || (is_empty p.scope || (is_empty p.id_short || is_empty p.secret))
    then err empty_segment
    else if not (p.scope == text "org") && not (p.scope == text "project")
    then err unknown_scope
    else ok p

abbrev pub parsed_of : List Text → ParsedOpaque
parsed_of parts = record {
  env = part 0 parts;
  scope = part 1 parts;
  id_short = part 2 parts;
  secret = part 3 parts;
}

unfoldable pub parse : Text → Result ParseError ParsedOpaque
parse token = elim (strip_prefix (text "kvl_") token) [
  | none ↦ err missing_prefix
  | some rest ↦ check_parts (parsed_of (splitn underscore 4 rest))
]

-- The wire form of its parts.
abbrev pub render : ParsedOpaque → Text
render p =
    text "kvl_"
    ++ (p.env ++ underscore ∷ (p.scope ++ underscore ∷ (p.id_short ++ underscore ∷ p.secret)))

abbrev pub HasNoUnderscore : Text → Type 0
HasNoUnderscore s = All (λ c. c ≢ underscore) s

-- What a token must be made of: the secret may have underscores, the other parts have none.
pub record IsIssued (p : ParsedOpaque) : Type 0 where
  pub env_apart : HasNoUnderscore p.env
  pub id_apart : HasNoUnderscore p.id_short
  pub has_env : is_empty p.env ≡ false
  pub has_id : is_empty p.id_short ≡ false
  pub has_secret : is_empty p.secret ≡ false
  pub scope_known : (p.scope ≡ text "org") ⊎ (p.scope ≡ text "project")

strip_prefix-append : (front s : Text) → strip_prefix front (front ++ s) ≡ some s
unfolding strip_prefix
strip_prefix-append [] s = refl
strip_prefix-append (c ∷ cs) s = ground (arith, strip_prefix-append cs s, ==_refl c)

strip_prefix→ :
    (front s : Text) {rest : Text} → strip_prefix front s ≡ some rest → s ≡ front ++ rest
unfolding strip_prefix
strip_prefix→ [] s h = ground arith
strip_prefix→ (c ∷ cs) [] h = ground arith
strip_prefix→ (c ∷ cs) (x ∷ xs) {rest} h = elim (Bool-cases (c == x)) [
  | inr f ↦ let h' = rw (f, strip_prefix) at h in ground arith
  | inl t ↦ let e = strip_prefix→ cs xs (rw (t, strip_prefix) at h) in ground (arith, eqb_iff c x)
]

split_once→ :
    (s : Text) {a b : Text}
    → split_once underscore s ≡ some (a, b)
    → (s ≡ a ++ underscore ∷ b) × HasNoUnderscore a
unfolding split_once
split_once→ [] h = ground arith
split_once→ (x ∷ xs) {a} {b} h = elim (Bool-cases (eqb x underscore)) [
  | inl t ↦
      let e = some-injective (rw (t, split_once) at h) in
      subst (λ (p : Text × Text). (x ∷ xs ≡ p.0 ++ underscore ∷ p.1) × HasNoUnderscore p.0) e
        (ground (arith, eqb_iff x underscore), tt)
  | inr f ↦ elim (Option-cases (split_once underscore xs)) [
    | inl n ↦ none≢some (rw (f, n, split_once) at h)
    | inr ((a', b'), q) ↦
        let e = some-injective (rw (f, q, split_once) at h) in
        let (same, apart) = split_once→ xs q in
        subst (λ (p : Text × Text). (x ∷ xs ≡ p.0 ++ underscore ∷ p.1) × HasNoUnderscore p.0) e
          (ap (λ t. x ∷ t) same, ((λ u. ground (arith, eqb_iff x underscore)), apart))
  ]
]

-- The parts of a text whose fourth part is there.
splitn→ :
    (s : Text)
    → is_empty (part 3 (splitn underscore 4 s)) ≡ false
    → let p = parsed_of (splitn underscore 4 s) in
      (s ≡ p.env ++ underscore ∷ (p.scope ++ underscore ∷ (p.id_short ++ underscore ∷ p.secret)))
      × HasNoUnderscore p.env
      × HasNoUnderscore p.id_short
unfolding splitn
splitn→ s full = elim (Option-cases (split_once underscore s)) [
  | inl n ↦ let f = rw (n, splitn) at full in ground arith
  | inr ((a, r1), h1) ↦ elim (Option-cases (split_once underscore r1)) [
    | inl n ↦ let f = rw (h1, n, splitn) at full in ground arith
    | inr ((b, r2), h2) ↦ elim (Option-cases (split_once underscore r2)) [
      | inl n ↦ let f = rw (h1, h2, n, splitn) at full in ground arith
      | inr ((c, d), h3) ↦
          let (e1, apart1) = split_once→ s h1 in
          let (e2, apart2) = split_once→ r1 h2 in
          let (e3, apart3) = split_once→ r2 h3 in
          rw (h1, h2, h3, splitn)
            (
              e1 ∙ ap (λ t. a ++ underscore ∷ t) (e2 ∙ ap (λ t. b ++ underscore ∷ t) e3),
              apart1,
              apart3,
            )
    ]
  ]
]

splitn-render :
    (a b c d : Text)
    → HasNoUnderscore a
    → HasNoUnderscore b
    → HasNoUnderscore c
    → splitn underscore 4 (a ++ underscore ∷ (b ++ underscore ∷ (c ++ underscore ∷ d)))
      ≡ a ∷ b ∷ c ∷ d ∷ []
unfolding splitn
splitn-render a b c d apart_a apart_b apart_c =
    rw
      (
        split_once-append underscore a (b ++ underscore ∷ (c ++ underscore ∷ d)) apart_a,
        split_once-append underscore b (c ++ underscore ∷ d) apart_b,
        split_once-append underscore c d apart_c,
        splitn,
      )
      refl

IsPassed : ParsedOpaque → Type 0
IsPassed p =
    (is_empty p.env ≡ false)
    × (is_empty p.id_short ≡ false)
    × (is_empty p.secret ≡ false)
    × ((p.scope ≡ text "org") ⊎ (p.scope ≡ text "project"))

check_parts→ : (q : ParsedOpaque) {p : ParsedOpaque} → check_parts q ≡ ok p → (q ≡ p) × IsPassed q
unfolding check_parts IsPassed
check_parts→ q h =
    ground (arith, eqb_text_iff q.scope (text "org"), eqb_text_iff q.scope (text "project"))

→check_parts : (p : ParsedOpaque) → IsIssued p → check_parts p ≡ ok p
unfolding check_parts
→check_parts p issued =
    let a = issued.has_env in
    let b = issued.has_id in
    let c = issued.has_secret in
    elim issued.scope_known [
      | inl e ↦ rw (a, b, c, e, check_parts) refl
      | inr e ↦ rw (a, b, c, e, check_parts) refl
    ]

scope_apart : (s : Text) → (s ≡ text "org") ⊎ (s ≡ text "project") → HasNoUnderscore s
scope_apart s (inl e) = rw e (ground arith)
scope_apart s (inr e) = rw e (ground arith)

parse→ : (token : Text) (p : ParsedOpaque) → parse token ≡ ok p → (token ≡ render p) × IsIssued p
unfolding parse IsPassed
parse→ token p h = elim (Option-cases (strip_prefix (text "kvl_") token)) [
  | inl n ↦ err≢ok (rw (n, parse) at h)
  | inr (rest, s) ↦
      let (same, (env, id, secret, scope)) =
        check_parts→ (parsed_of (splitn underscore 4 rest)) (rw (s, parse) at h) in
      let (whole, env_apart, id_apart) = splitn→ rest secret in
      subst (λ q. (token ≡ render q) × IsIssued q) same
        (
          strip_prefix→ (text "kvl_") token s ∙ ap (λ t. text "kvl_" ++ t) whole,
          record {
            env_apart = env_apart;
            id_apart = id_apart;
            has_env = env;
            has_id = id;
            has_secret = secret;
            scope_known = scope;
          },
        )
]

parse-render : (p : ParsedOpaque) → IsIssued p → parse (render p) ≡ ok p
unfolding parse
parse-render p issued =
    rw
      (
        strip_prefix-append (text "kvl_")
            (p.env ++ underscore ∷ (p.scope ++ underscore ∷ (p.id_short ++ underscore ∷ p.secret))),
        splitn-render p.env p.scope p.id_short p.secret issued.env_apart
            (scope_apart p.scope issued.scope_known) issued.id_apart,
        parse,
      )
      (→check_parts p issued)

-- A token is read as its parts exactly when it is their wire form, no part is empty, the scope is `org`
-- or `project`, and only the secret has underscores.
pub parse_iff :
    (token : Text) (p : ParsedOpaque) → (parse token ≡ ok p) ↔ ((token ≡ render p) × IsIssued p)
parse_iff token p = (parse→ token p, λ (e, issued). ap parse e ∙ parse-render p issued)
