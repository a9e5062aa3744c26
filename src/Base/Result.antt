-- ===== src/Base/Result.antt =====
-- `Result<A, E>` and its `?`.
use mathlib.Core.Path.{◌≡◌, refl}
use mathlib.Core.Option.{Option, none, some}
use mathlib.Core.Logic.{◌⊎◌, inl, inr}

pub data Result {ℓ} (E A : Type ℓ) : Type ℓ where
  ok : A → Result E A
  err : E → Result E A

infixl 5 ◌>>=◌
abbrev pub ◌>>=◌ {ℓ} : {E A B : Type ℓ} → Result E A → (A → Result E B) → Result E B
ok a >>= f = f a
err e >>= f = err e

-- `.ok_or(e)`
abbrev pub ok_or {ℓ} : {E A : Type ℓ} → Option A → E → Result E A
ok_or none e = err e
ok_or (some a) e = ok a

-- To go on from a successful `let a = o.ok_or(e)?;`.
pub ok_or-bind-elim {ℓ κ} :
    {E A B : Type ℓ} {P : Type κ} (o : Option A) (e : E) (f : A → Result E B) {b : B}
    → (ok_or o e >>= f) ≡ ok b
    → ((a : A) → o ≡ some a → f a ≡ ok b → P)
    → P
ok_or-bind-elim none e f h k = cc
ok_or-bind-elim (some a) e f h k = k a refl h

-- To go on from a successful `let a = m?;`.
pub bind-elim {ℓ κ} :
    {E A B : Type ℓ} {P : Type κ} (m : Result E A) (f : A → Result E B) {b : B}
    → (m >>= f) ≡ ok b
    → ((a : A) → m ≡ ok a → f a ≡ ok b → P)
    → P
bind-elim (ok a) f h k = k a refl h
bind-elim (err e) f h k = cc

pub ok-injective {ℓ} : {E A : Type ℓ} {a b : A} → ◌≡◌ {A = Result E A} (ok a) (ok b) → a ≡ b
ok-injective h = cc

pub err-injective {ℓ} : {E A : Type ℓ} {a b : E} → ◌≡◌ {A = Result E A} (err a) (err b) → a ≡ b
err-injective h = cc

pub err≢ok {ℓ κ} :
    {E A : Type ℓ} {P : Type κ} {e : E} {a : A} → ◌≡◌ {A = Result E A} (err e) (ok a) → P
err≢ok h = cc

pub none≢some {ℓ κ} : {A : Type ℓ} {P : Type κ} {a : A} → ◌≡◌ {A = Option A} none (some a) → P
none≢some h = cc

pub some-injective {ℓ} : {A : Type ℓ} {a b : A} → ◌≡◌ {A = Option A} (some a) (some b) → a ≡ b
some-injective h = cc

-- The computation returns.
abbrev pub Returns {ℓ} : {E A : Type ℓ} → Result E A → Type ℓ
Returns {A = A} m = (a : A) × (m ≡ ok a)

pub bind-Returns {ℓ} :
    {E A B : Type ℓ} (m : Result E A) (f : A → Result E B)
    → Returns m
    → ((a : A) → m ≡ ok a → Returns (f a))
    → Returns (m >>= f)
bind-Returns (ok a) f r k = k a refl
bind-Returns (err e) f (a, q) k = cc

pub Result-cases {ℓ} :
    {E A : Type ℓ} (m : Result E A) → ((a : A) × (m ≡ ok a)) ⊎ ((e : E) × (m ≡ err e))
Result-cases (ok a) = inl (a, refl)
Result-cases (err e) = inr (e, refl)
