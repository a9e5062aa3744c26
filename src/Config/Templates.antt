-- ===== src/Config/Templates.antt =====
-- src/config.rs: `interpolate_env` on a text that is written from literals and references.
use knievel.Base.{
  eqb, if◌then◌else◌, nat_eq, int_eq, Never, length, All, is_empty, length-append, Text, text_eq, ℕ,
  ◌+◌, ◌-◌, ◌≡◌, refl, sym, ap, ◌∙◌, Bool, true, false, Option, none, some, List, [], ◌∷◌, ◌++◌,
  arith,
}
use knievel.Base.Result.{Result, ok, err}
use knievel.Config.{
  span, is_name_start, is_name_char, is_default_char, match_end, match_at, resolved, put_front,
  scan, interpolate_env,
}

pub data Piece : Type 0 where
  literal : Text → Piece
  reference : (var : Text) (default : Option Text) → Piece

-- `:d`, where there is a default.
abbrev pub default_text : Option Text → Text
default_text none = []
default_text (some d) = 58 ∷ d

abbrev pub print_piece : Piece → Text
print_piece (literal s) = s
print_piece (reference var default) = 36 ∷ 123 ∷ (var ++ (default_text default ++ 125 ∷ []))

abbrev pub print : List Piece → Text
print [] = []
print (p ∷ ps) = print_piece p ++ print ps

-- A literal has no dollar sign; names and defaults are those of the pattern.
abbrev pub IsName : Text → Type 0
IsName [] = Never
IsName (c ∷ cs) = (is_name_start c ≡ true) × All (λ d. is_name_char d ≡ true) cs

abbrev pub IsDefault : Option Text → Type 0
IsDefault none = Unit
IsDefault (some d) = All (λ c. is_default_char c ≡ true) d

abbrev pub IsPiece : Piece → Type 0
IsPiece (literal s) = All (λ c. eqb c 36 ≡ false) s
IsPiece (reference var default) = IsName var × IsDefault default

-- What a piece stands for, and the reference that has no value.
abbrev pub meaning : (Text → Option Text) → Piece → Text × List Text
meaning env (literal s) = (s, [])
meaning env (reference var default) = elim (env var) [
  | some v ↦ (v, [])
  | none ↦ elim default [ some d ↦ (d, []) | none ↦ ([], var ∷ []) ]
]

abbrev pub meanings : (Text → Option Text) → List Piece → Text × List Text
meanings env [] = ([], [])
meanings env (p ∷ ps) = put_front (meaning env p) (meanings env ps)

abbrev pub verdict : Text × List Text → Result (List Text) Text
verdict (out, []) = ok out
verdict (out, e ∷ es) = err (e ∷ es)

span-append :
    (test : ℕ → Bool) (s : Text) (c : ℕ) (r : Text)
    → All (λ d. test d ≡ true) s
    → test c ≡ false
    → span test (s ++ c ∷ r) ≡ (s, c ∷ r)
unfolding span
span-append test [] c r h stop = rw (stop, span) refl
span-append test (x ∷ s) c r h stop = rw (h.0, span-append test s c r h.1 stop, span) refl

match_end-print :
    (var : Text) (default : Option Text) (r : Text)
    → IsDefault default
    → match_end var (default_text default ++ 125 ∷ r)
      ≡ some (record {
        var = var;
        default = default;
        size = length var + length (default_text default) + 3;
      })
unfolding match_end
match_end-print var none r h =
    ap (λ n. some (record { var = var; default = none; size = n })) (omega arith)
match_end-print var (some d) r h =
    rw (span-append is_default_char d 125 r h refl, match_end)
      (ap (λ n. some (record { var = var; default = some d; size = n })) (omega arith))

scan-past : (env : Text → Option Text) (s r : Text) → scan env (length s) (s ++ r) ≡ scan env 0 r
unfolding scan
scan-past env [] r = refl
scan-past env (c ∷ s) r = scan-past env s r

match_at-other : (c : ℕ) (cs : Text) → eqb c 36 ≡ false → match_at (c ∷ cs) ≡ none
unfolding match_at
match_at-other c [] h = refl
match_at-other c (d ∷ []) h = refl
match_at-other c (d ∷ e ∷ cs) h = rw (h, match_at) refl

scan-literal :
    (env : Text → Option Text) (s r : Text)
    → All (λ c. eqb c 36 ≡ false) s
    → scan env 0 (s ++ r) ≡ put_front (s, []) (scan env 0 r)
unfolding scan
scan-literal env [] r h = refl
scan-literal env (c ∷ s) r h =
    rw (match_at-other c (s ++ r) h.0, scan)
      (ap (put_front (c ∷ [], [])) (scan-literal env s r h.1))

-- The bytes of a reference behind its dollar sign, before more text.
reference-append : (var d r : Text) → (var ++ (d ++ 125 ∷ [])) ++ r ≡ var ++ (d ++ 125 ∷ r)
reference-append [] [] r = refl
reference-append [] (c ∷ d) r = ap (◌∷◌ c) (reference-append [] d r)
reference-append (c ∷ var) d r = ap (◌∷◌ c) (reference-append var d r)

span-name :
    (cs : Text) (default : Option Text) (r : Text)
    → All (λ d. is_name_char d ≡ true) cs
    → span is_name_char (cs ++ (default_text default ++ 125 ∷ r))
      ≡ (cs, default_text default ++ 125 ∷ r)
span-name cs none r h = span-append is_name_char cs 125 r h refl
span-name cs (some d) r h = span-append is_name_char cs 58 (d ++ 125 ∷ r) h refl

size_of : Text → Option Text → ℕ
size_of var default = length var + length (default_text default) + 3

match_at-print :
    (var : Text) (default : Option Text) (r : Text)
    → IsName var
    → IsDefault default
    → match_at (36 ∷ 123 ∷ (var ++ (default_text default ++ 125 ∷ r)))
      ≡ some (record { var = var; default = default; size = size_of var default })
unfolding match_at size_of
match_at-print [] default r named h = elim named [ ]
match_at-print (c ∷ cs) default r named h =
    rw (span-name cs default r named.1, named.0, match_at) (match_end-print (c ∷ cs) default r h)

length-rest :
    (var : Text) (default : Option Text)
    → length (123 ∷ (var ++ (default_text default ++ 125 ∷ []))) ≡ size_of var default - 1
unfolding size_of
length-rest var default =
    let e1 = length-append var (default_text default ++ 125 ∷ []) in
    let e2 = length-append (default_text default) (125 ∷ []) in omega (arith, e1, e2)

scan-print_piece :
    (env : Text → Option Text) (p : Piece) (r : Text)
    → IsPiece p
    → scan env 0 (print_piece p ++ r) ≡ put_front (meaning env p) (scan env 0 r)
unfolding scan resolved
scan-print_piece env (literal s) r h = scan-literal env s r h
scan-print_piece env (reference var default) r h =
    let tail = 123 ∷ (var ++ (default_text default ++ 125 ∷ [])) in
    let found : match_at (36 ∷ (tail ++ r))
        ≡ some (record { var = var; default = default; size = size_of var default }) =
      ap (λ t. match_at (36 ∷ 123 ∷ t)) (reference-append var (default_text default) r)
      ∙ match_at-print var default r h.0 h.1 in
    rw (found, scan)
      (ap (put_front (meaning env (reference var default)))
        (ap (λ k. scan env k (tail ++ r)) (sym (length-rest var default)) ∙ scan-past env tail r))

scan-print :
    (env : Text → Option Text) (ps : List Piece)
    → All IsPiece ps
    → scan env 0 (print ps) ≡ meanings env ps
unfolding scan
scan-print env [] h = refl
scan-print env (p ∷ ps) h =
    scan-print_piece env p (print ps) h.0 ∙ ap (put_front (meaning env p)) (scan-print env ps h.1)

-- A text of literals without a dollar sign and of references is interpolated to the literals and
-- the references' values in order, a default where the variable is not set; no value is
-- interpolated again. If references have neither, the error names all of them in order.
pub interpolate_env-print :
    (env : Text → Option Text) (ps : List Piece)
    → All IsPiece ps
    → interpolate_env env (print ps) ≡ verdict (meanings env ps)
unfolding interpolate_env
interpolate_env-print env ps h =
    ap (λ (r : Text × List Text). if is_empty r.1 then ok r.0 else err r.1) (scan-print env ps h)
    ∙ decided (meanings env ps)
  where
    decided : (r : Text × List Text) → (if is_empty r.1 then ok r.0 else err r.1) ≡ verdict r
    decided (out, []) = refl
    decided (out, e ∷ es) = refl
