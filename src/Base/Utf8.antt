-- ===== src/Base/Utf8.antt =====
-- Text as its UTF-8 bytes: `String` and `&str` of the program.
use Prim.Native.Char.{code}
use Prim.Native.String.{String}
use Prim.Native.Nat.{ℕ, zero, suc}
use mathlib.Core.Path.{◌≡◌}
use mathlib.Core.Logic.{◌↔◌, ◌≢◌}
use mathlib.Core.Option
use mathlib.Core.Option.{Option, none, some}
use mathlib.Core.Bool.{Bool, true, false, ◌&&◌}
use mathlib.Core.List.{List, [], ◌∷◌, ◌++◌}
use native.Mathlib.Omega.{arith}
use knievel.Base.Tests.{Eq, eqb, leb, eqb_iff, if◌then◌else◌}
use knievel.Base.Lists.{All}

abbrev pub Text : Type 0
Text = List ℕ

-- The bytes of an ASCII literal.
abbrev pub text : String → Text
text String.[] = []
text (String.◌∷◌ c s) = code c ∷ text s

abbrev pub eqb_text : Text → Text → Bool
eqb_text [] [] = true
eqb_text [] (y ∷ ys) = false
eqb_text (x ∷ xs) [] = false
eqb_text (x ∷ xs) (y ∷ ys) = eqb x y && eqb_text xs ys

pub eqb_text_iff : (s t : Text) → (eqb_text s t ≡ true) ↔ (s ≡ t)
eqb_text_iff [] [] = ground arith
eqb_text_iff [] (y ∷ ys) = ground arith
eqb_text_iff (x ∷ xs) [] = ground arith
eqb_text_iff (x ∷ xs) (y ∷ ys) = ground (arith, eqb_iff x y, eqb_text_iff xs ys)

instance abbrev pub text_eq : Eq Text
text_eq = record { eq = eqb_text; eq_iff = eqb_text_iff }

-- `String::from_utf8`, as a walk over the bytes. `between` asks for a next byte in a range (the
-- second byte of a sequence may be restricted), and then for `more` continuation bytes.
pub data Utf8State : Type 0 where
  start : Utf8State
  between : ℕ → ℕ → ℕ → Utf8State

abbrev in_range : ℕ → ℕ → ℕ → Bool
in_range lo hi b = leb lo b && leb b hi

lead_byte : ℕ → Option Utf8State
lead_byte b =
    if leb b 0x7f
    then some start
    else if in_range 0xc2 0xdf b
    then some (between 0x80 0xbf 0)
    else if eqb b 0xe0
    then some (between 0xa0 0xbf 1)
    else if eqb b 0xed
    then some (between 0x80 0x9f 1)
    else if in_range 0xe1 0xef b
    then some (between 0x80 0xbf 1)
    else if eqb b 0xf0
    then some (between 0x90 0xbf 2)
    else if in_range 0xf1 0xf3 b
    then some (between 0x80 0xbf 2)
    else if eqb b 0xf4
    then some (between 0x80 0x8f 2)
    else none

next_byte : Utf8State → ℕ → Option Utf8State
unfolding lead_byte
next_byte start b = lead_byte b
next_byte (between lo hi zero) b = if in_range lo hi b then some start else none
next_byte (between lo hi (suc more)) b =
    if in_range lo hi b then some (between 0x80 0xbf more) else none

utf8_from : Option Utf8State → Text → Bool
utf8_from none bs = false
utf8_from (some start) [] = true
utf8_from (some (between lo hi more)) [] = false
utf8_from (some s) (b ∷ bs) = utf8_from (next_byte s b) bs

unfoldable pub is_utf8 : Text → Bool
unfolding utf8_from next_byte
is_utf8 bs = utf8_from (some start) bs

-- `.ok()` of `String::from_utf8`
unfoldable pub from_utf8 : Text → Option Text
from_utf8 bs = if is_utf8 bs then some bs else none

-- `.split_once(c)`
unfoldable pub split_once : ℕ → Text → Option (Text × Text)
split_once c [] = none
split_once c (x ∷ xs) =
    let rest = split_once c xs in
    if eqb x c then some ([], xs) else Option.map (λ (p : Text × Text). (x ∷ p.0, p.1)) rest

pub split_once-append :
    (c : ℕ) (xs ys : Text) → All (λ x. x ≢ c) xs → split_once c (xs ++ c ∷ ys) ≡ some (xs, ys)
unfolding split_once
split_once-append c [] ys h = ground arith
split_once-append c (x ∷ xs) ys h = ground (arith, split_once-append c xs ys h.1)

-- `.splitn(n, c)`
unfoldable pub splitn : ℕ → ℕ → Text → List Text
splitn c zero s = []
splitn c (suc zero) s = s ∷ []
splitn c (suc (suc n)) s = elim (split_once c s) [
  | none ↦ s ∷ []
  | some (a, b) ↦ a ∷ splitn c (suc n) b
]
