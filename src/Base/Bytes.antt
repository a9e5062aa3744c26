-- ===== src/Base/Bytes.antt =====
-- Bytes, big-endian words, and slices of a buffer.
use knievel.Base.{
  nat_eq, int_eq, length, take, drop, All, length-append, take-append, drop-append,
  take-append-drop, length-take, length-drop, All-append, text_eq, ℕ, zero, suc, ◌+◌, ◌*◌, ◌/◌, ◌%◌,
  ◌^◌, ◌≤◌, ◌<◌, ◌≡◌, refl, sym, ap, ◌∙◌, subst, List, [], ◌∷◌, ◌++◌, arith,
}
use native.Mathlib.Nat.{pow-suc, add-zero, add-suc, suc-add, zero-add}

abbrev pub IsByte : ℕ → Type 0
IsByte b = b < 256

-- `to_be_bytes` of a word of `k` bytes.
unfoldable pub to_be_bytes : ℕ → ℕ → List ℕ
to_be_bytes zero w = []
to_be_bytes (suc k) w = to_be_bytes k (w / 256) ++ w % 256 ∷ []

from_be_acc : ℕ → List ℕ → ℕ
from_be_acc acc [] = acc
from_be_acc acc (b ∷ bs) = from_be_acc (acc * 256 + b) bs

unfoldable pub from_be_bytes : List ℕ → ℕ
unfolding from_be_acc
from_be_bytes bs = from_be_acc 0 bs

-- `buf[from..from + n]`
abbrev pub slice : ℕ → ℕ → List ℕ → List ℕ
slice from n buf = take n (drop from buf)

pub length-to_be_bytes : (k w : ℕ) → length (to_be_bytes k w) ≡ k
unfolding to_be_bytes
length-to_be_bytes zero w = refl
length-to_be_bytes (suc k) w =
    omega (
      arith,
      length-append (to_be_bytes k (w / 256)) (w % 256 ∷ []),
      length-to_be_bytes k (w / 256),
    )

pub to_be_bytes-IsByte : (k w : ℕ) → All IsByte (to_be_bytes k w)
unfolding to_be_bytes
to_be_bytes-IsByte zero w = tt
to_be_bytes-IsByte (suc k) w =
    All-append IsByte (to_be_bytes k (w / 256)) (w % 256 ∷ []) (to_be_bytes-IsByte k (w / 256))
      (omega arith)

from_be_acc-snoc :
    (acc : ℕ) (bs : List ℕ) (b : ℕ) → from_be_acc acc (bs ++ b ∷ []) ≡ from_be_acc acc bs * 256 + b
unfolding from_be_acc
from_be_acc-snoc acc [] b = refl
from_be_acc-snoc acc (c ∷ bs) b = from_be_acc-snoc (acc * 256 + c) bs b

pub from_be_bytes-to_be_bytes : (k w : ℕ) → w < 256 ^ k → from_be_bytes (to_be_bytes k w) ≡ w
unfolding from_be_bytes to_be_bytes
from_be_bytes-to_be_bytes zero w h = omega arith
from_be_bytes-to_be_bytes (suc k) w h = omega (
  arith,
  from_be_acc-snoc 0 (to_be_bytes k (w / 256)) (w % 256),
  from_be_bytes-to_be_bytes k (w / 256) (omega (arith, pow-suc 256 k)),
)

-- A list that is not empty is its front and its last entry.
snoc-view :
    (k : ℕ) (xs : List ℕ)
    → length xs ≡ suc k
    → (ys : List ℕ) × (b : ℕ) × (xs ≡ ys ++ b ∷ []) × (length ys ≡ k)
snoc-view k [] e = absurd (omega arith)
snoc-view zero (x ∷ []) e = ([], x, refl, refl)
snoc-view zero (x ∷ y ∷ xs) e = absurd (omega arith)
snoc-view (suc k) (x ∷ xs) e =
    let (ys, b, q, l) = snoc-view k xs (omega arith) in (x ∷ ys, b, ap (◌∷◌ x) q, ap suc l)

All-append_left {κ} : (P : ℕ → Type κ) (xs ys : List ℕ) → All P (xs ++ ys) → All P xs × All P ys
All-append_left P [] ys h = (tt, h)
All-append_left P (x ∷ xs) ys h = let (l, r) = All-append_left P xs ys h.1 in ((h.0, l), r)

pub to_be_bytes-from_be_bytes :
    (k : ℕ) (bs : List ℕ) → length bs ≡ k → All IsByte bs → to_be_bytes k (from_be_bytes bs) ≡ bs
unfolding from_be_bytes to_be_bytes
to_be_bytes-from_be_bytes zero [] e h = refl
to_be_bytes-from_be_bytes zero (b ∷ bs) e h = absurd (omega arith)
to_be_bytes-from_be_bytes (suc k) bs e h =
    let (ys, b, q, l) = snoc-view k bs e in
    let (front, last) = All-append_left IsByte ys (b ∷ []) (subst (All IsByte) q h) in
    let tail : from_be_bytes bs ≡ from_be_bytes ys * 256 + b =
      ap from_be_bytes q ∙ from_be_acc-snoc 0 ys b in
    let high : from_be_bytes bs / 256 ≡ from_be_bytes ys = omega (arith, last.0) in
    let low : from_be_bytes bs % 256 ≡ b = omega (arith, last.0) in
    rw (high, low, to_be_bytes-from_be_bytes k ys l front) (sym q)

from_be_acc-lt :
    (k acc : ℕ) (bs : List ℕ)
    → All IsByte bs
    → acc < 256 ^ k
    → from_be_acc acc bs < 256 ^ (k + length bs)
unfolding from_be_acc
from_be_acc-lt k acc [] h a = rw add-zero a
from_be_acc-lt k acc (b ∷ bs) h a =
    let step = from_be_acc-lt (suc k) (acc * 256 + b) bs h.1 (omega (arith, pow-suc 256 k, h.0)) in
    rw (add-suc, ← suc-add) step

pub from_be_bytes-lt : (bs : List ℕ) → All IsByte bs → from_be_bytes bs < 256 ^ length bs
unfolding from_be_bytes
from_be_bytes-lt bs h = rw zero-add at (from_be_acc-lt 0 0 bs h (omega arith))

drop-add : (i n : ℕ) (buf : List ℕ) → drop (i + n) buf ≡ drop n (drop i buf)
drop-add zero n buf = rw zero-add
drop-add (suc i) zero [] = rw suc-add
drop-add (suc i) (suc n) [] = rw suc-add
drop-add (suc i) n (b ∷ buf) = rw suc-add (drop-add i n buf)

-- One step of a walk through a buffer.
pub slice_at :
    (buf xs ys : List ℕ) (i n : ℕ)
    → drop i buf ≡ xs ++ ys
    → length xs ≡ n
    → (slice i n buf ≡ xs) × (drop (i + n) buf ≡ ys)
slice_at buf xs ys i n e l =
    rw (← l) (rw e (take-append xs ys), rw (drop-add, e) (drop-append xs ys))

pub drop-slice : (buf : List ℕ) (i n : ℕ) → drop i buf ≡ slice i n buf ++ drop (i + n) buf
drop-slice buf i n = rw drop-add (sym (take-append-drop n (drop i buf)))

pub length-slice : (buf : List ℕ) (i n : ℕ) → i + n ≤ length buf → length (slice i n buf) ≡ n
length-slice buf i n h = omega (arith, length-take n (drop i buf), length-drop i buf)

pub slice-IsByte : (buf : List ℕ) (i n : ℕ) → All IsByte buf → All IsByte (slice i n buf)
slice-IsByte buf i n h =
    let tail : All IsByte (drop i buf) =
      (All-append_left IsByte (take i buf) (drop i buf)
        (subst (All IsByte) (sym (take-append-drop i buf)) h)).1 in
    (All-append_left IsByte (take n (drop i buf)) (drop n (drop i buf))
      (subst (All IsByte) (sym (take-append-drop n (drop i buf))) tail)).0
