-- ===== src/Prelude/Order.antt =====
-- The order of Go strings: by bytes, which for UTF-8 is by code points.
use Prim.Native.Nat.{ℕ, Ordering, compare as compare_ℕ}
use Prim.Native.Char.{code}
use Prim.Native.String.compare
use Prim.Native.String.{String, compare, then}
use text.Mathlib.TextEquality.{path_by_compare}
use text.Mathlib.TextPositions.{compare_refl}
use mathlib.Core.Path.{◌≡◌, refl, sym, ◌∙◌}
use mathlib.Core.Logic.{◌⊎◌, ◌≢◌, inl, inr}
use mathlib.Core.Bool.{Bool, true, false}
use native.Mathlib.Omega.{arith}

-- `s < t` on strings.
abbrev pub text_lt : String → String → Bool
text_lt s t = elim (compare s t) [ Ordering.lt ↦ true | _ ↦ false ]

Ordering-cases : (o : Ordering) → (o ≡ Ordering.lt) ⊎ ((o ≡ Ordering.eq) ⊎ (o ≡ Ordering.gt))
Ordering-cases Ordering.lt = inl refl
Ordering-cases Ordering.eq = inr (inl refl)
Ordering-cases Ordering.gt = inr (inr refl)

then_trans :
    (a b c : ℕ) (p q r : Ordering)
    → then (compare_ℕ a b) p ≡ Ordering.lt
    → then (compare_ℕ b c) q ≡ Ordering.lt
    → (p ≡ Ordering.lt → q ≡ Ordering.lt → r ≡ Ordering.lt)
    → then (compare_ℕ a c) r ≡ Ordering.lt
then_trans a b c p q r h k l = ground (arith, l)

then_flip :
    (a b : ℕ) (p q : Ordering)
    → then (compare_ℕ a b) p ≡ Ordering.gt
    → (p ≡ Ordering.gt → q ≡ Ordering.lt)
    → then (compare_ℕ b a) q ≡ Ordering.lt
then_flip a b p q h l = ground (arith, l)

compare_trans :
    (s t u : String)
    → compare s t ≡ Ordering.lt
    → compare t u ≡ Ordering.lt
    → compare s u ≡ Ordering.lt
compare_trans String.[] String.[] u h k = k
compare_trans String.[] (String.◌∷◌ c t) String.[] h k =
    absurd (ground (arith, compare.cons-nil c t))
compare_trans String.[] (String.◌∷◌ c t) (String.◌∷◌ d u) h k = compare.nil-cons d u
compare_trans (String.◌∷◌ b s) String.[] u h k = absurd (ground (arith, compare.cons-nil b s))
compare_trans (String.◌∷◌ b s) (String.◌∷◌ c t) String.[] h k =
    absurd (ground (arith, compare.cons-nil c t))
compare_trans (String.◌∷◌ b s) (String.◌∷◌ c t) (String.◌∷◌ d u) h k =
    compare.cons-cons b d s u
    ∙ then_trans (code b) (code c) (code d) (compare s t) (compare t u) (compare s u)
        (sym (compare.cons-cons b c s t) ∙ h) (sym (compare.cons-cons c d t u) ∙ k)
        (compare_trans s t u)

compare_flip : (s t : String) → compare s t ≡ Ordering.gt → compare t s ≡ Ordering.lt
compare_flip String.[] String.[] h = absurd (ground (arith, compare.nil-nil))
compare_flip String.[] (String.◌∷◌ c t) h = absurd (ground (arith, compare.nil-cons c t))
compare_flip (String.◌∷◌ b s) String.[] h = compare.nil-cons b s
compare_flip (String.◌∷◌ b s) (String.◌∷◌ c t) h =
    compare.cons-cons c b t s
    ∙ then_flip (code b) (code c) (compare s t) (compare t s) (sym (compare.cons-cons b c s t) ∙ h)
        (compare_flip s t)

pub text_lt_trans : (s t u : String) → text_lt s t ≡ true → text_lt t u ≡ true → text_lt s u ≡ true
text_lt_trans s t u h k =
    let p : compare s u ≡ Ordering.lt = compare_trans s t u (ground arith) (ground arith) in
    ground arith

pub text_lt_irrefl : (s : String) → text_lt s s ≡ false
text_lt_irrefl s = ground (arith, compare_refl s)

pub text_lt_flip : (s t : String) → text_lt s t ≡ false → (s ≡ t) ⊎ (text_lt t s ≡ true)
text_lt_flip s t h = elim (Ordering-cases (compare s t)) [
  | inl l ↦ absurd (ground arith)
  | inr (inl e) ↦ inl (path_by_compare s t e)
  | inr (inr g) ↦ let p : compare t s ≡ Ordering.lt = compare_flip s t g in inr (ground arith)
]

pub text_lt_empty : (s : String) → s ≢ "" → text_lt "" s ≡ true
text_lt_empty String.[] h = absurd (h refl)
text_lt_empty (String.◌∷◌ c s) h = ground (arith, compare.nil-cons c s)
