-- ===== src/Prelude/Text.antt =====
-- Go strings as native texts: equality, `strings.TrimSpace`, byte lengths, and Go maps by text.
use Prim.Native.Nat.{ℕ, zero, suc, ◌+◌, ◌/◌, ◌%◌}
use Prim.Native.Char.{Char, code}
use Prim.Native.String.{String}
use text.Mathlib.Text.{◌==◌ as native_eq}
use text.Mathlib.TextEquality.{eq_iff}
use mathlib.Core.Path.{◌≡◌, refl, ap}
use mathlib.Core.Logic.{ite, ◌≢◌}
use mathlib.Core.Bool.{Bool, true, false, not, ◌&&◌, ◌||◌}
use mathlib.Core.Option.{Option, none, some}
use native.Mathlib.Omega.{arith}
use gaoge_agent_runtime.Prelude.Tests.{ltb, leb, ◌==◌, if◌then◌else◌}

text_dec_of : (s t : String) (b : Bool) → native_eq s t ≡ b → Dec (s ≡ t)
text_dec_of s t true e = yes ((eq_iff s t).0 e)
text_dec_of s t false e = no (λ p. ground (arith, (eq_iff s t).1 p))

unfoldable pub text_dec : Discrete String
unfolding text_dec_of
text_dec s t = text_dec_of s t (native_eq s t) refl

-- `s == t` and `s != t` on strings.
abbrev pub text_eq : String → String → Bool
text_eq s t = elim (text_dec s t) [ yes _ ↦ true | no _ ↦ false ]

abbrev pub text_ne : String → String → Bool
text_ne s t = elim (text_dec s t) [ yes _ ↦ false | no _ ↦ true ]

-- `unicode.IsSpace` on a code point.
is_space : ℕ → Bool
is_space c =
    (leb 9 c && leb c 13)
    || c == 32
    || c == 0x85
    || c == 0xa0
    || c == 0x1680
    || (leb 0x2000 c && leb c 0x200a)
    || c == 0x2028
    || c == 0x2029
    || c == 0x202f
    || c == 0x205f
    || c == 0x3000

trim_left : String → String
unfolding is_space
trim_left String.[] = ""
trim_left (String.◌∷◌ c s) =
    let rest = trim_left s in if is_space (code c) then rest else String.◌∷◌ c s

keep_or_drop : Bool → Char → String
keep_or_drop true c = ""
keep_or_drop false c = String.◌∷◌ c ""

keep_unless_blank : Char → String → String
unfolding is_space keep_or_drop
keep_unless_blank c String.[] = keep_or_drop (is_space (code c)) c
keep_unless_blank c (String.◌∷◌ d s) = String.◌∷◌ c (String.◌∷◌ d s)

trim_right : String → String
unfolding keep_unless_blank
trim_right String.[] = ""
trim_right (String.◌∷◌ c s) = keep_unless_blank c (trim_right s)

-- `strings.TrimSpace`.
unfoldable pub trim_space : String → String
unfolding trim_left trim_right
trim_space s = trim_right (trim_left s)

starts_solid : String → Bool
unfolding is_space
starts_solid String.[] = true
starts_solid (String.◌∷◌ c s) = not (is_space (code c))

trim_left-solid : (s : String) → starts_solid (trim_left s) ≡ true
unfolding trim_left starts_solid
trim_left-solid String.[] = refl
trim_left-solid (String.◌∷◌ c s) = ground (arith, trim_left-solid s)

trim_left_solid : (s : String) → starts_solid s ≡ true → trim_left s ≡ s
unfolding trim_left starts_solid
trim_left_solid String.[] h = refl
trim_left_solid (String.◌∷◌ c s) h = ground arith

starts_solid-keep :
    (c : Char) (t : String)
    → is_space (code c) ≡ false
    → starts_solid (keep_unless_blank c t) ≡ true
unfolding keep_unless_blank starts_solid
starts_solid-keep c String.[] h = ground arith
starts_solid-keep c (String.◌∷◌ d t) h = ground arith

starts_solid-trim_right : (s : String) → starts_solid s ≡ true → starts_solid (trim_right s) ≡ true
unfolding trim_right starts_solid
starts_solid-trim_right String.[] h = refl
starts_solid-trim_right (String.◌∷◌ c s) h = starts_solid-keep c (trim_right s) (ground arith)

trim_right-keep_or_drop :
    (c : Char) (b : Bool) → is_space (code c) ≡ b → trim_right (keep_or_drop b c) ≡ keep_or_drop b c
unfolding trim_right keep_unless_blank keep_or_drop
trim_right-keep_or_drop c true e = refl
trim_right-keep_or_drop c false e = ap (λ b. keep_or_drop b c) e

trim_right-keep :
    (c : Char) (t : String)
    → trim_right t ≡ t
    → trim_right (keep_unless_blank c t) ≡ keep_unless_blank c t
unfolding trim_right keep_unless_blank
trim_right-keep c String.[] h = trim_right-keep_or_drop c (is_space (code c)) refl
trim_right-keep c (String.◌∷◌ d t) h = rw h refl

trim_right_idem : (s : String) → trim_right (trim_right s) ≡ trim_right s
unfolding trim_right
trim_right_idem String.[] = refl
trim_right_idem (String.◌∷◌ c s) = trim_right-keep c (trim_right s) (trim_right_idem s)

pub trim_idem : (s : String) → trim_space (trim_space s) ≡ trim_space s
unfolding trim_space
trim_idem s =
    let e : trim_left (trim_right (trim_left s)) ≡ trim_right (trim_left s) =
      trim_left_solid (trim_right (trim_left s))
        (starts_solid-trim_right (trim_left s) (trim_left-solid s)) in
    rw e (trim_right_idem (trim_left s))

-- `strings.TrimSpace(s) == ""`.
abbrev pub is_blank : String → Bool
is_blank s = text_eq (trim_space s) ""

abbrev code_bytes : ℕ → ℕ
code_bytes c = if ltb c 0x80 then 1 else if ltb c 0x800 then 2 else if ltb c 0x10000 then 3 else 4

-- `len(s)`: the bytes of the UTF-8 encoding.
unfoldable pub byte_length : String → ℕ
byte_length String.[] = 0
byte_length (String.◌∷◌ c s) = code_bytes (code c) + byte_length s

-- A Go map with string keys.
abbrev pub Map : Type 0 → Type 0
Map V = String → Option V

abbrev pub empty_map : {V : Type 0} → Map V
empty_map k = none

abbrev pub put : {V : Type 0} → Map V → String → V → Map V
put m k v j = ite (text_dec j k) (some v) (m j)

abbrev pub delete : {V : Type 0} → Map V → String → Map V
delete m k j = ite (text_dec j k) none (m j)

pub put_self : {V : Type 0} (m : Map V) (k : String) (v : V) → put m k v k ≡ some v
put_self m k v = ground arith

pub put_other : {V : Type 0} (m : Map V) (k j : String) (v : V) → j ≢ k → put m k v j ≡ m j
put_other m k j v h = ground arith

-- `strconv.FormatUint(n, 10)`. A uint64 has at most 20 digits, which is the fuel.
digit_char : ℕ → Char
digit_char d =
    if d == 0
    then "0"
    else if d == 1
    then "1"
    else if d == 2
    then "2"
    else if d == 3
    then "3"
    else if d == 4
    then "4"
    else if d == 5
    then "5"
    else if d == 6
    then "6"
    else if d == 7
    then "7"
    else if d == 8
    then "8"
    else "9"

digits_onto : ℕ → ℕ → String → String
unfolding digit_char
digits_onto zero n acc = acc
digits_onto (suc fuel) n acc =
    let with_digit = String.◌∷◌ (digit_char (n % 10)) acc in
    let more = digits_onto fuel (n / 10) with_digit in if ltb n 10 then with_digit else more

unfoldable pub format_uint : ℕ → String
unfolding digits_onto
format_uint n = digits_onto 20 n ""

format_uint_example : format_uint 4096 ≡ "4096"
unfolding format_uint
format_uint_example = refl

trim_example : trim_space " \t a b \n" ≡ "a b"
unfolding trim_space
trim_example = refl
