-- ===== src/Common/Texts.antt =====
-- Texts as byte lists, with the functions of Go's `strings` and `strconv` that the program calls.
use flux_sdk_go.Common.Tests.{leb, ◌==◌, if◌then◌else◌, Option-cases}
use flux_sdk_go.Common.Lists.{bytes_eq, bytes_eq_iff}
use Prim.Native.Char.{code}
use Prim.Native.String.{String}
use Prim.Native.Nat.{ℕ, ◌+◌, ◌-◌, ◌*◌}
use mathlib.Core.Path.{◌≡◌, refl}
use mathlib.Core.Logic.{inl, inr}
use mathlib.Core.Bool.{Bool, true, false, ◌&&◌}
use mathlib.Core.Option
use mathlib.Core.Option.{Option, none, some}
use mathlib.Core.List.{List, [], ◌∷◌, ◌++◌}
use native.Mathlib.Omega.{arith}

abbrev pub Bytes : Type 0
Bytes = List ℕ

-- The bytes of an ASCII literal.
abbrev pub codes : String → Bytes
codes String.[] = []
codes (String.◌∷◌ c s) = code c ∷ codes s

-- `strings.CutPrefix`: what follows the prefix, if it is there.
unfoldable pub cut_prefix : Bytes → Bytes → Option Bytes
cut_prefix [] s = some s
cut_prefix (p ∷ ps) [] = none
cut_prefix (p ∷ ps) (c ∷ s) = let rest = cut_prefix ps s in if p == c then rest else none

pub cut_prefix-append : (p s : Bytes) → cut_prefix p (p ++ s) ≡ some s
unfolding cut_prefix
cut_prefix-append [] s = refl
cut_prefix-append (c ∷ p) s = ground (arith, cut_prefix-append p s)

pub cut_prefix-eq-some : (p s t : Bytes) → cut_prefix p s ≡ some t → s ≡ p ++ t
unfolding cut_prefix
cut_prefix-eq-some [] s t e = ground arith
cut_prefix-eq-some (c ∷ p) [] t e = cc
cut_prefix-eq-some (c ∷ p) (d ∷ s) t e = ground (arith, cut_prefix-eq-some p s t)

abbrev pub is_some {ℓ} : {A : Type ℓ} → Option A → Bool
is_some none = false
is_some (some _) = true

-- `strings.HasPrefix(s, p)` and `strings.TrimPrefix(s, p)`, with Go's order of arguments.
abbrev pub has_prefix : Bytes → Bytes → Bool
has_prefix s p = is_some (cut_prefix p s)

abbrev pub or_else {ℓ} : {A : Type ℓ} → Option A → A → A
or_else none d = d
or_else (some a) d = a

abbrev pub trim_prefix : Bytes → Bytes → Bytes
trim_prefix s p = or_else (cut_prefix p s) s

-- What stands before the suffix, if it is there.
unfoldable pub cut_suffix : Bytes → Bytes → Option Bytes
cut_suffix s [] = if bytes_eq s [] then some [] else none
cut_suffix s (c ∷ t) =
    let rest = cut_suffix s t in
    if bytes_eq s (c ∷ t) then some [] else Option.map (λ r. c ∷ r) rest

abbrev pub has_suffix : Bytes → Bytes → Bool
has_suffix t s = is_some (cut_suffix s t)

abbrev pub trim_suffix : Bytes → Bytes → Bytes
trim_suffix t s = or_else (cut_suffix s t) t

pub cut_suffix-eq-some : (s t r : Bytes) → cut_suffix s t ≡ some r → t ≡ r ++ s
unfolding cut_suffix
cut_suffix-eq-some s [] r e = ground (arith, bytes_eq_iff s [])
cut_suffix-eq-some s (c ∷ t) r e = elim (Option-cases (cut_suffix s t)) [
  | inl p ↦ ground (arith, bytes_eq_iff s (c ∷ t))
  | inr (q, p) ↦ ground (arith, bytes_eq_iff s (c ∷ t), cut_suffix-eq-some s t q p)
]

-- `strings.Split(s, sep)[0]` for a separator of one byte.
unfoldable pub before_byte : ℕ → Bytes → Bytes
before_byte sep [] = []
before_byte sep (c ∷ s) = if c == sep then [] else c ∷ before_byte sep s

abbrev pub is_digit : ℕ → Bool
is_digit c = leb 48 c && leb c 57

-- The number that a run of decimal digits writes, if there is no other byte.
unfoldable pub digits_value : ℕ → Bytes → Option ℕ
digits_value acc [] = some acc
digits_value acc (c ∷ s) =
    let rest = digits_value (acc * 10 + (c - 48)) s in if is_digit c then rest else none
