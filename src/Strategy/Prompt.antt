-- ===== src/Strategy/Prompt.antt =====
-- SchemaPrompt.ValidateBasic of msgs.go. The regular expression `(\${[^}]+})` is run by hand, a byte at a time: it
-- matches from the first `${` that a byte other than `}` follows, up to the next `}`.
pub mod Laws
mod Tests
use flux_sdk_go.Common.{
  ℕ, zero, suc, Bool, true, false, not, ◌||◌, Option, none, some, List, [], ◌∷◌, ◌++◌, Check, ok,
  ◌>>◌, reject_if, Bytes, length, is_some, find_index, if◌then◌else◌, ◌==◌,
}

pub data Error : Type 0 where
  invalid_definition has_spaces : Error

-- How far a match has come: nowhere, past `$`, past `${`, or past `${` and some bytes of a variable.
pub data Scan : Type 0 where
  outside dollar brace : Scan
  inside : Bytes → Scan

-- The variable that a byte completes, and how far the next match has come.
pub scan_byte : Scan → ℕ → Option Bytes × Scan
scan_byte outside c = (none, if c == 36 then dollar else outside)
scan_byte dollar c = (none, if c == 123 then brace else (if c == 36 then dollar else outside))
scan_byte brace c = (none, if c == 125 then outside else inside (c ∷ []))
scan_byte (inside v) c = if c == 125 then (some v, outside) else (none, inside (v ++ (c ∷ [])))

abbrev pub put_found : Option Bytes → List Bytes → List Bytes
put_found none vs = vs
put_found (some v) vs = v ∷ vs

-- `templateVarReg.FindAllString(template, -1)`, each match without its `${` and `}`.
pub find_vars : Scan → Bytes → List Bytes
find_vars at [] = []
find_vars at (c ∷ s) = put_found (scan_byte at c).0 (find_vars (scan_byte at c).1 s)

-- `colonIndex <= 0 || colonIndex == len(definition)-1`, the index being -1 where there is no colon.
abbrev pub misplaced : Option ℕ → ℕ → Bool
misplaced none n = true
misplaced (some zero) n = true
misplaced (some (suc i)) n = suc (suc i) == n

pub check_definition : Bytes → Check Error
check_definition d =
    reject_if (misplaced (find_index (λ c. c == 58) d) (length d)) invalid_definition
    >> reject_if (is_some (find_index (λ c. c == 32) d)) has_spaces

pub check_definitions : List Bytes → Check Error
check_definitions [] = ok tt
check_definitions (d ∷ rest) = check_definition d >> check_definitions rest

-- `SchemaPrompt.ValidateBasic`
unfoldable pub validate_prompt : Bytes → Check Error
validate_prompt template = check_definitions (find_vars outside template)
