-- ===== src/ChainId.antt =====
-- chain/types/chain_id.go: the identifiers of chains. The regular expression `^([a-z]*)-{1}([1-9][0-9]*)$` is
-- run by hand: a letter is no dash, so the name ends at the first byte that is no letter. A text is its bytes.
pub mod Laws
pub mod Generate
mod Tests
use flux_sdk_go.Common.{
  ℕ, zero, suc, ◌+◌, ◌/◌, ◌%◌, Bool, true, false, not, ◌&&◌, ◌||◌, Option, none, some, List, [],
  ◌∷◌, ◌++◌, Result, ok, err, ◌>>=◌, ◌>>◌, reject_if, or_err, Bytes, codes, length, cut_prefix,
  is_some, is_digit, digits_value, ltb, leb, ◌==◌, if◌then◌else◌, bytes_eq, map,
}
use mathlib.Core.List.{reverse}

pub data Error : Type 0 where
  too_long invalid_chain_id not_base_10 : Error

abbrev pub is_lower : ℕ → Bool
is_lower c = leb 97 c && leb c 122

-- The longest run of letters at the front, and what follows it.
unfoldable pub span_lower : Bytes → Bytes × Bytes
span_lower [] = ([], [])
span_lower (c ∷ s) =
    let rest = span_lower s in if is_lower c then (c ∷ rest.0, rest.1) else ([], c ∷ s)

unfoldable pub all_digits : Bytes → Bool
all_digits [] = true
all_digits (c ∷ s) = is_digit c && all_digits s

-- `[1-9][0-9]*`, up to the end of the text.
unfoldable pub is_epoch : Bytes → Bool
is_epoch [] = false
is_epoch (c ∷ s) = leb 49 c && is_digit c && all_digits s

-- The dash and the epoch behind a name; the two groups of the match.
unfoldable pub match_epoch : Bytes → Bytes → Option (Bytes × Bytes)
match_epoch name [] = none
match_epoch name (c ∷ s) = if c == 45 && is_epoch s then some (name, s) else none

-- `fluxChainID.FindStringSubmatch`
unfoldable pub find_submatch : Bytes → Option (Bytes × Bytes)
find_submatch s = match_epoch (span_lower s).0 (span_lower s).1

-- `IsValidChainID`
unfoldable pub is_valid_chain_id : Bytes → Bool
is_valid_chain_id chain_id =
    if ltb 48 (length chain_id) then false else is_some (find_submatch chain_id)

-- The UTF-8 texts of the runes of unicode.IsSpace.
abbrev pub spaces : List Bytes
spaces =
    (9 ∷ [])
    ∷ (10 ∷ [])
    ∷ (11 ∷ [])
    ∷ (12 ∷ [])
    ∷ (13 ∷ [])
    ∷ (32 ∷ [])
    ∷ (194 ∷ 133 ∷ [])
    ∷ (194 ∷ 160 ∷ [])
    ∷ (225 ∷ 154 ∷ 128 ∷ [])
    ∷ (226 ∷ 128 ∷ 128 ∷ [])
    ∷ (226 ∷ 128 ∷ 129 ∷ [])
    ∷ (226 ∷ 128 ∷ 130 ∷ [])
    ∷ (226 ∷ 128 ∷ 131 ∷ [])
    ∷ (226 ∷ 128 ∷ 132 ∷ [])
    ∷ (226 ∷ 128 ∷ 133 ∷ [])
    ∷ (226 ∷ 128 ∷ 134 ∷ [])
    ∷ (226 ∷ 128 ∷ 135 ∷ [])
    ∷ (226 ∷ 128 ∷ 136 ∷ [])
    ∷ (226 ∷ 128 ∷ 137 ∷ [])
    ∷ (226 ∷ 128 ∷ 138 ∷ [])
    ∷ (226 ∷ 128 ∷ 168 ∷ [])
    ∷ (226 ∷ 128 ∷ 169 ∷ [])
    ∷ (226 ∷ 128 ∷ 175 ∷ [])
    ∷ (226 ∷ 129 ∷ 159 ∷ [])
    ∷ (227 ∷ 128 ∷ 128 ∷ [])
    ∷ []

-- How many bytes the space at the front of a text takes, 0 where none stands there.
unfoldable pub space_width : List Bytes → Bytes → ℕ
space_width [] s = 0
space_width (sp ∷ sps) s =
    let rest = space_width sps s in if is_some (cut_prefix sp s) then length sp else rest

-- A text whose front has a space of that many bytes, 0 for none; `skip` goes on behind the first byte.
abbrev pub step_over : ℕ → Bytes → (ℕ → Bytes) → Bytes
step_over zero text skip = text
step_over (suc w) text skip = skip w

-- A text without the spaces at its front, the first `k` bytes being part of one.
unfoldable pub skip_spaces : List Bytes → ℕ → Bytes → Bytes
skip_spaces sps k [] = []
skip_spaces sps (suc k) (c ∷ s) = skip_spaces sps k s
skip_spaces sps zero (c ∷ s) =
    step_over (space_width sps (c ∷ s)) (c ∷ s) (λ w. skip_spaces sps w s)

-- `strings.TrimSpace`
unfoldable pub trim_space : Bytes → Bytes
trim_space s = reverse (skip_spaces (map reverse spaces) zero (reverse (skip_spaces spaces zero s)))

-- `ParseChainID`
unfoldable pub parse_chain_id : Bytes → Result Error ℕ
parse_chain_id text = do
  reject_if (ltb 48 (length (trim_space text))) too_long
  matches ← or_err (find_submatch (trim_space text)) invalid_chain_id
  reject_if (bytes_eq matches.0 []) invalid_chain_id
  or_err (digits_value 0 matches.1) not_base_10

-- `%d` of a number: its decimal digits, the last one first taken off. A number has fewer digits than it counts.
unfoldable pub decimal_digits : ℕ → ℕ → Bytes
decimal_digits zero n = []
decimal_digits (suc fuel) n =
    let front = decimal_digits fuel (n / 10) in
    if ltb n 10 then (48 + n) ∷ [] else front ++ ((48 + n % 10) ∷ [])

abbrev pub decimal : ℕ → Bytes
decimal n = decimal_digits (suc n) n

-- `GenerateRandomChainID`, `r` being the answer of `tmrand.Intn(10000)`.
unfoldable pub generate_chain_id : ℕ → Bytes
generate_chain_id r = codes "flux-" ++ decimal (10 + r)
