-- ===== src/TypedData/Validate.antt =====
-- Types.validate, the domain's check and isPrimitiveTypeValid of typed_data.go. `validate` ranges over a
-- Go map: the error it meets first is that of the order in which the entries stand.
pub mod Laws
mod Tests
use flux_sdk_go.Common.{
  ℕ, Bool, true, false, not, ◌&&◌, ◌||◌, Option, none, some, List, [], ◌∷◌, ◌++◌, map, Check, ok,
  err, ◌>>=◌, ◌>>◌, reject_if, Bytes, codes, bytes_eq, bytes_mem, has_suffix, trim_suffix, is_some,
  leb, if◌then◌else◌, ◌==◌, String, is_digit,
}
use flux_sdk_go.TypedData.{TypeEntry, Types, Domain, TypedMessage, lookup_type}

pub data Error : Type 0 where
  empty_type_key : Error
  empty_type empty_name : Bytes → Error
  self_reference undefined_reference bad_reference bad_type : Bytes → Error
  undefined_domain : Error

abbrev pub brackets : Bytes
brackets = codes "[]"

abbrev is_empty : Bytes → Bool
is_empty [] = true
is_empty (_ ∷ _) = false

-- `t.isArray()`
pub is_array : TypeEntry → Bool
is_array t = has_suffix t.typ brackets

-- `t.typeName()`
unfoldable pub type_name : TypeEntry → Bytes
type_name t = if has_suffix t.typ brackets then trim_suffix t.typ brackets else t.typ

abbrev pub is_upper_ascii : ℕ → Bool
is_upper_ascii c = leb 65 c && leb c 90

-- The bytes that `\w` matches.
abbrev pub is_word : ℕ → Bool
is_word c = is_upper_ascii c || (leb 97 c && leb c 122) || is_digit c || (c == 95)

abbrev pub all_word : Bytes → Bool
all_word [] = true
all_word (c ∷ s) = is_word c && all_word s

-- `^[A-Z](\w*)(\[\])?$`
unfoldable pub matches_reference : Bytes → Bool
matches_reference [] = false
matches_reference (c ∷ s) = is_upper_ascii c && all_word (trim_suffix s brackets)

-- The integer sizes and the byte sizes that isPrimitiveTypeValid lists.
abbrev pub primitive_bases : List Bytes
primitive_bases = map codes (
    "address" ∷ "bool" ∷ "string" ∷ "bytes" ∷ "bytes1" ∷ "bytes2" ∷ "bytes3" ∷ "bytes4" ∷ "bytes5"
    ∷ "bytes6" ∷ "bytes7" ∷ "bytes8" ∷ "bytes9" ∷ "bytes10" ∷ "bytes11" ∷ "bytes12" ∷ "bytes13"
    ∷ "bytes14" ∷ "bytes15" ∷ "bytes16" ∷ "bytes17" ∷ "bytes18" ∷ "bytes19" ∷ "bytes20" ∷ "bytes21"
    ∷ "bytes22" ∷ "bytes23" ∷ "bytes24" ∷ "bytes25" ∷ "bytes26" ∷ "bytes27" ∷ "bytes28" ∷ "bytes29"
    ∷ "bytes30" ∷ "bytes31" ∷ "bytes32" ∷ "int" ∷ "int8" ∷ "int16" ∷ "int32" ∷ "int64" ∷ "int128"
    ∷ "int256" ∷ "uint" ∷ "uint8" ∷ "uint16" ∷ "uint32" ∷ "uint64" ∷ "uint128" ∷ "uint256" ∷ [])

-- The source compares with each name and with each name followed by "[]".
unfoldable pub is_primitive_type_valid : Bytes → Bool
is_primitive_type_valid t =
    bytes_mem t primitive_bases || bytes_mem t (map (λ b. b ++ brackets) primitive_bases)

-- `TypedDataDomain.validate`
unfoldable pub validate_domain : Domain → Check Error
validate_domain d =
    reject_if
      (not (is_some d.chain_id)
        && is_empty d.name
        && is_empty d.version
        && is_empty d.verifying_contract
        && is_empty d.salt)
      undefined_domain

-- `upper_rune` answers `unicode.IsUpper` of the first rune of a text that begins beyond ASCII.
module _ (upper_rune : Bytes → Bool) where
  unfoldable pub is_reference_type : Bytes → Bool
  is_reference_type [] = false
  is_reference_type (c ∷ s) = if leb c 127 then is_upper_ascii c else upper_rune (c ∷ s)

  -- The checks of one field of the type `key`.
  unfoldable pub check_entry : Types → Bytes → TypeEntry → Check Error
  check_entry types key t = do
    reject_if (is_empty t.typ) (empty_type key)
    reject_if (is_empty t.name) (empty_name key)
    reject_if (bytes_eq key t.typ) (self_reference t.typ)
    (if is_reference_type t.typ
        then (reject_if (not (is_some (lookup_type types (type_name t))))
              (undefined_reference t.typ)
            >> reject_if (not (matches_reference t.typ)) (bad_reference t.typ))
        else reject_if (not (is_primitive_type_valid t.typ)) (bad_type t.typ))

  unfoldable pub check_entries : Types → Bytes → List TypeEntry → Check Error
  check_entries types key [] = ok tt
  check_entries types key (t ∷ rest) = check_entry types key t >> check_entries types key rest

  -- `for typeKey, typeArr := range t`
  unfoldable pub check_types : Types → Types → Check Error
  check_types types [] = ok tt
  check_types types ((key, fields) ∷ rest) = do
    reject_if (is_empty key) empty_type_key
    check_entries types key fields
    check_types types rest

  -- `Types.validate`
  unfoldable pub validate_types : Types → Check Error
  validate_types types = check_types types types

  -- `TypedData.validate`
  unfoldable pub validate : TypedMessage → Check Error
  validate td = validate_types td.types >> validate_domain td.domain
