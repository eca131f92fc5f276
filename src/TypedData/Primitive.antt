-- ===== src/TypedData/Primitive.antt =====
-- parseBytes, parseInteger and EncodePrimitiveValue of typed_data.go. The hash, the address and number
-- parsers and the paddings are go-ethereum's: a record of operations with the lengths that it documents.
pub mod Laws
pub mod Types
pub mod Returns
mod Tests
use flux_sdk_go.Common.{
  ℕ, ◌-◌, ◌^◌, ◌<◌, ◌≡◌, Bool, true, false, not, ◌&&◌, ◌||◌, Option, none, some, List, [], ◌∷◌,
  ◌++◌, Result, ok, err, ◌>>=◌, ◌>>◌, reject_if, or_err, and_then, Bytes, codes, bytes_eq, length,
  cut_prefix, has_prefix, trim_prefix, is_some, digits_value, ltb, leb, ◌==◌, if◌then◌else◌,
  replicate,
}
use flux_sdk_go.Common.Int.{ℤ, pos, negsuc, is_negative, abs}
use flux_sdk_go.TypedData.{Value, null, boolean, float, text, big, raw_bytes, array, object}
use flux_sdk_go.TypedData.Validate

pub record Ethereum : Type 0 where
  pub keccak256 : Bytes → Bytes
  pub length-keccak256 : (b : Bytes) → length (keccak256 b) ≡ 32
  pub hex_decode : Bytes → Option Bytes
  pub is_hex_address : Bytes → Bool
  pub hex_to_address : Bytes → Bytes
  pub length-hex_to_address : (b : Bytes) → length (hex_to_address b) ≡ 20
  pub parse_big256 : Bytes → Option ℤ
  pub u256_bytes : ℤ → Bytes
  pub length-u256_bytes : (n : ℤ) → length (u256_bytes n) ≡ 32
  pub padded_big_bytes : ℕ → Bytes
  pub length-padded_big_bytes : (n : ℕ) → n < 2 ^ 256 → length (padded_big_bytes n) ≡ 32

-- `invalid` is an error of `validate`. `stuck` is no Go error: a loop of the model ran out of fuel.
pub data Error : Type 0 where
  invalid : Validate.Error → Error
  extra_data stuck : Error
  mismatch bad_size bad_integer too_large negative unrecognized : Bytes → Error

-- `strconv.Atoi`: digits after an optional sign, in the range of int64.
unfoldable pub atoi_digits : Bytes → Option ℕ
atoi_digits [] = none
atoi_digits (c ∷ s) = digits_value 0 (c ∷ s)

abbrev pub to_pos : ℕ → Option ℤ
to_pos n = if ltb n (2 ^ 63) then some (pos n) else none

abbrev pub to_neg : ℕ → Option ℤ
to_neg n = if n == 0 then some (pos 0) else if leb n (2 ^ 63) then some (negsuc (n - 1)) else none

unfoldable pub atoi : Bytes → Option ℤ
atoi [] = none
atoi (c ∷ s) =
    if c == 45
    then and_then (atoi_digits s) to_neg
    else if c == 43
    then and_then (atoi_digits s) to_pos
    else and_then (atoi_digits (c ∷ s)) to_pos

-- `b.BitLen() > length`
abbrev pub exceeds : ℕ → ℤ → Bool
exceeds n (pos size) = not (ltb n (2 ^ size))
exceeds n (negsuc _) = true

abbrev pub zeros : ℕ → Bytes
zeros n = replicate n 0

-- The length of a fixed byte type, which is 0 to 32.
abbrev pub fixed_size : ℤ → Option ℕ
fixed_size (pos n) = if leb n 32 then some n else none
fixed_size (negsuc n) = none

-- The size that an integer type names.
unfoldable pub integer_size : Bytes → Option ℤ
integer_size enc_type =
    if bytes_eq enc_type (codes "int") || bytes_eq enc_type (codes "uint")
    then some (pos 256)
    else if has_prefix enc_type (codes "uint")
    then atoi (trim_prefix enc_type (codes "uint"))
    else atoi (trim_prefix enc_type (codes "int"))

module _ (eth : Ethereum) where
  pub parse_bytes : Value → Option Bytes
  parse_bytes (raw_bytes b) = some b
  parse_bytes (text s) = eth.hex_decode s
  parse_bytes _ = none

  -- The value as a big.Int, nil for one that has none.
  unfoldable pub integer_value : Value → Option ℤ
  integer_value (big n) = some n
  integer_value (text s) = eth.parse_big256 s
  integer_value (float n) = n
  integer_value _ = none

  unfoldable pub parse_integer : Bytes → Value → Result Error ℤ
  parse_integer enc_type v = do
    size ← or_err (integer_size enc_type) (bad_size enc_type)
    b ← or_err (integer_value v) (bad_integer enc_type)
    reject_if (exceeds (abs b) size) (too_large enc_type)
    reject_if (not (has_prefix enc_type (codes "int")) && is_negative b) (negative enc_type)
    ok b

  unfoldable pub encode_address : Value → Result Error Bytes
  encode_address (text s) =
      if eth.is_hex_address s
      then ok (zeros 12 ++ eth.hex_to_address s)
      else err (mismatch (codes "address"))
  encode_address _ = err (mismatch (codes "address"))

  pub encode_bool : Value → Result Error Bytes
  encode_bool (boolean true) = ok (eth.padded_big_bytes 1)
  encode_bool (boolean false) = ok (eth.padded_big_bytes 0)
  encode_bool _ = err (mismatch (codes "bool"))

  unfoldable pub encode_string : Value → Result Error Bytes
  encode_string (text s) = ok (eth.keccak256 s)
  encode_string _ = err (mismatch (codes "string"))

  unfoldable pub encode_bytes : Value → Result Error Bytes
  encode_bytes v = do b ← or_err (parse_bytes v) (mismatch (codes "bytes")); ok (eth.keccak256 b)

  -- `bytesN`: the bytes, padded on the right.
  unfoldable pub encode_fixed : Bytes → Value → Result Error Bytes
  encode_fixed enc_type v = do
    number ← or_err (atoi (trim_prefix enc_type (codes "bytes"))) (bad_size enc_type)
    size ← or_err (fixed_size number) (bad_size enc_type)
    b ← or_err (parse_bytes v) (mismatch enc_type)
    reject_if (not (length b == size)) (mismatch enc_type)
    ok (b ++ zeros (32 - length b))

  unfoldable pub encode_number : Bytes → Value → Result Error Bytes
  encode_number enc_type v = do b ← parse_integer enc_type v; ok (eth.u256_bytes b)

  -- `EncodePrimitiveValue`
  unfoldable pub encode_primitive_value : Bytes → Value → Result Error Bytes
  encode_primitive_value enc_type v =
      if bytes_eq enc_type (codes "address")
      then encode_address v
      else if bytes_eq enc_type (codes "bool")
      then encode_bool v
      else if bytes_eq enc_type (codes "string")
      then encode_string v
      else if bytes_eq enc_type (codes "bytes")
      then encode_bytes v
      else if has_prefix enc_type (codes "bytes")
      then encode_fixed enc_type v
      else if has_prefix enc_type (codes "int") || has_prefix enc_type (codes "uint")
      then encode_number enc_type v
      else err (unrecognized enc_type)
