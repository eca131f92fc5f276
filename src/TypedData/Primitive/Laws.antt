-- ===== src/TypedData/Primitive/Laws.antt =====
-- The length of what a primitive value encodes to, and the range of the integers that are accepted.
use flux_sdk_go.Common.{
  ℕ, ◌-◌, ◌^◌, ◌≤◌, ◌<◌, ◌≡◌, ◌⊎◌, true, false, not, some, ◌++◌, ok, reject_if, or_err-eq-ok,
  >>=-eq-ok, >>-eq-ok, Bytes, codes, length, length-append, length-replicate, has_prefix,
  trim_prefix, ◌==◌, arith,
}
use flux_sdk_go.Common.Int.{ℤ, pos, negsuc, is_negative, abs}
use flux_sdk_go.TypedData.{Value, boolean, text}
use flux_sdk_go.TypedData.Primitive.{
  Ethereum, Error, integer_size, parse_integer, encode_address, encode_bool, encode_string,
  encode_bytes, encode_fixed, encode_number, encode_primitive_value, zeros, fixed_size, atoi,
  parse_bytes,
}

padded_right : (raw : Bytes) → length raw ≤ 32 → length (raw ++ zeros (32 - length raw)) ≡ 32
padded_right raw h = omega (
  arith,
  length-append {0} raw (zeros (32 - length raw)),
  length-replicate {0} {A = ℕ} (32 - length raw) 0,
)

fixed_size-le : (number : ℤ) (size : ℕ) → fixed_size number ≡ some size → size ≤ 32
fixed_size-le (pos n) size e = ground arith
fixed_size-le (negsuc n) size e = cc

length-eq :
    (raw : Bytes) (size : ℕ) (x : Error)
    → reject_if (not (length raw == size)) x ≡ ok tt
    → length raw ≡ size
length-eq raw size x e = ground arith

module _ (eth : Ethereum) where
  padded : (s : Bytes) → length (zeros 12 ++ eth.hex_to_address s) ≡ 32
  padded s =
      omega
        (arith, length-append {0} (zeros 12) (eth.hex_to_address s), eth.length-hex_to_address s)

  length-encode_address : (v : Value) (b : Bytes) → encode_address eth v ≡ ok b → length b ≡ 32
  unfolding encode_address
  length-encode_address (text s) b e = ground (arith, padded s)
  length-encode_address _ b e = cc

  length-encode_bool : (v : Value) (b : Bytes) → encode_bool eth v ≡ ok b → length b ≡ 32
  unfolding encode_bool
  length-encode_bool (boolean true) b e =
      ground (arith, eth.length-padded_big_bytes 1 (omega arith))
  length-encode_bool (boolean false) b e =
      ground (arith, eth.length-padded_big_bytes 0 (omega arith))
  length-encode_bool _ b e = cc

  length-encode_string : (v : Value) (b : Bytes) → encode_string eth v ≡ ok b → length b ≡ 32
  unfolding encode_string
  length-encode_string (text s) b e = ground (arith, eth.length-keccak256 s)
  length-encode_string _ b e = cc

  length-encode_bytes : (v : Value) (b : Bytes) → encode_bytes eth v ≡ ok b → length b ≡ 32
  unfolding encode_bytes
  length-encode_bytes v b e =
      let (raw, _, same) = or_err-eq-ok (parse_bytes eth v) (Error.mismatch (codes "bytes")) _ e in
      ground (arith, eth.length-keccak256 raw)

  length-encode_fixed :
      (enc_type : Bytes) (v : Value) (b : Bytes)
      → encode_fixed eth enc_type v ≡ ok b
      → length b ≡ 32
  unfolding encode_fixed
  length-encode_fixed enc_type v b e =
      let (number, _, e₁) =
        or_err-eq-ok (atoi (trim_prefix enc_type (codes "bytes"))) (Error.bad_size enc_type) _ e in
      let (size, fits, e₂) = or_err-eq-ok (fixed_size number) (Error.bad_size enc_type) _ e₁ in
      let (raw, _, e₃) = or_err-eq-ok (parse_bytes eth v) (Error.mismatch enc_type) _ e₂ in
      let (same, e₄) =
        >>-eq-ok (reject_if (not (length raw == size)) (Error.mismatch enc_type)) _ e₃ in
      ground
        (arith, padded_right raw (rw (length-eq raw size _ same) (fixed_size-le number size fits)))

  length-encode_number :
      (enc_type : Bytes) (v : Value) (b : Bytes)
      → encode_number eth enc_type v ≡ ok b
      → length b ≡ 32
  unfolding encode_number
  length-encode_number enc_type v b e =
      let (n, _, same) = >>=-eq-ok (parse_integer eth enc_type v) _ e in
      ground (arith, eth.length-u256_bytes n)

  -- Whatever the type and the value, an encoded primitive value is 32 bytes long.
  pub length-encode_primitive_value :
      (enc_type : Bytes) (v : Value) (b : Bytes)
      → encode_primitive_value eth enc_type v ≡ ok b
      → length b ≡ 32
  unfolding encode_primitive_value
  length-encode_primitive_value enc_type v b e = ground (
    arith,
    length-encode_address v b,
    length-encode_bool v b,
    length-encode_string v b,
    length-encode_bytes v b,
    length-encode_fixed enc_type v b,
    length-encode_number enc_type v b,
  )

-- The integers that a type of `size` bits takes: a magnitude below 2 ^ size, and no negative number
-- for a type whose name does not begin with "int".
pub record Fits (enc_type : Bytes) (size : ℕ) (b : ℤ) : Type 0 where
  pub named : integer_size enc_type ≡ some (pos size)
  pub below : abs b < 2 ^ size
  pub sign : (has_prefix enc_type (codes "int") ≡ true) ⊎ (is_negative b ≡ false)
