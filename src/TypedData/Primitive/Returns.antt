-- ===== src/TypedData/Primitive/Returns.antt =====
-- EncodePrimitiveValue never panics: it answers a value or one of its errors.
use flux_sdk_go.Common.{
  refl, ◌≢◌, true, false, Option, none, some, Result, ok, err, panic, ◌>>=◌, ◌>>◌, or_err, Bytes,
  arith, trim_prefix, codes,
}
use flux_sdk_go.TypedData.{Value, boolean, text}
use flux_sdk_go.TypedData.Primitive.{
  Ethereum, Error, stuck, encode_primitive_value, encode_address, encode_bool, encode_string,
  encode_bytes, encode_fixed, encode_number, parse_integer, parse_bytes, integer_size,
  integer_value, atoi, fixed_size,
}

-- The call answers a value or one of Go's errors.
abbrev pub Returns {ℓ} : {A : Type ℓ} → Result Error A → Type ℓ
Returns r = (r ≢ err stuck) × (r ≢ panic)

pub Returns->>= :
    {A B : Type 0} (m : Result Error A) (k : A → Result Error B)
    → Returns m
    → ((a : A) → Returns (k a))
    → Returns (m >>= k)
Returns->>= (ok a) k r h = h a
Returns->>= (err x) k r h = (λ e. r.0 (ground arith), λ e. cc)
Returns->>= panic k r h = absurd (r.1 refl)

pub >>-Returns :
    {B : Type 0} (m : Result Error (Unit {0})) (k : Result Error B)
    → Returns m
    → Returns k
    → Returns (m >> k)
>>-Returns m k r h = Returns->>= m (λ nothing. k) r (λ a. h)

pub Returns-or_err :
    {A B : Type 0} (o : Option A) (x : Error) (k : A → Result Error B)
    → x ≢ stuck
    → ((a : A) → Returns (k a))
    → Returns (or_err o x >>= k)
Returns-or_err none x k n h = (λ e. n (ground arith), λ e. cc)
Returns-or_err (some a) x k n h = h a

module _ (eth : Ethereum) where
  encode_address-Returns : (v : Value) → Returns (encode_address eth v)
  unfolding encode_address
  encode_address-Returns (text s) = ground arith
  encode_address-Returns _ = (λ e. cc, λ e. cc)

  encode_bool-Returns : (v : Value) → Returns (encode_bool eth v)
  unfolding encode_bool
  encode_bool-Returns (boolean true) = (λ e. cc, λ e. cc)
  encode_bool-Returns (boolean false) = (λ e. cc, λ e. cc)
  encode_bool-Returns _ = (λ e. cc, λ e. cc)

  encode_string-Returns : (v : Value) → Returns (encode_string eth v)
  unfolding encode_string
  encode_string-Returns (text s) = (λ e. cc, λ e. cc)
  encode_string-Returns _ = (λ e. cc, λ e. cc)

  encode_bytes-Returns : (v : Value) → Returns (encode_bytes eth v)
  unfolding encode_bytes
  encode_bytes-Returns v =
      Returns-or_err (parse_bytes eth v) (Error.mismatch (codes "bytes")) _ (λ e. cc)
        (λ b. (λ e. cc, λ e. cc))

  encode_fixed-Returns : (t : Bytes) (v : Value) → Returns (encode_fixed eth t v)
  unfolding encode_fixed
  encode_fixed-Returns t v =
      Returns-or_err (atoi (trim_prefix t (codes "bytes"))) (Error.bad_size t) _ (λ e. cc)
        (λ n.
          Returns-or_err (fixed_size n) (Error.bad_size t) _ (λ e. cc)
            (λ k.
              Returns-or_err (parse_bytes eth v) (Error.mismatch t) _ (λ e. cc)
                (λ b. ground arith)))

  pub parse_integer-Returns : (t : Bytes) (v : Value) → Returns (parse_integer eth t v)
  unfolding parse_integer
  parse_integer-Returns t v =
      Returns-or_err (integer_size t) (Error.bad_size t) _ (λ e. cc)
        (λ n.
          Returns-or_err (integer_value eth v) (Error.bad_integer t) _ (λ e. cc)
            (λ k. ground arith))

  encode_number-Returns : (t : Bytes) (v : Value) → Returns (encode_number eth t v)
  unfolding encode_number
  encode_number-Returns t v =
      Returns->>= (parse_integer eth t v) _ (parse_integer-Returns t v) (λ n. (λ e. cc, λ e. cc))

  pub encode_primitive_value-Returns :
      (t : Bytes) (v : Value) → Returns (encode_primitive_value eth t v)
  unfolding encode_primitive_value
  encode_primitive_value-Returns t v = ground (
    arith,
    encode_address-Returns v,
    encode_bool-Returns v,
    encode_string-Returns v,
    encode_bytes-Returns v,
    encode_fixed-Returns t v,
    encode_number-Returns t v,
  )
