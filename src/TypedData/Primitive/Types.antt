-- ===== src/TypedData/Primitive/Types.antt =====
-- The primitive types that isPrimitiveTypeValid lists are types that EncodePrimitiveValue knows.
use flux_sdk_go.Common.{
  ◌≡◌, refl, ◌≢◌, ◌⊎◌, inl, inr, Bool, true, false, not, ◌&&◌, ◌||◌, none, some, List, [], ◌∷◌,
  ◌++◌, map, Result, err, Bytes, codes, cut_prefix, before_byte, bytes_eq, bytes_eq_iff, bytes_mem,
  has_prefix, trim_prefix, is_some, digits_value, if◌then◌else◌, Bool-cases, Option-cases, arith,
}
use flux_sdk_go.TypedData.{Value}
use flux_sdk_go.TypedData.Validate.{primitive_bases, is_primitive_type_valid, brackets}
use flux_sdk_go.TypedData.Primitive.{
  Ethereum, Error, bad_size, unrecognized, atoi, atoi_digits, integer_size, fixed_size, parse_bytes,
  parse_integer, encode_address, encode_bool, encode_string, encode_bytes, encode_fixed,
  encode_number, encode_primitive_value,
}

abbrev is_fixed : Bytes → Bool
is_fixed t = has_prefix t (codes "bytes") && elim (atoi (trim_prefix t (codes "bytes"))) [
  | none ↦ false
  | some n ↦ is_some (fixed_size n)
]

abbrev is_number : Bytes → Bool
is_number t =
    (has_prefix t (codes "int") || has_prefix t (codes "uint")) && is_some (integer_size t)

-- A type that has an encoder and whose size is in range.
unfoldable supported : Bytes → Bool
unfolding atoi
supported t =
    bytes_eq t (codes "address")
    || bytes_eq t (codes "bool")
    || bytes_eq t (codes "string")
    || bytes_eq t (codes "bytes")
    || (is_fixed t || (not (has_prefix t (codes "bytes")) && is_number t))

all_supported : List Bytes → Bool
all_supported [] = true
all_supported (t ∷ ts) = supported (before_byte 91 t) && all_supported ts

all_supported-mem :
    (t : Bytes) (ts : List Bytes)
    → all_supported ts ≡ true
    → bytes_mem t ts ≡ true
    → supported (before_byte 91 t) ≡ true
unfolding all_supported
all_supported-mem t [] h m = cc
all_supported-mem t (u ∷ ts) h m = elim (Bool-cases (bytes_eq u t)) [
  | inl same ↦ let e = (bytes_eq_iff u t).0 same in ground arith
  | inr apart ↦ all_supported-mem t ts (ground arith) (ground arith)
]

bases_supported :
    (all_supported primitive_bases ≡ true)
    × (all_supported (map (λ b. b ++ brackets) primitive_bases) ≡ true)
unfolding all_supported supported integer_size atoi_digits digits_value cut_prefix before_byte
bases_supported = (refl, refl)

-- Of an alternative, what is left when its first part fails.
||-false : (a b : Bool) → (a || b) ≡ true → a ≡ false → b ≡ true
||-false a b h f = ground arith

supported_of_valid :
    (t : Bytes) → is_primitive_type_valid t ≡ true → supported (before_byte 91 t) ≡ true
unfolding is_primitive_type_valid
supported_of_valid t h = elim (Bool-cases (bytes_mem t primitive_bases)) [
  | inl m ↦ all_supported-mem t primitive_bases bases_supported.0 m
  | inr n ↦ all_supported-mem t (map (λ b. b ++ brackets) primitive_bases) bases_supported.1 (
      ||-false (bytes_mem t primitive_bases)
        (bytes_mem t (map (λ b. b ++ brackets) primitive_bases)) h n)
]

-- The switch of EncodePrimitiveValue: what holds of every case that is reached holds of its answer.
module _ {A : Type 0} (P : A → Type 0) where
  P-switch :
      (a b s y f i fixed number : Bool) (r₁ r₂ r₃ r₄ r₅ r₆ other : A)
      → P r₁ × P r₂ × P r₃ × P r₄
      → ((f && fixed) ≡ true → P r₅)
      → ((i && number) ≡ true → P r₆)
      → (a || b || s || y || ((f && fixed) || (not f && (i && number)))) ≡ true
      → P (
          if a
          then r₁
          else if b
          then r₂
          else if s
          then r₃
          else if y
          then r₄
          else if f
          then r₅
          else if i
          then r₆
          else other)
  P-switch true b s y f i m n r₁ r₂ r₃ r₄ r₅ r₆ o (h, _, _, _) k l e = h
  P-switch false true s y f i m n r₁ r₂ r₃ r₄ r₅ r₆ o (_, h, _, _) k l e = h
  P-switch false false true y f i m n r₁ r₂ r₃ r₄ r₅ r₆ o (_, _, h, _) k l e = h
  P-switch false false false true f i m n r₁ r₂ r₃ r₄ r₅ r₆ o (_, _, _, h) k l e = h
  P-switch false false false false true i m n r₁ r₂ r₃ r₄ r₅ r₆ o h k l e = k (ground arith)
  P-switch false false false false false true m n r₁ r₂ r₃ r₄ r₅ r₆ o h k l e = l e
  P-switch false false false false false false m n r₁ r₂ r₃ r₄ r₅ r₆ o h k l e = cc

module _ (eth : Ethereum) (t : Bytes) (v : Value) where
  -- The errors that blame the type.
  abbrev BlamesType : Result Error Bytes → Type 0
  BlamesType r = (r ≡ err (unrecognized t)) ⊎ (r ≡ err (bad_size t))

  encode_fixed-not-BlamesType : is_fixed t ≡ true → ¬ BlamesType (encode_fixed eth t v)
  unfolding encode_fixed
  encode_fixed-not-BlamesType h = elim (Option-cases (atoi (trim_prefix t (codes "bytes")))) [
    | inl p ↦ ground arith
    | inr (n, p) ↦ elim (Option-cases (fixed_size n)) [
      | inl q ↦ ground arith
      | inr (k, q) ↦ elim (Option-cases (parse_bytes eth v)) [
        | inl r ↦ λ blame. ground arith
        | inr (b, r) ↦ λ blame. ground arith
      ]
    ]
  ]

  encode_number-not-BlamesType : is_number t ≡ true → ¬ BlamesType (encode_number eth t v)
  unfolding encode_number parse_integer
  encode_number-not-BlamesType h = elim (Option-cases (integer_size t)) [
    | inl p ↦ ground arith
    | inr (n, p) ↦ λ blame. ground arith
  ]

  encode_others-not-BlamesType :
      (¬ BlamesType (encode_address eth v))
      × (¬ BlamesType (encode_bool eth v))
      × (¬ BlamesType (encode_string eth v))
      × (¬ BlamesType (encode_bytes eth v))
  unfolding encode_address encode_bool encode_string encode_bytes
  encode_others-not-BlamesType =
      (λ b. ground arith, λ b. ground arith, λ b. ground arith, λ b. ground arith)

  encode_supported-not-BlamesType :
      supported t ≡ true → ¬ BlamesType (encode_primitive_value eth t v)
  unfolding supported encode_primitive_value
  encode_supported-not-BlamesType h =
      P-switch (λ r. ¬ BlamesType r) (bytes_eq t (codes "address")) (bytes_eq t (codes "bool"))
        (bytes_eq t (codes "string")) (bytes_eq t (codes "bytes")) (has_prefix t (codes "bytes"))
        (has_prefix t (codes "int") || has_prefix t (codes "uint"))
        (elim (atoi (trim_prefix t (codes "bytes"))) [
          | none ↦ false
          | some n ↦ is_some (fixed_size n)
        ])
        (is_some (integer_size t)) (encode_address eth v) (encode_bool eth v) (encode_string eth v)
        (encode_bytes eth v) (encode_fixed eth t v) (encode_number eth t v) (err (unrecognized t))
        encode_others-not-BlamesType encode_fixed-not-BlamesType encode_number-not-BlamesType h

-- A type that isPrimitiveTypeValid lists has an encoder: without its brackets, EncodePrimitiveValue
-- never answers for it that the type is unrecognized or that its size is bad, whatever the value.
pub encode_primitive_value-knows-types :
    (eth : Ethereum) (t : Bytes) (v : Value)
    → is_primitive_type_valid t ≡ true
    → (encode_primitive_value eth (before_byte 91 t) v ≢ err (unrecognized (before_byte 91 t)))
      × (encode_primitive_value eth (before_byte 91 t) v ≢ err (bad_size (before_byte 91 t)))
encode_primitive_value-knows-types eth t v valid =
    let sound =
      encode_supported-not-BlamesType eth (before_byte 91 t) v (supported_of_valid t valid) in
    (λ e. sound (inl e), λ e. sound (inr e))
