-- ===== src/TypedData/Encode/Fuel.antt =====
-- EncodeData and ComputeTypedDataHash come to an end, and never panic.
use Prim.Native.Nat.{max}
use flux_sdk_go.Common.{
  ℕ, zero, suc, ◌≤◌, ◌<◌, ◌≡◌, refl, ◌≢◌, inl, inr, Bool, some, List, [], ◌∷◌, Result, Check, ◌⊎◌,
  ok, err, panic, ◌>>◌, reject_if, Bytes, length, All, is_some, Bool-cases, Option-cases, arith,
  ltb, before_byte, bytes_eq, reject_if, ◌==◌, codes,
}
use flux_sdk_go.TypedData.{
  TypeEntry, Types, TypedMessage, Value, array, object, Items, no_items, item, Entries, no_entries,
  entry, lookup_type, lookup_value,
}
use flux_sdk_go.TypedData.Validate
use flux_sdk_go.TypedData.Validate.{validate}
use flux_sdk_go.TypedData.Validate.Laws.{validate_iff, validate-ne-panic, lookup_type-typed}
use flux_sdk_go.TypedData.Depend.Fuel.{encode_type-some}
use flux_sdk_go.TypedData.Primitive.Returns.{
  Returns, Returns->>=, >>-Returns, encode_primitive_value-Returns,
}
use flux_sdk_go.TypedData.Primitive.{Ethereum, Error, extra_data, invalid}
use flux_sdk_go.TypedData.Encode.{
  size, value_depth, items_depth, entries_depth, ends_bracket, encode_struct, encode_item,
  encode_items, encode_array, encode_field, encode_fields, fields_of, encode_data, as_invalid,
  hash_struct, compute_typed_data_hash, domain_map,
}

max-lt : (a b n : ℕ) → max a b < n → (a < n) × (b < n)
max-lt a b n h = (omega arith, omega arith)

pub lookup_value-depth :
    (es : Entries) (key : Bytes) → value_depth (lookup_value es key) ≤ entries_depth es
unfolding lookup_value value_depth
lookup_value-depth no_entries key = omega arith
lookup_value-depth (entry k v rest) key = elim (Bool-cases (bytes_eq k key)) [
  | inl e ↦ rw e (omega arith)
  | inr e ↦ let deeper = lookup_value-depth rest key in rw e (omega (arith, deeper))
]

ends_bracket-some : (t : Bytes) → t ≢ [] → (b : Bool) × (ends_bracket t ≡ some b)
unfolding ends_bracket
ends_bracket-some [] h = absurd (h refl)
ends_bracket-some (c ∷ []) h = (c == 93, refl)
ends_bracket-some (c ∷ d ∷ s) h = ends_bracket-some (d ∷ s) (λ e. cc)

-- The recursive call answers on what nests less than `n` deep.
abbrev Answers : ℕ → (Bytes → Entries → Result Error Bytes) → Type 0
Answers n encode = (name : Bytes) (es : Entries) → entries_depth es < n → Returns (encode name es)

module _ (eth : Ethereum) (encode : Bytes → Entries → Result Error Bytes) (n : ℕ)
    (answers : Answers n encode) (types : Types) where
  encode_struct-Returns :
      (name : Bytes) (v : Value) → value_depth v ≤ n → Returns (encode_struct eth encode name v)
  unfolding encode_struct value_depth
  encode_struct-Returns name (object es) h =
      Returns->>= (encode name es) _ (answers name es (omega arith)) (λ raw. (λ e. cc, λ e. cc))
  encode_struct-Returns name _ h = (λ e. cc, λ e. cc)

  encode_item-Returns :
      (name : Bytes) (v : Value) → value_depth v ≤ n → Returns (encode_item eth encode types name v)
  unfolding encode_item
  encode_item-Returns name v h = elim (Bool-cases (is_some (lookup_type types name))) [
    | inl e ↦ rw e (encode_struct-Returns name v h)
    | inr e ↦ rw e (encode_primitive_value-Returns eth name v)
  ]

  encode_items-Returns :
      (name : Bytes) (xs : Items)
      → items_depth xs ≤ n
      → Returns (encode_items eth encode types name xs)
  unfolding encode_items items_depth
  encode_items-Returns name no_items h = (λ e. cc, λ e. cc)
  encode_items-Returns name (item v rest) h =
      Returns->>= (encode_item eth encode types name v) _ (encode_item-Returns name v (omega arith))
        (λ this.
          Returns->>= (encode_items eth encode types name rest) _
            (encode_items-Returns name rest (omega arith)) (λ others. (λ e. cc, λ e. cc)))

  encode_array-Returns :
      (enc_type : Bytes) (v : Value)
      → value_depth v ≤ n
      → Returns (encode_array eth encode types enc_type v)
  unfolding encode_array value_depth
  encode_array-Returns enc_type (array xs) h =
      Returns->>= (encode_items eth encode types (before_byte 91 enc_type) xs) _
        (encode_items-Returns (before_byte 91 enc_type) xs h) (λ raw. (λ e. cc, λ e. cc))
  encode_array-Returns enc_type _ h = (λ e. cc, λ e. cc)

  encode_field-Returns :
      (enc_type : Bytes) (v : Value)
      → enc_type ≢ []
      → value_depth v ≤ n
      → Returns (encode_field eth encode types enc_type v)
  unfolding encode_field
  encode_field-Returns enc_type v h d =
      let (b, e) = ends_bracket-some enc_type h in
      ground (arith, encode_array-Returns enc_type v d, encode_item-Returns enc_type v d)

  encode_fields-Returns :
      (fields : List TypeEntry) (es : Entries)
      → All (λ t. t.typ ≢ []) fields
      → entries_depth es ≤ n
      → Returns (encode_fields eth encode types fields es)
  unfolding encode_fields
  encode_fields-Returns [] es h d = (λ e. cc, λ e. cc)
  encode_fields-Returns (t ∷ fields) es h d =
      let v = lookup_value es t.name in
      let shallow = lookup_value-depth es t.name in
      Returns->>= (encode_field eth encode types t.typ v) _
        (encode_field-Returns t.typ v h.0 (omega (arith, shallow)))
        (λ this.
          Returns->>= (encode_fields eth encode types fields es) _
            (encode_fields-Returns fields es h.1 d) (λ others. (λ e. cc, λ e. cc)))

module _ (eth : Ethereum) (upper_rune : Bytes → Bool) (td : TypedMessage) where
  -- Where the checks pass, the rest of the body is to answer.
  checked-Returns :
      {A : Type 0} (k : Result Error A)
      → (validate upper_rune td ≡ ok tt → Returns k)
      → Returns (as_invalid {0} invalid (validate upper_rune td) >> k)
  checked-Returns k h = elim (cases (validate upper_rune td)) [
    | inl e ↦ rw e (h e)
    | inr (inl (x, e)) ↦ rw e (λ e. cc, λ e. cc)
    | inr (inr e) ↦ absurd (validate-ne-panic upper_rune td e)
  ]
    where
      cases :
          (r : Check Validate.Error)
          → (r ≡ ok tt) ⊎ (((x : Validate.Error) × (r ≡ err x)) ⊎ (r ≡ panic))
      cases (ok tt) = inl refl
      cases (err x) = inr (inl (x, refl))
      cases panic = inr (inr refl)

  fields_of-typed :
      (primary : Bytes)
      → validate upper_rune td ≡ ok tt
      → All (λ t. t.typ ≢ []) (fields_of td primary)
  fields_of-typed primary valid = elim (Option-cases (lookup_type td.types primary)) [
    | inl missing ↦ rw missing tt
    | inr (fields, l) ↦ rw l (
        lookup_type-typed upper_rune td.types td.types primary fields
          ((validate_iff upper_rune td).0 valid).0 l)
  ]

  encode_data-Answers : (n : ℕ) → Answers n (encode_data eth upper_rune td n)
  unfolding encode_data
  encode_data-Answers zero primary es h = absurd (omega arith)
  encode_data-Answers (suc n) primary es h =
      let (type_text, e) = encode_type-some td.types primary in
      checked-Returns _ (λ valid.
        >>-Returns (reject_if (ltb (length (fields_of td primary)) (size es)) extra_data) _
          (ground arith)
          (rw e (
            Returns->>=
              (encode_fields eth (encode_data eth upper_rune td n) td.types (fields_of td primary)
                es)
              _
              (encode_fields-Returns eth (encode_data eth upper_rune td n) n (encode_data-Answers n)
                td.types (fields_of td primary) es (fields_of-typed primary valid) (omega arith))
              (λ members. (λ e. cc, λ e. cc)))))

  hash_struct-Returns :
      (primary : Bytes) (es : Entries) → Returns (hash_struct eth upper_rune td primary es)
  unfolding hash_struct
  hash_struct-Returns primary es =
      Returns->>= (encode_data eth upper_rune td (suc (entries_depth es)) primary es) _
        (encode_data-Answers (suc (entries_depth es)) primary es (omega arith))
        (λ encoded. (λ e. cc, λ e. cc))

  -- ComputeTypedDataHash comes to an end on every typed data, however its types refer to each other
  -- and however its message nests: the fuel is enough, and it answers a hash or an error, no panic.
  pub compute_typed_data_hash-Returns : Returns (compute_typed_data_hash eth upper_rune td)
  unfolding compute_typed_data_hash
  compute_typed_data_hash-Returns =
      Returns->>= (hash_struct eth upper_rune td (codes "EIP712Domain") (domain_map td.domain)) _
        (hash_struct-Returns (codes "EIP712Domain") (domain_map td.domain))
        (λ domain.
          Returns->>= (hash_struct eth upper_rune td td.primary_type td.message) _
            (hash_struct-Returns td.primary_type td.message) (λ message. (λ e. cc, λ e. cc)))
