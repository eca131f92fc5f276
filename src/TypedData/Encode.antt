-- ===== src/TypedData/Encode.antt =====
-- EncodeData, HashStruct, ComputeTypedDataHash and Domain.Map of typed_data.go. EncodeData calls itself
-- on what stands in its data, so the model's recursion is on fuel, and `stuck` when it is used up.
pub mod Laws
pub mod Reference
pub mod Fuel
mod Tests
use Prim.Native.Nat.{max}
use flux_sdk_go.Common.{
  ℕ, zero, suc, ◌+◌, Bool, true, false, not, String, Option, none, some, List, [], ◌∷◌, ◌++◌,
  Result, ok, err, panic, Check, ◌>>=◌, ◌>>◌, reject_if, or_err, Bytes, codes, length, before_byte,
  is_some, or_else, ltb, if◌then◌else◌, ◌==◌,
}
use flux_sdk_go.Common.Int.{ℤ}
use flux_sdk_go.TypedData.{
  TypeEntry, Types, Domain, TypedMessage, Value, text, big, array, object, Items, no_items, item,
  Entries, no_entries, entry, lookup_type, lookup_value,
}
use flux_sdk_go.TypedData.Validate.{validate}
use flux_sdk_go.TypedData.Depend.{encode_type}
use flux_sdk_go.TypedData.Primitive.{
  Ethereum, Error, invalid, extra_data, stuck, mismatch, encode_primitive_value,
}

-- `len(data)`: the names of a map's entries are apart.
unfoldable pub size : Entries → ℕ
size no_entries = 0
size (entry k v rest) = suc (size rest)

-- How deep objects nest in a value.
unfoldable mutual
  pub value_depth : Value → ℕ
  value_depth (array xs) = items_depth xs
  value_depth (object es) = suc (entries_depth es)
  value_depth _ = 0

  pub items_depth : Items → ℕ
  items_depth no_items = 0
  items_depth (item v rest) = max (value_depth v) (items_depth rest)

  pub entries_depth : Entries → ℕ
  entries_depth no_entries = 0
  entries_depth (entry k v rest) = max (value_depth v) (entries_depth rest)

-- `encType[len(encType)-1:] == "]"`; the slice of an empty text panics.
unfoldable pub ends_bracket : Bytes → Option Bool
ends_bracket [] = none
ends_bracket (c ∷ []) = some (c == 93)
ends_bracket (c ∷ d ∷ s) = ends_bracket (d ∷ s)

abbrev pub as_invalid {ℓ} :
    {E : Type 0} → (E → Error) → Result E (Unit {0}) → Result Error (Unit {ℓ})
as_invalid f (ok _) = ok tt
as_invalid f (err e) = err (f e)
as_invalid f panic = panic

abbrev put_text : String → Bytes → Entries → Entries
put_text name [] rest = rest
put_text name (c ∷ s) rest = entry (codes name) (text (c ∷ s)) rest

abbrev put_number : String → Option ℤ → Entries → Entries
put_number name none rest = rest
put_number name (some n) rest = entry (codes name) (big n) rest

-- `Domain.Map`
unfoldable pub domain_map : Domain → Entries
domain_map d = put_number "chainId" d.chain_id (
    put_text "name" d.name (
      put_text "version" d.version
        (put_text "verifyingContract" d.verifying_contract (put_text "salt" d.salt no_entries))))

-- `typedData.Types[primaryType]`
abbrev pub fields_of : TypedMessage → Bytes → List TypeEntry
fields_of td primary = or_else (lookup_type td.types primary) []

module _ (eth : Ethereum) where
  -- An object of a struct type, hashed; `encode` is the recursive call.
  unfoldable pub encode_struct :
      (Bytes → Entries → Result Error Bytes) → Bytes → Value → Result Error Bytes
  encode_struct encode name (object es) = do encoded ← encode name es; ok (eth.keccak256 encoded)
  encode_struct encode name _ = err (mismatch name)

  -- An element of an array.
  unfoldable pub encode_item :
      (Bytes → Entries → Result Error Bytes) → Types → Bytes → Value → Result Error Bytes
  encode_item encode types name v =
      if is_some (lookup_type types name)
      then encode_struct encode name v
      else encode_primitive_value eth name v

  unfoldable pub encode_items :
      (Bytes → Entries → Result Error Bytes) → Types → Bytes → Items → Result Error Bytes
  encode_items encode types name no_items = ok []
  encode_items encode types name (item v rest) = do
    this ← encode_item encode types name v
    others ← encode_items encode types name rest
    ok (this ++ others)

  unfoldable pub encode_array :
      (Bytes → Entries → Result Error Bytes) → Types → Bytes → Value → Result Error Bytes
  encode_array encode types enc_type (array xs) = do
    joined ← encode_items encode types (before_byte 91 enc_type) xs
    ok (eth.keccak256 joined)
  encode_array encode types enc_type _ = err (mismatch enc_type)

  -- A field of a struct: an array, a struct or a primitive value.
  unfoldable pub encode_field :
      (Bytes → Entries → Result Error Bytes) → Types → Bytes → Value → Result Error Bytes
  encode_field encode types enc_type v = elim (ends_bracket enc_type) [
    | none ↦ panic
    | some true ↦ encode_array encode types enc_type v
    | some false ↦ encode_item encode types enc_type v
  ]

  unfoldable pub encode_fields :
      (Bytes → Entries → Result Error Bytes) → Types → List TypeEntry → Entries → Result Error Bytes
  encode_fields encode types [] values = ok []
  encode_fields encode types (t ∷ fields) values = do
    this ← encode_field encode types t.typ (lookup_value values t.name)
    others ← encode_fields encode types fields values
    ok (this ++ others)

  module _ (upper_rune : Bytes → Bool) (td : TypedMessage) where
    -- `EncodeData`
    unfoldable pub encode_data : ℕ → Bytes → Entries → Result Error Bytes
    encode_data zero primary values = err stuck
    encode_data (suc n) primary values = do
      as_invalid invalid (validate upper_rune td)
      reject_if (ltb (length (fields_of td primary)) (size values)) extra_data
      type_text ← or_err (encode_type td.types primary) stuck
      members ← encode_fields (encode_data n) td.types (fields_of td primary) values
      ok (eth.keccak256 type_text ++ members)

    -- `HashStruct`, with fuel for one call more than objects nest.
    unfoldable pub hash_struct : Bytes → Entries → Result Error Bytes
    hash_struct primary values = do
      encoded ← encode_data (suc (entries_depth values)) primary values
      ok (eth.keccak256 encoded)

    -- `ComputeTypedDataHash`
    unfoldable pub compute_typed_data_hash : Result Error Bytes
    compute_typed_data_hash = do
      domain ← hash_struct (codes "EIP712Domain") (domain_map td.domain)
      message ← hash_struct td.primary_type td.message
      ok (eth.keccak256 (25 ∷ 1 ∷ (domain ++ message)))
