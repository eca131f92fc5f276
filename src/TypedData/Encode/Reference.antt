-- ===== src/TypedData/Encode/Reference.antt =====
-- encodeData and hashStruct of EIP-712, by the types and the values alone, and that the code computes them.
use flux_sdk_go.Common.{
  ℕ, zero, suc, ◌≡◌, sym, ap, ◌∙◌, inl, inr, Bool, true, false, none, some, List, [], ◌∷◌, ◌++◌,
  Result, ok, >>=-eq-ok, >>-eq-ok, or_err-eq-ok, reject_if, Bytes, codes, length, before_byte,
  Option-cases, ltb, arith,
}
use mathlib.Core.Path.{subst}
use flux_sdk_go.TypedData.{
  TypeEntry, TypedMessage, Value, array, object, Items, no_items, item, Entries, lookup_type,
  lookup_value,
}
use flux_sdk_go.TypedData.Validate.{validate}
use flux_sdk_go.TypedData.Depend.{encode_type}
use flux_sdk_go.TypedData.Primitive.{
  Ethereum, Error, invalid, extra_data, stuck, encode_primitive_value,
}
use flux_sdk_go.TypedData.Encode.{
  size, ends_bracket, encode_struct, encode_item, encode_items, encode_array, encode_field,
  encode_fields, fields_of, encode_data, as_invalid, hash_struct, compute_typed_data_hash,
  domain_map, entries_depth,
}
use flux_sdk_go.TypedData.Encode.Laws.{length-encode_field}

module _ (eth : Ethereum) (td : TypedMessage) where
  mutual
    -- The data of a struct: the hash of the text of its type, and its members.
    pub data Encodes : Bytes → Entries → Bytes → Type 0 where
      encoded :
          {name : Bytes} {es : Entries} {text ms : Bytes}
          → encode_type td.types name ≡ some text
          → Members (fields_of td name) es ms
          → Encodes name es (eth.keccak256 text ++ ms)

    -- One member of 32 bytes for each field of the type, in the order of the type.
    pub data Members : List TypeEntry → Entries → Bytes → Type 0 where
      no_member : {es : Entries} → Members [] es []
      member :
          {t : TypeEntry} {fields : List TypeEntry} {es : Entries} {m ms : Bytes}
          → Member t.typ (lookup_value es t.name) m
          → length m ≡ 32
          → Members fields es ms
          → Members (t ∷ fields) es (m ++ ms)

    -- A field whose type ends with a bracket is the hash of its elements, joined; another is one element.
    pub data Member : Bytes → Value → Bytes → Type 0 where
      elements :
          {typ : Bytes} {xs : Items} {joined : Bytes}
          → ends_bracket typ ≡ some true
          → Elements (before_byte 91 typ) xs joined
          → Member typ (array xs) (eth.keccak256 joined)
      single :
          {typ : Bytes} {v : Value} {m : Bytes}
          → ends_bracket typ ≡ some false
          → Element typ v m
          → Member typ v m

    -- A struct is the hash of its data, and any other value is a primitive one.
    pub data Element : Bytes → Value → Bytes → Type 0 where
      struct :
          {name : Bytes} {fields : List TypeEntry} {es : Entries} {b : Bytes}
          → lookup_type td.types name ≡ some fields
          → Encodes name es b
          → Element name (object es) (eth.keccak256 b)
      primitive :
          {name : Bytes} {v : Value} {m : Bytes}
          → lookup_type td.types name ≡ none
          → encode_primitive_value eth name v ≡ ok m
          → Element name v m

    pub data Elements : Bytes → Items → Bytes → Type 0 where
      no_element : {name : Bytes} → Elements name no_items []
      element :
          {name : Bytes} {v : Value} {rest : Items} {m ms : Bytes}
          → Element name v m
          → Elements name rest ms
          → Elements name (item v rest) (m ++ ms)

  module _ (encode : Bytes → Entries → Result Error Bytes)
      (encodes : (name : Bytes) (es : Entries) (b : Bytes)
        → encode name es ≡ ok b
        → Encodes name es b) where
    encode_struct-Element :
        (name : Bytes) (fields : List TypeEntry) (v : Value) (m : Bytes)
        → lookup_type td.types name ≡ some fields
        → encode_struct eth encode name v ≡ ok m
        → Element name v m
    unfolding encode_struct
    encode_struct-Element name fields (object es) m l e =
        let (b, made, same) = >>=-eq-ok (encode name es) _ e in
        subst (Element name (object es)) (ground arith) (struct l (encodes name es b made))
    encode_struct-Element name fields _ m l e = cc

    encode_item-Element :
        (name : Bytes) (v : Value) (m : Bytes)
        → encode_item eth encode td.types name v ≡ ok m
        → Element name v m
    unfolding encode_item
    encode_item-Element name v m e = elim (Option-cases (lookup_type td.types name)) [
      | inl l ↦ primitive l (rw l at e)
      | inr (fields, l) ↦ encode_struct-Element name fields v m l (rw l at e)
    ]

    encode_items-Elements :
        (name : Bytes) (xs : Items) (ms : Bytes)
        → encode_items eth encode td.types name xs ≡ ok ms
        → Elements name xs ms
    unfolding encode_items
    encode_items-Elements name no_items ms e =
        subst (Elements name no_items) (ground arith) no_element
    encode_items-Elements name (item v rest) ms e =
        let (this, made, e₁) = >>=-eq-ok (encode_item eth encode td.types name v) _ e in
        let (others, made', same) = >>=-eq-ok (encode_items eth encode td.types name rest) _ e₁ in
        subst (Elements name (item v rest)) (ground arith) (
          element (encode_item-Element name v this made)
            (encode_items-Elements name rest others made'))

    encode_array-Member :
        (typ : Bytes) (v : Value) (m : Bytes)
        → ends_bracket typ ≡ some true
        → encode_array eth encode td.types typ v ≡ ok m
        → Member typ v m
    unfolding encode_array
    encode_array-Member typ (array xs) m b e =
        let (joined, made, same) =
          >>=-eq-ok (encode_items eth encode td.types (before_byte 91 typ) xs) _ e in
        subst (Member typ (array xs)) (ground arith)
          (elements b (encode_items-Elements (before_byte 91 typ) xs joined made))
    encode_array-Member typ _ m b e = cc

    encode_field-Member :
        (typ : Bytes) (v : Value) (m : Bytes)
        → encode_field eth encode td.types typ v ≡ ok m
        → Member typ v m
    unfolding encode_field
    encode_field-Member typ v m e = elim (Option-cases (ends_bracket typ)) [
      | inl b ↦ absurd (ground arith)
      | inr (true, b) ↦ encode_array-Member typ v m b (rw (b, encode_field) at e)
      | inr (false, b) ↦ single b (encode_item-Element typ v m (rw (b, encode_field) at e))
    ]

    encode_fields-Members :
        (fields : List TypeEntry) (es : Entries) (ms : Bytes)
        → encode_fields eth encode td.types fields es ≡ ok ms
        → Members fields es ms
    unfolding encode_fields
    encode_fields-Members [] es ms e = subst (Members [] es) (ground arith) no_member
    encode_fields-Members (t ∷ fields) es ms e =
        let v = lookup_value es t.name in
        let (this, made, e₁) = >>=-eq-ok (encode_field eth encode td.types t.typ v) _ e in
        let (others, made', same) = >>=-eq-ok (encode_fields eth encode td.types fields es) _ e₁ in
        subst (Members (t ∷ fields) es) (ground arith) (
          member (encode_field-Member t.typ v this made)
            (length-encode_field eth encode td.types t.typ v this made)
            (encode_fields-Members fields es others made'))

  module _ (upper_rune : Bytes → Bool) where
    encode_data-Encodes :
        (n : ℕ) (name : Bytes) (es : Entries) (b : Bytes)
        → encode_data eth upper_rune td n name es ≡ ok b
        → Encodes name es b
    unfolding encode_data
    encode_data-Encodes zero name es b e = cc
    encode_data-Encodes (suc n) name es b e =
        let fields = fields_of td name in
        let (_, e₁) = >>-eq-ok (as_invalid invalid (validate upper_rune td)) _ e in
        let (_, e₂) = >>-eq-ok (reject_if (ltb (length fields) (size es)) extra_data) _ e₁ in
        let (type_text, found, e₃) = or_err-eq-ok (encode_type td.types name) stuck _ e₂ in
        let (members, made, same) =
          >>=-eq-ok (encode_fields eth (encode_data eth upper_rune td n) td.types fields es) _ e₃ in
        subst (Encodes name es) (ground arith) (
          encoded found (
            encode_fields-Members (encode_data eth upper_rune td n) (encode_data-Encodes n) fields
              es members made))

    hash_struct-Encodes :
        (name : Bytes) (es : Entries) (h : Bytes)
        → hash_struct eth upper_rune td name es ≡ ok h
        → (b : Bytes) × Encodes name es b × (h ≡ eth.keccak256 b)
    unfolding hash_struct
    hash_struct-Encodes name es h e =
        let (b, made, same) =
          >>=-eq-ok (encode_data eth upper_rune td (suc (entries_depth es)) name es) _ e in
        (b, encode_data-Encodes (suc (entries_depth es)) name es b made, ground arith)

    -- The hash that ComputeTypedDataHash answers is the one of EIP-712: of the bytes 25 and 1, the hash of the data of the
    -- domain and the hash of the data of the message, in this order. The data of a struct are the hash of the text of
    -- its type, and then one member of 32 bytes for each field of the type, in the type's order: for an array the hash
    -- of its elements, joined, for a struct the hash of its data, and else what EncodePrimitiveValue answers.
    pub compute_typed_data_hash-Encodes :
        (h : Bytes)
        → compute_typed_data_hash eth upper_rune td ≡ ok h
        → (domain : Bytes) × (message : Bytes) × Encodes
            (codes "EIP712Domain")
            (domain_map td.domain)
            domain
          × Encodes td.primary_type td.message message
          × (h ≡ eth.keccak256 (25 ∷ 1 ∷ (eth.keccak256 domain ++ eth.keccak256 message)))
    unfolding compute_typed_data_hash
    compute_typed_data_hash-Encodes h e =
        let (d, made, e₁) =
          >>=-eq-ok (hash_struct eth upper_rune td (codes "EIP712Domain") (domain_map td.domain)) _
            e in
        let (m, made', same) =
          >>=-eq-ok (hash_struct eth upper_rune td td.primary_type td.message) _ e₁ in
        let (domain, of_domain, d_is) =
          hash_struct-Encodes (codes "EIP712Domain") (domain_map td.domain) d made in
        let (message, of_message, m_is) = hash_struct-Encodes td.primary_type td.message m made' in
        let hashed : eth.keccak256 (25 ∷ 1 ∷ (d ++ m)) ≡ h = ground arith in
        (
          domain,
          message,
          of_domain,
          of_message,
          sym hashed
              ∙ ap (λ x. eth.keccak256 (25 ∷ 1 ∷ (x ++ m))) d_is
              ∙ ap (λ x. eth.keccak256 (25 ∷ 1 ∷ (eth.keccak256 domain ++ x))) m_is,
        )
