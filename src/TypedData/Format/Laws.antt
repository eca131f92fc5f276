-- ===== src/TypedData/Format/Laws.antt =====
-- Format comes to an end.
use flux_sdk_go.Common.{
  ℕ, zero, suc, ◌≤◌, ◌<◌, inl, inr, List, [], ◌∷◌, Result, Bytes, codes, has_suffix, trim_suffix,
  is_some, Bool-cases, arith,
}
use flux_sdk_go.TypedData.{
  TypeEntry, Types, TypedMessage, Value, null, boolean, text, array, object, Items, no_items, item,
  Entries, no_entries, lookup_type, lookup_value,
}
use flux_sdk_go.TypedData.Primitive.{Ethereum, Error, parse_integer}
use flux_sdk_go.TypedData.Primitive.Returns.{Returns, Returns->>=, parse_integer-Returns}
use flux_sdk_go.TypedData.Encode.{value_depth, items_depth, entries_depth, fields_of}
use flux_sdk_go.TypedData.Encode.Fuel.{lookup_value-depth}
use flux_sdk_go.TypedData.Format.{
  Printer, Shown, nothing, NameValueTypes, as_map, as_items, format_address, format_bool,
  format_integer, format_primitive_value, format_text, format_map, format_element, format_array,
  format_struct, format_field, format_fields, format_data, format_root,
}

module _ (eth : Ethereum) (printer : Printer) where
  format_address-Returns : (v : Value) → Returns (format_address eth printer v)
  unfolding format_address
  format_address-Returns (text s) = (λ e. cc, λ e. cc)
  format_address-Returns _ = (λ e. cc, λ e. cc)

  format_bool-Returns : (v : Value) → Returns (format_bool eth printer v)
  unfolding format_bool
  format_bool-Returns (boolean b) = (λ e. cc, λ e. cc)
  format_bool-Returns _ = (λ e. cc, λ e. cc)

  format_integer-Returns : (t : Bytes) (v : Value) → Returns (format_integer eth printer t v)
  unfolding format_integer
  format_integer-Returns t v =
      Returns->>= (parse_integer eth t v) _ (parse_integer-Returns eth t v)
        (λ n. (λ e. cc, λ e. cc))

  format_primitive_value-Returns :
      (t : Bytes) (v : Value) → Returns (format_primitive_value eth printer t v)
  unfolding format_primitive_value
  format_primitive_value-Returns t v =
      ground (arith, format_address-Returns v, format_bool-Returns v, format_integer-Returns t v)

  format_text-Returns : (t : Bytes) (v : Value) → Returns (format_text eth printer t v)
  unfolding format_text
  format_text-Returns t v =
      Returns->>= (format_primitive_value eth printer t v) _ (format_primitive_value-Returns t v)
        (λ s. (λ e. cc, λ e. cc))

  -- The recursive call answers on nothing, if it has fuel, and on what nests at least two calls less deep.
  abbrev Answers : ℕ → (Bytes → Entries → Result Error NameValueTypes) → Type 0
  Answers n call =
      ((name : Bytes) → 0 < n → Returns (call name no_entries))
      × ((name : Bytes) (es : Entries) → suc (entries_depth es) < n → Returns (call name es))

  module _ (call : Bytes → Entries → Result Error NameValueTypes) (n : ℕ) (answers : Answers n call)
      (types : Types) where
    format_map-Returns :
        (name : Bytes) (es : Entries)
        → Returns (call name es)
        → Returns (format_map eth printer call types name es)
    unfolding format_map
    format_map-Returns name es h = Returns->>= (call name es) _ h (λ out. (λ e. cc, λ e. cc))

    as_map-Returns :
        (name : Bytes) (v : Value)
        → 0 < n
        → suc (value_depth v) ≤ n
        → Returns (call name (as_map v))
    unfolding value_depth
    as_map-Returns name (object es) p h = answers.1 name es (omega arith)
    as_map-Returns name _ p h = answers.0 name p

    format_array-Returns :
        (enc_type name : Bytes) (whole : Value) (xs : Items) (shown : Shown)
        → 0 < n
        → suc (items_depth xs) ≤ n
        → Returns (format_array eth printer call types enc_type name whole xs shown)
    unfolding format_array format_element items_depth
    format_array-Returns enc_type name whole no_items shown p h = (λ e. cc, λ e. cc)
    format_array-Returns enc_type name whole (item v rest) shown p h =
        Returns->>= (format_element eth printer call types enc_type name whole v) _
          (elim (Bool-cases (is_some (lookup_type types name))) [
            | inl e ↦
                rw e (format_map-Returns name (as_map v) (as_map-Returns name v p (omega arith)))
            | inr e ↦ rw e (format_text-Returns enc_type whole)
          ])
          (λ this. format_array-Returns enc_type name whole rest this p (omega arith))

    as_items-depth : (v : Value) → items_depth (as_items v) ≤ value_depth v
    unfolding value_depth items_depth
    as_items-depth (array xs) = omega arith
    as_items-depth _ = omega arith

    format_struct-Returns :
        (name : Bytes) (v : Value)
        → suc (value_depth v) ≤ n
        → Returns (format_struct eth printer call types name v)
    unfolding format_struct value_depth
    format_struct-Returns name (object es) h =
        format_map-Returns name es (answers.1 name es (omega arith))
    format_struct-Returns name _ h = (λ e. cc, λ e. cc)

    format_field-Returns :
        (enc_type : Bytes) (v : Value)
        → 0 < n
        → suc (value_depth v) ≤ n
        → Returns (format_field eth printer call types enc_type v)
    unfolding format_field
    format_field-Returns enc_type v p h = elim (Bool-cases (has_suffix enc_type (codes "[]"))) [
      | inl e ↦ rw e (
          format_array-Returns enc_type (trim_suffix enc_type (codes "[]")) v (as_items v) nothing p
            (omega (arith, h, as_items-depth v)))
      | inr e ↦ rw e (elim (Bool-cases (is_some (lookup_type types enc_type))) [
        | inl f ↦ rw f (format_struct-Returns enc_type v h)
        | inr f ↦ rw f (format_text-Returns enc_type v)
      ])
    ]

    format_fields-Returns :
        (fields : List TypeEntry) (es : Entries)
        → 0 < n
        → suc (entries_depth es) ≤ n
        → Returns (format_fields eth printer call types fields es)
    unfolding format_fields
    format_fields-Returns [] es p h = (λ e. cc, λ e. cc)
    format_fields-Returns (t ∷ fields) es p h =
        let shallow = lookup_value-depth es t.name in
        Returns->>= (format_field eth printer call types t.typ (lookup_value es t.name)) _
          (format_field-Returns t.typ (lookup_value es t.name) p (omega (arith, h, shallow)))
          (λ this.
            Returns->>= (format_fields eth printer call types fields es) _
              (format_fields-Returns fields es p h) (λ others. (λ e. cc, λ e. cc)))

  -- What has no value is shown without a further call, for a struct as well.
  format_field-null :
      (call : Bytes → Entries → Result Error NameValueTypes) (types : Types) (enc_type : Bytes)
      → Returns (format_field eth printer call types enc_type null)
  unfolding format_field format_array format_struct
  format_field-null call types enc_type = elim (Bool-cases (has_suffix enc_type (codes "[]"))) [
    | inl e ↦ rw e (λ e. cc, λ e. cc)
    | inr e ↦ rw e (elim (Bool-cases (is_some (lookup_type types enc_type))) [
      | inl f ↦ rw f (λ e. cc, λ e. cc)
      | inr f ↦ rw f (format_text-Returns enc_type null)
    ])
  ]

  format_fields-empty :
      (call : Bytes → Entries → Result Error NameValueTypes) (types : Types)
      (fields : List TypeEntry)
      → Returns (format_fields eth printer call types fields no_entries)
  unfolding format_fields lookup_value
  format_fields-empty call types [] = (λ e. cc, λ e. cc)
  format_fields-empty call types (t ∷ fields) =
      Returns->>= (format_field eth printer call types t.typ null) _
        (format_field-null call types t.typ)
        (λ this.
          Returns->>= (format_fields eth printer call types fields no_entries) _
            (format_fields-empty call types fields) (λ others. (λ e. cc, λ e. cc)))

  module _ (td : TypedMessage) where
    format_data-Answers : (n : ℕ) → Answers n (format_data eth printer td n)
    unfolding format_data
    format_data-Answers zero = (λ name p. absurd (omega arith), λ name es h. absurd (omega arith))
    format_data-Answers (suc n) = (
      λ name p. format_fields-empty (format_data eth printer td n) td.types (fields_of td name),
      λ name es h.
          format_fields-Returns (format_data eth printer td n) n (format_data-Answers n) td.types
            (fields_of td name) es (omega arith) (omega arith),
    )

    pub format_root-Returns :
        (primary : Bytes) (es : Entries) → Returns (format_root eth printer td primary es)
    unfolding format_root
    format_root-Returns primary es =
        (format_data-Answers (suc (suc (entries_depth es)))).1 primary es (omega arith)
