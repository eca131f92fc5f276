-- ===== src/TypedData/Format/Shows.antt =====
-- Format shows what its description says, and it comes to an end.
use flux_sdk_go.Common.{
  ℕ, zero, suc, ◌≡◌, refl, ap, ◌∙◌, ◌≢◌, ◌⊎◌, inl, inr, true, false, none, some, List, [], ◌∷◌,
  Result, ok, err, panic, >>=-eq-ok, Bytes, codes, or_else, Bool-cases, Option-cases, arith,
}
use mathlib.Core.Path.{subst}
use flux_sdk_go.TypedData.{
  TypeEntry, Types, TypedMessage, Value, object, Items, no_items, item, Entries, lookup_type,
  lookup_value,
}
use flux_sdk_go.TypedData.Primitive.{Ethereum, Error, stuck}
use flux_sdk_go.TypedData.Primitive.Returns.{Returns}
use flux_sdk_go.TypedData.Encode.{entries_depth, fields_of, domain_map}
use flux_sdk_go.TypedData.Format.{
  Printer, Shown, nothing, shown_text, shown_struct, NameValueTypes, no_nvts, nvt, as_map, as_items,
  format_primitive_value, format_text, format_map, format_element, format_array, format_struct,
  format_field, format_fields, format_data, format_root, format,
}
use flux_sdk_go.TypedData.Format.Laws.{format_root-Returns}
use flux_sdk_go.TypedData.Format.Description.{
  last_item, is_array, element_type, Shows, no_field, field, ShowsField, empty_array, struct_array,
  primitive_array, struct, no_struct, primitive,
}

module _ (eth : Ethereum) (printer : Printer) (types : Types) where
  format_text-eq-ok :
      (typ : Bytes) (v : Value) (shown : Shown)
      → format_text eth printer typ v ≡ ok shown
      → (s : Bytes) × (shown_text s ≡ shown) × (format_primitive_value eth printer typ v ≡ ok s)
  unfolding format_text
  format_text-eq-ok typ v shown e =
      let (s, made, same) = >>=-eq-ok (format_primitive_value eth printer typ v) _ e in
      (s, ground arith, made)

  module _ (call : Bytes → Entries → Result Error NameValueTypes)
      (shows : (name : Bytes) (fields : List TypeEntry) (es : Entries) (out : NameValueTypes)
        → lookup_type types name ≡ some fields
        → call name es ≡ ok out
        → Shows eth printer types fields es out) where
    format_map-eq-ok :
        (name : Bytes) (fields : List TypeEntry) (es : Entries) (shown : Shown)
        → lookup_type types name ≡ some fields
        → format_map eth printer call types name es ≡ ok shown
        → (out : NameValueTypes) × (shown_struct out ≡ shown)
          × Shows eth printer types fields es out
    unfolding format_map
    format_map-eq-ok name fields es shown l e =
        let (out, made, same) = >>=-eq-ok (call name es) _ e in
        (out, ground arith, shows name fields es out l made)

    -- The last turn of the loop over an array decides what is shown.
    format_array-last :
        (typ name : Bytes) (whole : Value) (xs : Items) (before shown : Shown)
        → format_array eth printer call types typ name whole xs before ≡ ok shown
        → ((last_item xs ≡ none) × (before ≡ shown))
          ⊎ ((last : Value) × (last_item xs ≡ some last)
              × (format_element eth printer call types typ name whole last ≡ ok shown))
    unfolding format_array last_item
    format_array-last typ name whole no_items before shown e = inl (refl, ground arith)
    format_array-last typ name whole (item v no_items) before shown e =
        let (this, made, same) =
          >>=-eq-ok (format_element eth printer call types typ name whole v) _ e in
        inr (v, refl, made ∙ same)
    format_array-last typ name whole (item v (item w rest)) before shown e =
        let (this, made, e') =
          >>=-eq-ok (format_element eth printer call types typ name whole v) _ e in
        elim (format_array-last typ name whole (item w rest) this shown e') [
          | inl (empty, same) ↦ absurd (has_last w rest empty)
          | inr found ↦ inr found
        ]
      where
        has_last : (w : Value) (rest : Items) → last_item (item w rest) ≡ none → ⊥
        has_last w no_items e = cc
        has_last w (item u rest) e = has_last u rest e

    format_array-ShowsField :
        (typ : Bytes) (v : Value) (shown : Shown)
        → is_array typ ≡ true
        → format_array eth printer call types typ (element_type typ) v (as_items v) nothing
          ≡ ok shown
        → ShowsField eth printer types typ v shown
    unfolding format_element
    format_array-ShowsField typ v shown a e =
        elim (format_array-last typ (element_type typ) v (as_items v) nothing shown e) [
          | inl (empty, same) ↦
              subst (ShowsField eth printer types typ v) same (empty_array a empty)
          | inr (last, found, made) ↦ elim (Option-cases (lookup_type types (element_type typ))) [
            | inl l ↦
                let (s, same, text_made) = format_text-eq-ok typ v shown (rw l at made) in
                subst (ShowsField eth printer types typ v) same
                  (primitive_array a found l text_made)
            | inr (fields, l) ↦
                let (out, same, inner) =
                  format_map-eq-ok (element_type typ) fields (as_map last) shown l (rw l at made) in
                subst (ShowsField eth printer types typ v) same (struct_array a found l inner)
          ]
        ]

    format_struct-ShowsField :
        (typ : Bytes) (fields : List TypeEntry) (v : Value) (shown : Shown)
        → is_array typ ≡ false
        → lookup_type types typ ≡ some fields
        → format_struct eth printer call types typ v ≡ ok shown
        → ShowsField eth printer types typ v shown
    unfolding format_struct
    format_struct-ShowsField typ fields (object es) shown a l e =
        let (out, same, inner) = format_map-eq-ok typ fields es shown l e in
        subst (ShowsField eth printer types typ (object es)) same (struct a l refl inner)
    format_struct-ShowsField typ fields v shown a l e =
        subst (ShowsField eth printer types typ v) (ground arith) (no_struct a l refl)

    format_field-ShowsField :
        (typ : Bytes) (v : Value) (shown : Shown)
        → format_field eth printer call types typ v ≡ ok shown
        → ShowsField eth printer types typ v shown
    unfolding format_field
    format_field-ShowsField typ v shown e = elim (Bool-cases (is_array typ)) [
      | inl a ↦ format_array-ShowsField typ v shown a (rw a at e)
      | inr a ↦
          let e₁ = rw a at e in
          elim (Option-cases (lookup_type types typ)) [
            | inl l ↦
                let (s, same, made) = format_text-eq-ok typ v shown (rw l at e₁) in
                subst (ShowsField eth printer types typ v) same (primitive a l made)
            | inr (fields, l) ↦ format_struct-ShowsField typ fields v shown a l (rw l at e₁)
          ]
    ]

    format_fields-Shows :
        (fields : List TypeEntry) (es : Entries) (out : NameValueTypes)
        → format_fields eth printer call types fields es ≡ ok out
        → Shows eth printer types fields es out
    unfolding format_fields
    format_fields-Shows [] es out e = subst (Shows eth printer types [] es) (ground arith) no_field
    format_fields-Shows (t ∷ fields) es out e =
        let (this, made, e₁) =
          >>=-eq-ok (format_field eth printer call types t.typ (lookup_value es t.name)) _ e in
        let (others, rest, same) =
          >>=-eq-ok (format_fields eth printer call types fields es) _ e₁ in
        subst (Shows eth printer types (t ∷ fields) es) (ground arith) (
          field (format_field-ShowsField t.typ (lookup_value es t.name) this made)
            (format_fields-Shows fields es others rest))

module _ (eth : Ethereum) (printer : Printer) (td : TypedMessage) where
  format_data-Shows :
      (n : ℕ) (name : Bytes) (es : Entries) (out : NameValueTypes)
      → format_data eth printer td n name es ≡ ok out
      → Shows eth printer td.types (fields_of td name) es out
  unfolding format_data
  format_data-Shows zero name es out e = cc
  format_data-Shows (suc n) name es out e =
      format_fields-Shows eth printer td.types (format_data eth printer td n)
        (λ name fields es out l made.
          subst (λ fs. Shows eth printer td.types fs es out) (ap (λ o. or_else o []) l)
            (format_data-Shows n name es out made))
        (fields_of td name) es out e

  format_root-Shows :
      (name : Bytes) (es : Entries) (out : NameValueTypes)
      → format_root eth printer td name es ≡ ok out
      → Shows eth printer td.types (fields_of td name) es out
  unfolding format_root
  format_root-Shows name es out e = format_data-Shows (suc (suc (entries_depth es))) name es out e

  -- What Format answers with: the items of the domain, and those of the message.
  abbrev pub IsFormat : NameValueTypes → NameValueTypes → NameValueTypes → Type 0
  IsFormat domain message out =
      (out
        ≡ nvt (codes "EIP712Domain") (shown_struct domain) (codes "domain")
            (nvt td.primary_type (shown_struct message) (codes "primary type") no_nvts))
      × Shows eth printer td.types (fields_of td (codes "EIP712Domain")) (domain_map td.domain)
          domain
      × Shows eth printer td.types (fields_of td td.primary_type) td.message message

  ending :
      {A : Type 0} (r : Result Error A)
      → Returns r
      → ((a : A) × (r ≡ ok a)) ⊎ ((x : Error) × (r ≡ err x) × (x ≢ stuck))
  ending (ok a) h = inl (a, refl)
  ending (err x) h = inr (x, refl, λ s. h.0 (ap err s))
  ending panic h = absurd (h.1 refl)

  -- Format comes to an end on every typed data, though formatData calls itself on what stands in the data: it answers one
  -- of Go's errors, or the items of the domain and of the message. The items of a struct are one for each field
  -- of its type, in order, with its name and type. A field that is an array of structs shows the last element
  -- alone, and any other array that is not empty what formatPrimitiveValue makes of the whole array.
  pub format-Shows :
      ((out : NameValueTypes) × (domain : NameValueTypes) × (message : NameValueTypes) × (format eth
            printer td
          ≡ ok out)
        × IsFormat domain message out)
      ⊎ ((x : Error) × (format eth printer td ≡ err x) × (x ≢ stuck))
  unfolding format
  format-Shows =
      let first = format_root eth printer td (codes "EIP712Domain") (domain_map td.domain) in
      let second = format_root eth printer td td.primary_type td.message in
      elim (ending first
        (format_root-Returns eth printer td (codes "EIP712Domain") (domain_map td.domain))) [
          | inr (x, failed, n) ↦ inr (x, rw failed refl, n)
          | inl (domain, made) ↦
              elim (ending second (format_root-Returns eth printer td td.primary_type td.message)) [
                | inr (x, failed, n) ↦ inr (x, rw (made, failed) refl, n)
                | inl (message, made') ↦ inl (
                  _,
                  domain,
                  message,
                  rw (made, made') refl,
                  (
                    refl,
                    format_root-Shows (codes "EIP712Domain") (domain_map td.domain) domain made,
                    format_root-Shows td.primary_type td.message message made',
                  ),
                )
              ]
        ]
