-- ===== src/TypedData/Validate/Laws.antt =====
-- The type tables that Types.validate passes, and the typed data that TypedData.validate passes.
use flux_sdk_go.Common.{
  ◌≡◌, refl, ◌↔◌, ◌≢◌, ◌⊎◌, inl, inr, Bool, true, false, Option, none, some, List, [], ◌∷◌, Check,
  ok, err, panic, All-imp, ◌>>◌, >>-eq-ok, reject_if, Bytes, bytes_eq, bytes_eq_iff, All, is_some,
  Bool-cases, arith,
}
use mathlib.Core.Path.{subst}
use flux_sdk_go.TypedData.{TypeEntry, Types, Domain, TypedMessage, lookup_type}
use flux_sdk_go.TypedData.Validate.{
  Error, is_empty, type_name, matches_reference, is_primitive_type_valid, is_reference_type,
  check_entry, check_entries, check_types, validate_types, validate_domain, validate,
}

is_some_iff : {A : Type 0} (o : Option A) → (is_some o ≡ true) ↔ (o ≢ none)
is_some_iff none = ground arith
is_some_iff (some a) = ground arith

is_empty-false : (s : Bytes) → (is_empty s ≡ false) ↔ (s ≢ [])
is_empty-false [] = ground arith
is_empty-false (c ∷ s) = ground arith

bytes_eq-false : (s t : Bytes) → (bytes_eq s t ≡ false) ↔ (s ≢ t)
bytes_eq-false s t = ground (arith, bytes_eq_iff s t)

module _ (upper_rune : Bytes → Bool) (types : Types) where
  -- What a field may be: a struct type of the table that is spelled as one, or a listed primitive type.
  abbrev pub IsFieldType : TypeEntry → Type 0
  IsFieldType t =
      ((is_reference_type upper_rune t.typ ≡ true)
        × (lookup_type types (type_name t) ≢ none)
        × (matches_reference t.typ ≡ true))
      ⊎ ((is_reference_type upper_rune t.typ ≡ false) × (is_primitive_type_valid t.typ ≡ true))

  -- A field of the type `key`: named, typed, and not the type itself.
  abbrev pub IsSoundField : Bytes → TypeEntry → Type 0
  IsSoundField key t = (t.typ ≢ []) × (t.name ≢ []) × (key ≢ t.typ) × IsFieldType t

  abbrev pub IsSoundType : Bytes × List TypeEntry → Type 0
  IsSoundType d = (d.0 ≢ []) × All (IsSoundField d.0) d.1

  check_entry-IsSoundField :
      (key : Bytes) (t : TypeEntry)
      → (check_entry upper_rune types key t ≡ ok tt) ↔ IsSoundField key t
  unfolding check_entry
  check_entry-IsSoundField key t =
      let a = is_empty-false t.typ in
      let b = is_empty-false t.name in
      let c = bytes_eq-false key t.typ in
      let d = is_some_iff (lookup_type types (type_name t)) in ground (arith, a, b, c, d)

  check_entries-IsSoundField :
      (key : Bytes) (fields : List TypeEntry)
      → (check_entries upper_rune types key fields ≡ ok tt) ↔ All (IsSoundField key) fields
  unfolding check_entries
  check_entries-IsSoundField key [] = (λ _. tt, λ _. refl)
  check_entries-IsSoundField key (t ∷ rest) =
      let this = check_entry-IsSoundField key t in
      let others = check_entries-IsSoundField key rest in
      (
        λ e.
            let (e₁, e₂) = >>-eq-ok (check_entry upper_rune types key t) _ e in
            (this.0 e₁, others.0 e₂),
        λ h. rw (this.1 h.0) (others.1 h.1),
      )

  pub check_types-IsSoundType :
      (table : Types) → (check_types upper_rune types table ≡ ok tt) ↔ All IsSoundType table
  unfolding check_types
  check_types-IsSoundType [] = (λ _. tt, λ _. refl)
  check_types-IsSoundType ((key, fields) ∷ rest) =
      let fields_sound = check_entries-IsSoundField key fields in
      let others = check_types-IsSoundType rest in
      let named = is_empty-false key in
      (
        λ e.
            let (e₁, e₂) = >>-eq-ok (reject_if (is_empty key) Error.empty_type_key) _ e in
            let (e₃, e₄) = >>-eq-ok (check_entries upper_rune types key fields) _ e₂ in
            ((named.0 (ground arith), fields_sound.0 e₃), others.0 e₄),
        λ h. rw (named.1 h.0.0, fields_sound.1 h.0.1) (others.1 h.1),
      )

-- A domain that says something.
unfoldable pub IsSoundDomain : Domain → Type 0
IsSoundDomain d =
    (d.chain_id ≢ none)
    ⊎ ((d.name ≢ []) ⊎ ((d.version ≢ []) ⊎ ((d.verifying_contract ≢ []) ⊎ (d.salt ≢ []))))

validate_domain-IsSoundDomain : (d : Domain) → (validate_domain d ≡ ok tt) ↔ IsSoundDomain d
unfolding validate_domain IsSoundDomain
validate_domain-IsSoundDomain d = ground (
  arith,
  is_some_iff d.chain_id,
  is_empty-false d.name,
  is_empty-false d.version,
  is_empty-false d.verifying_contract,
  is_empty-false d.salt,
)

-- TypedData.validate accepts typed data exactly when no type has an empty name, every field of every
-- type has a type and a name, is not of the type that it stands in, and is of a type of the table
-- that is spelled as a reference type or of a listed primitive type, and the domain says something.
pub validate_iff :
    (upper_rune : Bytes → Bool) (td : TypedMessage)
    → (validate upper_rune td ≡ ok tt)
      ↔ (All (IsSoundType upper_rune td.types) td.types × IsSoundDomain td.domain)
unfolding validate validate_types
validate_iff upper_rune td =
    let types_sound = check_types-IsSoundType upper_rune td.types td.types in
    let domain_sound = validate_domain-IsSoundDomain td.domain in
    (
      λ e.
          let (e₁, e₂) = >>-eq-ok (check_types upper_rune td.types td.types) _ e in
          (types_sound.0 e₁, domain_sound.0 e₂),
      λ h. rw (types_sound.1 h.0) (domain_sound.1 h.1),
    )

-- The checks answer nothing but their errors.
>>-ne-panic : {E : Type 0} (m k : Check E) → m ≢ panic → k ≢ panic → (m >> k) ≢ panic
>>-ne-panic (ok tt) k h g = g
>>-ne-panic (err e) k h g = λ p. cc
>>-ne-panic panic k h g = absurd (h refl)

module _ (upper_rune : Bytes → Bool) (types : Types) where
  check_entries-ne-panic :
      (key : Bytes) (fields : List TypeEntry) → check_entries upper_rune types key fields ≢ panic
  unfolding check_entries check_entry
  check_entries-ne-panic key [] = λ p. cc
  check_entries-ne-panic key (t ∷ rest) =
      >>-ne-panic (check_entry upper_rune types key t) _ (ground arith)
        (check_entries-ne-panic key rest)

  check_types-ne-panic : (table : Types) → check_types upper_rune types table ≢ panic
  unfolding check_types
  check_types-ne-panic [] = λ p. cc
  check_types-ne-panic ((key, fields) ∷ rest) =
      >>-ne-panic (reject_if (is_empty key) Error.empty_type_key) _ (ground arith) (
        >>-ne-panic (check_entries upper_rune types key fields) _
          (check_entries-ne-panic key fields) (check_types-ne-panic rest))

pub validate-ne-panic :
    (upper_rune : Bytes → Bool) (td : TypedMessage) → validate upper_rune td ≢ panic
unfolding validate validate_types validate_domain
validate-ne-panic upper_rune td =
    >>-ne-panic (check_types upper_rune td.types td.types) _
      (check_types-ne-panic upper_rune td.types td.types) (ground arith)

-- Every field of a type of a table that passes the checks has a type.
pub lookup_type-typed :
    (upper_rune : Bytes → Bool) (types table : Types) (key : Bytes) (fields : List TypeEntry)
    → All (IsSoundType upper_rune types) table
    → lookup_type table key ≡ some fields
    → All (λ t. t.typ ≢ []) fields
unfolding lookup_type
lookup_type-typed upper_rune types [] key fields h l = cc
lookup_type-typed upper_rune types ((k, own) ∷ table) key fields h l =
    elim (Bool-cases (bytes_eq k key)) [
      | inl e ↦
          let same : own ≡ fields = ground arith in
          subst (All (λ t. t.typ ≢ [])) same
            (All-imp (IsSoundField upper_rune types k) (λ t. t.typ ≢ []) own (λ t s. s.0) h.0.1)
      | inr e ↦ lookup_type-typed upper_rune types table key fields h.1 (ground arith)
    ]
