-- ===== src/TypedData/Validate/Tests.antt =====
-- The checks of the types on a message of two struct types.
use flux_sdk_go.Common.{◌≡◌, refl, ◌↔◌, ok, err, [], ◌∷◌, All, codes, cut_suffix}
use flux_sdk_go.TypedData.{lookup_type}
use flux_sdk_go.TypedData.Sample.{mail, mail_types, no_upper, field}
use flux_sdk_go.TypedData.Validate.{
  undefined_reference, validate, validate_types, check_types, check_entries, check_entry,
  is_reference_type, type_name, matches_reference, is_primitive_type_valid, validate_domain,
}
use flux_sdk_go.TypedData.Validate.Laws.{IsSoundType, IsSoundDomain, validate_iff}

validate_iff_example :
    (validate no_upper mail ≡ ok tt)
    ↔ (All (IsSoundType no_upper mail_types) mail_types × IsSoundDomain mail.domain)
validate_iff_example = validate_iff no_upper mail

accepts_mail : validate no_upper mail ≡ ok tt
unfolding validate validate_types check_types check_entries check_entry is_reference_type
    lookup_type type_name cut_suffix matches_reference is_primitive_type_valid validate_domain
accepts_mail = refl

rejects_unknown :
    validate_types no_upper ((codes "Mail", field "from" "Person" ∷ []) ∷ [])
    ≡ err (undefined_reference (codes "Person"))
unfolding validate_types check_types check_entries check_entry is_reference_type lookup_type
    type_name cut_suffix
rejects_unknown = refl
