-- ===== src/TypedData/Depend/Tests.antt =====
-- The dependencies and the text of a type of two struct types.
use flux_sdk_go.Common.{
  ◌≡◌, refl, ◌↔◌, some, List, [], ◌∷◌, Bytes, codes, IsIn, Distinct, cut_suffix,
}
use flux_sdk_go.TypedData.{Types, lookup_type}
use flux_sdk_go.TypedData.Sample.{mail_types}
use flux_sdk_go.TypedData.Depend.{
  base_name, add_missing, add_fields, add_type, dependencies, encode_type, ordered, sort_strings,
  insert_string, write_types, write_type, write_fields, drop_last,
}
use flux_sdk_go.TypedData.Depend.Reach.{Needs, itself}
use flux_sdk_go.TypedData.Depend.Fuel.{dependencies_lem}
use flux_sdk_go.TypedData.Depend.Sorted.{IsSorted}
use flux_sdk_go.TypedData.Depend.Render.{
  HaveFields, NoneEmpty-HaveFields, encode_type_lem, texts, write_type_lem,
}

abbrev mail_deps : List Bytes
mail_deps = codes "Mail" ∷ codes "Person" ∷ []

finds_mail_deps : dependencies 4 mail_types (codes "Mail") [] ≡ some mail_deps
unfolding dependencies add_type add_fields add_missing base_name lookup_type cut_suffix
finds_mail_deps = refl

dependencies_lem_example :
    (deps : List Bytes) × (dependencies 4 mail_types (codes "Mail") [] ≡ some deps)
    × ((x : Bytes) → IsIn x deps ↔ Needs mail_types (base_name (codes "Mail")) x)
    × Distinct deps
dependencies_lem_example = dependencies_lem mail_types (codes "Mail")

mail_base : base_name (codes "Mail") ≡ codes "Mail"
unfolding base_name cut_suffix
mail_base = refl

mail-Needs : Needs mail_types (codes "Mail") (codes "Mail")
unfolding lookup_type
mail-Needs = itself refl

mail_fields : HaveFields mail_types (codes "Mail")
mail_fields =
    NoneEmpty-HaveFields mail_types (codes "Mail")
      ((_, _, refl), ((_, _, refl), ((_, _, refl), tt)))

encode_type_lem_example :
    (rest : List Bytes) × (encode_type mail_types (codes "Mail")
      ≡ some (texts mail_types (codes "Mail" ∷ rest)))
    × IsSorted rest
    × Distinct (codes "Mail" ∷ rest)
    × ((x : Bytes) → IsIn x (codes "Mail" ∷ rest) ↔ Needs mail_types (codes "Mail") x)
encode_type_lem_example = encode_type_lem mail_types (codes "Mail") mail_base mail_fields mail-Needs

writes_mail :
    encode_type mail_types (codes "Mail")
    ≡ some (codes "Mail(Person from,Person[] to,uint8 size)Person(address wallet)")
unfolding encode_type dependencies add_type add_fields add_missing base_name lookup_type cut_suffix
    ordered sort_strings insert_string write_types write_type write_fields drop_last
writes_mail = refl

-- A type without fields.
abbrev empty_types : Types
empty_types = (codes "Empty", []) ∷ []

loses_bracket : write_type empty_types (codes "Empty") ≡ codes "Empty)"
unfolding lookup_type
loses_bracket = (write_type_lem empty_types (codes "Empty")).1 refl
