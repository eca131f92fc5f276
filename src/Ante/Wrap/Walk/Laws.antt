-- ===== src/Ante/Wrap/Walk/Laws.antt =====
-- The walk through the types below a nil pointer: it comes to an end, and what it writes is sound.
use flux_sdk_go.Common.{
  ℕ, suc, ◌≡◌, refl, sym, ◌≢◌, ◌⊎◌, inl, inr, Bool, true, false, not, [], ◌∷◌, Result, ok, Bytes,
  codes,
}
use mathlib.Core.Path.{subst}
use flux_sdk_go.TypedData.{Types}
use flux_sdk_go.Ante.Wrap.{
  string, Typ, basic_type, text_type, other_type, interface_type, pointer_type, slice_type,
  struct_type, TypFields, no_types, field_type, any_type, Fields, no_fields, field, nil_any,
  broken_any, any, num_field, size, kind_name, typ_to_eth,
}
use flux_sdk_go.Ante.Wrap.Names.{json_name_from_tag}
use flux_sdk_go.Ante.Wrap.Walk.{
  Error, type_key, child, add_basic, add_struct, step_absent, walk_absent,
}
use flux_sdk_go.Ante.Wrap.Walk.Clean.{
  is_empty, keeps_type, keeps_types, keeps_fields, IsStructName, IsFlat, IsCleanType, AreCleanTypes,
}
use flux_sdk_go.Ante.Wrap.Walk.Keys.{
  msg_value, IsPath, IsBasicName, child-IsPath, kind_name-IsBasicName, slice-IsBasicName,
}
use flux_sdk_go.Ante.Wrap.Walk.Grown.{IsSound, Steps, skip-Steps, add_basic-Steps}
use flux_sdk_go.Ante.Wrap.Walk.Parts.{add_struct-Steps, bind-Steps}

keeps_types-num_field : (fs : TypFields) → keeps_types fs ≡ true → (n : ℕ) × (num_field fs ≡ suc n)
unfolding keeps_types num_field
keeps_types-num_field no_types e = cc
keeps_types-num_field (field_type tag t fs) e = (num_field fs, refl)
keeps_types-num_field (any_type tag fs) e = cc

pub keeps_fields-size : (fs : Fields) → keeps_fields fs ≡ true → (n : ℕ) × (size fs ≡ suc n)
unfolding keeps_fields size
keeps_fields-size no_fields e = cc
keeps_fields-size (field tag v fs) e = (size fs, refl)
keeps_fields-size (nil_any tag fs) e = cc
keeps_fields-size (broken_any tag fs) e = cc
keeps_fields-size (any tag v fs) e = (size fs, refl)

module _ (upper_rune : Bytes → Bool) where
  -- The same walk with another count of the fields, which it is, and with a field for certain.
  pub struct-Steps :
      (Known : Bytes → Type 0) (prefix name : Bytes) (is_collection : Bool) (n m : ℕ) (kept : Bool)
      (loop : Types → Result Error Types) (types : Types)
      → n ≡ suc m
      → kept ≡ true
      → IsPath prefix
      → IsStructName name
      → ((Later : Bytes → Type 0) (t : Types)
          → IsSound upper_rune Later t
          → Steps upper_rune Later (type_key msg_value (child prefix name)) kept t (loop t))
      → IsSound upper_rune Known types
      → Steps upper_rune Known
          (type_key msg_value prefix)
          true
          types
          (add_struct msg_value prefix name is_collection n loop types)
  struct-Steps Known prefix name is_collection n m kept loop types e k path word below h =
      subst
        (λ (n : ℕ).
          Steps upper_rune Known (type_key msg_value prefix) true types
            (add_struct msg_value prefix name is_collection n loop types))
        (sym e)
        (add_struct-Steps upper_rune Known prefix name is_collection m loop types path word
          (λ Later t s.
            subst
              (λ (b : Bool).
                Steps upper_rune Later (type_key msg_value (child prefix name)) b t (loop t))
              k (below Later t s))
          h)

  -- A slice in a slice.
  pub slice-Steps :
      (Known : Bytes → Type 0) (prefix name : Bytes) (t : Typ) (types : Types)
      → IsPath prefix
      → name ≢ []
      → IsFlat t
      → IsSound upper_rune Known types
      → Steps upper_rune Known
          (type_key msg_value prefix)
          (not (is_empty (typ_to_eth (slice_type t))))
          types
          (ok (add_basic msg_value prefix name (typ_to_eth (slice_type t)) types))
  unfolding add_basic
  slice-Steps Known prefix name t types path named flat h =
      of_name (typ_to_eth (slice_type t)) (slice-IsBasicName upper_rune t flat)
    where
      of_name :
          (n : Bytes)
          → (n ≡ []) ⊎ IsBasicName upper_rune n
          → Steps upper_rune Known
              (type_key msg_value prefix)
              (not (is_empty n))
              types
              (ok (add_basic msg_value prefix name n types))
      of_name [] d = skip-Steps upper_rune Known (type_key msg_value prefix) types h
      of_name (c ∷ s) (inl e) = cc
      of_name (c ∷ s) (inr b) =
          add_basic-Steps upper_rune Known prefix name (c ∷ s) types path named b h

  mutual
    unfolding step_absent walk_absent IsCleanType AreCleanTypes keeps_type keeps_types

    pub step_absent-Steps :
        (Known : Bytes → Type 0) (prefix name : Bytes) (is_collection : Bool) (t : Typ)
        (types : Types)
        → IsPath prefix
        → IsCleanType is_collection name t
        → IsSound upper_rune Known types
        → Steps upper_rune Known
            (type_key msg_value prefix)
            (keeps_type t)
            types
            (step_absent msg_value prefix name is_collection t types)
    step_absent-Steps Known prefix name is_collection (basic_type k) types path c h =
        add_basic-Steps upper_rune Known prefix name (kind_name k) types path c
          (kind_name-IsBasicName upper_rune k) h
    step_absent-Steps Known prefix name is_collection text_type types path c h =
        add_basic-Steps upper_rune Known prefix name (codes "string") types path c
          (kind_name-IsBasicName upper_rune string) h
    step_absent-Steps Known prefix name is_collection other_type types path c h =
        skip-Steps upper_rune Known (type_key msg_value prefix) types h
    step_absent-Steps Known prefix name is_collection interface_type types path c h = absurd c
    step_absent-Steps Known prefix name is_collection (pointer_type t) types path c h =
        step_absent-Steps Known prefix name is_collection t types path c h
    step_absent-Steps Known prefix name true (slice_type t) types path c h =
        slice-Steps Known prefix name t types path c.0 c.1 h
    step_absent-Steps Known prefix name false (slice_type t) types path c h = absurd c
    step_absent-Steps Known prefix name is_collection (struct_type fs) types path c h =
        let (n, counted) = keeps_types-num_field fs c.1.1 in
        struct-Steps Known prefix name is_collection (num_field fs) n (keeps_types fs)
          (walk_absent msg_value (child prefix name) fs) types counted c.1.1 path c.0
          (λ Later t s.
            walk_absent-Steps Later (child prefix name) fs t (child-IsPath prefix name path c.0.0)
              c.1.0 s)
          h

    pub walk_absent-Steps :
        (Known : Bytes → Type 0) (prefix : Bytes) (fs : TypFields) (types : Types)
        → IsPath prefix
        → AreCleanTypes fs
        → IsSound upper_rune Known types
        → Steps upper_rune Known
            (type_key msg_value prefix)
            (keeps_types fs)
            types
            (walk_absent msg_value prefix fs types)
    walk_absent-Steps Known prefix no_types types path c h =
        skip-Steps upper_rune Known (type_key msg_value prefix) types h
    walk_absent-Steps Known prefix (field_type tag t fs) types path c h =
        bind-Steps upper_rune Known (type_key msg_value prefix) (keeps_type t) (keeps_types fs)
          types (step_absent msg_value prefix (json_name_from_tag tag) false t types)
          (walk_absent msg_value prefix fs)
          (step_absent-Steps Known prefix (json_name_from_tag tag) false t types path c.0 h)
          (λ t' s. walk_absent-Steps Known prefix fs t' path c.1 s)
    walk_absent-Steps Known prefix (any_type tag fs) types path c h = absurd c
