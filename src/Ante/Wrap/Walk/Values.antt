-- ===== src/Ante/Wrap/Walk/Values.antt =====
-- The walk through a clean message: it comes to an end, and what it writes is sound.
use flux_sdk_go.Common.{Bool, true, false, ok, Bytes, codes, Result}
use flux_sdk_go.TypedData.{Types}
use flux_sdk_go.Ante.Wrap.{
  string, Value, basic, text_struct, other, nil_interface, interface, pointer, nil_pointer, slice,
  struct, no_items, item, Fields, no_fields, field, nil_any, broken_any, any, size, kind_name,
}
use flux_sdk_go.Ante.Wrap.Names.{json_name_from_tag}
use flux_sdk_go.Ante.Wrap.Walk.{Error, type_key, child, add_basic, add_any, step, step_boxed, walk}
use flux_sdk_go.Ante.Wrap.Walk.Clean.{
  keeps, keeps_fields, IsStructName, IsClean, IsCleanBoxed, AreClean,
}
use flux_sdk_go.Ante.Wrap.Walk.Keys.{msg_value, IsPath, child-IsPath, kind_name-IsBasicName}
use flux_sdk_go.Ante.Wrap.Walk.Grown.{IsSound, Steps, skip-Steps, add_basic-Steps}
use flux_sdk_go.Ante.Wrap.Walk.Parts.{add_struct-Steps, bind-Steps}
use flux_sdk_go.Ante.Wrap.Walk.Laws.{
  keeps_fields-size, struct-Steps, slice-Steps, step_absent-Steps,
}

module _ (upper_rune : Bytes → Bool) where
  -- The struct of a cosmosAnyWrapper.
  add_any-Steps :
      (Known : Bytes → Type 0) (prefix name : Bytes) (kept : Bool)
      (value : Types → Result Error Types) (types : Types)
      → IsPath prefix
      → IsStructName name
      → ((Later : Bytes → Type 0) (t : Types)
          → IsSound upper_rune Later t
          → Steps upper_rune Later (type_key msg_value (child prefix name)) kept t (value t))
      → IsSound upper_rune Known types
      → Steps upper_rune Known
          (type_key msg_value prefix)
          true
          types
          (add_any msg_value prefix name value types)
  add_any-Steps Known prefix name kept value types path word of_value h =
      let path' = child-IsPath prefix name path word.0 in
      add_struct-Steps upper_rune Known prefix name false 1
        (λ t. value (add_basic msg_value (child prefix name) (codes "type") (codes "string") t))
        types path word
        (λ Later t s.
          bind-Steps upper_rune Later (type_key msg_value (child prefix name)) true kept t
            (ok (add_basic msg_value (child prefix name) (codes "type") (codes "string") t)) value
            (add_basic-Steps upper_rune Later (child prefix name) (codes "type") (codes "string") t
              path' (λ p. cc) (kind_name-IsBasicName upper_rune string) s)
            (λ t' s'. of_value Later t' s'))
        h

  mutual
    unfolding step IsClean keeps

    step-Steps :
        (Known : Bytes → Type 0) (prefix name : Bytes) (is_collection : Bool) (v : Value)
        (types : Types)
        → IsPath prefix
        → IsClean is_collection name v
        → IsSound upper_rune Known types
        → Steps upper_rune Known
            (type_key msg_value prefix)
            (keeps is_collection v)
            types
            (step msg_value prefix name is_collection v types)
    step-Steps Known prefix name is_collection (basic k) types path c h =
        add_basic-Steps upper_rune Known prefix name (kind_name k) types path c
          (kind_name-IsBasicName upper_rune k) h
    step-Steps Known prefix name is_collection text_struct types path c h =
        add_basic-Steps upper_rune Known prefix name (codes "string") types path c
          (kind_name-IsBasicName upper_rune string) h
    step-Steps Known prefix name is_collection other types path c h =
        skip-Steps upper_rune Known (type_key msg_value prefix) types h
    step-Steps Known prefix name is_collection nil_interface types path c h = absurd c
    step-Steps Known prefix name is_collection (interface v) types path c h =
        step_boxed-Steps Known prefix name is_collection v types path c h
    step-Steps Known prefix name is_collection (pointer v) types path c h =
        step-Steps Known prefix name is_collection v types path c h
    step-Steps Known prefix name is_collection (nil_pointer t) types path c h =
        step_absent-Steps upper_rune Known prefix name is_collection t types path c h
    step-Steps Known prefix name true (slice t vs) types path c h =
        slice-Steps upper_rune Known prefix name t types path c.0 c.1 h
    step-Steps Known prefix name false (slice t no_items) types path c h =
        skip-Steps upper_rune Known (type_key msg_value prefix) types h
    step-Steps Known prefix name false (slice t (item v vs)) types path c h =
        step-Steps Known prefix name true v types path c h
    step-Steps Known prefix name is_collection (struct fs) types path c h =
        let (n, counted) = keeps_fields-size fs c.1.1 in
        struct-Steps upper_rune Known prefix name is_collection (size fs) n (keeps_fields fs)
          (walk msg_value (child prefix name) fs) types counted c.1.1 path c.0
          (λ Later t s.
            walk-Steps_at Later (child prefix name) fs t (child-IsPath prefix name path c.0.0) c.1.0
              s)
          h

    step_boxed-Steps :
        (Known : Bytes → Type 0) (prefix name : Bytes) (is_collection : Bool) (v : Value)
        (types : Types)
        → IsPath prefix
        → IsCleanBoxed is_collection name v
        → IsSound upper_rune Known types
        → Steps upper_rune Known
            (type_key msg_value prefix)
            (keeps is_collection v)
            types
            (step_boxed msg_value prefix name is_collection v types)
    step_boxed-Steps Known prefix name is_collection (basic k) types path c h =
        add_basic-Steps upper_rune Known prefix name (kind_name k) types path c
          (kind_name-IsBasicName upper_rune k) h
    step_boxed-Steps Known prefix name is_collection text_struct types path c h =
        add_basic-Steps upper_rune Known prefix name (codes "string") types path c
          (kind_name-IsBasicName upper_rune string) h
    step_boxed-Steps Known prefix name is_collection other types path c h =
        skip-Steps upper_rune Known (type_key msg_value prefix) types h
    step_boxed-Steps Known prefix name is_collection nil_interface types path c h = absurd c
    step_boxed-Steps Known prefix name is_collection (interface v) types path c h = absurd c
    step_boxed-Steps Known prefix name is_collection (pointer v) types path c h =
        step-Steps Known prefix name is_collection v types path c h
    step_boxed-Steps Known prefix name is_collection (nil_pointer t) types path c h =
        step_absent-Steps upper_rune Known prefix name is_collection t types path c h
    step_boxed-Steps Known prefix name true (slice t vs) types path c h =
        slice-Steps upper_rune Known prefix name t types path c.0 c.1 h
    step_boxed-Steps Known prefix name false (slice t vs) types path c h = absurd c
    step_boxed-Steps Known prefix name is_collection (struct fs) types path c h = absurd c

    walk-Steps_at :
        (Known : Bytes → Type 0) (prefix : Bytes) (fs : Fields) (types : Types)
        → IsPath prefix
        → AreClean fs
        → IsSound upper_rune Known types
        → Steps upper_rune Known
            (type_key msg_value prefix)
            (keeps_fields fs)
            types
            (walk msg_value prefix fs types)
    walk-Steps_at Known prefix no_fields types path c h =
        skip-Steps upper_rune Known (type_key msg_value prefix) types h
    walk-Steps_at Known prefix (field tag v fs) types path c h =
        bind-Steps upper_rune Known (type_key msg_value prefix) (keeps false v) (keeps_fields fs)
          types (step msg_value prefix (json_name_from_tag tag) false v types)
          (walk msg_value prefix fs)
          (step-Steps Known prefix (json_name_from_tag tag) false v types path c.0 h)
          (λ t' s. walk-Steps_at Known prefix fs t' path c.1 s)
    walk-Steps_at Known prefix (nil_any tag fs) types path c h = absurd c
    walk-Steps_at Known prefix (broken_any tag fs) types path c h = absurd c
    walk-Steps_at Known prefix (any tag v fs) types path c h =
        bind-Steps upper_rune Known (type_key msg_value prefix) true (keeps_fields fs) types
          (add_any msg_value prefix (json_name_from_tag tag)
            (step_boxed msg_value (child prefix (json_name_from_tag tag)) (codes "value") false v)
            types)
          (walk msg_value prefix fs)
          (add_any-Steps Known prefix (json_name_from_tag tag) (keeps false v)
            (step_boxed msg_value (child prefix (json_name_from_tag tag)) (codes "value") false v)
            types path c.0
            (λ Later t s.
              step_boxed-Steps Later (child prefix (json_name_from_tag tag)) (codes "value") false v
                t (child-IsPath prefix (json_name_from_tag tag) path c.0.0) c.1.0 s)
            h)
          (λ t' s. walk-Steps_at Known prefix fs t' path c.1.1 s)

  pub walk-Steps :
      (Known : Bytes → Type 0) (prefix : Bytes) (fs : Fields) (types : Types)
      → IsPath prefix
      → AreClean fs
      → IsSound upper_rune Known types
      → Steps upper_rune Known
          (type_key msg_value prefix)
          (keeps_fields fs)
          types
          (walk msg_value prefix fs types)
  walk-Steps Known prefix fs types path c h = walk-Steps_at Known prefix fs types path c h
