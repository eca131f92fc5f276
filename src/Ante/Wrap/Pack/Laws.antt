-- ===== src/Ante/Wrap/Pack/Laws.antt =====
-- The typed data of a transaction pass the checks of typed data.
use flux_sdk_go.Common.{
  ℕ, ◌≡◌, refl, ◌⊎◌, inl, inr, Bool, [], Result, ok, Bytes, codes, cut_suffix, All, length, or_else,
  Bool-cases, ◌==◌,
}
use flux_sdk_go.TypedData.{Types, lookup_type}
use flux_sdk_go.TypedData.Validate.{
  check_types, check_entries, check_entry, is_reference_type, type_name, matches_reference,
  is_primitive_type_valid,
}
use flux_sdk_go.TypedData.Validate.Laws.{check_types-IsSoundType}
use flux_sdk_go.Ante.Wrap.{
  Typ, pointer_type, struct_type, Value, pointer, nil_pointer, struct, num_field, size,
}
use flux_sdk_go.Ante.Wrap.Walk.{
  type_key, type_def_prefix, traverse, walk, walk_absent, walk_nil, walk_message, walk_fields,
}
use flux_sdk_go.Ante.Wrap.Walk
use flux_sdk_go.Ante.Wrap.Walk.Clean.{IsCleanNil, IsCleanMessage}
use flux_sdk_go.Ante.Wrap.Walk.Keys.{msg_value, type_def_prefix-IsPath}
use flux_sdk_go.Ante.Wrap.Walk.Table.{Has, IsTypeOf, IsTypeOf-imp}
use flux_sdk_go.Ante.Wrap.Walk.Grown.{IsSound, Grown, Steps}
use flux_sdk_go.Ante.Wrap.Walk.Laws.{walk_absent-Steps}
use flux_sdk_go.Ante.Wrap.Walk.Values.{walk-Steps}
use flux_sdk_go.Ante.Wrap.Pack.{root_types, extract_msg_types}

-- No type is still to come.
abbrev Nothing : Bytes → Type 0
Nothing x = ⊥

root_types-checked :
    (upper_rune : Bytes → Bool)
    → check_types upper_rune (root_types msg_value) (root_types msg_value) ≡ ok tt
unfolding check_types check_entries check_entry is_reference_type type_name matches_reference
    is_primitive_type_valid lookup_type cut_suffix
root_types-checked upper_rune = refl

root_types-Has_coin : Has (root_types msg_value) (codes "Coin")
unfolding lookup_type
root_types-Has_coin = λ p. cc

module _ (upper_rune : Bytes → Bool) where
  abbrev Walks : Types → Result Walk.Error Types → Type 0
  Walks types r = (types' : Types) × (r ≡ ok types') × Grown upper_rune Nothing types types'

  traverse-Walks :
      (n : ℕ) (kept : Bool) (loop : Types → Result Walk.Error Types) (types : Types)
      → IsSound upper_rune Nothing types
      → Steps upper_rune Nothing (type_key msg_value type_def_prefix) kept types (loop types)
      → Walks types (traverse msg_value type_def_prefix n loop types)
  traverse-Walks n kept loop types h (types', e, g, _) =
      elim (Bool-cases
        (length (or_else (lookup_type types (type_key msg_value type_def_prefix)) []) == n)) [
          | inl full ↦ (types, rw full refl, record { sound = h; stays = λ x k. k })
          | inr open_yet ↦ (types', rw open_yet e, g)
        ]

  walk_nil-Walks :
      (t : Typ) (types : Types)
      → IsCleanNil t
      → IsSound upper_rune Nothing types
      → Walks types (walk_nil msg_value t types)
  unfolding walk_nil IsCleanNil
  walk_nil-Walks (pointer_type t) types c h = walk_nil-Walks t types c h
  walk_nil-Walks (struct_type fs) types c h =
      traverse-Walks (num_field fs) _ (walk_absent msg_value type_def_prefix fs) types h
        (walk_absent-Steps upper_rune Nothing type_def_prefix fs types type_def_prefix-IsPath c h)
  walk_nil-Walks _ types c h = absurd c

  walk_message-Walks :
      (v : Value) (types : Types)
      → IsCleanMessage v
      → IsSound upper_rune Nothing types
      → Walks types (walk_message msg_value v types)
  unfolding walk_message IsCleanMessage
  walk_message-Walks (pointer v) types c h = walk_message-Walks v types c h
  walk_message-Walks (nil_pointer t) types c h = walk_nil-Walks t types c h
  walk_message-Walks (struct fs) types c h =
      traverse-Walks (size fs) _ (walk msg_value type_def_prefix fs) types h
        (walk-Steps upper_rune Nothing type_def_prefix fs types type_def_prefix-IsPath c h)
  walk_message-Walks _ types c h = absurd c

  -- The table that the walk begins with is sound.
  root_types-IsSound : IsSound upper_rune Nothing (root_types msg_value)
  root_types-IsSound =
      IsTypeOf-imp upper_rune {P = λ x. Has (root_types msg_value) x}
        {Q = λ x. ⊥ ⊎ Has (root_types msg_value) x} (λ x m. inr m) (root_types msg_value)
        ((check_types-IsSoundType upper_rune (root_types msg_value) (root_types msg_value)).0
          (root_types-checked upper_rune))

  pub extract_msg_types-IsSound :
      (message : Value)
      → IsCleanMessage message
      → (types : Types) × (extract_msg_types msg_value message ≡ ok types)
        × All (IsTypeOf upper_rune (Has types)) types
        × Has types (codes "Coin")
  unfolding extract_msg_types walk_fields
  extract_msg_types-IsSound message c =
      let (types, e, g) = walk_message-Walks message (root_types msg_value) c root_types-IsSound in
      (
        types,
        rw e refl,
        IsTypeOf-imp upper_rune {P = λ x. ⊥ ⊎ Has types x} {Q = Has types}
            (λ x d. elim d [ inl k ↦ absurd k | inr m ↦ m ]) types g.sound,
        g.stays (codes "Coin") root_types-Has_coin,
      )
