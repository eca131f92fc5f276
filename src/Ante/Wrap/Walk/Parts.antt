-- ===== src/Ante/Wrap/Walk/Parts.antt =====
-- How the parts of the walk are put together: one field after another, and a struct below its field.
use flux_sdk_go.Common.{
  ℕ, suc, ◌≡◌, refl, sym, ◌≢◌, ◌⊎◌, inl, inr, Bool, true, false, ◌||◌, Option, none, some, List, [],
  Result, ◌>>=◌, Bytes, length, or_else, Bool-cases, ◌==◌, arith,
}
use mathlib.Core.Path.{subst}
use flux_sdk_go.TypedData.{TypeEntry, Types, lookup_type}
use flux_sdk_go.Ante.Wrap.Names.{sanitize_typedef}
use flux_sdk_go.Ante.Wrap.Walk.{
  Error, append_entry, type_key, child, field_entry, field_typedef, traverse, add_struct,
}
use flux_sdk_go.Ante.Wrap.Walk.Clean.{IsStructName}
use flux_sdk_go.Ante.Wrap.Walk.Keys.{msg_value, IsPath, type_key-child, type_key-ne-nil}
use flux_sdk_go.Ante.Wrap.Walk.Table.{Has, IsTypeOf-imp, append_entry-Has_self}
use flux_sdk_go.Ante.Wrap.Walk.Grown.{IsSound, Steps, append-Grown, struct-IsFieldOf}

-- A type that has fields is in the table.
Has-of_length :
    (types : Types) (key : Bytes) (n : ℕ)
    → (length (or_else (lookup_type types key) []) == suc n) ≡ true
    → Has types key
Has-of_length types key n e = λ p. none_left (lookup_type types key) p e
  where
    none_left : (o : Option (List TypeEntry)) → o ≡ none → (length (or_else o []) == suc n) ≢ true
    none_left none p = λ q. ground arith
    none_left (some fields) p = cc

module _ (upper_rune : Bytes → Bool) where
  -- The fields of a struct type that is not filled yet.
  pub traverse-Steps :
      (Known : Bytes → Type 0) (prefix : Bytes) (n : ℕ) (loop : Types → Result Error Types)
      (types : Types)
      → IsSound upper_rune Known types
      → Steps upper_rune Known (type_key msg_value prefix) true types (loop types)
      → Steps upper_rune Known
          (type_key msg_value prefix)
          true
          types
          (traverse msg_value prefix (suc n) loop types)
  traverse-Steps Known prefix n loop types h (types', e, g, m) =
      elim (Bool-cases
        (length (or_else (lookup_type types (type_key msg_value prefix)) []) == suc n)) [
          | inl full ↦ (
            types,
            rw full refl,
            record { sound = h; stays = λ x k. k },
            λ _. Has-of_length types (type_key msg_value prefix) n full,
          )
          | inr open_yet ↦ (types', rw open_yet e, g, m)
        ]

  -- A struct below its field: the type that was to come is there.
  pub add_struct-Steps :
      (Known : Bytes → Type 0) (prefix name : Bytes) (is_collection : Bool) (n : ℕ)
      (loop : Types → Result Error Types) (types : Types)
      → IsPath prefix
      → IsStructName name
      → ((Later : Bytes → Type 0) (t : Types)
          → IsSound upper_rune Later t
          → Steps upper_rune Later (type_key msg_value (child prefix name)) true t (loop t))
      → IsSound upper_rune Known types
      → Steps upper_rune Known
          (type_key msg_value prefix)
          true
          types
          (add_struct msg_value prefix name is_collection (suc n) loop types)
  add_struct-Steps Known prefix name is_collection n loop types path word below h =
      let key = type_key msg_value prefix in
      let made = sanitize_typedef (child prefix name) in
      let t = field_entry name (field_typedef is_collection (child prefix name)) in
      let types₁ = append_entry types key t in
      let own =
        struct-IsFieldOf upper_rune (λ x. Known x ⊎ (x ≡ made)) prefix name is_collection path word
          (inr refl) in
      let g₁ =
        append-Grown upper_rune (λ x. Known x ⊎ (x ≡ made)) types key t
          (type_key-ne-nil prefix path) own (widen made types h) in
      let (types₂, e, g₂, has) =
        traverse-Steps (λ x. Known x ⊎ (x ≡ made)) (child prefix name) n loop types₁ g₁.sound
          (below (λ x. Known x ⊎ (x ≡ made)) types₁ g₁.sound) in
      let has_made = subst (Has types₂) (type_key-child prefix name) (has refl) in
      (
        types₂,
        e,
        record {
          sound = settle made types₂ has_made g₂.sound;
          stays = λ x k. g₂.stays x (g₁.stays x k);
        },
        λ _. g₂.stays key (append_entry-Has_self types key t),
      )
    where
      widen :
          (made : Bytes) (types : Types)
          → IsSound upper_rune Known types
          → IsSound upper_rune (λ x. Known x ⊎ (x ≡ made)) types
      widen made types h =
          IsTypeOf-imp upper_rune {P = λ x. Known x ⊎ Has types x}
            {Q = λ x. (Known x ⊎ (x ≡ made)) ⊎ Has types x}
            (λ x d. elim d [ inl k ↦ inl (inl k) | inr m ↦ inr m ]) types h

      settle :
          (made : Bytes) (types : Types)
          → Has types made
          → IsSound upper_rune (λ x. Known x ⊎ (x ≡ made)) types
          → IsSound upper_rune Known types
      settle made types m h =
          IsTypeOf-imp upper_rune {P = λ x. (Known x ⊎ (x ≡ made)) ⊎ Has types x}
            {Q = λ x. Known x ⊎ Has types x}
            (λ x d. elim d [
              | inl (inl k) ↦ inl k
              | inl (inr e) ↦ inr (subst (Has types) (sym e) m)
              | inr k ↦ inr k
            ])
            types h

  -- One field, and then the others.
  pub bind-Steps :
      (Known : Bytes → Type 0) (key : Bytes) (a b : Bool) (types : Types)
      (first : Result Error Types) (rest : Types → Result Error Types)
      → Steps upper_rune Known key a types first
      → ((t : Types) → IsSound upper_rune Known t → Steps upper_rune Known key b t (rest t))
      → Steps upper_rune Known key (a || b) types (first >>= rest)
  bind-Steps Known key a b types first rest (types₁, e₁, g₁, m₁) next =
      let (types₂, e₂, g₂, m₂) = next types₁ g₁.sound in
      (
        types₂,
        rw e₁ e₂,
        record { sound = g₂.sound; stays = λ x k. g₂.stays x (g₁.stays x k) },
        kept a b m₁ m₂ (g₂.stays key),
      )
    where
      kept :
          {P Q : Type 0} (a b : Bool)
          → (a ≡ true → P)
          → (b ≡ true → Q)
          → (P → Q)
          → (a || b) ≡ true
          → Q
      kept true b f g h e = h (f refl)
      kept false b f g h e = g e
