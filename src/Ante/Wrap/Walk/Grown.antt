-- ===== src/Ante/Wrap/Walk/Grown.antt =====
-- What a part of the walk makes of a table: sound fields, and the type that it was to make.
use flux_sdk_go.Common.{
  ◌≡◌, refl, sym, ap, ◌∙◌, ◌≢◌, ◌⊎◌, inl, inr, Bool, true, false, [], ◌∷◌, ◌++◌, Result, ok, Bytes,
  codes, All,
}
use mathlib.Core.Path.{subst}
use flux_sdk_go.TypedData.{TypeEntry, Types}
use flux_sdk_go.TypedData.Validate.{all_word}
use flux_sdk_go.Ante.Wrap.Names.{sanitize_typedef}
use flux_sdk_go.Ante.Wrap.Names.Laws.{sanitize_typedef-nil}
use flux_sdk_go.Ante.Wrap.Names.References.{bracketed, bracketed-reference}
use flux_sdk_go.Ante.Wrap.Walk.{
  Error, append_entry, type_key, child, field_entry, field_typedef, add_basic,
}
use flux_sdk_go.Ante.Wrap.Walk.Clean.{IsStructName}
use flux_sdk_go.Ante.Wrap.Walk.Keys.{
  msg_value, IsPath, IsBasicName, child-IsPath, type_key-ne-nil, type_key-ne-low, type_key-ne-child,
}
use flux_sdk_go.Ante.Wrap.Walk.Table.{
  Has, IsTypeOf, IsFieldOf, IsFieldOf-imp, IsTypeOf-imp, append_entry-IsTypeOf, append_entry-Has,
  append_entry-Has_self,
}

module _ (upper_rune : Bytes → Bool) where
  -- A table whose fields are sound if the types that are `Known`, or that it has, are in the table.
  abbrev pub IsSound : (Bytes → Type 0) → Types → Type 0
  IsSound Known types = All (IsTypeOf upper_rune (λ x. Known x ⊎ Has types x)) types

  pub record Grown (Known : Bytes → Type 0) (types types' : Types) : Type 0 where
    pub sound : IsSound Known types'
    pub stays : (x : Bytes) → Has types x → Has types' x

  -- A part of the walk comes to an end, with the type `key` if it keeps a field.
  abbrev pub Steps : (Bytes → Type 0) → Bytes → Bool → Types → Result Error Types → Type 0
  Steps Known key kept types r =
      (types' : Types) × (r ≡ ok types') × Grown Known types types' × (kept ≡ true → Has types' key)

  pub sound-of :
      (Known : Bytes → Type 0) (types types' : Types)
      → ((x : Bytes) → Has types x → Has types' x)
      → IsSound Known types
      → All (IsTypeOf upper_rune (λ x. Known x ⊎ Has types' x)) types
  sound-of Known types types' f h =
      IsTypeOf-imp upper_rune {P = λ x. Known x ⊎ Has types x} {Q = λ x. Known x ⊎ Has types' x}
        (λ x d. elim d [ inl k ↦ inl k | inr m ↦ inr (f x m) ]) types h

  pub skip-Steps :
      (Known : Bytes → Type 0) (key : Bytes) (types : Types)
      → IsSound Known types
      → Steps Known key false types (ok types)
  skip-Steps Known key types h = (types, refl, record { sound = h; stays = λ x m. m }, λ e. cc)

  -- An entry whose type may be the next one to come.
  pub append-Grown :
      (Known : Bytes → Type 0) (types : Types) (key : Bytes) (t : TypeEntry)
      → key ≢ []
      → IsFieldOf upper_rune Known key t
      → IsSound Known types
      → Grown Known types (append_entry types key t)
  append-Grown Known types key t named own h =
      let stays = λ (x : Bytes) (m : Has types x). append_entry-Has types key t x m in
      record {
        sound =
            append_entry-IsTypeOf upper_rune (λ x. Known x ⊎ Has (append_entry types key t) x) types
              key t named
              (IsFieldOf-imp upper_rune {P = Known}
                {Q = λ x. Known x ⊎ Has (append_entry types key t) x} (λ x k. inl k) key t own)
              (sound-of Known types (append_entry types key t) stays h);
        stays = stays;
      }

  -- A field of a basic type.
  pub add_basic-Steps :
      (Known : Bytes → Type 0) (prefix name typ : Bytes) (types : Types)
      → IsPath prefix
      → name ≢ []
      → IsBasicName upper_rune typ
      → IsSound Known types
      → Steps Known
          (type_key msg_value prefix)
          true
          types
          (ok (add_basic msg_value prefix name typ types))
  unfolding add_basic
  add_basic-Steps Known prefix name [] types path named known h = absurd known.0
  add_basic-Steps Known prefix name (c ∷ s) types path named known h =
      let key = type_key msg_value prefix in
      let t = field_entry name (c ∷ s) in
      (
        append_entry types key t,
        refl,
        append-Grown Known types key t (type_key-ne-nil prefix path)
            (λ p. cc, named, type_key-ne-low prefix (c ∷ s) path known.0, inr (known.2, known.1)) h,
        λ e. append_entry-Has_self types key t,
      )

  typedef-is-bracketed :
      (is_collection : Bool) (prefix : Bytes)
      → field_typedef is_collection prefix ≡ bracketed is_collection (sanitize_typedef prefix)
  typedef-is-bracketed true prefix = refl
  typedef-is-bracketed false prefix = refl

  -- A field whose type is referred to.
  reference-IsFieldOf :
      (Known : Bytes → Type 0) (key name t x : Bytes) (is_array : Bool)
      → x ≡ 84 ∷ t
      → all_word t ≡ true
      → name ≢ []
      → key ≢ bracketed is_array x
      → Known x
      → IsFieldOf upper_rune Known key (field_entry name (bracketed is_array x))
  reference-IsFieldOf Known key name t x is_array e word named apart known =
      let (ref, matches, of_type) = bracketed-reference upper_rune is_array t name word in
      let known' = subst Known (e ∙ sym of_type) known in
      subst
        (λ y.
          key ≢ bracketed is_array y
          → IsFieldOf upper_rune Known key (field_entry name (bracketed is_array y)))
        (sym e) (λ apart'. (ne-nil is_array, named, apart', inl (ref, known', matches))) apart
    where
      ne-nil : (b : Bool) → bracketed b (84 ∷ t) ≢ []
      ne-nil true = λ p. cc
      ne-nil false = λ p. cc

  pub struct-IsFieldOf :
      (Known : Bytes → Type 0) (prefix name : Bytes) (is_collection : Bool)
      → IsPath prefix
      → IsStructName name
      → Known (sanitize_typedef (child prefix name))
      → IsFieldOf upper_rune Known
          (type_key msg_value prefix)
          (field_entry name (field_typedef is_collection (child prefix name)))
  struct-IsFieldOf Known prefix name is_collection path (word, made) known =
      let (rest, e, w) = child-IsPath prefix name path word in
      let apart = type_key-ne-child prefix name is_collection path made in
      rw (typedef-is-bracketed is_collection (child prefix name)) (
        reference-IsFieldOf Known (type_key msg_value prefix) name (codes "ype" ++ rest)
          (sanitize_typedef (child prefix name)) is_collection e (long_word rest w)
          (λ p. made (ap sanitize_typedef p ∙ empty_name)) apart known)
    where
      long_word : (s : Bytes) → all_word s ≡ true → all_word (codes "ype" ++ s) ≡ true
      long_word s h = rw h refl

      empty_name : sanitize_typedef [] ≡ []
      empty_name = sanitize_typedef-nil
