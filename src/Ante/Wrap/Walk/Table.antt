-- ===== src/Ante/Wrap/Walk/Table.antt =====
-- Tables of types that grow: what is in them stays, and a field may be of a type that is to come.
use flux_sdk_go.Common.{
  ◌≡◌, refl, sym, ◌≢◌, ◌⊎◌, inl, inr, Bool, true, false, none, List, [], ◌∷◌, Bytes, bytes_eq,
  bytes_eq_iff, All, All-imp, All-append, Bool-cases, arith,
}
use mathlib.Core.Path.{subst}
use flux_sdk_go.TypedData.{TypeEntry, Types, lookup_type}
use flux_sdk_go.TypedData.Validate.{
  type_name, matches_reference, is_primitive_type_valid, is_reference_type,
}
use flux_sdk_go.Ante.Wrap.Walk.{append_entry}

-- The table has the type.
abbrev pub Has : Types → Bytes → Type 0
Has types x = lookup_type types x ≢ none

module _ (upper_rune : Bytes → Bool) where
  -- A field of the type `key` that is sound if the types that are `Known` are in the table.
  abbrev pub IsFieldOf : (Bytes → Type 0) → Bytes → TypeEntry → Type 0
  IsFieldOf Known key t =
      (t.typ ≢ [])
      × (t.name ≢ [])
      × (key ≢ t.typ)
      × (((is_reference_type upper_rune t.typ ≡ true)
            × Known (type_name t)
            × (matches_reference t.typ ≡ true))
          ⊎ ((is_reference_type upper_rune t.typ ≡ false) × (is_primitive_type_valid t.typ ≡ true)))

  abbrev pub IsTypeOf : (Bytes → Type 0) → Bytes × List TypeEntry → Type 0
  IsTypeOf Known d = (d.0 ≢ []) × All (IsFieldOf Known d.0) d.1

  pub IsFieldOf-imp :
      {P Q : Bytes → Type 0}
      → ((x : Bytes) → P x → Q x)
      → (key : Bytes) (t : TypeEntry) → IsFieldOf P key t
      → IsFieldOf Q key t
  IsFieldOf-imp f key t (a, b, c, inl (r, k, m)) = (a, b, c, inl (r, f (type_name t) k, m))
  IsFieldOf-imp f key t (a, b, c, inr p) = (a, b, c, inr p)

  pub IsTypeOf-imp :
      {P Q : Bytes → Type 0}
      → ((x : Bytes) → P x → Q x)
      → (types : Types) → All (IsTypeOf P) types
      → All (IsTypeOf Q) types
  IsTypeOf-imp {P} {Q} f types h =
      All-imp (IsTypeOf P) (IsTypeOf Q) types
        (λ d s.
          (s.0, All-imp (IsFieldOf P d.0) (IsFieldOf Q d.0) d.1 (λ t. IsFieldOf-imp f d.0 t) s.1))
        h

  pub append_entry-IsTypeOf :
      (Known : Bytes → Type 0) (types : Types) (key : Bytes) (t : TypeEntry)
      → key ≢ []
      → IsFieldOf Known key t
      → All (IsTypeOf Known) types
      → All (IsTypeOf Known) (append_entry types key t)
  unfolding append_entry
  append_entry-IsTypeOf Known [] key t named own h = ((named, (own, tt)), tt)
  append_entry-IsTypeOf Known ((k, fields) ∷ types) key t named own h =
      elim (Bool-cases (bytes_eq k key)) [
        | inl e ↦
            let same = (bytes_eq_iff k key).0 e in
            let own' = subst (λ x. IsFieldOf Known x t) (sym same) own in
            rw e ((h.0.0, All-append (IsFieldOf Known k) fields (t ∷ []) h.0.1 (own', tt)), h.1)
        | inr e ↦ rw e (h.0, append_entry-IsTypeOf Known types key t named own h.1)
      ]

pub append_entry-Has :
    (types : Types) (key : Bytes) (t : TypeEntry) (x : Bytes)
    → Has types x
    → Has (append_entry types key t) x
unfolding append_entry lookup_type
append_entry-Has [] key t x h = absurd (h refl)
append_entry-Has ((k, fields) ∷ types) key t x h = elim (Bool-cases (bytes_eq k key)) [
  | inl e ↦ rw e (λ p. h (ground arith))
  | inr e ↦ elim (Bool-cases (bytes_eq k x)) [
    | inl f ↦ rw (e, f) (λ p. cc)
    | inr f ↦ rw (e, f) (append_entry-Has types key t x (rw f at h))
  ]
]

pub append_entry-Has_self :
    (types : Types) (key : Bytes) (t : TypeEntry) → Has (append_entry types key t) key
unfolding append_entry lookup_type
append_entry-Has_self [] key t = rw ((bytes_eq_iff key key).1 refl) (λ p. cc)
append_entry-Has_self ((k, fields) ∷ types) key t = elim (Bool-cases (bytes_eq k key)) [
  | inl e ↦ rw (e, e) (λ p. cc)
  | inr e ↦ rw (e, e) (append_entry-Has_self types key t)
]
