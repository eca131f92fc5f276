-- ===== src/Ante/Wrap/Walk/Keys.antt =====
-- The keys and the types that the walk writes into a table: a struct type is named by its path, and a field of
-- it is of a basic type, or of the type of a longer path.
use mathlib.Core.List.{append_assoc}
use mathlib.Core.List.{head-eq_of_cons-eq}
use flux_sdk_go.Common.{
  ◌≤◌, ◌<◌, ◌≡◌, refl, sym, ap, ◌∙◌, ◌≢◌, ◌⊎◌, inl, inr, Bool, true, false, [], ◌∷◌, ◌++◌, Bytes,
  codes, bytes_eq, length, length-append, Bool-cases, arith,
}
use flux_sdk_go.TypedData.Validate.{is_primitive_type_valid, is_reference_type}
use flux_sdk_go.Ante.Wrap.{
  Kind, string, Typ, basic_type, text_type, other_type, interface_type, pointer_type, slice_type,
  struct_type, kind_name, typ_to_eth, with_brackets, pointed_name,
}
use flux_sdk_go.Ante.Wrap.Names.{
  sanitize_typedef, split_onto, write_parts, write_part, title_all, title_from,
}
use flux_sdk_go.Ante.Wrap.Names.Laws.{
  IsWord, IsWord-append, sanitize_typedef-child, sanitize_typedef-IsWord,
}
use flux_sdk_go.Ante.Wrap.Names.References.{bracketed}
use flux_sdk_go.Ante.Wrap.Walk.{type_key, type_def_prefix, child}
use flux_sdk_go.Ante.Wrap.Walk.Clean.{IsFlat}

-- The name of the message type.
abbrev pub msg_value : Bytes
msg_value = codes "MsgValue"

-- A prefix whose type is named `Type` and a word.
abbrev pub IsPath : Bytes → Type 0
IsPath prefix = (rest : Bytes) × (sanitize_typedef prefix ≡ codes "Type" ++ rest) × IsWord rest

pub type_def_prefix-IsPath : IsPath type_def_prefix
unfolding sanitize_typedef split_onto write_parts write_part title_all title_from
type_def_prefix-IsPath = ([], refl, refl)

pub child-IsPath : (prefix name : Bytes) → IsPath prefix → IsWord name → IsPath (child prefix name)
child-IsPath prefix name (rest, e, w) h = (
  rest ++ sanitize_typedef name,
  sanitize_typedef-child prefix name
      ∙ ap (λ s. s ++ sanitize_typedef name) e
      ∙ append_assoc (codes "Type") rest (sanitize_typedef name),
  IsWord-append rest (sanitize_typedef name) w (sanitize_typedef-IsWord name h),
)

-- The fields of a message go to its own type, and those below it to the type of their path.
pub type_key-cases :
    (prefix : Bytes)
    → (type_key msg_value prefix ≡ msg_value)
      ⊎ (type_key msg_value prefix ≡ sanitize_typedef prefix)
unfolding type_key
type_key-cases prefix = elim (Bool-cases (bytes_eq prefix type_def_prefix)) [
  | inl e ↦ rw e (inl refl)
  | inr e ↦ rw e (inr refl)
]

pub type_key-child :
    (prefix name : Bytes)
    → type_key msg_value (child prefix name) ≡ sanitize_typedef (child prefix name)
unfolding type_key
type_key-child prefix name = rw (apart prefix) refl
  where
    apart : (prefix : Bytes) → bytes_eq (child prefix name) type_def_prefix ≡ false
    apart [] = refl
    apart (c ∷ []) = ground arith
    apart (c ∷ d ∷ s) = ground arith

-- A name that begins with a small letter.
abbrev pub StartsLow : Bytes → Type 0
StartsLow [] = ⊥
StartsLow (c ∷ s) = 97 ≤ c

pub type_key-ne-nil : (prefix : Bytes) → IsPath prefix → type_key msg_value prefix ≢ []
type_key-ne-nil prefix (rest, e, w) = λ p. elim (type_key-cases prefix) [ inl k ↦ cc | inr k ↦ cc ]

pub type_key-ne-low :
    (prefix name : Bytes) → IsPath prefix → StartsLow name → type_key msg_value prefix ≢ name
type_key-ne-low prefix [] p h = absurd h
type_key-ne-low prefix (c ∷ s) (rest, e, w) h = λ p. elim (type_key-cases prefix) [
  | inl k ↦ ground arith
  | inr k ↦ let same = sym e ∙ (sym k ∙ p) in ground arith
]

bracketed-longer :
    (is_array : Bool) (s x : Bytes) → x ≢ [] → length s < length (bracketed is_array (s ++ x))
bracketed-longer is_array s [] h = absurd (h refl)
bracketed-longer true s (c ∷ x) h =
    omega (arith, length-append {0} s (c ∷ x), length-append {0} (s ++ (c ∷ x)) (codes "[]"))
bracketed-longer false s (c ∷ x) h = omega (arith, length-append {0} s (c ∷ x))

-- No type has a field of itself.
pub type_key-ne-child :
    (prefix name : Bytes) (is_array : Bool)
    → IsPath prefix
    → sanitize_typedef name ≢ []
    → type_key msg_value prefix ≢ bracketed is_array (sanitize_typedef (child prefix name))
type_key-ne-child prefix name is_array (rest, e, w) h = λ p. elim (type_key-cases prefix) [
  | inl k ↦ begins is_array (sym k ∙ (p ∙ ap (bracketed is_array) spelled))
  | inr k ↦
      let longer = bracketed-longer is_array (sanitize_typedef prefix) (sanitize_typedef name) h in
      let same =
        ap length (sym k ∙ (p ∙ ap (bracketed is_array) (sanitize_typedef-child prefix name))) in
      absurd (omega (arith, longer, same))
]
  where
    spelled : sanitize_typedef (child prefix name) ≡ codes "Type" ++ (rest ++ sanitize_typedef name)
    spelled =
        sanitize_typedef-child prefix name
        ∙ (ap (λ s. s ++ sanitize_typedef name) e
            ∙ append_assoc (codes "Type") rest (sanitize_typedef name))

    begins :
        (is_array : Bool)
        → msg_value ≢ bracketed is_array (codes "Type" ++ (rest ++ sanitize_typedef name))
    begins true = λ p. absurd (omega (arith, head-eq_of_cons-eq p))
    begins false = λ p. absurd (omega (arith, head-eq_of_cons-eq p))

-- A name that a field of a basic type may have.
abbrev pub IsBasicName : (Bytes → Bool) → Bytes → Type 0
IsBasicName upper_rune n =
    StartsLow n × (is_primitive_type_valid n ≡ true) × (is_reference_type upper_rune n ≡ false)

pub kind_name-IsBasicName :
    (upper_rune : Bytes → Bool) (k : Kind) → IsBasicName upper_rune (kind_name k)
unfolding is_primitive_type_valid is_reference_type
kind_name-IsBasicName upper_rune string = (omega arith, refl, refl)
kind_name-IsBasicName upper_rune _ = (omega arith, refl, refl)

kind-slice :
    (upper_rune : Bytes → Bool) (k : Kind) → IsBasicName upper_rune (with_brackets (kind_name k))
unfolding is_primitive_type_valid is_reference_type
kind-slice upper_rune string = (omega arith, refl, refl)
kind-slice upper_rune _ = (omega arith, refl, refl)

pointed-slice :
    (upper_rune : Bytes → Bool) (t : Typ)
    → (with_brackets (pointed_name t) ≡ [])
      ⊎ IsBasicName upper_rune (with_brackets (pointed_name t))
pointed-slice upper_rune text_type = inr (kind-slice upper_rune string)
pointed-slice upper_rune _ = inl refl

-- A slice in a slice has a name if its elements have one.
pub slice-IsBasicName :
    (upper_rune : Bytes → Bool) (t : Typ)
    → IsFlat t
    → (typ_to_eth (slice_type t) ≡ []) ⊎ IsBasicName upper_rune (typ_to_eth (slice_type t))
unfolding typ_to_eth
slice-IsBasicName upper_rune (basic_type k) h = inr (kind-slice upper_rune k)
slice-IsBasicName upper_rune text_type h = inr (kind-slice upper_rune string)
slice-IsBasicName upper_rune other_type h = inl refl
slice-IsBasicName upper_rune interface_type h = inl refl
slice-IsBasicName upper_rune (pointer_type t) h = pointed-slice upper_rune t
slice-IsBasicName upper_rune (slice_type t) h = absurd h
slice-IsBasicName upper_rune (struct_type fs) h = inl refl
