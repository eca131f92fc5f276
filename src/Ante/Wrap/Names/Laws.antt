-- ===== src/Ante/Wrap/Names/Laws.antt =====
-- The names that sanitizeTypedef makes: they follow the path, and are spelled as references of a type table.
use mathlib.Core.List.{append_assoc}
use flux_sdk_go.Common.{
  ℕ, ◌-◌, ◌≡◌, refl, sym, ap, ◌∙◌, inl, inr, Bool, true, not, ◌&&◌, List, [], ◌∷◌, ◌++◌, Bytes,
  codes, bytes_eq, ◌==◌, All, Bool-cases, if◌then◌else◌, arith,
}
use flux_sdk_go.TypedData.Validate.{is_word, all_word}
use flux_sdk_go.Ante.Wrap.Names.{
  split_onto, is_lower, is_in_word, title_from, title_all, write_part, write_parts,
  sanitize_typedef,
}

-- A separator parts what stands before it from what stands behind it.
split_onto-append :
    (sep : ℕ) (part s t : Bytes)
    → split_onto sep part (s ++ (sep ∷ t)) ≡ split_onto sep part s ++ split_onto sep [] t
unfolding split_onto
split_onto-append sep part [] t = ground arith
split_onto-append sep part (c ∷ s) t = elim (Bool-cases (c == sep)) [
  | inl e ↦ rw e (ap (λ r. part ∷ r) (split_onto-append sep [] s t))
  | inr e ↦ rw e (split_onto-append sep (part ++ (c ∷ [])) s t)
]

write_parts-append :
    (xs ys : List Bytes) → write_parts (xs ++ ys) ≡ write_parts xs ++ write_parts ys
unfolding write_parts
write_parts-append [] ys = refl
write_parts-append (x ∷ xs) ys =
    ap (λ r. write_part x ++ r) (write_parts-append xs ys)
    ∙ sym (append_assoc (write_part x) (write_parts xs) (write_parts ys))

-- The name of a path is the name of what it begins with, and that of its last step.
pub sanitize_typedef-child :
    (prefix name : Bytes)
    → sanitize_typedef (prefix ++ (46 ∷ name)) ≡ sanitize_typedef prefix ++ sanitize_typedef name
unfolding sanitize_typedef
sanitize_typedef-child prefix name =
    ap write_parts (split_onto-append 46 [] prefix name)
    ∙ write_parts-append (split_onto 46 [] prefix) (split_onto 46 [] name)

pub sanitize_typedef-nil : sanitize_typedef [] ≡ []
unfolding sanitize_typedef split_onto write_parts write_part title_all title_from
sanitize_typedef-nil = refl

abbrev pub IsWord : Bytes → Type 0
IsWord s = all_word s ≡ true

pub IsWord-append : (s t : Bytes) → IsWord s → IsWord t → IsWord (s ++ t)
IsWord-append [] t h k = k
IsWord-append (c ∷ s) t h k = ground (arith, IsWord-append s t)

split_onto-IsWord :
    (sep : ℕ) (part s : Bytes) → IsWord part → IsWord s → All IsWord (split_onto sep part s)
unfolding split_onto
split_onto-IsWord sep part [] h k = (h, tt)
split_onto-IsWord sep part (c ∷ s) h k =
    let tail : IsWord s = ground arith in
    let letter : is_word c ≡ true = ground arith in
    elim (Bool-cases (c == sep)) [
      | inl e ↦ rw e (h, split_onto-IsWord sep [] s refl tail)
      | inr e ↦ rw e (
          split_onto-IsWord sep (part ++ (c ∷ [])) s
            (IsWord-append part (c ∷ []) h (rw letter refl)) tail)
    ]

title_from-IsWord : (start : Bool) (s : Bytes) → IsWord s → IsWord (title_from start s)
unfolding title_from
title_from-IsWord start [] h = refl
title_from-IsWord start (c ∷ s) h =
    let tail : IsWord s = ground arith in
    let letter : is_word c ≡ true = ground arith in
    let rest = title_from-IsWord (not (is_in_word c)) s tail in
    let head : is_word (if start && is_lower c then c - 32 else c) ≡ true =
      title-is_word start c letter in
    rw (head, rest) refl
  where
    title-is_word :
        (start : Bool) (c : ℕ)
        → is_word c ≡ true
        → is_word (if start && is_lower c then c - 32 else c) ≡ true
    title-is_word start c h = ground arith

title_all-IsWord : (parts : List Bytes) → All IsWord parts → IsWord (title_all parts)
unfolding title_all
title_all-IsWord [] h = refl
title_all-IsWord (s ∷ rest) h =
    IsWord-append (title_from true s) (title_all rest) (title_from-IsWord true s h.0)
      (title_all-IsWord rest h.1)

write_part-IsWord : (part : Bytes) → IsWord part → IsWord (write_part part)
unfolding write_part
write_part-IsWord part h = elim (Bool-cases (bytes_eq part (codes "_"))) [
  | inl e ↦ rw e refl
  | inr e ↦ rw e (title_all-IsWord (split_onto 95 [] part) (split_onto-IsWord 95 [] part refl h))
]

write_parts-IsWord : (parts : List Bytes) → All IsWord parts → IsWord (write_parts parts)
unfolding write_parts
write_parts-IsWord [] h = refl
write_parts-IsWord (p ∷ rest) h =
    IsWord-append (write_part p) (write_parts rest) (write_part-IsWord p h.0)
      (write_parts-IsWord rest h.1)

pub sanitize_typedef-IsWord : (s : Bytes) → IsWord s → IsWord (sanitize_typedef s)
unfolding sanitize_typedef
sanitize_typedef-IsWord s h =
    write_parts-IsWord (split_onto 46 [] s) (split_onto-IsWord 46 [] s refl h)
