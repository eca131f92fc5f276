-- ===== src/Ante/Wrap/Names/References.antt =====
-- The names of struct types as references of a type table, alone and as the elements of an array.
use flux_sdk_go.Common.{
  ◌≡◌, refl, sym, ap, ◌∙◌, ◌≢◌, inl, inr, Bool, true, false, none, some, [], ◌∷◌, ◌++◌, Bytes,
  codes, bytes_eq, bytes_eq_iff, length, length-append, cut_suffix, cut_suffix-eq-some, Bool-cases,
  Option-cases, arith,
}
use flux_sdk_go.TypedData.Validate.{
  all_word, matches_reference, is_reference_type, type_name, brackets,
}
use flux_sdk_go.Ante.Wrap.Names.Laws.{IsWord}

-- A suffix that was put on is found.
cut_suffix-append : (s r : Bytes) → cut_suffix s (r ++ s) ≡ some r
unfolding cut_suffix
cut_suffix-append [] [] = refl
cut_suffix-append (c ∷ s) [] = rw ((bytes_eq_iff (c ∷ s) (c ∷ s)).1 refl) refl
cut_suffix-append s (c ∷ r) = elim (Bool-cases (bytes_eq s (c ∷ (r ++ s)))) [
  | inl e ↦
      let same = ap length ((bytes_eq_iff s (c ∷ (r ++ s))).0 e) in
      absurd (omega (arith, same, length-append {0} r s))
  | inr e ↦ rw (e, cut_suffix-append s r) refl
]

-- A word does not end with brackets.
word-cut_suffix : (s : Bytes) → IsWord s → cut_suffix brackets s ≡ none
word-cut_suffix s h = elim (Option-cases (cut_suffix brackets s)) [
  | inl e ↦ e
  | inr (r, e) ↦ absurd (no_brackets r (ap all_word (sym (cut_suffix-eq-some brackets s r e)) ∙ h))
]
  where
    no_brackets : (r : Bytes) → all_word (r ++ brackets) ≢ true
    no_brackets [] = λ e. cc
    no_brackets (c ∷ r) = λ e. no_brackets r (ground arith)

abbrev pub bracketed : Bool → Bytes → Bytes
bracketed true s = s ++ codes "[]"
bracketed false s = s

-- A name that begins with `T` and goes on as a word, with or without brackets, is a reference to its type.
pub bracketed-reference :
    (upper_rune : Bytes → Bool) (is_array : Bool) (t name : Bytes)
    → IsWord t
    → (is_reference_type upper_rune (bracketed is_array (84 ∷ t)) ≡ true)
      × (matches_reference (bracketed is_array (84 ∷ t)) ≡ true)
      × (type_name (record { name = name; typ = bracketed is_array (84 ∷ t) }) ≡ 84 ∷ t)
unfolding is_reference_type matches_reference type_name
bracketed-reference upper_rune true t name h =
    (refl, rw (cut_suffix-append brackets t) h, rw (cut_suffix-append brackets (84 ∷ t)) refl)
bracketed-reference upper_rune false t name h =
    (refl, rw (word-cut_suffix t h) h, rw (word-cut_suffix (84 ∷ t) h) refl)
