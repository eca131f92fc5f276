-- ===== src/TypedData/Depend/Render.antt =====
-- The text that EncodeType writes: each type as its name and its members, the primary type first.
use flux_sdk_go.Common.{
  ℕ, zero, suc, ◌≡◌, refl, sym, ap, ◌∙◌, ◌≢◌, ◌↔◌, inl, inr, Option, some, List, [], ◌∷◌, ◌++◌,
  Bytes, codes, IsIn, Distinct, bytes_mem, and_then-eq-some, Bool-cases, arith, length, or_else,
  All, bytes_eq,
}
use mathlib.Core.List.{append_assoc, append-nil}
use mathlib.Core.Path.{subst}
use flux_sdk_go.TypedData.{TypeEntry, Types, lookup_type}
use flux_sdk_go.TypedData.Depend.{
  base_name, add_missing, add_fields, add_type, dependencies, ordered, sort_strings, write_fields,
  drop_last, write_type, write_types, encode_type,
}
use flux_sdk_go.TypedData.Depend.Reach.{Needs, itself, by_field, IsStruct}
use flux_sdk_go.TypedData.Depend.Sound.{dependencies_iff}
use flux_sdk_go.TypedData.Depend.Fuel.{dependencies-answers}
use flux_sdk_go.TypedData.Depend.Sorted.{
  IsSorted, sort_strings-IsIn, sort_strings-IsSorted, sort_strings-Distinct,
}

-- The members `type name`, with a comma between two of them.
abbrev pub members : List TypeEntry → Bytes
members [] = []
members (t ∷ []) = t.typ ++ (codes " " ++ t.name)
members (t ∷ (u ∷ fields)) = t.typ ++ (codes " " ++ (t.name ++ (codes "," ++ members (u ∷ fields))))

-- `name(member,…)`
abbrev pub type_text : Bytes → List TypeEntry → Bytes
type_text name fields = name ++ (codes "(" ++ (members fields ++ codes ")"))

abbrev pub texts : Types → List Bytes → Bytes
texts types [] = []
texts types (x ∷ xs) = type_text x (or_else (lookup_type types x) []) ++ texts types xs

-- Dropping the last byte passes over what stands before a text that is not empty.
drop_last-append : (s t : Bytes) → t ≢ [] → drop_last (s ++ t) ≡ s ++ drop_last t
unfolding drop_last
drop_last-append [] t h = refl
drop_last-append (c ∷ []) [] h = absurd (h refl)
drop_last-append (c ∷ []) (d ∷ t) h = refl
drop_last-append (c ∷ d ∷ s) t h = ap (λ r. c ∷ r) (drop_last-append (d ∷ s) t h)

append-ne-nil : (s : Bytes) (c : ℕ) (t : Bytes) → s ++ (c ∷ t) ≢ []
append-ne-nil [] c t e = cc
append-ne-nil (d ∷ s) c t e = cc

write_fields-ne-nil : (t : TypeEntry) (fields : List TypeEntry) → write_fields (t ∷ fields) ≢ []
unfolding write_fields
write_fields-ne-nil t fields = append-ne-nil t.typ 32 (t.name ++ (codes "," ++ write_fields fields))

drop_last-write_fields :
    (t : TypeEntry) (fields : List TypeEntry)
    → drop_last (write_fields (t ∷ fields)) ≡ members (t ∷ fields)
unfolding write_fields drop_last
drop_last-write_fields t [] =
    drop_last-append t.typ (codes " " ++ (t.name ++ codes ",")) (λ e. cc)
    ∙ ap (λ r. t.typ ++ r)
        (drop_last-append (codes " ") (t.name ++ codes ",") (append-ne-nil t.name 44 [])
          ∙ ap (λ r. codes " " ++ r)
              (drop_last-append t.name (codes ",") (λ e. cc) ∙ append-nil t.name))
drop_last-write_fields t (u ∷ fields) =
    let more = write_fields-ne-nil u fields in
    drop_last-append t.typ (codes " " ++ (t.name ++ (codes "," ++ write_fields (u ∷ fields))))
      (λ e. cc)
    ∙ ap (λ r. t.typ ++ r)
        (drop_last-append (codes " ") (t.name ++ (codes "," ++ write_fields (u ∷ fields)))
            (append-ne-nil t.name 44 (write_fields (u ∷ fields)))
          ∙ ap (λ r. codes " " ++ r)
              (drop_last-append t.name (codes "," ++ write_fields (u ∷ fields)) (λ e. cc)
                ∙ ap (λ r. t.name ++ r)
                    (drop_last-append (codes ",") (write_fields (u ∷ fields)) more
                      ∙ ap (λ r. codes "," ++ r) (drop_last-write_fields u fields))))

-- A type that has fields is written as its name and its members; one without fields, and one that is
-- no struct, loses the opening bracket.
pub write_type_lem :
    (types : Types) (x : Bytes)
    → ((t : TypeEntry) (fields : List TypeEntry)
        → lookup_type types x ≡ some (t ∷ fields)
        → write_type types x ≡ type_text x (t ∷ fields))
      × (or_else (lookup_type types x) [] ≡ [] → write_type types x ≡ x ++ codes ")")
unfolding write_type write_fields drop_last
write_type_lem types x = (
  λ t fields l. rw l (
      ap (λ r. r ++ codes ")")
        (drop_last-append x (codes "(" ++ write_fields (t ∷ fields)) (λ e. cc)
          ∙ ap (λ r. x ++ r)
              (drop_last-append (codes "(") (write_fields (t ∷ fields))
                  (write_fields-ne-nil t fields)
                ∙ ap (λ r. codes "(" ++ r) (drop_last-write_fields t fields)))
      ∙ append_assoc x (codes "(" ++ members (t ∷ fields)) (codes ")")
      ∙ ap (λ r. x ++ r) (append_assoc (codes "(") (members (t ∷ fields)) (codes ")"))),
  λ e. rw e (ap (λ r. r ++ codes ")") (drop_last-append x (codes "(") (λ e. cc) ∙ append-nil x)),
)

-- What Dependencies finds stands behind what it has found before.
module _ (types : Types) where
  add_missing-prefix :
      (ds found : List Bytes) → (more : List Bytes) × (add_missing ds found ≡ found ++ more)
  unfolding add_missing
  add_missing-prefix [] found = ([], sym (append-nil found))
  add_missing-prefix (d ∷ ds) found = elim (Bool-cases (bytes_mem d found)) [
    | inl known ↦ rw known (add_missing-prefix ds found)
    | inr new ↦
        let (more, e) = add_missing-prefix ds (found ++ (d ∷ [])) in
        rw new (d ∷ more, e ∙ append_assoc found (d ∷ []) more)
  ]

  add_fields-prefix :
      (deps : Bytes → List Bytes → Option (List Bytes)) (fields : List TypeEntry)
      (found out : List Bytes)
      → add_fields deps fields found ≡ some out
      → (more : List Bytes) × (out ≡ found ++ more)
  unfolding add_fields
  add_fields-prefix deps [] found out e = ([], ground (arith, append-nil found))
  add_fields-prefix deps (t ∷ fields) found out e =
      let (added, _, rest) = and_then-eq-some (deps t.typ found) _ e in
      let (more, e₁) = add_fields-prefix deps fields (add_missing added found) out rest in
      let (new, e₂) = add_missing-prefix added found in
      (new ++ more, e₁ ∙ ap (λ r. r ++ more) e₂ ∙ append_assoc found new more)

  dependencies-head :
      (n : ℕ) (primary : Bytes) (fields : List TypeEntry) (deps : List Bytes)
      → lookup_type types (base_name primary) ≡ some fields
      → dependencies n types primary [] ≡ some deps
      → (rest : List Bytes) × (deps ≡ base_name primary ∷ rest)
  unfolding dependencies add_type
  dependencies-head zero primary fields deps l e = cc
  dependencies-head (suc n) primary fields deps l e =
      let run : add_fields (dependencies n types) fields (base_name primary ∷ []) ≡ some deps =
        ground arith in
      add_fields-prefix (dependencies n types) fields (base_name primary ∷ []) deps run

  write_types-texts :
      (xs : List Bytes)
      → ((x : Bytes)
          → IsIn x xs
          → (t : TypeEntry) × (fields : List TypeEntry) × (lookup_type types x ≡ some (t ∷ fields)))
      → write_types types xs ≡ texts types xs
  unfolding write_types
  write_types-texts [] h = refl
  write_types-texts (x ∷ xs) h =
      let (t, fields, l) = h x (inl refl) in
      let this = (write_type_lem types x).0 t fields l in
      let others = write_types-texts xs (λ y m. h y (inr m)) in rw (this, others, l) refl

-- Every struct type that `x` needs has a field.
abbrev pub HaveFields : Types → Bytes → Type 0
HaveFields types x =
    (y : Bytes)
    → Needs types x y
    → (t : TypeEntry) × (fields : List TypeEntry) × (lookup_type types y ≡ some (t ∷ fields))

-- EncodeType of a struct type whose name has no brackets, where every struct type that it needs has
-- fields: the text `name(member,…)` of the type itself, and then that of every other type that it
-- needs, each once, in the order of their names.
pub encode_type_lem :
    (types : Types) (primary : Bytes)
    → base_name primary ≡ primary
    → HaveFields types primary
    → Needs types primary primary
    → (rest : List Bytes) × (encode_type types primary ≡ some (texts types (primary ∷ rest)))
      × IsSorted rest
      × Distinct (primary ∷ rest)
      × ((x : Bytes) → IsIn x (primary ∷ rest) ↔ Needs types primary x)
unfolding encode_type ordered
encode_type_lem types primary base have root =
    let (deps, run) = dependencies-answers types primary in
    let (t, fields, l) = have primary root in
    let (rest, first) =
      dependencies-head types (suc (length types)) primary (t ∷ fields) deps
        (ap (lookup_type types) base ∙ l) run in
    let (found, distinct) = dependencies_iff types (suc (length types)) primary deps run in
    let same : deps ≡ primary ∷ rest = first ∙ ap (λ r. r ∷ rest) base in
    let distinct' : Distinct (primary ∷ rest) = subst Distinct same distinct in
    let sorted = sort_strings-IsIn rest in
    let to : (x : Bytes) → IsIn x (primary ∷ sort_strings rest) → IsIn x deps =
      λ x m. subst (IsIn x) (sym same) (elim m [ inl e ↦ inl e | inr n ↦ inr ((sorted x).0 n) ]) in
    let from : (x : Bytes) → IsIn x deps → IsIn x (primary ∷ sort_strings rest) =
      λ x m. elim (subst (IsIn x) same m) [ inl e ↦ inl e | inr n ↦ inr ((sorted x).1 n) ] in
    let needed : (x : Bytes) → IsIn x (primary ∷ sort_strings rest) ↔ Needs types primary x = λ x. (
      λ m. subst (λ b. Needs types b x) base ((found x).0 (to x m)),
      λ n. from x ((found x).1 (subst (λ b. Needs types b x) (sym base) n)),
    ) in
    (
      sort_strings rest,
      rw (run, same)
          (ap some (
            write_types-texts types (primary ∷ sort_strings rest)
              (λ x m. have x ((needed x).0 m)))),
      sort_strings-IsSorted rest,
      (λ m. distinct'.0 ((sorted primary).0 m), sort_strings-Distinct rest distinct'.1),
      needed,
    )

-- A table whose types all have fields.
abbrev pub NoneEmpty : Types → Type 0
NoneEmpty types = All (λ d. (t : TypeEntry) × (fields : List TypeEntry) × (d.1 ≡ t ∷ fields)) types

lookup_type-fields :
    (types : Types) (x : Bytes) (own : List TypeEntry)
    → NoneEmpty types
    → lookup_type types x ≡ some own
    → (t : TypeEntry) × (fields : List TypeEntry) × (own ≡ t ∷ fields)
unfolding lookup_type
lookup_type-fields [] x own h l = cc
lookup_type-fields ((k, _) ∷ types) x own h l = elim (Bool-cases (bytes_eq k x)) [
  | inl e ↦ let (t, fields, same) = h.0 in (t, fields, ground arith)
  | inr e ↦ lookup_type-fields types x own h.1 (ground arith)
]

pub NoneEmpty-HaveFields : (types : Types) (x : Bytes) → NoneEmpty types → HaveFields types x
NoneEmpty-HaveFields types x h y n =
    let (own, l) = second n in
    let (t, fields, same) = lookup_type-fields types y own h l in (t, fields, l ∙ ap some same)
  where
    second : {x y : Bytes} → Needs types x y → IsStruct types y
    second (itself l) = (_, l)
    second (by_field t l i n) = second n
