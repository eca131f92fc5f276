-- ===== src/TypedData/Depend/Sound.antt =====
-- What Dependencies answers: the struct types that the primary type needs, each once.
use flux_sdk_go.Common.{
  ℕ, zero, suc, ◌≡◌, refl, sym, ◌↔◌, ◌⊎◌, inl, inr, false, Option, some, List, [], ◌∷◌, ◌++◌, map,
  Bytes, IsIn, IsIn-append, IsIn-left, IsIn-right, Distinct, Distinct-append, bytes_mem,
  bytes_mem_iff, and_then-eq-some, Bool-cases, Option-cases, arith,
}
use mathlib.Core.Path.{subst}
use flux_sdk_go.TypedData.{TypeEntry, Types, lookup_type}
use flux_sdk_go.TypedData.Depend.{base_name, add_missing, add_fields, add_type, dependencies}
use flux_sdk_go.TypedData.Depend.Reach.{
  Needs, itself, by_field, field_base, IsStruct, Needs-IsStruct, IsClosed, Explores, Explores-nil,
  Explores-cons, Explores-same,
}

apart : (x : Bytes) (xs : List Bytes) → bytes_mem x xs ≡ false → ¬ IsIn x xs
apart x xs e m = let yes_mem = (bytes_mem_iff x xs).1 m in cc

-- A member of one of the two lists is a member of the joined one, and nothing else is.
pub add_missing-IsIn :
    (ds found : List Bytes) (x : Bytes) → IsIn x (add_missing ds found) ↔ (IsIn x ds ⊎ IsIn x found)
unfolding add_missing
add_missing-IsIn [] found x =
    (λ m. inr m, λ m. elim m [ inl none_left ↦ absurd none_left | inr m ↦ m ])
add_missing-IsIn (d ∷ ds) found x = elim (Bool-cases (bytes_mem d found)) [
  | inl known ↦
      let later = add_missing-IsIn ds found x in
      let here = (bytes_mem_iff d found).0 known in
      rw known (
        λ m. elim (later.0 m) [ inl n ↦ inl (inr n) | inr n ↦ inr n ],
        λ m. elim m [
          | inl (inl e) ↦ later.1 (inr (subst (λ y. IsIn y found) e here))
          | inl (inr n) ↦ later.1 (inl n)
          | inr n ↦ later.1 (inr n)
        ],
      )
  | inr new ↦
      let later = add_missing-IsIn ds (found ++ (d ∷ [])) x in
      rw new (
        λ m. elim (later.0 m) [
          | inl n ↦ inl (inr n)
          | inr n ↦ elim (IsIn-append x found (d ∷ []) n) [
            | inl before ↦ inr before
            | inr (inl e) ↦ inl (inl e)
            | inr (inr none_left) ↦ absurd none_left
          ]
        ],
        λ m. elim m [
          | inl (inl e) ↦ later.1 (inr (IsIn-right x found (d ∷ []) (inl e)))
          | inl (inr n) ↦ later.1 (inl n)
          | inr n ↦ later.1 (inr (IsIn-left x found (d ∷ []) n))
        ],
      )
]

add_missing-Distinct : (ds found : List Bytes) → Distinct found → Distinct (add_missing ds found)
unfolding add_missing
add_missing-Distinct [] found h = h
add_missing-Distinct (d ∷ ds) found h = elim (Bool-cases (bytes_mem d found)) [
  | inl known ↦ rw known (add_missing-Distinct ds found h)
  | inr new ↦
      rw new (
        add_missing-Distinct ds (found ++ (d ∷ [])) (Distinct-append found d h (apart d found new)))
]

module _ (types : Types) where
  -- A recursive call does what it is to do.
  abbrev pub Behaves : (Bytes → List Bytes → Option (List Bytes)) → Type 0
  Behaves deps =
      (p : Bytes) (found out : List Bytes)
      → deps p found ≡ some out
      → Explores types (base_name p ∷ []) found out × (Distinct found → Distinct out)

  add_fields-Explores :
      (deps : Bytes → List Bytes → Option (List Bytes)) (fields : List TypeEntry)
      (found out : List Bytes)
      → Behaves deps
      → add_fields deps fields found ≡ some out
      → Explores types (map field_base fields) found out × (Distinct found → Distinct out)
  unfolding add_fields
  add_fields-Explores deps [] found out h e =
      subst (λ out. Explores types [] found out × (Distinct found → Distinct out)) (ground arith)
        (Explores-nil types found, λ d. d)
  add_fields-Explores deps (t ∷ fields) found out h e =
      let (more, called, rest) = and_then-eq-some (deps t.typ found) _ e in
      let (first, _) = h t.typ found more called in
      let (later, distinct) = add_fields-Explores deps fields (add_missing more found) out h rest in
      let joined =
        Explores-same types {out' = add_missing more found}
          (λ x m. (add_missing-IsIn more found x).1 (inl m))
          (λ x m. elim ((add_missing-IsIn more found x).0 m) [ inl m ↦ m | inr m ↦ first.kept x m ])
          first in
      (Explores-cons types joined later, λ d. distinct (add_missing-Distinct more found d))

  map-member :
      (x : Bytes) (fields : List TypeEntry)
      → IsIn x (map field_base fields)
      → (t : TypeEntry) × IsIn t fields × (field_base t ≡ x)
  map-member x [] m = absurd m
  map-member x (t ∷ fields) (inl e) = (t, inl refl, e)
  map-member x (t ∷ fields) (inr m) = let (u, i, e) = map-member x fields m in (u, inr i, e)

  member-map :
      (t : TypeEntry) (fields : List TypeEntry)
      → IsIn t fields
      → IsIn (field_base t) (map field_base fields)
  member-map t [] m = absurd m
  member-map t (u ∷ fields) (inl e) = inl (subst (λ v. field_base u ≡ field_base v) e refl)
  member-map t (u ∷ fields) (inr m) = inr (member-map t fields m)

  -- A new type is found, and then its fields are visited.
  Explores-type :
      (name : Bytes) (fields : List TypeEntry) (found out : List Bytes)
      → lookup_type types name ≡ some fields
      → Explores types (map field_base fields) (found ++ (name ∷ [])) out
      → Explores types (name ∷ []) found out
  Explores-type name fields found out l e = record {
    kept = λ x m. e.kept x (IsIn-left x found (name ∷ []) m);
    reached = reached;
    rooted = rooted;
    closed = closed;
  }
    where
      here : IsIn name out
      here = e.kept name (IsIn-right name found (name ∷ []) (inl refl))

      start : (x : Bytes) → IsIn x (found ++ (name ∷ [])) → IsIn x found ⊎ (name ≡ x)
      start x m = elim (IsIn-append x found (name ∷ []) m) [
        | inl before ↦ inl before
        | inr (inl same) ↦ inr same
        | inr (inr none_left) ↦ absurd none_left
      ]

      reached :
          (x : Bytes)
          → IsIn x out
          → IsIn x found ⊎ ((r : Bytes) × IsIn r (name ∷ []) × Needs types r x)
      reached x m = elim (e.reached x m) [
        | inl before ↦ elim (start x before) [
          | inl first ↦ inl first
          | inr same ↦ inr (name, inl refl, subst (Needs types name) same (itself l))
        ]
        | inr (r, i, n) ↦
            let (t, j, same) = map-member r fields i in
            inr (name, inl refl, by_field t l j (subst (λ q. Needs types q x) (sym same) n))
      ]

      rooted : (r : Bytes) → IsIn r (name ∷ []) → IsStruct types r → IsIn r out
      rooted r (inl same) s = subst (λ q. IsIn q out) same here
      rooted r (inr none_left) s = absurd none_left

      closed : (x : Bytes) → IsIn x out → IsIn x found ⊎ IsClosed types out x
      closed x m = elim (e.closed x m) [
        | inr done ↦ inr done
        | inl before ↦ elim (start x before) [
          | inl first ↦ inl first
          | inr same ↦ inr (λ fields' t l' i s.
              let agree : fields ≡ fields' = ground (arith, l, l', same) in
              e.rooted (field_base t) (member-map t fields (subst (IsIn t) (sym agree) i)) s)
        ]
      ]

  -- Nothing to visit: the type is no struct, or it is found already.
  Explores-done :
      (name : Bytes) (found : List Bytes)
      → (IsStruct types name → IsIn name found)
      → Explores types (name ∷ []) found found
  Explores-done name found h = record {
    kept = λ x m. m;
    reached = λ x m. inl m;
    rooted = λ r m s. elim m [
      | inl same ↦ subst (λ q. IsIn q found) same (h (subst (IsStruct types) (sym same) s))
      | inr none_left ↦ absurd none_left
    ];
    closed = λ x m. inl m;
  }

  pub dependencies-Explores : (n : ℕ) → Behaves (dependencies n types)
  unfolding dependencies add_type
  dependencies-Explores zero p found out e = cc
  dependencies-Explores (suc n) p found out e =
      let name = base_name p in
      elim (Bool-cases (bytes_mem name found)) [
        | inl known ↦
            let same : found ≡ out = ground arith in
            subst (λ out. Explores types (name ∷ []) found out × (Distinct found → Distinct out))
              same (Explores-done name found (λ s. (bytes_mem_iff name found).0 known), λ d. d)
        | inr new ↦ elim (Option-cases (lookup_type types name)) [
          | inl missing ↦
              let same : found ≡ out = ground arith in
              subst (λ out. Explores types (name ∷ []) found out × (Distinct found → Distinct out))
                same (Explores-done name found (λ s. let l = s.1 in cc), λ d. d)
          | inr (fields, l) ↦
              let run : add_fields (dependencies n types) fields (found ++ (name ∷ [])) ≡ some out =
                ground arith in
              let (visited, distinct) =
                add_fields-Explores (dependencies n types) fields (found ++ (name ∷ [])) out
                  (dependencies-Explores n) run in
              (
                Explores-type name fields found out l visited,
                λ d. distinct (Distinct-append found name d (apart name found new)),
              )
        ]
      ]

  closed-Needs :
      (out : List Bytes) (x y : Bytes)
      → ((z : Bytes) → IsIn z out → IsClosed types out z)
      → IsIn x out
      → Needs types x y
      → IsIn y out
  closed-Needs out x y h m (itself l) = m
  closed-Needs out x y h m (by_field t l i n) =
      closed-Needs out (base_name t.typ) y h (h x m _ t l i (Needs-IsStruct types n)) n

  -- What is found with enough fuel, if it is enough.
  pub dependencies_iff :
      (n : ℕ) (primary : Bytes) (deps : List Bytes)
      → dependencies n types primary [] ≡ some deps
      → ((x : Bytes) → IsIn x deps ↔ Needs types (base_name primary) x) × Distinct deps
  dependencies_iff n primary deps e =
      let (run, distinct) = dependencies-Explores n primary [] deps e in
      (
        λ x. (
          λ m. elim (run.reached x m) [
            | inl none_found ↦ absurd none_found
            | inr (r, inl same, needs) ↦ subst (λ q. Needs types q x) (sym same) needs
            | inr (r, inr none_left, needs) ↦ absurd none_left
          ],
          λ needs.
              closed-Needs deps (base_name primary) x
                (λ z m. elim (run.closed z m) [
                  | inl none_found ↦ absurd none_found
                  | inr done ↦ done
                ])
                (run.rooted (base_name primary) (inl refl) (Needs-IsStruct types needs)) needs,
        ),
        distinct tt,
      )
