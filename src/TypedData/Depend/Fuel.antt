-- ===== src/TypedData/Depend/Fuel.antt =====
-- How often Dependencies can call itself: each call that goes on finds a struct type of the table.
use flux_sdk_go.Common.{
  ℕ, zero, suc, ◌≤◌, ◌<◌, ◌≡◌, refl, inl, inr, true, false, Option, some, List, [], ◌∷◌, ◌++◌,
  Bytes, bytes_eq, bytes_eq_iff, bytes_mem, bytes_mem_iff, IsIn, IsIn-left, IsIn-right, length,
  Distinct, ◌↔◌, Bool-cases, Option-cases, arith, if◌then◌else◌,
}
use flux_sdk_go.TypedData.{TypeEntry, Types, lookup_type}
use flux_sdk_go.TypedData.Depend.{
  base_name, add_missing, add_fields, add_type, dependencies, encode_type, write_types, ordered,
}
use flux_sdk_go.TypedData.Depend.Sound.{
  Behaves, dependencies-Explores, add_missing-IsIn, dependencies_iff,
}
use flux_sdk_go.TypedData.Depend.Reach.{Needs}

-- How many entries of the table are not found.
unfound : Types → List Bytes → ℕ
unfound [] found = 0
unfound ((k, _) ∷ types) found =
    let rest = unfound types found in if bytes_mem k found then rest else suc rest

unfound-le : (types : Types) (found : List Bytes) → unfound types found ≤ length types
unfolding unfound
unfound-le [] found = omega arith
unfound-le ((k, _) ∷ types) found = ground (arith, unfound-le types found)

bytes_mem-kept :
    (found out : List Bytes) (k : Bytes)
    → ((x : Bytes) → IsIn x found → IsIn x out)
    → bytes_mem k found ≡ true
    → bytes_mem k out ≡ true
bytes_mem-kept found out k h m = (bytes_mem_iff k out).1 (h k ((bytes_mem_iff k found).0 m))

-- The more is found, the less is not.
unfound-antitone :
    (types : Types) (found out : List Bytes)
    → ((x : Bytes) → IsIn x found → IsIn x out)
    → unfound types out ≤ unfound types found
unfolding unfound
unfound-antitone [] found out h = omega arith
unfound-antitone ((k, _) ∷ types) found out h =
    ground (arith, unfound-antitone types found out h, bytes_mem-kept found out k h)

unfound-lt :
    (types : Types) (found : List Bytes) (name : Bytes) (fields : List TypeEntry)
    → lookup_type types name ≡ some fields
    → bytes_mem name found ≡ false
    → unfound types (found ++ (name ∷ [])) < unfound types found
unfolding unfound lookup_type
unfound-lt [] found name fields l new = cc
unfound-lt ((k, _) ∷ types) found name fields l new =
    let more : (x : Bytes) → IsIn x found → IsIn x (found ++ (name ∷ [])) =
      λ x m. IsIn-left x found (name ∷ []) m in
    let others = unfound-antitone types found (found ++ (name ∷ [])) more in
    let kept = bytes_mem-kept found (found ++ (name ∷ [])) k more in
    let here =
      (bytes_mem_iff name (found ++ (name ∷ []))).1
        (IsIn-right name found (name ∷ []) (inl refl)) in
    elim (Bool-cases (bytes_eq k name)) [
      | inl e ↦
          let same = (bytes_eq_iff k name).0 e in rw same (rw (here, new) (omega (arith, others)))
      | inr e ↦
          let deeper = unfound-lt types found name fields (ground arith) new in
          ground (arith, deeper, kept)
    ]

module _ (types : Types) where
  abbrev Answers : ℕ → (Bytes → List Bytes → Option (List Bytes)) → Type 0
  Answers n deps =
      (p : Bytes) (found : List Bytes)
      → unfound types found < n
      → (out : List Bytes) × (deps p found ≡ some out)

  add_fields-Answers :
      (n : ℕ) (deps : Bytes → List Bytes → Option (List Bytes)) (fields : List TypeEntry)
      (found : List Bytes)
      → Behaves types deps
      → Answers n deps
      → unfound types found < n
      → (out : List Bytes) × (add_fields deps fields found ≡ some out)
  unfolding add_fields
  add_fields-Answers n deps [] found h a lt = (found, refl)
  add_fields-Answers n deps (t ∷ fields) found h a lt =
      let (more, called) = a t.typ found lt in
      let kept = λ (x : Bytes) (m : IsIn x found). (add_missing-IsIn more found x).1 (inr m) in
      let fewer = unfound-antitone types found (add_missing more found) kept in
      rw called
        (add_fields-Answers n deps fields (add_missing more found) h a (omega (arith, fewer)))

  dependencies-Answers : (n : ℕ) → Answers n (dependencies n types)
  unfolding dependencies add_type
  dependencies-Answers zero p found lt = absurd (omega arith)
  dependencies-Answers (suc n) p found lt =
      let name = base_name p in
      elim (Bool-cases (bytes_mem name found)) [
        | inl known ↦ (found, rw known refl)
        | inr new ↦ elim (Option-cases (lookup_type types name)) [
          | inl missing ↦ (found, rw (new, missing) refl)
          | inr (fields, l) ↦
              let fewer = unfound-lt types found name fields l new in
              let (out, e) =
                add_fields-Answers n (dependencies n types) fields (found ++ (name ∷ []))
                  (dependencies-Explores types n) (dependencies-Answers n) (omega (arith, fewer)) in
              (out, rw (new, l) e)
        ]
      ]

  -- With one more step than there are types, Dependencies always answers.
  pub dependencies-answers :
      (primary : Bytes)
      → (deps : List Bytes) × (dependencies (suc (length types)) types primary [] ≡ some deps)
  dependencies-answers primary =
      dependencies-Answers (suc (length types)) primary [] (omega (arith, unfound-le types []))

  -- Dependencies, from nothing found, always comes to an end: with one step more than the table has types, which is
  -- the fuel of EncodeType, it answers, and what it answers is exactly the struct types that the primary type needs,
  -- itself included, and each of them once.
  pub dependencies_lem :
      (primary : Bytes)
      → (deps : List Bytes) × (dependencies (suc (length types)) types primary [] ≡ some deps)
        × ((x : Bytes) → IsIn x deps ↔ Needs types (base_name primary) x)
        × Distinct deps
  dependencies_lem primary =
      let (deps, e) = dependencies-answers primary in
      let (exact, once) = dependencies_iff types (suc (length types)) primary deps e in
      (deps, e, exact, once)

  pub encode_type-some : (primary : Bytes) → (s : Bytes) × (encode_type types primary ≡ some s)
  unfolding encode_type
  encode_type-some primary =
      let (deps, e) = dependencies-answers primary in
      (write_types types (ordered primary deps), rw e refl)
