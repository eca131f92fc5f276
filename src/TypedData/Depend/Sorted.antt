-- ===== src/TypedData/Depend/Sorted.antt =====
-- sort.Strings, which EncodeType calls: its result is sorted and has the strings that it was given.
use flux_sdk_go.Common.{
  ◌≡◌, refl, sym, ◌↔◌, ◌⊎◌, inl, inr, true, false, List, [], ◌∷◌, Bytes, All, IsIn, Distinct,
  Bool-cases, arith,
}
use flux_sdk_go.TypedData.Depend.{bytes_lt, insert_string, sort_strings}

-- No string stands before one that is below it.
abbrev pub IsSorted : List Bytes → Type 0
IsSorted [] = Unit {0}
IsSorted (s ∷ ss) = All (λ t. bytes_lt t s ≡ false) ss × IsSorted ss

bytes_lt-asymmetric : (s t : Bytes) → bytes_lt s t ≡ true → bytes_lt t s ≡ false
unfolding bytes_lt
bytes_lt-asymmetric [] [] e = cc
bytes_lt-asymmetric [] (y ∷ t) e = refl
bytes_lt-asymmetric (x ∷ s) [] e = cc
bytes_lt-asymmetric (x ∷ s) (y ∷ t) e = ground (arith, bytes_lt-asymmetric s t)

bytes_lt-transitive :
    (s t u : Bytes) → bytes_lt t s ≡ false → bytes_lt u t ≡ false → bytes_lt u s ≡ false
unfolding bytes_lt
bytes_lt-transitive [] t [] e f = refl
bytes_lt-transitive [] t (z ∷ u) e f = refl
bytes_lt-transitive (x ∷ s) [] u e f = cc
bytes_lt-transitive (x ∷ s) (y ∷ t) [] e f = cc
bytes_lt-transitive (x ∷ s) (y ∷ t) (z ∷ u) e f = ground (arith, bytes_lt-transitive s t u)

insert_string-IsIn :
    (s : Bytes) (ts : List Bytes) (x : Bytes) → IsIn x (insert_string s ts) ↔ ((s ≡ x) ⊎ IsIn x ts)
unfolding insert_string
insert_string-IsIn s [] x = (λ m. m, λ m. m)
insert_string-IsIn s (t ∷ ts) x =
    let rest = insert_string-IsIn s ts x in
    elim (Bool-cases (bytes_lt t s)) [
      | inl below ↦ rw below (
        λ m. elim m [
          | inl e ↦ inr (inl e)
          | inr n ↦ elim (rest.0 n) [ inl e ↦ inl e | inr k ↦ inr (inr k) ]
        ],
        λ m. elim m [
          | inl e ↦ inr (rest.1 (inl e))
          | inr (inl e) ↦ inl e
          | inr (inr k) ↦ inr (rest.1 (inr k))
        ],
      )
      | inr no_more ↦ rw no_more (λ m. m, λ m. m)
    ]

pub sort_strings-IsIn : (ss : List Bytes) (x : Bytes) → IsIn x (sort_strings ss) ↔ IsIn x ss
unfolding sort_strings
sort_strings-IsIn [] x = (λ m. m, λ m. m)
sort_strings-IsIn (s ∷ ss) x =
    let placed = insert_string-IsIn s (sort_strings ss) x in
    let rest = sort_strings-IsIn ss x in
    (
      λ m. elim (placed.0 m) [ inl e ↦ inl e | inr n ↦ inr (rest.0 n) ],
      λ m. elim m [ inl e ↦ placed.1 (inl e) | inr n ↦ placed.1 (inr (rest.1 n)) ],
    )

All-from :
    (s t : Bytes) (ts : List Bytes)
    → bytes_lt t s ≡ false
    → All (λ u. bytes_lt u t ≡ false) ts
    → All (λ u. bytes_lt u s ≡ false) ts
All-from s t [] e h = tt
All-from s t (u ∷ ts) e h = (bytes_lt-transitive s t u e h.0, All-from s t ts e h.1)

All-insert_string :
    (s t : Bytes) (ts : List Bytes)
    → bytes_lt s t ≡ false
    → All (λ u. bytes_lt u t ≡ false) ts
    → All (λ u. bytes_lt u t ≡ false) (insert_string s ts)
unfolding insert_string
All-insert_string s t [] e h = (e, tt)
All-insert_string s t (u ∷ ts) e h = elim (Bool-cases (bytes_lt u s)) [
  | inl below ↦ rw below (h.0, All-insert_string s t ts e h.1)
  | inr n ↦ rw n (e, h)
]

insert_string-IsSorted : (s : Bytes) (ts : List Bytes) → IsSorted ts → IsSorted (insert_string s ts)
unfolding insert_string
insert_string-IsSorted s [] h = (tt, tt)
insert_string-IsSorted s (t ∷ ts) h = elim (Bool-cases (bytes_lt t s)) [
  | inl below ↦ rw below (
    All-insert_string s t ts (bytes_lt-asymmetric t s below) h.0,
    insert_string-IsSorted s ts h.1,
  )
  | inr n ↦ rw n ((n, All-from s t ts n h.0), h)
]

pub sort_strings-IsSorted : (ss : List Bytes) → IsSorted (sort_strings ss)
unfolding sort_strings
sort_strings-IsSorted [] = tt
sort_strings-IsSorted (s ∷ ss) =
    insert_string-IsSorted s (sort_strings ss) (sort_strings-IsSorted ss)

insert_string-Distinct :
    (s : Bytes) (ts : List Bytes) → Distinct ts → ¬ IsIn s ts → Distinct (insert_string s ts)
unfolding insert_string
insert_string-Distinct s [] d n = (λ m. m, tt)
insert_string-Distinct s (t ∷ ts) d n = elim (Bool-cases (bytes_lt t s)) [
  | inl below ↦ rw below (
    λ m. elim ((insert_string-IsIn s ts t).0 m) [ inl e ↦ n (inl (sym e)) | inr k ↦ d.0 k ],
    insert_string-Distinct s ts d.1 (λ m. n (inr m)),
  )
  | inr no_more ↦ rw no_more (n, d)
]

pub sort_strings-Distinct : (ss : List Bytes) → Distinct ss → Distinct (sort_strings ss)
unfolding sort_strings
sort_strings-Distinct [] d = tt
sort_strings-Distinct (s ∷ ss) d =
    insert_string-Distinct s (sort_strings ss) (sort_strings-Distinct ss d.1)
      (λ m. d.0 ((sort_strings-IsIn ss s).0 m))
