-- ===== src/TypedData/Depend/Reach.antt =====
-- The struct types that a type refers to, directly or through others, and what a part of the run of
-- Dependencies adds to the types that it has found.
use flux_sdk_go.Common.{◌≡◌, ◌⊎◌, inl, inr, some, List, [], ◌∷◌, Bytes, IsIn}
use flux_sdk_go.TypedData.{TypeEntry, Types, lookup_type}
use flux_sdk_go.TypedData.Depend.{base_name}

-- `x` is a struct type, and `y` is `x` or a type that a field of `x` needs.
pub data Needs (types : Types) : Bytes → Bytes → Type 0 where
  itself :
      {x : Bytes} {fields : List TypeEntry} → lookup_type types x ≡ some fields → Needs types x x
  by_field :
      {x y : Bytes} {fields : List TypeEntry} (t : TypeEntry)
      → lookup_type types x ≡ some fields
      → IsIn t fields
      → Needs types (base_name t.typ) y
      → Needs types x y

abbrev pub field_base : TypeEntry → Bytes
field_base t = base_name t.typ

module _ (types : Types) where
  abbrev pub IsStruct : Bytes → Type 0
  IsStruct x = (fields : List TypeEntry) × (lookup_type types x ≡ some fields)

  pub Needs-IsStruct : {x y : Bytes} → Needs types x y → IsStruct x
  Needs-IsStruct (itself {fields} l) = (fields, l)
  Needs-IsStruct (by_field {fields} t l i n) = (fields, l)

  -- The struct types of the fields of `x` are all in `out`.
  abbrev pub IsClosed : List Bytes → Bytes → Type 0
  IsClosed out x =
      (fields : List TypeEntry) (t : TypeEntry)
      → lookup_type types x ≡ some fields
      → IsIn t fields
      → IsStruct (field_base t)
      → IsIn (field_base t) out

  -- What a part of the run that visits `roots` makes of `found`.
  pub record Explores (roots found out : List Bytes) : Type 0 where
    pub kept : (x : Bytes) → IsIn x found → IsIn x out
    pub reached :
        (x : Bytes) → IsIn x out → IsIn x found ⊎ ((r : Bytes) × IsIn r roots × Needs types r x)
    pub rooted : (r : Bytes) → IsIn r roots → IsStruct r → IsIn r out
    pub closed : (x : Bytes) → IsIn x out → IsIn x found ⊎ IsClosed out x

  pub Explores-nil : (found : List Bytes) → Explores [] found found
  Explores-nil found = record {
    kept = λ x m. m;
    reached = λ x m. inl m;
    rooted = λ r m. absurd m;
    closed = λ x m. inl m;
  }

  -- One root after another.
  pub Explores-cons :
      {r : Bytes} {roots found mid out : List Bytes}
      → Explores (r ∷ []) found mid
      → Explores roots mid out
      → Explores (r ∷ roots) found out
  Explores-cons {r} {roots} {found} {mid} {out} e f = record {
    kept = λ x m. f.kept x (e.kept x m);
    reached = reached;
    rooted = rooted;
    closed = closed;
  }
    where
      reached :
          (x : Bytes)
          → IsIn x out
          → IsIn x found ⊎ ((q : Bytes) × IsIn q (r ∷ roots) × Needs types q x)
      reached x m = elim (f.reached x m) [
        | inr (q, there, n) ↦ inr (q, inr there, n)
        | inl before ↦ elim (e.reached x before) [
          | inl first ↦ inl first
          | inr (q, inl same, n) ↦ inr (q, inl same, n)
          | inr (q, inr none_left, n) ↦ absurd none_left
        ]
      ]

      rooted : (q : Bytes) → IsIn q (r ∷ roots) → IsStruct q → IsIn q out
      rooted q (inl same) s = f.kept q (e.rooted q (inl same) s)
      rooted q (inr there) s = f.rooted q there s

      closed : (x : Bytes) → IsIn x out → IsIn x found ⊎ IsClosed out x
      closed x m = elim (f.closed x m) [
        | inr done ↦ inr done
        | inl before ↦ elim (e.closed x before) [
          | inl first ↦ inl first
          | inr done ↦ inr (λ fields t l i s. f.kept (field_base t) (done fields t l i s))
        ]
      ]

  -- A result with the same members is as good.
  pub Explores-same :
      {roots found out out' : List Bytes}
      → ((x : Bytes) → IsIn x out → IsIn x out')
      → ((x : Bytes) → IsIn x out' → IsIn x out)
      → Explores roots found out
      → Explores roots found out'
  Explores-same to from e = record {
    kept = λ x m. to x (e.kept x m);
    reached = λ x m. e.reached x (from x m);
    rooted = λ r m s. to r (e.rooted r m s);
    closed = λ x m. elim (e.closed x (from x m)) [
      | inl first ↦ inl first
      | inr done ↦ inr (λ fields t l i s. to (field_base t) (done fields t l i s))
    ];
  }
