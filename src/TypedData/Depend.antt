-- ===== src/TypedData/Depend.antt =====
-- Dependencies and EncodeType of typed_data.go: the struct types that a type needs, and its text. The
-- recursion of Dependencies runs on fuel, none when it is used up.
pub mod Reach
pub mod Sound
pub mod Fuel
pub mod Sorted
pub mod Render
mod Tests
use flux_sdk_go.Common.{
  ℕ, zero, suc, Bool, true, false, Option, none, some, List, [], ◌∷◌, ◌++◌, Bytes, codes, bytes_mem,
  trim_suffix, and_then, length, if◌then◌else◌, ltb, ◌==◌, or_else,
}
use flux_sdk_go.TypedData.{TypeEntry, Types, lookup_type}
use flux_sdk_go.TypedData.Validate.{brackets}

-- `strings.TrimSuffix(primaryType, "[]")`
unfoldable pub base_name : Bytes → Bytes
base_name t = trim_suffix t brackets

-- `for dep in …: if !includes(found, dep) { found = append(found, dep) }`
unfoldable pub add_missing : List Bytes → List Bytes → List Bytes
add_missing [] found = found
add_missing (d ∷ ds) found = add_missing ds (if bytes_mem d found then found else found ++ (d ∷ []))

-- The loop over the fields of a type, `deps` being the recursive call.
unfoldable pub add_fields :
    (Bytes → List Bytes → Option (List Bytes)) → List TypeEntry → List Bytes → Option (List Bytes)
add_fields deps [] found = some found
add_fields deps (t ∷ fields) found =
    and_then (deps t.typ found) (λ more. add_fields deps fields (add_missing more found))

unfoldable pub add_type :
    (Bytes → List Bytes → Option (List Bytes))
    → Option (List TypeEntry)
    → Bytes
    → List Bytes
    → Option (List Bytes)
add_type deps none name found = some found
add_type deps (some fields) name found = add_fields deps fields (found ++ (name ∷ []))

-- `Dependencies(primaryType, found)`
unfoldable pub dependencies : ℕ → Types → Bytes → List Bytes → Option (List Bytes)
dependencies zero types primary found = none
dependencies (suc n) types primary found =
    let name = base_name primary in
    let rest = add_type (dependencies n types) (lookup_type types name) name found in
    if bytes_mem name found then some found else rest

-- Go's `<` on strings.
unfoldable pub bytes_lt : Bytes → Bytes → Bool
bytes_lt [] [] = false
bytes_lt [] (_ ∷ _) = true
bytes_lt (_ ∷ _) [] = false
bytes_lt (x ∷ xs) (y ∷ ys) = let rest = bytes_lt xs ys in if x == y then rest else ltb x y

-- `sort.Strings`
unfoldable pub insert_string : Bytes → List Bytes → List Bytes
insert_string s [] = s ∷ []
insert_string s (t ∷ ts) =
    let rest = insert_string s ts in if bytes_lt t s then t ∷ rest else s ∷ (t ∷ ts)

unfoldable pub sort_strings : List Bytes → List Bytes
sort_strings [] = []
sort_strings (s ∷ ss) = insert_string s (sort_strings ss)

-- The dependencies in the order in which EncodeType writes them.
unfoldable pub ordered : Bytes → List Bytes → List Bytes
ordered primary [] = []
ordered primary (_ ∷ deps) = primary ∷ sort_strings deps

-- Each field as it is written in the loop, its comma included.
unfoldable pub write_fields : List TypeEntry → Bytes
write_fields [] = []
write_fields (t ∷ fields) = t.typ ++ (codes " " ++ (t.name ++ (codes "," ++ write_fields fields)))

-- `buffer.Truncate(buffer.Len() - 1)`
unfoldable pub drop_last : Bytes → Bytes
drop_last [] = []
drop_last (c ∷ []) = []
drop_last (c ∷ d ∷ s) = c ∷ drop_last (d ∷ s)

unfoldable pub write_type : Types → Bytes → Bytes
write_type types dep =
    drop_last (dep ++ (codes "(" ++ write_fields (or_else (lookup_type types dep) []))) ++ codes ")"

unfoldable pub write_types : Types → List Bytes → Bytes
write_types types [] = []
write_types types (dep ∷ deps) = write_type types dep ++ write_types types deps

-- `EncodeType`; the fuel is one more than there are types.
unfoldable pub encode_type : Types → Bytes → Option Bytes
encode_type types primary =
    and_then (dependencies (suc (length types)) types primary [])
      (λ deps. some (write_types types (ordered primary deps)))
