-- ===== src/TypedData.antt =====
-- chain/app/ante/typeddata/typed_data.go: EIP-712 typed data. This module holds its data; the children
-- hold the checks of the types, the dependencies and the text of a type, the encoding of primitive
-- values, and the encoding of structs. A text is its bytes. A Go map is the list of its entries in
-- the order in which `range` meets them. What go-ethereum answers is a parameter.
pub mod Validate
pub mod Depend
pub mod Primitive
pub mod Encode
pub mod Format
pub mod Sample
use flux_sdk_go.Common.{ℕ, Bool, Option, none, some, List, [], ◌∷◌, Bytes, bytes_eq, if◌then◌else◌}
use flux_sdk_go.Common.Int.{ℤ}

-- `Type`, a field of a struct type.
pub record TypeEntry : Type 0 where
  pub name : Bytes
  pub typ : Bytes

-- `Types`; a table in which a type maps to a nil slice is left out.
abbrev pub Types : Type 0
Types = List (Bytes × List TypeEntry)

-- A value of a message: what encoding/json makes, a HexOrDecimal256 and a byte slice. A float64 is the
-- integer that it converts to without loss, if there is one.
mutual
  pub data Value : Type 0 where
    null : Value
    boolean : Bool → Value
    float : Option ℤ → Value
    text : Bytes → Value
    big : ℤ → Value
    raw_bytes : Bytes → Value
    array : Items → Value
    object : Entries → Value

  pub data Items : Type 0 where
    no_items : Items
    item : Value → Items → Items

  pub data Entries : Type 0 where
    no_entries : Entries
    entry : Bytes → Value → Entries → Entries

pub record Domain : Type 0 where
  pub name : Bytes
  pub version : Bytes
  pub chain_id : Option ℤ
  pub verifying_contract : Bytes
  pub salt : Bytes

pub record TypedMessage : Type 0 where
  pub types : Types
  pub primary_type : Bytes
  pub domain : Domain
  pub message : Entries

-- `typedData.Types[key]`
unfoldable pub lookup_type : Types → Bytes → Option (List TypeEntry)
lookup_type [] key = none
lookup_type ((k, fields) ∷ types) key =
    let rest = lookup_type types key in if bytes_eq k key then some fields else rest

-- `data[name]`, nil for a name that is not there.
unfoldable pub lookup_value : Entries → Bytes → Value
lookup_value no_entries key = null
lookup_value (entry k v rest) key = let r = lookup_value rest key in if bytes_eq k key then v else r
