-- ===== src/Ante/Wrap.antt =====
-- chain/app/ante/eip712_cosmos.go: the typed data of a web3 transaction. This module holds what `reflect` sees of
-- a message: a type, and a value with its type. A type that holds itself has no such tree: on one the
-- source recurs without end. The children hold the names of types, the walk through a message, and
-- WrapTxToEIP712.
pub mod Names
pub mod Walk
pub mod Pack
use flux_sdk_go.Common.{ℕ, suc, List, [], ◌∷◌, ◌++◌, Bytes, codes}

-- The kinds that have a name of their own in EIP-712.
pub data Kind : Type 0 where
  string bool int int8 int16 int32 int64 uint uint8 uint16 uint32 uint64 : Kind

-- A type: `text_type` is a struct that converts to big.Int, time.Time or sdkmath.Int, `slice_type` a slice
-- or an array, and `other_type` a type of any other kind.
mutual
  pub data Typ : Type 0 where
    basic_type : Kind → Typ
    text_type other_type interface_type : Typ
    pointer_type : Typ → Typ
    slice_type : Typ → Typ
    struct_type : TypFields → Typ

  -- A field with its json tag; `any_type` is a field of the type *codectypes.Any.
  pub data TypFields : Type 0 where
    no_types : TypFields
    field_type : Bytes → Typ → TypFields → TypFields
    any_type : Bytes → TypFields → TypFields

-- A value with its type. A slice has its elements' type beside its elements, and a nil pointer the type
-- that it points to. An interface holds a value of another type.
mutual
  pub data Value : Type 0 where
    basic : Kind → Value
    text_struct other nil_interface : Value
    interface : Value → Value
    pointer : Value → Value
    nil_pointer : Typ → Value
    slice : Typ → Items → Value
    struct : Fields → Value

  pub data Items : Type 0 where
    no_items : Items
    item : Value → Items → Items

  -- `nil_any` is a field of the type *codectypes.Any that is nil, `broken_any` one whose UnpackAny fails, and
  -- `any` one with what UnpackAny made of it, which is held as an interface.
  pub data Fields : Type 0 where
    no_fields : Fields
    field : Bytes → Value → Fields → Fields
    nil_any broken_any : Bytes → Fields → Fields
    any : Bytes → Value → Fields → Fields

-- `t.NumField()`
unfoldable pub num_field : TypFields → ℕ
num_field no_types = 0
num_field (field_type tag t fs) = suc (num_field fs)
num_field (any_type tag fs) = suc (num_field fs)

unfoldable pub size : Fields → ℕ
size no_fields = 0
size (field tag v fs) = suc (size fs)
size (nil_any tag fs) = suc (size fs)
size (broken_any tag fs) = suc (size fs)
size (any tag v fs) = suc (size fs)

abbrev pub kind_name : Kind → Bytes
kind_name string = codes "string"
kind_name bool = codes "bool"
kind_name int = codes "int64"
kind_name int8 = codes "int8"
kind_name int16 = codes "int16"
kind_name int32 = codes "int32"
kind_name int64 = codes "int64"
kind_name uint = codes "uint64"
kind_name uint8 = codes "uint8"
kind_name uint16 = codes "uint16"
kind_name uint32 = codes "uint32"
kind_name uint64 = codes "uint64"

abbrev pub with_brackets : Bytes → Bytes
with_brackets [] = []
with_brackets (c ∷ s) = (c ∷ s) ++ codes "[]"

abbrev pub pointed_name : Typ → Bytes
pointed_name text_type = codes "string"
pointed_name _ = []

-- `typToEth`, empty for a type without a name.
unfoldable pub typ_to_eth : Typ → Bytes
typ_to_eth (basic_type k) = kind_name k
typ_to_eth text_type = codes "string"
typ_to_eth (pointer_type t) = pointed_name t
typ_to_eth (slice_type t) = with_brackets (typ_to_eth t)
typ_to_eth _ = []
