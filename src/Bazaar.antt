-- ===== src/Bazaar.antt =====
-- chain/modules/bazaar/types/msgs.go: ValidateBasic of the messages on products and their offerings. The price
-- of an offering is a coin of the Nft module's model: its amount is none when it was never set. Bech32 addresses
-- are the Cosmos SDK's: a parameter.
pub mod Laws
pub mod Genesis
mod Tests
use flux_sdk_go.Common.{
  ℕ, Option, none, some, Bool, true, false, not, List, [], ◌∷◌, Result, Check, ok, err, panic,
  ◌>>=◌, ◌>>◌, reject_if, Bytes, length, ◌==◌,
}
use flux_sdk_go.Common.Int.{ℤ, pos, negsuc}
use flux_sdk_go.Nft.{Coin, is_empty}

pub data Error : Type 0 where
  invalid_sender empty_class_id empty_nft_id empty_product_id empty_offerings : Error
  mismatch_offering_length invalid_offering_url invalid_offering_denom : Error
  invalid_offering_amount invalid_offering_purchase_count : Error

pub record Offering : Type 0 where
  pub url : Bytes
  pub price : Coin
  pub purchase_count : ℕ

pub record MsgCreateProduct : Type 0 where
  pub sender : Bytes
  pub class_id : Bytes
  pub id : Bytes
  pub offerings : List Offering
  pub tags : List Bytes

pub record MsgPurchaseOffering : Type 0 where
  pub sender : Bytes
  pub class_id : Bytes
  pub id : Bytes
  pub product_id : Bytes
  pub offering_idx : List ℕ
  pub offering_quantity : List ℕ

pub record MsgVerifyProduct : Type 0 where
  pub sender : Bytes
  pub class_id : Bytes
  pub id : Bytes
  pub product_id : Bytes

-- The test for an empty list that `len(x) == 0` is.
pub has_none {ℓ} : {A : Type ℓ} → List A → Bool
has_none [] = true
has_none (_ ∷ _) = false

-- `if a.LTE(sdkmath.NewInt(0)) { return ErrInvalidOfferingAmount }`
pub check_amount : Option ℤ → Check Error
check_amount none = panic
check_amount (some (pos n)) = reject_if (n == 0) invalid_offering_amount
check_amount (some (negsuc n)) = err invalid_offering_amount

pub check_offering : Offering → Check Error
check_offering o = do
  reject_if (not (is_empty o.url)) invalid_offering_url
  reject_if (is_empty o.price.denom) invalid_offering_denom
  check_amount o.price.amount
  reject_if (not (o.purchase_count == 0)) invalid_offering_purchase_count

pub check_offerings : List Offering → Check Error
check_offerings [] = ok tt
check_offerings (o ∷ os) = check_offering o >> check_offerings os

module _ (is_address : Bytes → Bool) where
  -- The checks that the three messages begin with.
  pub check_nft : Bytes → Bytes → Bytes → Check Error
  check_nft sender class_id id = do
    reject_if (not (is_address sender)) invalid_sender
    reject_if (is_empty class_id) empty_class_id
    reject_if (is_empty id) empty_nft_id

  pub validate_create_product : MsgCreateProduct → Check Error
  validate_create_product m = do
    check_nft m.sender m.class_id m.id
    reject_if (has_none m.offerings) empty_offerings
    check_offerings m.offerings

  pub validate_purchase_offering : MsgPurchaseOffering → Check Error
  validate_purchase_offering m = do
    check_nft m.sender m.class_id m.id
    reject_if (is_empty m.product_id) empty_product_id
    reject_if (has_none m.offering_idx) empty_offerings
    reject_if (has_none m.offering_quantity) empty_offerings
    reject_if (not (length m.offering_idx == length m.offering_quantity)) mismatch_offering_length

  pub validate_verify_product : MsgVerifyProduct → Check Error
  validate_verify_product m = do
    check_nft m.sender m.class_id m.id
    reject_if (is_empty m.product_id) empty_product_id
