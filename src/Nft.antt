-- ===== src/Nft.antt =====
-- chain/modules/fnft/types: ValidateBasic of the messages of msgs.go, and ValidateGenesis of genesis.go. An
-- sdkmath.Int is none when it was never set: its comparisons panic. Bech32 addresses and denominations
-- are the Cosmos SDK's: parameters.
pub mod Laws
mod Tests
use flux_sdk_go.Common.{
  ℕ, suc, ◌+◌, Bool, true, false, not, ◌&&◌, ◌||◌, Option, none, some, List, [], ◌∷◌, Result, Check,
  ok, err, panic, ◌>>=◌, ◌>>◌, reject_if, Bytes, is_some, ltb, leb, ◌==◌, if◌then◌else◌,
}
use flux_sdk_go.Common.Int.{ℤ, pos, negsuc}

pub data Error : Type 0 where
  empty_class_id empty_nft_id invalid_sender invalid_receiver invalid_amount invalid_price : Error
  invalid_owner_equity invalid_timestamp invalid_iso invalid_denom invalid_interval : Error

abbrev pub is_empty : Bytes → Bool
is_empty [] = true
is_empty (_ ∷ _) = false

-- `i.GT(sdkmath.ZeroInt())`
pub is_positive : Option ℤ → Result Error Bool
is_positive none = panic
is_positive (some (pos n)) = ok (ltb 0 n)
is_positive (some (negsuc n)) = ok false

-- `i.LT(sdkmath.NewIntFromUint64(n))`
pub is_below : ℕ → Option ℤ → Result Error Bool
is_below n none = panic
is_below n (some (pos k)) = ok (ltb k n)
is_below n (some (negsuc k)) = ok true

-- `if !i.GT(sdkmath.ZeroInt()) { return e }`
pub require_positive : Option ℤ → Error → Check Error
require_positive i e = do positive ← is_positive i; reject_if (not positive) e

-- `if i.LT(n) { return e }`
pub require_at_least : ℕ → Option ℤ → Error → Check Error
require_at_least n i e = do low ← is_below n i; reject_if low e

pub record Coin : Type 0 where
  pub denom : Bytes
  pub amount : Option ℤ

pub record MsgCreate : Type 0 where
  pub sender : Bytes
  pub class_id : Bytes
  pub supply : Option ℤ
  pub initial_price : Coin
  pub iso_timestamp : ℕ
  pub iso_success_percent : ℕ
  pub accepted_payment_denom : Bytes
  pub dividend_interval : ℕ
  pub owner_equity_percent : Option ℤ

-- `MsgPurchaseShares`, `MsgDepositShares` and `MsgWithdrawShares`, which have the same fields and checks.
pub record MsgShares : Type 0 where
  pub sender : Bytes
  pub class_id : Bytes
  pub id : Bytes
  pub shares : Option ℤ

pub record MsgTransferShares : Type 0 where
  pub sender : Bytes
  pub class_id : Bytes
  pub id : Bytes
  pub shares : Option ℤ
  pub receiver : Bytes

pub record MsgSponsor : Type 0 where
  pub sender : Bytes
  pub class_id : Bytes
  pub id : Bytes
  pub coin : Coin

-- `NFT` and `Holder`, as far as the genesis checks them: `address` is the owner's or the holder's.
pub record Entry : Type 0 where
  pub class_id : Bytes
  pub id : Bytes
  pub address : Bytes

pub record GenesisState : Type 0 where
  pub classes : List Bytes
  pub nfts : List Entry
  pub holders : List Entry

pub check_nft_id : Bytes → Bytes → Check Error
check_nft_id class_id id =
    reject_if (is_empty class_id) empty_class_id >> reject_if (is_empty id) empty_nft_id

pub check_classes : List Bytes → Check Error
check_classes [] = ok tt
check_classes (c ∷ cs) = reject_if (is_empty c) empty_class_id >> check_classes cs

module _ (is_address : Bytes → Bool) where
  pub validate_shares : MsgShares → Check Error
  validate_shares m = do
    check_nft_id m.class_id m.id
    reject_if (not (is_address m.sender)) invalid_sender
    require_positive m.shares invalid_amount

  -- The three messages on shares are checked alike.
  pub validate_purchase : MsgShares → Check Error
  validate_purchase m = validate_shares m

  pub validate_deposit : MsgShares → Check Error
  validate_deposit m = validate_shares m

  pub validate_withdraw : MsgShares → Check Error
  validate_withdraw m = validate_shares m

  pub validate_transfer : MsgTransferShares → Check Error
  validate_transfer m = do
    check_nft_id m.class_id m.id
    reject_if (not (is_address m.sender)) invalid_sender
    reject_if (not (is_address m.receiver)) invalid_receiver
    require_positive m.shares invalid_amount

  pub check_genesis_entries : List Entry → Check Error
  check_genesis_entries [] = ok tt
  check_genesis_entries (e ∷ es) = do
    check_nft_id e.class_id e.id
    reject_if (not (is_address e.address)) invalid_sender
    check_genesis_entries es

  -- `ValidateGenesis`
  pub validate_genesis : GenesisState → Check Error
  validate_genesis g = do
    check_classes g.classes
    check_genesis_entries g.nfts
    check_genesis_entries g.holders

module _ (is_address : Bytes → Bool) (is_denom : Bytes → Bool) where
  pub validate_create : MsgCreate → Check Error
  validate_create m = do
    reject_if (is_empty m.class_id) empty_class_id
    reject_if (not (is_address m.sender)) invalid_sender
    require_positive m.supply invalid_amount
    require_at_least 33 m.owner_equity_percent invalid_owner_equity
    require_positive m.initial_price.amount invalid_price
    reject_if (m.iso_timestamp == 0) invalid_timestamp
    reject_if (ltb m.iso_success_percent 66) invalid_iso
    reject_if (not (is_denom m.accepted_payment_denom)) invalid_denom
    reject_if (ltb m.dividend_interval 10) invalid_interval

  pub validate_sponsor : MsgSponsor → Check Error
  validate_sponsor m = do
    check_nft_id m.class_id m.id
    reject_if (not (is_address m.sender)) invalid_sender
    require_positive m.coin.amount invalid_amount
    reject_if (not (is_denom m.coin.denom)) invalid_denom
