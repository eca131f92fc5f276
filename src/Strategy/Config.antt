-- ===== src/Strategy/Config.antt =====
-- ValidateBasic of MsgConfigStrategy and MsgTriggerStrategies of msgs.go.
pub mod Laws
mod Tests
use flux_sdk_go.Common.{
  ℕ, Bool, true, false, not, Option, none, some, List, [], ◌∷◌, Result, Check, ok, err, panic,
  ◌>>=◌, ◌>>◌, reject_if, Bytes, is_some,
}
use flux_sdk_go.Common.Int.{ℤ}
use flux_sdk_go.Strategy.Address.{Codec, hex_decode}
use flux_sdk_go.Strategy.Metadata
use flux_sdk_go.Strategy.Metadata.{SchemaGroup, StrategyMetadata, Query, validate_metadata}

pub data Error : Type 0 where
  invalid_sender empty_strategy given_id given_strategy empty_id invalid_id given_query : Error
  given_metadata invalid_config empty_ids empty_inputs : Error
  invalid_metadata : Metadata.Error → Error

pub data Config : Type 0 where
  deploy update disable enable revoke : Config
  unknown_config : ℤ → Config

pub record MsgConfigStrategy : Type 0 where
  pub sender : Bytes
  pub config : Config
  pub id : Bytes
  pub strategy : Bytes
  pub query : Option Query
  pub metadata : Option StrategyMetadata

pub record MsgTriggerStrategies : Type 0 where
  pub sender : Bytes
  pub ids : List Bytes
  pub inputs : List Bytes

abbrev pub has_none {ℓ} : {A : Type ℓ} → List A → Bool
has_none [] = true
has_none (_ ∷ _) = false

abbrev pub as_metadata : Check Metadata.Error → Check Error
as_metadata (ok _) = ok tt
as_metadata (err e) = err (invalid_metadata e)
as_metadata panic = panic

module _ (codec : Codec) (parse_schema : Bytes → Option (List (Option SchemaGroup)))
    (is_json : Bytes → Bool) (is_address : Bytes → Bool) where
  abbrev pub check_metadata : Option StrategyMetadata → Option Query → Bool → Check Error
  check_metadata m query unverified =
      as_metadata (validate_metadata codec parse_schema is_json m query unverified)

  -- New metadata are checked only where there are any.
  abbrev pub check_update : Option StrategyMetadata → Option Query → Check Error
  check_update none query = ok tt
  check_update (some m) query = check_metadata (some m) query false

  -- What is asked of a message by its config.
  abbrev pub check_switch : MsgConfigStrategy → Check Error
  check_switch m = do
    reject_if (not (has_none m.strategy)) given_strategy
    reject_if (has_none m.id) empty_id
    reject_if (not (is_some (hex_decode m.id))) invalid_id
    reject_if (is_some m.query) given_query
    reject_if (is_some m.metadata) given_metadata

  unfoldable pub check_config : MsgConfigStrategy → Config → Check Error
  check_config m deploy = do
    reject_if (has_none m.strategy) empty_strategy
    reject_if (not (has_none m.id)) given_id
    check_metadata m.metadata m.query true
  check_config m update = do
    reject_if (not (has_none m.strategy)) given_strategy
    reject_if (has_none m.id) empty_id
    reject_if (not (is_some (hex_decode m.id))) invalid_id
    check_update m.metadata m.query
  check_config m disable = check_switch m
  check_config m enable = check_switch m
  check_config m revoke = check_switch m
  check_config m (unknown_config n) = err invalid_config

  -- `MsgConfigStrategy.ValidateBasic`
  unfoldable pub validate_config : MsgConfigStrategy → Check Error
  validate_config m = do
    reject_if (not (is_address m.sender)) invalid_sender
    check_config m m.config

-- `MsgTriggerStrategies.ValidateBasic`
unfoldable pub validate_trigger : (Bytes → Bool) → MsgTriggerStrategies → Check Error
validate_trigger is_address m = do
  reject_if (not (is_address m.sender)) invalid_sender
  reject_if (has_none m.ids) empty_ids
  reject_if (has_none m.inputs) empty_inputs
