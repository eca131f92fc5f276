-- ===== src/Strategy/Metadata.antt =====
-- StrategyMetadata.ValidateBasic and validateSchema of msgs.go. encoding/json is a parameter: what it makes of a
-- schema, in which a null is a nil pointer, and whether a text is JSON. The price of gas is none if it was never set.
pub mod Apps
pub mod Parts
pub mod Laws
mod Tests
use flux_sdk_go.Common.{
  ℕ, Bool, true, false, not, ◌&&◌, ◌||◌, Option, none, some, List, [], ◌∷◌, ◌++◌, Result, Check, ok,
  err, panic, ◌>>=◌, ◌>>◌, reject_if, or_err, or_panic, Bytes, codes, bytes_mem, length, ltb, ◌==◌,
  if◌then◌else◌,
}
use flux_sdk_go.Common.Int.{ℤ, pos, negsuc}
use flux_sdk_go.Strategy.Address
use flux_sdk_go.Strategy.Address.{
  Plane, cosmos, wasm, evm, svm, unknown, Codec, parse_contract_addr,
}
use flux_sdk_go.Strategy.Prompt
use flux_sdk_go.Strategy.Prompt.{validate_prompt}

pub data Error : Type 0 where
  no_metadata invalid_address duplicated_app verified_app invalid_schema unnamed_group : Error
  low_gas_price invalid_input no_query no_event_query invalid_type : Error
  invalid_prompt : Prompt.Error → Error

pub data StrategyType : Type 0 where
  strategy intent_solver cron : StrategyType
  unknown_type : ℤ → StrategyType

pub record SupportedApp : Type 0 where
  pub name : Bytes
  pub contract_address : Bytes
  pub plane : Plane
  pub verified : Bool

pub record SchemaGroup : Type 0 where
  pub name : Bytes
  pub prompts : List (Option Bytes)

pub record StrategyMetadata : Type 0 where
  pub typ : StrategyType
  pub schema : Bytes
  pub supported_apps : List SupportedApp
  pub cron_gas_price : Option ℤ
  pub cron_input : Bytes
  pub cron_interval : ℕ

-- A query, as far as it is checked: for each of its instructions, whether its action is COSMOS_EVENT.
abbrev pub Query : Type 0
Query = List Bool

-- `Plane.String()` of a plane that ParseContractAddr accepts.
abbrev pub plane_name : Plane → Bytes
plane_name cosmos = codes "COSMOS"
plane_name wasm = codes "WASM"
plane_name evm = codes "EVM"
plane_name svm = codes "SVM"
plane_name (unknown n) = []

abbrev pub as_address {ℓ} : {A : Type ℓ} → Result Address.Error A → Result Error A
as_address (ok a) = ok a
as_address (err _) = err invalid_address
as_address panic = panic

abbrev pub as_prompt : Check Prompt.Error → Check Error
as_prompt (ok _) = ok tt
as_prompt (err e) = err (invalid_prompt e)
as_prompt panic = panic

-- `if m.CronGasPrice.LT(minimumGasPrice)`
unfoldable pub check_gas_price : Option ℤ → Check Error
check_gas_price none = panic
check_gas_price (some (pos n)) = reject_if (ltb n 500_000_000) low_gas_price
check_gas_price (some (negsuc n)) = err low_gas_price

abbrev pub has_event : Query → Bool
has_event [] = false
has_event (q ∷ qs) = q || has_event qs

-- A bot without an interval runs on events; a query that is nil has no instructions to count.
unfoldable pub check_query : Option Query → Check Error
check_query none = panic
check_query (some []) = err no_query
check_query (some (q ∷ qs)) = reject_if (not (has_event (q ∷ qs))) no_event_query

unfoldable pub check_verified : List SupportedApp → Check Error
check_verified [] = ok tt
check_verified (a ∷ apps) = reject_if a.verified verified_app >> check_verified apps

unfoldable pub check_prompts : List (Option Bytes) → Check Error
check_prompts [] = ok tt
check_prompts (none ∷ ps) = panic
check_prompts (some template ∷ ps) = as_prompt (validate_prompt template) >> check_prompts ps

abbrev is_empty : Bytes → Bool
is_empty [] = true
is_empty (_ ∷ _) = false

-- `many` says that there is more than one group.
unfoldable pub check_groups : Bool → List (Option SchemaGroup) → Check Error
check_groups many [] = ok tt
check_groups many (none ∷ gs) = panic
check_groups many (some g ∷ gs) = do
  reject_if (many && is_empty g.name) unnamed_group
  check_prompts g.prompts
  check_groups many gs

module _ (parse_schema : Bytes → Option (List (Option SchemaGroup))) where
  -- `validateSchema`. With one group that is nil the source reads its name only where there are others, and
  -- its prompts in any case.
  unfoldable pub validate_schema : Bytes → Check Error
  validate_schema [] = ok tt
  validate_schema (c ∷ s) = do
    groups ← or_err (parse_schema (c ∷ s)) invalid_schema
    check_groups (ltb 1 (length groups)) groups

module _ (codec : Codec) where
  -- The loop over the supported apps; `seen` are the keys of `seenApps`.
  unfoldable pub check_apps : List Bytes → List SupportedApp → Check Error
  check_apps seen [] = ok tt
  check_apps seen (a ∷ apps) = do
    contract ← as_address (parse_contract_addr codec a.contract_address a.plane)
    reject_if (bytes_mem (plane_name a.plane ++ contract) seen) duplicated_app
    check_apps ((plane_name a.plane ++ contract) ∷ seen) apps

module _ (codec : Codec) (parse_schema : Bytes → Option (List (Option SchemaGroup)))
    (is_json : Bytes → Bool) where
  -- The checks of each type.
  unfoldable pub check_type : StrategyMetadata → Option Query → StrategyType → Check Error
  check_type m query strategy = ok tt
  check_type m query intent_solver = validate_schema parse_schema m.schema
  check_type m query cron = do
    check_gas_price m.cron_gas_price
    reject_if (not (is_json m.cron_input)) invalid_input
    (if m.cron_interval == 0 then check_query query else ok tt)
  check_type m query (unknown_type n) = err invalid_type

  -- `StrategyMetadata.ValidateBasic`
  unfoldable pub validate_metadata : Option StrategyMetadata → Option Query → Bool → Check Error
  validate_metadata none query unverified = err no_metadata
  validate_metadata (some m) query unverified = do
    check_apps codec [] m.supported_apps
    (if unverified then check_verified m.supported_apps else ok tt)
    check_type m query m.typ
