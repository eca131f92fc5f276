-- ===== src/Strategy/Metadata/Tests.antt =====
-- Metadata of strategies at their limits. An address is its own text.
use flux_sdk_go.Strategy.Address.Sample.{plain}
use flux_sdk_go.Common.{
  ◌≡◌, ◌↔◌, refl, Bool, true, false, Option, some, none, List, [], ◌∷◌, ok, err, panic, codes,
  Bytes,
}
use flux_sdk_go.Common.Int.{pos}
use flux_sdk_go.Strategy.Address.{evm, svm, parse_contract_addr, hex_decode}
use flux_sdk_go.Strategy.Metadata.{
  Error, cron, intent_solver, SupportedApp, SchemaGroup, StrategyMetadata, check_gas_price,
  check_query, check_verified, check_groups, validate_schema, check_apps, check_type,
  validate_metadata,
}
use flux_sdk_go.Strategy.Metadata.Laws.{IsMetadata, validate_metadata_iff}

abbrev one_null_group : Bytes → Option (List (Option SchemaGroup))
one_null_group s = some (none ∷ [])

abbrev is_json : Bytes → Bool
is_json s = true

abbrev pool : SupportedApp
pool = record { name = codes "pool"; contract_address = codes "ab"; plane = evm; verified = false }

abbrev bot : StrategyMetadata
bot = record {
  typ = cron;
  schema = [];
  supported_apps = pool ∷ record pool { plane = svm } ∷ [];
  cron_gas_price = some (pos 500_000_000);
  cron_input = codes "{}";
  cron_interval = 0;
}

accepts_bot :
    validate_metadata plain one_null_group is_json (some bot) (some (false ∷ true ∷ [])) true
    ≡ ok tt
unfolding validate_metadata check_apps check_verified check_type check_gas_price check_query
    parse_contract_addr hex_decode
accepts_bot = refl

-- A bot without an interval and without a query.
panics_no_query : validate_metadata plain one_null_group is_json (some bot) none true ≡ panic
unfolding validate_metadata check_apps check_verified check_type check_gas_price check_query
    parse_contract_addr hex_decode
panics_no_query = refl

-- A schema with a null for its group.
panics_null_group :
    validate_metadata plain one_null_group is_json
      (some (record bot { typ = intent_solver; schema = codes "x" }))
      none
      false
    ≡ panic
unfolding validate_metadata check_apps check_type validate_schema check_groups parse_contract_addr
    hex_decode
panics_null_group = refl

-- The same contract twice, in small and in capital digits.
refuses_twice :
    validate_metadata plain one_null_group is_json
      (some
        (record bot { supported_apps = pool ∷ record pool { contract_address = codes "AB" } ∷ [] }))
      none
      false
    ≡ err Error.duplicated_app
unfolding validate_metadata check_apps parse_contract_addr hex_decode
refuses_twice = refl

validate_metadata_iff_example :
    (validate_metadata plain one_null_group is_json (some bot) (some (true ∷ [])) true ≡ ok tt) ↔ (
      (m : StrategyMetadata) × (some bot ≡ some m)
      × IsMetadata plain one_null_group is_json m (some (true ∷ [])) true)
validate_metadata_iff_example =
    validate_metadata_iff plain one_null_group is_json (some bot) (some (true ∷ [])) true
