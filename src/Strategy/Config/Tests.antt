-- ===== src/Strategy/Config/Tests.antt =====
-- Messages that configure strategies.
use flux_sdk_go.Strategy.Address.Sample.{plain}
use flux_sdk_go.Common.{
  ◌≡◌, ◌≢◌, ◌↔◌, refl, Bool, true, Option, some, none, List, [], ◌∷◌, ok, err, codes, Bytes,
}
use flux_sdk_go.Strategy.Address.{hex_decode}
use flux_sdk_go.Strategy.Metadata.{
  SchemaGroup, strategy, validate_metadata, check_apps, check_verified, check_type,
}
use flux_sdk_go.Strategy.Config.{
  Error, deploy, enable, MsgConfigStrategy, MsgTriggerStrategies, check_config, validate_config,
  validate_trigger,
}
use flux_sdk_go.Strategy.Config.Laws.{FitsConfig, validate_config_iff}

abbrev no_schema : Bytes → Option (List (Option SchemaGroup))
no_schema s = none

abbrev known : Bytes → Bool
known s = true

abbrev first : MsgConfigStrategy
first = record {
  sender = codes "lux1a";
  config = deploy;
  id = [];
  strategy = 0 ∷ [];
  query = none;
  metadata = some (record {
    typ = strategy;
    schema = [];
    supported_apps = [];
    cron_gas_price = none;
    cron_input = [];
    cron_interval = 0;
  });
}

abbrev run : MsgTriggerStrategies
run = record { sender = codes "lux1a"; ids = codes "ab" ∷ []; inputs = [] ∷ [] }

accepts_first : validate_config plain no_schema known known first ≡ ok tt
unfolding validate_config check_config validate_metadata check_apps check_verified check_type
accepts_first = refl

refuses_half_id :
    validate_config plain no_schema known known
      (record first { config = enable; id = codes "abc"; strategy = [] })
    ≡ err Error.invalid_id
unfolding validate_config check_config hex_decode
refuses_half_id = refl

validate_config_iff_example :
    ((validate_config plain no_schema known known first ≡ ok tt)
      ↔ ((known (codes "lux1a") ≡ true) × FitsConfig plain no_schema known known first deploy))
    × ((validate_trigger known run ≡ ok tt)
        ↔ ((known (codes "lux1a") ≡ true) × ((run.ids ≢ []) × (run.inputs ≢ []))))
validate_config_iff_example = validate_config_iff plain no_schema known known first run
