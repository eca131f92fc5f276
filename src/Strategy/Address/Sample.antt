-- ===== src/Strategy/Address/Sample.antt =====
-- A codec whose texts are the addresses themselves, for the tests.
use flux_sdk_go.Common.{refl, some}
use flux_sdk_go.Strategy.Address.{Codec}

abbrev pub plain : Codec
plain = record {
  from_bech32 = λ s. some s;
  bech32 = λ a. a;
  from_base58 = λ s. some s;
  base58 = λ a. a;
  from_bech32-bech32 = λ a h l. refl;
  from_base58-base58 = λ a l. refl;
}
