-- ===== src/Nft/Tests.antt =====
-- Messages of the fnft module at their limits.
use flux_sdk_go.Common.{
  ◌≡◌, ◌≢◌, ◌↔◌, refl, Bool, true, some, none, [], ◌∷◌, ok, panic, codes, Bytes, All,
}
use flux_sdk_go.Common.Int.{pos}
use flux_sdk_go.Nft.{
  MsgCreate, MsgShares, MsgTransferShares, GenesisState, validate_create, validate_shares,
  validate_transfer, validate_genesis, require_positive, require_at_least, is_positive, is_below,
  check_nft_id,
}
use flux_sdk_go.Nft.Laws.{IsCreate, IsEntry, validate_create_iff, validate_genesis_iff}

abbrev music : MsgCreate
music = record {
  sender = codes "lux1a";
  class_id = codes "music";
  supply = some (pos 1000);
  initial_price = record { denom = codes "lux"; amount = some (pos 5) };
  iso_timestamp = 1;
  iso_success_percent = 66;
  accepted_payment_denom = codes "lux";
  dividend_interval = 10;
  owner_equity_percent = some (pos 33);
}

abbrev known : Bytes → Bool
known s = true

accepts_music : validate_create known known music ≡ ok tt
unfolding validate_create require_positive require_at_least is_positive is_below
accepts_music = refl

validate_create_iff_example :
    (validate_create known known music ≡ ok tt) ↔ IsCreate known known music
validate_create_iff_example = validate_create_iff known known music

abbrev bought : MsgShares
bought = record { sender = codes "lux1a"; class_id = codes "music"; id = codes "1"; shares = none }

abbrev moved : MsgTransferShares
moved = record {
  sender = codes "lux1a";
  class_id = codes "music";
  id = codes "1";
  shares = some (pos 2);
  receiver = codes "lux1b";
}

accepts_moved : validate_transfer known moved ≡ ok tt
unfolding validate_transfer require_positive is_positive check_nft_id
accepts_moved = refl

-- Shares that were never set.
panics_unset : validate_shares known bought ≡ panic
unfolding validate_shares require_positive is_positive check_nft_id
panics_unset = refl

abbrev genesis : GenesisState
genesis = record { classes = codes "series" ∷ codes "music" ∷ []; nfts = []; holders = [] }

validate_genesis_iff_example : (validate_genesis known genesis ≡ ok tt) ↔ (
    All (λ c. c ≢ []) genesis.classes
    × (All (IsEntry known) genesis.nfts × All (IsEntry known) genesis.holders))
validate_genesis_iff_example = validate_genesis_iff known genesis
