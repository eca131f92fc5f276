-- ===== src/Ante/Gas/Tests.antt =====
-- A key of two of three, one of which is a key of one.
use flux_sdk_go.Common.{ℕ, ◌+◌, ◌≡◌, refl, true, false, [], ◌∷◌, ok, panic}
use flux_sdk_go.Ante.Gas.{
  PubKey, ed25519, ethsecp256k1, multisig, no_keys, key, SigData, single, multi, no_signatures,
  signature, Params, Meter, consume_gas, sig_gas, multisig_gas,
}
use flux_sdk_go.Ante.Gas.Laws.{signed_keys, total_cost, sig_gas-eq-ok}

abbrev costs : Params
costs = record { sig_verify_cost_ed25519 = 590; sig_verify_cost_secp256k1 = 1000 }

abbrev keys : PubKey
keys = multisig (key ed25519 (key ethsecp256k1 (key (multisig (key ethsecp256k1 no_keys)) no_keys)))

abbrev sigs : SigData
sigs = multi (true ∷ false ∷ true ∷ []) (
    signature single (signature (multi (true ∷ []) (signature single no_signatures)) no_signatures))

abbrev meter : ℕ → Meter
meter consumed = record { limit = 2000; consumed = consumed }

consumes : sig_gas costs keys sigs (meter 10) ≡ ok (meter 1600)
unfolding sig_gas multisig_gas consume_gas
consumes = refl

sig_gas-eq-ok_example :
    ((meter 1600).consumed ≡ (meter 10).consumed + total_cost costs (signed_keys keys sigs))
    × ((meter 1600).limit ≡ (meter 10).limit)
sig_gas-eq-ok_example = sig_gas-eq-ok costs keys sigs (meter 10) (meter 1600) consumes

-- A bit that is set without a signature.
panics_short : sig_gas costs keys (multi (true ∷ []) no_signatures) (meter 0) ≡ panic
unfolding sig_gas multisig_gas
panics_short = refl
