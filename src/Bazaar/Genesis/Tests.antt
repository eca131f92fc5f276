-- ===== src/Bazaar/Genesis/Tests.antt =====
-- A genesis state with the default commission of series, and proposals at their limits.
use flux_sdk_go.Common.{◌≡◌, ◌↔◌, refl, Bool, true, [], ◌∷◌, ok, err, codes, Bytes, All}
use flux_sdk_go.Bazaar.{has_none}
use flux_sdk_go.Bazaar.Genesis.{
  Error, ClassCommission, GenesisState, ClassCommissionsProposal, VerifiersProposal, validate_state,
  validate_commissions_proposal, validate_verifiers_proposal, check_products, check_commissions,
  check_proposed, check_verifiers,
}
use flux_sdk_go.Bazaar.Genesis.Laws.{IsProduct, IsCommission, validate_state_iff}
use flux_sdk_go.Bazaar.Genesis.Proposals.{proposals-validate_state}

abbrev known : Bytes → Bool
known s = true

abbrev readable : Bytes → Bytes → Bool
readable t d = true

abbrev series : ClassCommission
series = record { class_id = codes "series"; commission_mul = 15; commission_div = 100 }

abbrev initial : GenesisState
initial = record { products = []; commissions = series ∷ []; verifiers = codes "lux1a" ∷ [] }

abbrev fees : ClassCommissionsProposal
fees = record {
  title = codes "fees";
  description = codes "lower";
  class_commissions =
      record { class_id = codes "music"; commission_mul = 10; commission_div = 100 } ∷ [];
}

abbrev watch : VerifiersProposal
watch = record { title = codes "watch"; description = codes "one"; verifiers = codes "lux1b" ∷ [] }

abbrev nobody : VerifiersProposal
nobody = record { title = codes "watch"; description = codes "none"; verifiers = [] }

accepts_initial : validate_state known initial ≡ ok tt
unfolding validate_state check_products check_commissions check_verifiers
accepts_initial = refl

accepts_fees : validate_commissions_proposal readable fees ≡ ok tt
unfolding validate_commissions_proposal check_proposed has_none
accepts_fees = refl

accepts_watch : validate_verifiers_proposal known readable watch ≡ ok tt
unfolding validate_verifiers_proposal check_verifiers has_none
accepts_watch = refl

rejects_nobody : validate_verifiers_proposal known readable nobody ≡ err Error.empty_verifiers
unfolding validate_verifiers_proposal has_none
rejects_nobody = refl

validate_state_iff_example : (validate_state known initial ≡ ok tt) ↔ (
    All IsProduct initial.products
    × (All IsCommission initial.commissions × All (λ v. known v ≡ true) initial.verifiers))
validate_state_iff_example = validate_state_iff known initial

proposals-validate_state_example :
    validate_state known
      (record { products = []; commissions = fees.class_commissions; verifiers = watch.verifiers })
    ≡ ok tt
proposals-validate_state_example =
    proposals-validate_state known readable initial fees watch accepts_initial accepts_fees
      accepts_watch
