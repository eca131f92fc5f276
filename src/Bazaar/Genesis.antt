-- ===== src/Bazaar/Genesis.antt =====
-- chain/modules/bazaar/types: ValidateGenesis of genesis.go, and ValidateBasic of the two proposals of
-- proposal.go. What govtypes.ValidateAbstract says of a title and a description is the Cosmos SDK's: a parameter.
pub mod Laws
pub mod Proposals
mod Tests
use flux_sdk_go.Common.{
  ℕ, Bool, not, ◌||◌, List, [], ◌∷◌, Check, ok, ◌>>=◌, ◌>>◌, reject_if, Bytes, ◌==◌,
}
use flux_sdk_go.Nft.{is_empty}
use flux_sdk_go.Bazaar.{Offering, has_none}

pub data Error : Type 0 where
  empty_class_id empty_nft_id empty_product_id empty_offerings invalid_commission_part : Error
  invalid_address empty_commissions zero_commission_part empty_verifiers invalid_content : Error

-- `Product`, as far as it is checked.
pub record Product : Type 0 where
  pub class_id : Bytes
  pub id : Bytes
  pub product_id : Bytes
  pub offerings : List Offering

pub record ClassCommission : Type 0 where
  pub class_id : Bytes
  pub commission_mul : ℕ
  pub commission_div : ℕ

pub record GenesisState : Type 0 where
  pub products : List Product
  pub commissions : List ClassCommission
  pub verifiers : List Bytes

pub record ClassCommissionsProposal : Type 0 where
  pub title : Bytes
  pub description : Bytes
  pub class_commissions : List ClassCommission

pub record VerifiersProposal : Type 0 where
  pub title : Bytes
  pub description : Bytes
  pub verifiers : List Bytes

pub check_products : List Product → Check Error
check_products [] = ok tt
check_products (p ∷ ps) = do
  reject_if (is_empty p.class_id) empty_class_id
  reject_if (is_empty p.id) empty_nft_id
  reject_if (is_empty p.product_id) empty_product_id
  reject_if (has_none p.offerings) empty_offerings
  check_products ps

pub check_commissions : List ClassCommission → Check Error
check_commissions [] = ok tt
check_commissions (c ∷ cs) = do
  reject_if (is_empty c.class_id) empty_class_id
  reject_if ((c.commission_mul == 0) || (c.commission_div == 0)) invalid_commission_part
  check_commissions cs

-- The same loop in the proposal, with its own order and error.
pub check_proposed : List ClassCommission → Check Error
check_proposed [] = ok tt
check_proposed (c ∷ cs) = do
  reject_if (is_empty c.class_id) empty_class_id
  reject_if ((c.commission_div == 0) || (c.commission_mul == 0)) zero_commission_part
  check_proposed cs

module _ (is_address : Bytes → Bool) where
  pub check_verifiers : List Bytes → Check Error
  check_verifiers [] = ok tt
  check_verifiers (v ∷ vs) = reject_if (not (is_address v)) invalid_address >> check_verifiers vs

  pub validate_state : GenesisState → Check Error
  validate_state g = do
    check_products g.products
    check_commissions g.commissions
    check_verifiers g.verifiers

module _ (is_content : Bytes → Bytes → Bool) where
  pub validate_commissions_proposal : ClassCommissionsProposal → Check Error
  validate_commissions_proposal p = do
    reject_if (has_none p.class_commissions) empty_commissions
    check_proposed p.class_commissions
    reject_if (not (is_content p.title p.description)) invalid_content

module _ (is_address : Bytes → Bool) (is_content : Bytes → Bytes → Bool) where
  pub validate_verifiers_proposal : VerifiersProposal → Check Error
  validate_verifiers_proposal p = do
    reject_if (has_none p.verifiers) empty_verifiers
    check_verifiers is_address p.verifiers
    reject_if (not (is_content p.title p.description)) invalid_content
