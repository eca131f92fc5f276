-- ===== src/Bazaar/Tests.antt =====
-- Messages on products at their limits.
use flux_sdk_go.Common.{
  ◌≡◌, ◌≢◌, ◌↔◌, refl, Bool, true, some, none, List, [], ◌∷◌, ok, err, panic, codes, Bytes, All,
  length,
}
use flux_sdk_go.Common.Int.{pos}
use flux_sdk_go.Bazaar.{
  Error, Offering, MsgCreateProduct, MsgPurchaseOffering, MsgVerifyProduct, validate_create_product,
  validate_purchase_offering, validate_verify_product, check_nft, check_offerings, check_offering,
  check_amount, has_none,
}
use flux_sdk_go.Bazaar.Laws.{IsSent, IsOffer, validate_product_iff}

abbrev known : Bytes → Bool
known s = true

abbrev gift : Offering
gift = record {
  url = [];
  price = record { denom = codes "lux"; amount = some (pos 1) };
  purchase_count = 0;
}

abbrev unpriced : Offering
unpriced = record {
  url = [];
  price = record { denom = codes "lux"; amount = none };
  purchase_count = 0;
}

abbrev offers : List Offering → MsgCreateProduct
offers os = record {
  sender = codes "lux1a";
  class_id = codes "music";
  id = codes "1";
  offerings = os;
  tags = [];
}

abbrev order : MsgPurchaseOffering
order = record {
  sender = codes "lux1a";
  class_id = codes "music";
  id = codes "1";
  product_id = codes "7";
  offering_idx = 0 ∷ 1 ∷ [];
  offering_quantity = 2 ∷ [];
}

abbrev seal : MsgVerifyProduct
seal = record {
  sender = codes "lux1a";
  class_id = codes "music";
  id = codes "1";
  product_id = codes "7";
}

accepts_gift : validate_create_product known (offers (gift ∷ [])) ≡ ok tt
unfolding validate_create_product check_nft check_offerings check_offering check_amount has_none
accepts_gift = refl

panics_unpriced : validate_create_product known (offers (gift ∷ unpriced ∷ [])) ≡ panic
unfolding validate_create_product check_nft check_offerings check_offering check_amount has_none
panics_unpriced = refl

rejects_order : validate_purchase_offering known order ≡ err Error.mismatch_offering_length
unfolding validate_purchase_offering check_nft has_none
rejects_order = refl

validate_product_iff_example :
    ((validate_create_product known (offers (gift ∷ [])) ≡ ok tt) ↔ (
      IsSent known (codes "lux1a") (codes "music") (codes "1")
      × (((gift ∷ []) ≢ []) × All IsOffer (gift ∷ []))))
    × (((validate_purchase_offering known order ≡ ok tt) ↔ (
          IsSent known (codes "lux1a") (codes "music") (codes "1")
          × ((order.product_id ≢ [])
              × ((order.offering_idx ≢ [])
                  × (length order.offering_idx ≡ length order.offering_quantity)))))
        × ((validate_verify_product known seal ≡ ok tt)
            ↔ (IsSent known (codes "lux1a") (codes "music") (codes "1") × (seal.product_id ≢ []))))
validate_product_iff_example = validate_product_iff known (offers (gift ∷ [])) order seal
