-- ===== src/Bazaar/Laws.antt =====
-- The messages on products that the bazaar module accepts.
use flux_sdk_go.Common.{
  ◌≡◌, refl, ◌≢◌, ◌↔◌, Bool, true, not, Option, none, some, List, [], ◌∷◌, ok, >>-eq-ok, reject_if,
  Bytes, All, arith, ◌==◌, length,
}
use flux_sdk_go.Common.Int.{ℤ, pos, negsuc}
use flux_sdk_go.Nft.{is_empty}
use flux_sdk_go.Nft.Laws.{AtLeast}
use flux_sdk_go.Bazaar.{
  Error, Offering, MsgCreateProduct, MsgPurchaseOffering, MsgVerifyProduct, has_none, check_amount,
  check_offering, check_offerings, check_nft, validate_create_product, validate_purchase_offering,
  validate_verify_product,
}

pub reject_if_empty :
    {E : Type 0} (s : Bytes) (e : E) → (reject_if (is_empty s) e ≡ ok tt) ↔ (s ≢ [])
reject_if_empty [] e = ground arith
reject_if_empty (c ∷ s) e = ground arith

reject_unless_empty : (s : Bytes) (e : Error) → (reject_if (not (is_empty s)) e ≡ ok tt) ↔ (s ≡ [])
reject_unless_empty [] e = ground arith
reject_unless_empty (c ∷ s) e = ground arith

pub reject_if-has_none {ℓ} :
    {A : Type ℓ} {E : Type 0} (xs : List A) (e : E)
    → (reject_if (has_none xs) e ≡ ok tt) ↔ (xs ≢ [])
unfolding has_none
reject_if-has_none [] e = ground arith
reject_if-has_none (x ∷ xs) e = ground arith

ne_nil-of_length {ℓ κ} :
    {A : Type ℓ} {B : Type κ} (xs : List A) (ys : List B)
    → xs ≢ []
    → length xs ≡ length ys
    → ys ≢ []
ne_nil-of_length [] ys h e = ground arith
ne_nil-of_length (x ∷ xs) [] h e = cc
ne_nil-of_length (x ∷ xs) (y ∷ ys) h e = ground arith

check_amount_iff : (i : Option ℤ) → (check_amount i ≡ ok tt) ↔ AtLeast 1 i
unfolding check_amount
check_amount_iff none = (λ p. cc, λ (k, q, le). cc)
check_amount_iff (some (pos n)) = (λ p. (n, refl, ground arith), λ (k, q, le). ground arith)
check_amount_iff (some (negsuc n)) = (λ p. cc, λ (k, q, le). cc)

-- What is on offer: the URL is left to the chain, the price is a positive amount of a denomination, and
-- nothing is sold yet.
pub record IsOffer (o : Offering) : Type 0 where
  pub unset : o.url ≡ []
  pub payable : o.price.denom ≢ []
  pub priced : AtLeast 1 o.price.amount
  pub unsold : o.purchase_count ≡ 0

check_offering_iff : (o : Offering) → (check_offering o ≡ ok tt) ↔ IsOffer o
unfolding check_offering
check_offering_iff o =
    let url = reject_unless_empty o.url Error.invalid_offering_url in
    let denom = reject_if_empty o.price.denom Error.invalid_offering_denom in
    let amount = check_amount_iff o.price.amount in
    (
      λ e.
          let (e₁, r₁) =
            >>-eq-ok (reject_if (not (is_empty o.url)) Error.invalid_offering_url) _ e in
          let (e₂, r₂) =
            >>-eq-ok (reject_if (is_empty o.price.denom) Error.invalid_offering_denom) _ r₁ in
          let (e₃, e₄) = >>-eq-ok (check_amount o.price.amount) _ r₂ in
          record {
            unset = url.0 e₁;
            payable = denom.0 e₂;
            priced = amount.0 e₃;
            unsold = ground arith;
          },
      λ h.
          let unsold : (o.purchase_count == 0) ≡ true = ground (arith, h.unsold) in
          rw (url.1 h.unset, denom.1 h.payable, amount.1 h.priced, unsold) refl,
    )

check_offerings_iff : (os : List Offering) → (check_offerings os ≡ ok tt) ↔ All IsOffer os
unfolding check_offerings
check_offerings_iff [] = (λ e. tt, λ h. refl)
check_offerings_iff (o ∷ os) =
    let here = check_offering_iff o in
    let rest = check_offerings_iff os in
    (
      λ e. let (e₁, e₂) = >>-eq-ok (check_offering o) _ e in (here.0 e₁, rest.0 e₂),
      λ h. rw (here.1 h.0) (rest.1 h.1),
    )

module _ (is_address : Bytes → Bool) where
  -- A message is sent from an address and is about an NFT.
  abbrev pub IsSent : Bytes → Bytes → Bytes → Type 0
  IsSent sender class_id id = (is_address sender ≡ true) × (class_id ≢ []) × (id ≢ [])

  check_nft_iff : (s c i : Bytes) → (check_nft is_address s c i ≡ ok tt) ↔ IsSent s c i
  unfolding check_nft
  check_nft_iff s c i =
      let class = reject_if_empty c Error.empty_class_id in
      let id = reject_if_empty i Error.empty_nft_id in
      (
        λ e.
            let (e₁, r₁) = >>-eq-ok (reject_if (not (is_address s)) Error.invalid_sender) _ e in
            let (e₂, e₃) = >>-eq-ok (reject_if (is_empty c) Error.empty_class_id) _ r₁ in
            (ground arith, class.0 e₂, id.0 e₃),
        λ (a, n, m). rw (a, class.1 n) (id.1 m),
      )

  create_product_iff :
      (m : MsgCreateProduct)
      → (validate_create_product is_address m ≡ ok tt)
        ↔ (IsSent m.sender m.class_id m.id × ((m.offerings ≢ []) × All IsOffer m.offerings))
  unfolding validate_create_product
  create_product_iff m =
      let sent = check_nft_iff m.sender m.class_id m.id in
      let some_offer = reject_if-has_none m.offerings Error.empty_offerings in
      let offers = check_offerings_iff m.offerings in
      (
        λ e.
            let (e₁, r₁) = >>-eq-ok (check_nft is_address m.sender m.class_id m.id) _ e in
            let (e₂, e₃) = >>-eq-ok (reject_if (has_none m.offerings) Error.empty_offerings) _ r₁ in
            (sent.0 e₁, (some_offer.0 e₂, offers.0 e₃)),
        λ (s, (n, o)). rw (sent.1 s, some_offer.1 n) (offers.1 o),
      )

  purchase_offering_iff :
      (m : MsgPurchaseOffering)
      → (validate_purchase_offering is_address m ≡ ok tt) ↔ (
          IsSent m.sender m.class_id m.id
          × ((m.product_id ≢ [])
              × ((m.offering_idx ≢ []) × (length m.offering_idx ≡ length m.offering_quantity))))
  unfolding validate_purchase_offering
  purchase_offering_iff m =
      let sent = check_nft_iff m.sender m.class_id m.id in
      let product = reject_if_empty m.product_id Error.empty_product_id in
      let index = reject_if-has_none m.offering_idx Error.empty_offerings in
      (
        λ e.
            let (e₁, r₁) = >>-eq-ok (check_nft is_address m.sender m.class_id m.id) _ e in
            let (e₂, r₂) =
              >>-eq-ok (reject_if (is_empty m.product_id) Error.empty_product_id) _ r₁ in
            let (e₃, r₃) =
              >>-eq-ok (reject_if (has_none m.offering_idx) Error.empty_offerings) _ r₂ in
            let (e₄, e₅) =
              >>-eq-ok (reject_if (has_none m.offering_quantity) Error.empty_offerings) _ r₃ in
            (sent.0 e₁, (product.0 e₂, (index.0 e₃, ground arith))),
        λ (s, (p, (i, l))).
            let quantity =
              (reject_if-has_none m.offering_quantity Error.empty_offerings).1
                (ne_nil-of_length m.offering_idx m.offering_quantity i l) in
            let same : (length m.offering_idx == length m.offering_quantity) ≡ true =
              ground (arith, l) in
            rw (sent.1 s, product.1 p, index.1 i, quantity, same) refl,
      )

  -- ValidateBasic of the messages on products: each is sent from an address and is about an NFT. A product is
  -- created with one offering at least, and each of them leaves its URL to the chain, has a positive price that
  -- was set, and has nothing sold; a purchase names a product, and one offering at least with as many
  -- quantities; and a verification names a product.
  pub validate_product_iff :
      (m : MsgCreateProduct) (p : MsgPurchaseOffering) (v : MsgVerifyProduct)
      → ((validate_create_product is_address m ≡ ok tt)
          ↔ (IsSent m.sender m.class_id m.id × ((m.offerings ≢ []) × All IsOffer m.offerings)))
        × (((validate_purchase_offering is_address p ≡ ok tt) ↔ (
              IsSent p.sender p.class_id p.id
              × ((p.product_id ≢ [])
                  × ((p.offering_idx ≢ [])
                      × (length p.offering_idx ≡ length p.offering_quantity)))))
            × ((validate_verify_product is_address v ≡ ok tt)
                ↔ (IsSent v.sender v.class_id v.id × (v.product_id ≢ []))))
  unfolding validate_verify_product
  validate_product_iff m p v =
      let sent = check_nft_iff v.sender v.class_id v.id in
      let product = reject_if_empty v.product_id Error.empty_product_id in
      (
        create_product_iff m,
        (
          purchase_offering_iff p,
          (
            λ e.
                let (e₁, e₂) = >>-eq-ok (check_nft is_address v.sender v.class_id v.id) _ e in
                (sent.0 e₁, product.0 e₂),
            λ (s, n). rw (sent.1 s) (product.1 n),
          ),
        ),
      )
