-- ===== src/Bazaar/Genesis/Laws.antt =====
-- The genesis states that the bazaar module accepts.
use flux_sdk_go.Common.{
  ◌≡◌, refl, ◌≢◌, ◌↔◌, Bool, true, false, not, ◌||◌, List, [], ◌∷◌, ok, >>-eq-ok, reject_if, Bytes,
  All, arith, ◌==◌,
}
use flux_sdk_go.Nft.{is_empty}
use flux_sdk_go.Bazaar.{has_none}
use flux_sdk_go.Bazaar.Laws.{reject_if_empty, reject_if-has_none}
use flux_sdk_go.Bazaar.Genesis.{
  Error, Product, ClassCommission, GenesisState, check_products, check_commissions, check_proposed,
  check_verifiers, validate_state,
}

-- A product has all its names and an offering.
abbrev pub IsProduct : Product → Type 0
IsProduct p = (p.class_id ≢ []) × (p.id ≢ []) × (p.product_id ≢ []) × (p.offerings ≢ [])

-- A commission is of a class, and neither part of its fraction is 0.
abbrev pub IsCommission : ClassCommission → Type 0
IsCommission c = (c.class_id ≢ []) × (c.commission_mul ≢ 0) × (c.commission_div ≢ 0)

check_products_iff : (ps : List Product) → (check_products ps ≡ ok tt) ↔ All IsProduct ps
unfolding check_products
check_products_iff [] = (λ e. tt, λ h. refl)
check_products_iff (p ∷ ps) =
    let class = reject_if_empty p.class_id Error.empty_class_id in
    let id = reject_if_empty p.id Error.empty_nft_id in
    let product = reject_if_empty p.product_id Error.empty_product_id in
    let offers = reject_if-has_none p.offerings Error.empty_offerings in
    let rest = check_products_iff ps in
    (
      λ e.
          let (e₁, r₁) = >>-eq-ok (reject_if (is_empty p.class_id) Error.empty_class_id) _ e in
          let (e₂, r₂) = >>-eq-ok (reject_if (is_empty p.id) Error.empty_nft_id) _ r₁ in
          let (e₃, r₃) = >>-eq-ok (reject_if (is_empty p.product_id) Error.empty_product_id) _ r₂ in
          let (e₄, e₅) = >>-eq-ok (reject_if (has_none p.offerings) Error.empty_offerings) _ r₃ in
          ((class.0 e₁, id.0 e₂, product.0 e₃, offers.0 e₄), rest.0 e₅),
      λ h. let (c, i, p', o) = h.0 in rw (class.1 c, id.1 i, product.1 p', offers.1 o) (rest.1 h.1),
    )

check_commissions_iff :
    (cs : List ClassCommission) → (check_commissions cs ≡ ok tt) ↔ All IsCommission cs
unfolding check_commissions
check_commissions_iff [] = (λ e. tt, λ h. refl)
check_commissions_iff (c ∷ cs) =
    let class = reject_if_empty c.class_id Error.empty_class_id in
    let rest = check_commissions_iff cs in
    (
      λ e.
          let (e₁, r₁) = >>-eq-ok (reject_if (is_empty c.class_id) Error.empty_class_id) _ e in
          let (e₂, e₃) =
            >>-eq-ok
              (reject_if ((c.commission_mul == 0) || (c.commission_div == 0))
                Error.invalid_commission_part)
              _ r₁ in
          ((class.0 e₁, ground arith, ground arith), rest.0 e₃),
      λ h.
          let (n, m, d) = h.0 in
          let mul : (c.commission_mul == 0) ≡ false = ground (arith, m) in
          let div : (c.commission_div == 0) ≡ false = ground (arith, d) in
          rw (class.1 n, mul, div) (rest.1 h.1),
    )

pub check_proposed_iff :
    (cs : List ClassCommission) → (check_proposed cs ≡ ok tt) ↔ All IsCommission cs
unfolding check_proposed
check_proposed_iff [] = (λ e. tt, λ h. refl)
check_proposed_iff (c ∷ cs) =
    let class = reject_if_empty c.class_id Error.empty_class_id in
    let rest = check_proposed_iff cs in
    (
      λ e.
          let (e₁, r₁) = >>-eq-ok (reject_if (is_empty c.class_id) Error.empty_class_id) _ e in
          let (e₂, e₃) =
            >>-eq-ok
              (reject_if ((c.commission_div == 0) || (c.commission_mul == 0))
                Error.zero_commission_part)
              _ r₁ in
          ((class.0 e₁, ground arith, ground arith), rest.0 e₃),
      λ h.
          let (n, m, d) = h.0 in
          let mul : (c.commission_mul == 0) ≡ false = ground (arith, m) in
          let div : (c.commission_div == 0) ≡ false = ground (arith, d) in
          rw (class.1 n, div, mul) (rest.1 h.1),
    )

module _ (is_address : Bytes → Bool) where
  pub check_verifiers_iff :
      (vs : List Bytes)
      → (check_verifiers is_address vs ≡ ok tt) ↔ All (λ v. is_address v ≡ true) vs
  unfolding check_verifiers
  check_verifiers_iff [] = (λ e. tt, λ h. refl)
  check_verifiers_iff (v ∷ vs) =
      let rest = check_verifiers_iff vs in
      (
        λ e.
            let (e₁, e₂) = >>-eq-ok (reject_if (not (is_address v)) Error.invalid_address) _ e in
            (ground arith, rest.0 e₂),
        λ h. rw h.0 (rest.1 h.1),
      )

  -- ValidateGenesis accepts exactly the states whose products have all their names and an offering, whose
  -- commissions are of a class with no part 0, and whose verifiers are addresses.
  pub validate_state_iff :
      (g : GenesisState)
      → (validate_state is_address g ≡ ok tt) ↔ (
          All IsProduct g.products
          × (All IsCommission g.commissions × All (λ v. is_address v ≡ true) g.verifiers))
  unfolding validate_state
  validate_state_iff g =
      let products = check_products_iff g.products in
      let commissions = check_commissions_iff g.commissions in
      let verifiers = check_verifiers_iff g.verifiers in
      (
        λ e.
            let (e₁, r₁) = >>-eq-ok (check_products g.products) _ e in
            let (e₂, e₃) = >>-eq-ok (check_commissions g.commissions) _ r₁ in
            (products.0 e₁, (commissions.0 e₂, verifiers.0 e₃)),
        λ (p, (c, v)). rw (products.1 p, commissions.1 c) (verifiers.1 v),
      )
