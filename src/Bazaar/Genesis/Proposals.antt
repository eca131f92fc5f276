-- ===== src/Bazaar/Genesis/Proposals.antt =====
-- The proposals that the bazaar module accepts, beside the genesis states that it accepts.
use flux_sdk_go.Common.{
  ◌≡◌, refl, ◌≢◌, ◌↔◌, Bool, true, [], ok, >>-eq-ok, reject_if, Bytes, All, arith,
}
use flux_sdk_go.Bazaar.{has_none}
use flux_sdk_go.Bazaar.Laws.{reject_if-has_none}
use flux_sdk_go.Bazaar.Genesis.Laws.{
  IsCommission, check_proposed_iff, check_verifiers_iff, validate_state_iff,
}
use flux_sdk_go.Bazaar.Genesis.{
  Error, GenesisState, ClassCommissionsProposal, VerifiersProposal, check_proposed, check_verifiers,
  validate_state, validate_commissions_proposal, validate_verifiers_proposal,
}

module _ (is_address : Bytes → Bool) (is_content : Bytes → Bytes → Bool) where
  -- What the two proposals have to be.
  abbrev pub IsCommissionsProposal : ClassCommissionsProposal → Type 0
  IsCommissionsProposal p =
      (p.class_commissions ≢ [])
      × (All IsCommission p.class_commissions × (is_content p.title p.description ≡ true))

  abbrev pub IsVerifiersProposal : VerifiersProposal → Type 0
  IsVerifiersProposal v =
      (v.verifiers ≢ [])
      × (All (λ a. is_address a ≡ true) v.verifiers × (is_content v.title v.description ≡ true))

  -- ValidateBasic of the two proposals: a list of commissions that is not empty, each of a class with no part 0;
  -- or a list of verifiers that is not empty, each an address; and in both an abstract that governance accepts.
  validate_proposals_iff :
      (p : ClassCommissionsProposal) (v : VerifiersProposal)
      → ((validate_commissions_proposal is_content p ≡ ok tt) ↔ IsCommissionsProposal p)
        × ((validate_verifiers_proposal is_address is_content v ≡ ok tt) ↔ IsVerifiersProposal v)
  unfolding validate_commissions_proposal validate_verifiers_proposal
  validate_proposals_iff p v =
      let some_part = reject_if-has_none p.class_commissions Error.empty_commissions in
      let parts = check_proposed_iff p.class_commissions in
      let some_one = reject_if-has_none v.verifiers Error.empty_verifiers in
      let people = check_verifiers_iff is_address v.verifiers in
      (
        (
          λ e.
              let (e₁, r₁) =
                >>-eq-ok (reject_if (has_none p.class_commissions) Error.empty_commissions) _ e in
              let (e₂, e₃) = >>-eq-ok (check_proposed p.class_commissions) _ r₁ in
              (some_part.0 e₁, (parts.0 e₂, ground arith)),
          λ (n, (c, a)). rw (some_part.1 n, parts.1 c, a) refl,
        ),
        (
          λ e.
              let (e₁, r₁) =
                >>-eq-ok (reject_if (has_none v.verifiers) Error.empty_verifiers) _ e in
              let (e₂, e₃) = >>-eq-ok (check_verifiers is_address v.verifiers) _ r₁ in
              (some_one.0 e₁, (people.0 e₂, ground arith)),
          λ (n, (c, a)). rw (some_one.1 n, people.1 c, a) refl,
        ),
      )

  -- Where a genesis state and both proposals are accepted, so is the state with the commissions and
  -- the verifiers of the proposals in the place of its own.
  pub proposals-validate_state :
      (g : GenesisState) (p : ClassCommissionsProposal) (v : VerifiersProposal)
      → validate_state is_address g ≡ ok tt
      → validate_commissions_proposal is_content p ≡ ok tt
      → validate_verifiers_proposal is_address is_content v ≡ ok tt
      → validate_state is_address (record {
        products = g.products;
        commissions = p.class_commissions;
        verifiers = v.verifiers;
      })
        ≡ ok tt
  proposals-validate_state g p v valid commissions verifiers =
      let (products, _) = (validate_state_iff is_address g).0 valid in
      let accepted = validate_proposals_iff p v in
      (validate_state_iff is_address _).1
        (products, ((accepted.0.0 commissions).1.0, (accepted.1.0 verifiers).1.0))
