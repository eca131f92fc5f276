-- ===== src/Svm/Ante/Tests.antt =====
-- Runs of the decorator, and its theorems at concrete transactions.
use flux_sdk_go.Common.{
  ℕ, ◌≡◌, refl, ◌≢◌, inr, eq_iff, true, some, [], ◌∷◌, Result, ok, err, panic, arith,
}
use flux_sdk_go.Svm.Validate.{validate_basic}
use flux_sdk_go.Svm.Validate.Laws.{validate_basic_iff}
use flux_sdk_go.Svm.Ante.{
  SvmKeeper, SdkTx, Error, not_a_signer, has_svm_msg, first_transaction, check_signer_links,
  check_signing_account, check_ix_accounts, check_instructions, check_svm_tx, ante_handle,
}
use flux_sdk_go.Svm.Ante.Laws.{IsAllowed, ante_handle-IsAllowed, ante_handle-passes}
use flux_sdk_go.Svm.Ante.Panics.{signing_at, carried, ante_handle-panic, ante_handle-ne-panic}

abbrev keeper : SvmKeeper
keeper = record {
  get_account_link = λ addr. some (record { cosmos_addr = addr; svm_addr = 9 ∷ [] });
  get_account_link_by_svm_addr = λ addr. some (record { cosmos_addr = 1 ∷ []; svm_addr = addr });
  acc_address_from_bech32 = λ s. some (1 ∷ []);
  base58_decode = λ s. 9 ∷ [];
}

abbrev signed_tx : SdkTx
signed_tx = carried (signing_at ("a" ∷ "b" ∷ []) 1) ((1 ∷ []) ∷ [])

abbrev next : Result Error ℕ
next = ok 3

run : Unit {0}
unfolding ante_handle has_svm_msg check_svm_tx first_transaction check_signer_links
    check_instructions check_ix_accounts check_signing_account
run = tt

ante_handle_runs :
    (ante_handle keeper true signed_tx next ≡ ok 3)
    × (ante_handle keeper true (carried (signing_at ("a" ∷ []) 0) ((2 ∷ []) ∷ [])) next
        ≡ err (not_a_signer "a"))
    × (ante_handle keeper true (carried (signing_at ("a" ∷ []) 1) []) next ≡ panic)
unfolding run
ante_handle_runs = (refl, refl, refl)

has_svm : has_svm_msg signed_tx.msgs ≡ true
unfolding has_svm_msg
has_svm = refl

ante_handle-IsAllowed_example : IsAllowed keeper signed_tx
ante_handle-IsAllowed_example =
    ante_handle-IsAllowed keeper signed_tx next 3 has_svm ante_handle_runs.0

ante_handle-passes_example : ante_handle keeper true signed_tx next ≡ next
ante_handle-passes_example =
    ante_handle-passes keeper true signed_tx next (inr (inr ante_handle-IsAllowed_example))

ante_handle-panic_example :
    (validate_basic (λ s. some (1 ∷ [])) (signing_at ("a" ∷ []) 1) ≡ ok tt)
    × (ante_handle keeper true (carried (signing_at ("a" ∷ []) 1) []) next ≡ panic)
ante_handle-panic_example =
    ante_handle-panic keeper ("a" ∷ []) [] next (λ e. cc) (tt, tt) (omega arith)

signing_at_valid :
    validate_basic keeper.acc_address_from_bech32 (signing_at ("a" ∷ "b" ∷ []) 1) ≡ ok tt
signing_at_valid =
    (validate_basic_iff keeper.acc_address_from_bech32 (signing_at ("a" ∷ "b" ∷ []) 1) (omega arith)
        (omega arith)).1
      (record {
        signers_parse = tt;
        has_budget = omega arith;
        has_accounts = λ e. cc;
        has_instructions = λ e. cc;
        accounts_distinct = ((λ e. ground (arith, eq_iff "b" "a"), tt), (tt, tt));
        placed = (
          (
            record {
              id_bound = omega arith;
              caller_bound = omega arith;
              callee_bound = omega arith;
              first = refl;
            },
            tt,
          ),
          tt,
        );
      })

ante_handle-ne-panic_example : ante_handle keeper true signed_tx next ≢ panic
ante_handle-ne-panic_example =
    ante_handle-ne-panic keeper true signed_tx next
      ((signing_at_valid, ((omega arith, tt), tt)), tt) (λ e. cc)
