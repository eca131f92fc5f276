-- ===== src/Ante/Handler/Order.antt =====
-- The order of the decorators: what has happened where the SVM decorator looks at a transaction.
use flux_sdk_go.Common.{
  ◌≡◌, refl, sym, ap, ◌∙◌, inl, inr, Bool, true, false, List, [], ◌∷◌, ◌>>=◌, Result, ok, err,
  panic, >>-eq-ok, Bool-cases, arith,
}
use mathlib.Core.Path.{subst}
use flux_sdk_go.Ante.Verify.Signers.{AreSigned}
use flux_sdk_go.Svm
use flux_sdk_go.Svm.Ante.{has_svm_msg, check_svm_tx, ante_handle}
use flux_sdk_go.Svm.Ante.Laws.{IsAllowed, ante_handle-IsAllowed}
use flux_sdk_go.Ante.Handler.{
  Error, of_svm, set_up_context, limit_simulation_gas, count_tx, gas_register, circuit_breaker,
  extension_options, validate_basic, tx_timeout_height, validate_memo, consume_gas_for_tx_size,
  set_pub_key, validate_sig_count, sdk_deduct_fee, sig_gas_consume, sig_verification,
  increment_sequence, redundant_relay, AnteTx, LibraryDecorator, library, svm_decorator, Env,
  web3_decorators, cosmos_decorators, lift_err, sig_view, svm_view, run_decorator, run_chain,
}
use flux_sdk_go.Ante.Handler.Steps.{
  ReachesSvm, CallsNext, Through, IsPaid, run_chain-Through, run_chain-IsPaid, run_chain-AreSigned,
}

-- The libraries' decorators before the fee of a web3 transaction.
abbrev pub web3_checks : List LibraryDecorator
web3_checks =
    set_up_context ∷ limit_simulation_gas ∷ count_tx ∷ gas_register ∷ circuit_breaker
    ∷ validate_basic ∷ tx_timeout_height ∷ validate_memo ∷ consume_gas_for_tx_size ∷ set_pub_key
    ∷ validate_sig_count ∷ []

-- The libraries' decorators of a Cosmos transaction before the SVM decorator.
abbrev pub cosmos_checks : List LibraryDecorator
cosmos_checks =
    set_up_context ∷ limit_simulation_gas ∷ count_tx ∷ gas_register ∷ circuit_breaker
    ∷ extension_options ∷ validate_basic ∷ tx_timeout_height ∷ validate_memo
    ∷ consume_gas_for_tx_size ∷ sdk_deduct_fee ∷ set_pub_key ∷ validate_sig_count ∷ sig_gas_consume
    ∷ sig_verification ∷ []

module _ {Ctx Body Coins : Type 0} (env : Env Ctx Body Coins) (tx : AnteTx Body Coins)
    (Stepped : LibraryDecorator → Ctx → Ctx → Type 0) where
  -- The SVM messages are allowed, if the decorator looks for them.
  abbrev pub MayCall : Ctx → Type 0
  MayCall ctx =
      env.svm_decorator_enabled ≡ true
      → has_svm_msg tx.svm_msgs ≡ true
      → IsAllowed (env.svm_keeper ctx) (svm_view tx)

  -- The end of both chains, from the context on which the SVM decorator looks at the transaction: it lets it through and
  -- the sequence numbers are counted, or it answers its error.
  abbrev pub Ends : Ctx → Result Error Ctx → Type 0
  Ends ctx (ok out) =
      MayCall ctx × Through env tx Stepped (increment_sequence ∷ redundant_relay ∷ []) ctx out
  Ends ctx (err (of_svm x)) =
      ante_handle (env.svm_keeper ctx) env.svm_decorator_enabled (svm_view tx) (ok ctx) ≡ err x
  Ends ctx _ = ⊥

  -- A web3 transaction: the libraries' first checks, the fee, the gas of the signatures, and on the context after these
  -- the signatures, all before the SVM decorator.
  abbrev pub Web3Run : Ctx → Result Error Ctx → Type 0
  Web3Run ctx r =
      (before : Ctx) × (paid : Ctx) × (signed : Ctx) × Through env tx Stepped web3_checks ctx before
      × IsPaid env tx Stepped before paid
      × Through env tx Stepped (sig_gas_consume ∷ []) paid signed
      × AreSigned env.chain signed (sig_view tx)
      × Ends signed r

  -- A Cosmos transaction: the libraries' checks, the fee and the signatures, all before the SVM decorator.
  abbrev pub CosmosRun : Ctx → Result Error Ctx → Type 0
  CosmosRun ctx r =
      (verified : Ctx) × Through env tx Stepped cosmos_checks ctx verified × Ends verified r

  svm_passed :
      (is_enabled : Bool) (ctx mid : Ctx)
      → ante_handle (env.svm_keeper ctx) is_enabled (svm_view tx) (ok ctx) ≡ ok mid
      → (ctx ≡ mid)
        × (is_enabled ≡ true
            → has_svm_msg tx.svm_msgs ≡ true
            → IsAllowed (env.svm_keeper ctx) (svm_view tx))
  unfolding ante_handle
  svm_passed false ctx mid e = (ground arith, λ on found. cc)
  svm_passed true ctx mid e = elim (Bool-cases (has_svm_msg tx.svm_msgs)) [
    | inl s ↦
        let (_, rest) = >>-eq-ok (check_svm_tx (env.svm_keeper ctx) (svm_view tx)) _ (rw s at e) in
        (
          ground arith,
          λ on found. ante_handle-IsAllowed (env.svm_keeper ctx) (svm_view tx) (ok ctx) mid found e,
        )
    | inr n ↦ let rest = rw n at e in (ground arith, λ on found. cc)
  ]

  -- The call of the SVM decorator, by its answer.
  Ends-by :
      (ctx : Ctx) (call : Result Svm.Ante.Error Ctx) (r : Result Error Ctx)
      → CallsNext env tx Stepped
      → env.chain.is_recheck ctx ≡ false
      → ante_handle (env.svm_keeper ctx) env.svm_decorator_enabled (svm_view tx) (ok ctx) ≡ call
      → (lift_err of_svm call
          >>= run_chain env tx false (library increment_sequence ∷ library redundant_relay ∷ []))
        ≡ r
      → ReachesSvm r
      → Ends ctx r
  unfolding lift_err run_chain
  Ends-by ctx (ok mid) r h fresh made e reach =
      let (same, allowed) = svm_passed env.svm_decorator_enabled ctx mid made in
      let rest = library increment_sequence ∷ library redundant_relay ∷ [] in
      let (last, through, _, ended) =
        run_chain-Through env tx Stepped h (increment_sequence ∷ redundant_relay ∷ []) [] ctx r
          fresh (ap (run_chain env tx false rest) same ∙ e) reach in
      subst (Ends ctx) ended (allowed, through)
  Ends-by ctx (err x) r h fresh made e reach = subst (Ends ctx) e made
  Ends-by ctx panic r h fresh made e reach = absurd (subst (ReachesSvm {Ctx = Ctx}) (sym e) reach)

  run_chain-Ends :
      (ctx : Ctx) (r : Result Error Ctx)
      → CallsNext env tx Stepped
      → env.chain.is_recheck ctx ≡ false
      → run_chain env tx false
          (svm_decorator ∷ library increment_sequence ∷ library redundant_relay ∷ [])
          ctx
        ≡ r
      → ReachesSvm r
      → Ends ctx r
  unfolding run_chain run_decorator
  run_chain-Ends ctx r h fresh e reach =
      Ends-by ctx
        (ante_handle (env.svm_keeper ctx) env.svm_decorator_enabled (svm_view tx) (ok ctx)) r h
        fresh refl e reach

  pub run_chain-Web3Run :
      (ctx : Ctx) (r : Result Error Ctx)
      → CallsNext env tx Stepped
      → env.chain.is_recheck ctx ≡ false
      → run_chain env tx false web3_decorators ctx ≡ r
      → ReachesSvm r
      → Web3Run ctx r
  run_chain-Web3Run ctx r h fresh e reach =
      let (before, checks, fresh₁, e₁) =
        run_chain-Through env tx Stepped h web3_checks _ ctx r fresh e reach in
      let (paid, pays, fresh₂, e₂) = run_chain-IsPaid env tx Stepped h _ before r fresh₁ e₁ reach in
      let (signed, gas, fresh₃, e₃) =
        run_chain-Through env tx Stepped h (sig_gas_consume ∷ []) _ paid r fresh₂ e₂ reach in
      let (sigs, e₄) = run_chain-AreSigned env tx Stepped _ signed r fresh₃ e₃ reach in
      (before, paid, signed, checks, pays, gas, sigs, run_chain-Ends signed r h fresh₃ e₄ reach)

  pub run_chain-CosmosRun :
      (ctx : Ctx) (r : Result Error Ctx)
      → CallsNext env tx Stepped
      → env.chain.is_recheck ctx ≡ false
      → run_chain env tx false cosmos_decorators ctx ≡ r
      → ReachesSvm r
      → CosmosRun ctx r
  run_chain-CosmosRun ctx r h fresh e reach =
      let (verified, checks, fresh₁, e₁) =
        run_chain-Through env tx Stepped h cosmos_checks _ ctx r fresh e reach in
      (verified, checks, run_chain-Ends verified r h fresh₁ e₁ reach)
