-- ===== src/Ante/Handler/Laws.antt =====
-- What a transaction has passed that has come to the SVM decorator, and the keepers that the handler requires.
use flux_sdk_go.Common.{
  ◌≡◌, refl, sym, ◌⊎◌, inl, inr, Bool, true, false, Option, none, some, List, [], ◌∷◌, codes, ◌>>=◌,
  ◌>>◌, Check, Result, ok, panic, >>-eq-ok, bytes_eq, bytes_eq_iff, Bool-cases,
}
use mathlib.Core.Path.{subst}
use flux_sdk_go.Ante.Handler.{
  Error, require, AnyOption, AnteTx, LibraryDecorator, Decorator, HandlerOptions, Env, web3_url,
  web3_decorators, cosmos_decorators, ante_decorators, check_options, new_ante_handler,
}
use flux_sdk_go.Ante.Handler.Steps.{ReachesSvm, CallsNext}
use flux_sdk_go.Ante.Handler.Order.{Web3Run, CosmosRun, run_chain-Web3Run, run_chain-CosmosRun}

-- The first option of a web3 transaction has the web3 type; a plain transaction has no option.
abbrev pub IsWeb3 : Option (List AnyOption) → Type 0
IsWeb3 options =
    (o : AnyOption) × (rest : List AnyOption) × (options ≡ some (o ∷ rest))
    × (o.type_url ≡ codes "/flux.types.v1beta1.ExtensionOptionsWeb3Tx")

abbrev pub IsPlain : Option (List AnyOption) → Type 0
IsPlain options = (options ≡ none) ⊎ (options ≡ some [])

-- All that the handler is built with is there.
abbrev pub IsComplete : HandlerOptions → Type 0
IsComplete o =
    (o.has_account_keeper ≡ true)
    × (o.has_bank_keeper ≡ true)
    × (o.has_sign_mode_handler ≡ true)
    × (o.has_wasm_config ≡ true)
    × (o.has_tx_counter_store ≡ true)
    × (o.has_circuit_keeper ≡ true)
    × (o.has_svm_keeper ≡ true)

required : (b : Bool) → require b ≡ ok tt → b ≡ true
required true e = refl
required false e = cc

check_options-IsComplete : (o : HandlerOptions) → check_options o ≡ ok tt → IsComplete o
unfolding check_options
check_options-IsComplete o e =
    let (a, e₁) = >>-eq-ok (require o.has_account_keeper) _ e in
    let (b, e₂) = >>-eq-ok (require o.has_bank_keeper) _ e₁ in
    let (c, e₃) = >>-eq-ok (require o.has_sign_mode_handler) _ e₂ in
    let (d, e₄) = >>-eq-ok (require o.has_wasm_config) _ e₃ in
    let (f, e₅) = >>-eq-ok (require o.has_tx_counter_store) _ e₄ in
    let (g, h) = >>-eq-ok (require o.has_circuit_keeper) _ e₅ in
    (
      required o.has_account_keeper a,
      required o.has_bank_keeper b,
      required o.has_sign_mode_handler c,
      required o.has_wasm_config d,
      required o.has_tx_counter_store f,
      required o.has_circuit_keeper g,
      required o.has_svm_keeper h,
    )

-- A check that passes or panics.
abbrev IsCalm : Check Error → Type 0
IsCalm m = (m ≡ ok tt) ⊎ (m ≡ panic)

require-IsCalm : (b : Bool) → IsCalm (require b)
require-IsCalm true = inl refl
require-IsCalm false = inr refl

>>-IsCalm : (m k : Check Error) → IsCalm m → IsCalm k → IsCalm (m >> k)
>>-IsCalm m k (inl e) h = rw e h
>>-IsCalm m k (inr e) h = rw e (inr refl)

check_options-IsCalm : (o : HandlerOptions) → IsCalm (check_options o)
unfolding check_options
check_options-IsCalm o = >>-IsCalm _ _ (require-IsCalm o.has_account_keeper) (
    >>-IsCalm _ _ (require-IsCalm o.has_bank_keeper) (
      >>-IsCalm _ _ (require-IsCalm o.has_sign_mode_handler) (
        >>-IsCalm _ _ (require-IsCalm o.has_wasm_config) (
          >>-IsCalm _ _ (require-IsCalm o.has_tx_counter_store) (
            >>-IsCalm _ _ (require-IsCalm o.has_circuit_keeper)
              (require-IsCalm o.has_svm_keeper))))))

reached :
    {Ctx : Type 0} (m : Check Error) (k r : Result Error Ctx)
    → IsCalm m
    → (m >> k) ≡ r
    → ReachesSvm r
    → (m ≡ ok tt) × (k ≡ r)
reached m k r (inl passes) e h = (passes, rw passes at e)
reached {Ctx} m k r (inr stops) e h =
    let e' = rw stops at e in absurd (subst (ReachesSvm {Ctx = Ctx}) (sym e') h)

dispatched :
    {Ctx : Type 0} (options : Option (List AnyOption)) (k : List Decorator → Result Error Ctx)
    (r : Result Error Ctx)
    → (ante_decorators options >>= k) ≡ r
    → ReachesSvm r
    → (IsWeb3 options × (k web3_decorators ≡ r)) ⊎ (IsPlain options × (k cosmos_decorators ≡ r))
unfolding ante_decorators
dispatched none k r e h = inr (inl refl, e)
dispatched (some []) k r e h = inr (inr refl, e)
dispatched {Ctx} (some (o ∷ rest)) k r e h = elim (Bool-cases (bytes_eq o.type_url web3_url)) [
  | inl same ↦ inl ((o, rest, refl, (bytes_eq_iff o.type_url web3_url).0 same), (rw same at e))
  | inr differ ↦ let e' = rw differ at e in absurd (subst (ReachesSvm {Ctx = Ctx}) (sym e') h)
]

-- What a transaction has passed, neither simulated nor checked again, that NewAnteHandler lets through, or that it
-- rejects with an error of the SVM decorator, where the decorators of the libraries call the rest of the chain. The
-- keepers that are required are there. Either the first extension option is the web3 one, and in this order: the
-- libraries' checks up to the number of signatures, the payer is charged, the gas of the signatures is consumed,
-- each signer has signed the EIP-712 hash, and only then the SVM decorator has looked at the transaction; or there is
-- no option, and it has looked only after the libraries' checks, their fee and their verification of the
-- signatures. Where the transaction is let through, the SVM decorator, if it is enabled, has allowed a svm message,
-- and the sequence numbers are counted and the relay is checked last. An option of any other type is never let through.
pub new_ante_handler-Passes :
    {Ctx Body Coins : Type 0} (env : Env Ctx Body Coins) (tx : AnteTx Body Coins)
    (Stepped : LibraryDecorator → Ctx → Ctx → Type 0) (options : HandlerOptions) (ctx : Ctx)
    (r : Result Error Ctx)
    → CallsNext env tx Stepped
    → env.chain.is_recheck ctx ≡ false
    → new_ante_handler env tx false options ctx ≡ r
    → ReachesSvm r
    → IsComplete options
      × ((IsWeb3 tx.options × Web3Run env tx Stepped ctx r)
          ⊎ (IsPlain tx.options × CosmosRun env tx Stepped ctx r))
unfolding new_ante_handler
new_ante_handler-Passes env tx Stepped options ctx r h fresh e reach =
    let (complete, e₁) =
      reached (check_options options) _ r (check_options-IsCalm options) e reach in
    elim (dispatched tx.options _ r e₁ reach) [
      | inl (web3, e₂) ↦
          let (_, e₃) =
            reached (require options.has_wasm_keeper) _ r (require-IsCalm options.has_wasm_keeper)
              e₂ reach in
          (
            check_options-IsComplete options complete,
            inl (web3, run_chain-Web3Run env tx Stepped ctx r h fresh e₃ reach),
          )
      | inr (plain, e₂) ↦
          let (_, e₃) =
            reached (require options.has_wasm_keeper) _ r (require-IsCalm options.has_wasm_keeper)
              e₂ reach in
          (
            check_options-IsComplete options complete,
            inr (plain, run_chain-CosmosRun env tx Stepped ctx r h fresh e₃ reach),
          )
    ]
