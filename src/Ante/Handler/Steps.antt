-- ===== src/Ante/Handler/Steps.antt =====
-- How a context goes through the decorators of a chain.
use flux_sdk_go.Common.{
  ◌≡◌, refl, sym, ap, ◌∙◌, inl, inr, false, some, List, [], ◌∷◌, ◌++◌, map, ◌>>=◌, Result, ok, err,
  panic, Bytes, arith,
}
use mathlib.Core.Path.{subst}
use flux_sdk_go.Ante.Fee.{deduct_fee_handle}
use flux_sdk_go.Ante.Fee.Laws.{Pays, IsCharged, deduct_fee_handle-Pays}
use flux_sdk_go.Ante.Verify.{eip712_handle}
use flux_sdk_go.Ante.Verify.Signers.{AreSigned, eip712_handle-AreSigned}
use flux_sdk_go.Ante.Handler.{
  Error, of_fee, of_signature, of_svm, AnteTx, LibraryDecorator, Decorator, library, deduct_fee,
  eip712_sig_verification, Env, lift_err, fee_view, sig_view, run_decorator, run_chain,
}

pub lift_err-eq-ok :
    {E A : Type 0} (f : E → Error) (r : Result E A) {a : A} → lift_err f r ≡ ok a → r ≡ ok a
unfolding lift_err
lift_err-eq-ok f (ok b) e = ground arith
lift_err-eq-ok f (err x) e = cc
lift_err-eq-ok f panic e = cc

-- The answers of a transaction that has come to the SVM decorator: one that it let through, or its error.
abbrev pub ReachesSvm : {Ctx : Type 0} → Result Error Ctx → Type 0
ReachesSvm (ok out) = Unit {0}
ReachesSvm (err (of_svm x)) = Unit {0}
ReachesSvm _ = ⊥

-- An error of another decorator is no such answer.
passed :
    {Ctx E : Type 0} (f : E → Error) (call : Result E Ctx) (next : Ctx → Result Error Ctx)
    (r : Result Error Ctx)
    → ((x : E) → ReachesSvm {Ctx = Ctx} (err (f x)) → ⊥)
    → (lift_err f call >>= next) ≡ r
    → ReachesSvm r
    → (mid : Ctx) × (call ≡ ok mid) × (next mid ≡ r)
unfolding lift_err
passed f (ok mid) next r apart e h = (mid, refl, e)
passed {Ctx} f (err x) next r apart e h =
    absurd (apart x (subst (ReachesSvm {Ctx = Ctx}) (sym e) h))
passed {Ctx} f panic next r apart e h = absurd (subst (ReachesSvm {Ctx = Ctx}) (sym e) h)

module _ {Ctx Body Coins : Type 0} (env : Env Ctx Body Coins) (tx : AnteTx Body Coins)
    (Stepped : LibraryDecorator → Ctx → Ctx → Type 0) where
  -- What the chain relies on, where `Stepped` is what each decorator of a library does to a context: one that answers
  -- a context, or an error of this program's SVM decorator, has done so and called the rest of the chain, and answers
  -- what the rest does; neither it nor the bank turns a check into a recheck.
  pub record CallsNext : Type 0 where
    pub calls :
        (step : LibraryDecorator) (next : Ctx → Result Error Ctx) (ctx : Ctx) (r : Result Error Ctx)
        → env.run_library step tx false next ctx ≡ r
        → ReachesSvm r
        → (mid : Ctx) × Stepped step ctx mid
          × (env.chain.is_recheck mid ≡ env.chain.is_recheck ctx)
          × (next mid ≡ r)
    pub charges :
        (ctx mid : Ctx) (account : Bytes) (fee : Coins)
        → env.bank.send_to_fee_collector ctx account fee ≡ some mid
        → env.chain.is_recheck mid ≡ env.chain.is_recheck ctx

  -- The context goes through the libraries' decorators, in this order and with nothing between them.
  abbrev pub Through : List LibraryDecorator → Ctx → Ctx → Type 0
  Through [] ctx out = ctx ≡ out
  Through (step ∷ steps) ctx out = (mid : Ctx) × Stepped step ctx mid × Through steps mid out

  -- The payer of the transaction has paid its fee.
  abbrev pub IsPaid : Ctx → Ctx → Type 0
  IsPaid ctx out =
      (payer : Bytes) × (account : Bytes) × Pays env.bank (fee_view tx) payer
      × (env.bank.get_account ctx payer ≡ some account)
      × IsCharged env.bank ctx account tx.fee out

  abbrev IsFresh : Ctx → Type 0
  IsFresh ctx = env.chain.is_recheck ctx ≡ false

  pub run_chain-Through :
      CallsNext
      → (steps : List LibraryDecorator) (ds : List Decorator) (ctx : Ctx) (r : Result Error Ctx)
      → IsFresh ctx
      → run_chain env tx false (map library steps ++ ds) ctx ≡ r
      → ReachesSvm r
      → (mid : Ctx) × Through steps ctx mid × IsFresh mid × (run_chain env tx false ds mid ≡ r)
  unfolding run_chain run_decorator
  run_chain-Through h [] ds ctx r fresh e reach = (ctx, refl, fresh, e)
  run_chain-Through h (step ∷ steps) ds ctx r fresh e reach =
      let (next, did, alike, rest) =
        h.calls step (run_chain env tx false (map library steps ++ ds)) ctx r e reach in
      let (mid, through, fresh', rest') =
        run_chain-Through h steps ds next r (alike ∙ fresh) rest reach in
      (mid, (next, did, through), fresh', rest')

  IsCharged-IsFresh :
      CallsNext
      → (ctx mid : Ctx) (account : Bytes) (fee : Coins) → IsCharged env.bank ctx account fee mid
      → IsFresh ctx
      → IsFresh mid
  IsCharged-IsFresh h ctx mid account fee (inl (z, same)) fresh =
      ap env.chain.is_recheck (sym same) ∙ fresh
  IsCharged-IsFresh h ctx mid account fee (inr (z, valid, sent)) fresh =
      h.charges ctx mid account fee sent ∙ fresh

  pub run_chain-IsPaid :
      CallsNext
      → (ds : List Decorator) (ctx : Ctx) (r : Result Error Ctx) → IsFresh ctx
      → run_chain env tx false (deduct_fee ∷ ds) ctx ≡ r
      → ReachesSvm r
      → (mid : Ctx) × IsPaid ctx mid × IsFresh mid × (run_chain env tx false ds mid ≡ r)
  unfolding run_chain run_decorator
  run_chain-IsPaid h ds ctx r fresh e reach =
      let (mid, did, rest) =
        passed of_fee (deduct_fee_handle env.bank (fee_view tx) ok ctx) (run_chain env tx false ds)
          r (λ x none_left. none_left) e reach in
      let (payer, account, after, pays, found, charged, same) =
        deduct_fee_handle-Pays env.bank (fee_view tx) ok ctx mid did in
      let charged' = subst (IsCharged env.bank ctx account tx.fee) (ground arith) charged in
      (
        mid,
        (payer, account, pays, found, charged'),
        IsCharged-IsFresh h ctx mid account tx.fee charged' fresh,
        rest,
      )

  pub run_chain-AreSigned :
      (ds : List Decorator) (ctx : Ctx) (r : Result Error Ctx)
      → IsFresh ctx
      → run_chain env tx false (eip712_sig_verification ∷ ds) ctx ≡ r
      → ReachesSvm r
      → AreSigned env.chain ctx (sig_view tx) × (run_chain env tx false ds ctx ≡ r)
  unfolding run_chain run_decorator
  run_chain-AreSigned ds ctx r fresh e reach =
      let (mid, did, rest) =
        passed of_signature (eip712_handle env.chain (sig_view tx) false ok ctx)
          (run_chain env tx false ds) r (λ x none_left. none_left) e reach in
      let (signed, same) =
        (eip712_handle-AreSigned env.chain (sig_view tx) ok ctx mid fresh).0 did in
      let at_mid : ctx ≡ mid = ground arith in
      (signed, ap (run_chain env tx false ds) at_mid ∙ rest)
