-- ===== src/Svm/Convert/Tests.antt =====
-- Runs of the builder, and its theorem at a concrete transaction.
use flux_sdk_go.Common.{
  ◌≡◌, refl, String, str_eq, eq_iff, true, false, inl, inr, some, [], ◌∷◌, ok, arith,
}
use flux_sdk_go.Svm.Validate.{MsgTransaction, validate_basic}
use flux_sdk_go.Svm.Ante.Panics.{HasCallers}
use flux_sdk_go.Svm.Convert.{
  Solana, AccountMeta, Transaction, to_cosmos_msg, get_rent_exempt_lamport_amount,
}
use flux_sdk_go.Svm.Convert.Laws.{to_cosmos_msg-validate_basic}

-- Keys that are their own text.
abbrev plain : Solana
plain = record {
  PublicKey = String;
  equals = str_eq;
  equals_iff = eq_iff;
  to_string = λ s. s;
  to_string_injective = λ a b e. e;
}

abbrev meta : String → AccountMeta plain
meta key = record { public_key = key; is_signer = false; is_writable = true }

abbrev sample : Transaction plain
sample = record {
  account_keys = "payer" ∷ "program" ∷ [];
  instructions =
      record {
        program_id_index = 1;
        ix_data = 4 ∷ [];
        resolved = some (meta "program" ∷ meta "payer" ∷ meta "program" ∷ []);
      }
      ∷ [];
}

to_cosmos_msg-validate_basic_example :
    (m : MsgTransaction) × (to_cosmos_msg plain ("lux1a" ∷ []) 5 sample ≡ ok m)
    × (validate_basic (λ s. some []) m ≡ ok tt)
    × HasCallers m
to_cosmos_msg-validate_basic_example =
    to_cosmos_msg-validate_basic plain (λ s. some []) ("lux1a" ∷ []) 5 sample
      (record {
        distinct = ((λ e. ground (arith, eq_iff "program" "payer"), tt), (tt, tt));
        short = omega arith;
        has_keys = λ e. cc;
        has_instructions = λ e. cc;
        resolves = (
          record {
            metas = meta "program" ∷ meta "payer" ∷ meta "program" ∷ [];
            found = refl;
            listed = (inr (inl refl), (inl refl, (inr (inl refl), tt)));
            short = omega arith;
          },
          tt,
        );
      })
      ((λ e. cc), tt) (λ e. cc)

rent_of_nothing : get_rent_exempt_lamport_amount 0 ≡ 890880
unfolding get_rent_exempt_lamport_amount
rent_of_nothing = refl
