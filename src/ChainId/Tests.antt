-- ===== src/ChainId/Tests.antt =====
-- Runs on identifiers.
use flux_sdk_go.ChainId.Laws.{IsIdentifier, chain_id_iff}
use flux_sdk_go.ChainId.Generate.{parse_chain_id-decimal}
use flux_sdk_go.Common.{
  ℕ, ◌≤◌, ◌≢◌, ◌↔◌, some, [], ◌∷◌, ◌++◌, Bytes, arith, ◌≡◌, refl, true, false, ok, err, codes,
  length, cut_prefix, digits_value,
}
use flux_sdk_go.ChainId.{
  invalid_chain_id, span_lower, all_digits, is_epoch, match_epoch, find_submatch, is_valid_chain_id,
  space_width, skip_spaces, trim_space, parse_chain_id, decimal, decimal_digits, generate_chain_id,
}

run : Unit {0}
unfolding span_lower all_digits is_epoch match_epoch find_submatch is_valid_chain_id space_width
    skip_spaces trim_space parse_chain_id decimal_digits generate_chain_id cut_prefix digits_value
run = tt

parses_flux : parse_chain_id (codes " flux-1 ") ≡ ok 1
unfolding run
parses_flux = refl

refuses_nameless :
    (is_valid_chain_id (codes "-1") ≡ true) × (parse_chain_id (codes "-1") ≡ err invalid_chain_id)
unfolding run
refuses_nameless = (refl, refl)

refuses_spaced : is_valid_chain_id (codes " flux-1") ≡ false
unfolding run
refuses_spaced = refl

generates : generate_chain_id 32 ≡ codes "flux-42"
unfolding run
generates = refl

chain_id_iff_example :
    ((is_valid_chain_id (codes "-1") ≡ true) ↔ (
      (length (codes "-1") ≤ 48)
      × ((name : Bytes) × (epoch : Bytes) × IsIdentifier name epoch (codes "-1"))))
    × ((n : ℕ)
        → (parse_chain_id (codes "-1") ≡ ok n) ↔ (
            (name : Bytes) × (epoch : Bytes) × IsIdentifier name epoch (trim_space (codes "-1"))
            × (length (trim_space (codes "-1")) ≤ 48)
            × (name ≢ [])
            × (digits_value 0 epoch ≡ some n)))
chain_id_iff_example = chain_id_iff (codes "-1")

decimal_of_120 : decimal 120 ≡ codes "120"
unfolding decimal_digits
decimal_of_120 = refl

parse_chain_id-decimal_example :
    (is_valid_chain_id (codes "lux-" ++ decimal 120) ≡ true)
    × (parse_chain_id (codes "lux-" ++ decimal 120) ≡ ok 120)
parse_chain_id-decimal_example =
    parse_chain_id-decimal 108 (117 ∷ 120 ∷ []) 120
      ((omega arith, omega arith), ((omega arith, omega arith), ((omega arith, omega arith), tt)))
      (omega arith) (rw decimal_of_120 (omega arith))
