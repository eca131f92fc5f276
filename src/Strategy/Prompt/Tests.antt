-- ===== src/Strategy/Prompt/Tests.antt =====
-- Templates of prompts.
use flux_sdk_go.Common.{◌≡◌, ◌↔◌, refl, List, [], ◌∷◌, ok, err, codes, All, arith}
use flux_sdk_go.Strategy.Prompt.{
  Error, outside, scan_byte, find_vars, check_definition, check_definitions, validate_prompt,
}
use flux_sdk_go.Strategy.Prompt.Laws.{
  Piece, plain, dollar_sign, empty_braces, unclosed, AreApart, variable, render, variables,
  IsDefinition, validate_prompt-render,
}

finds_two : find_vars outside (codes "$$${a:b}${}x${c}") ≡ codes "a:b" ∷ codes "c" ∷ []
unfolding find_vars scan_byte
finds_two = refl

accepts_swap : validate_prompt (codes "swap ${amount:coin} now") ≡ ok tt
unfolding validate_prompt find_vars scan_byte check_definitions check_definition
accepts_swap = refl

refuses_unnamed : validate_prompt (codes "swap ${:coin}") ≡ err Error.invalid_definition
unfolding validate_prompt find_vars scan_byte check_definitions check_definition
refuses_unnamed = refl

-- The template `$${amount:coin}${}x${`.
abbrev swap : List Piece
swap =
    dollar_sign
    ∷ variable (codes "amount:coin")
    ∷ empty_braces
    ∷ plain (codes "x")
    ∷ unclosed []
    ∷ []

swap-AreApart : AreApart swap
unfolding render
swap-AreApart = (omega arith, ((λ p. cc), omega arith, (omega arith, (tt, refl))))

validate_prompt-render_example :
    (find_vars outside (render swap) ≡ variables swap)
    × ((validate_prompt (render swap) ≡ ok tt) ↔ All IsDefinition (variables swap))
validate_prompt-render_example = validate_prompt-render swap swap-AreApart
