-- ===== src/Common/Search.antt =====
-- The first position at which a test passes, and membership by position.
use flux_sdk_go.Common.Tests.{Bool-cases}
use flux_sdk_go.Common.Lists.{length, get_elem?, All, IsIn}
use Prim.Native.Nat.{ℕ, zero, suc, ◌+◌, ◌<◌}
use mathlib.Core.Path.{◌≡◌, refl, ap}
use mathlib.Core.Logic.{◌⊎◌, inl, inr}
use mathlib.Core.Bool.{Bool, true, false}
use mathlib.Core.List.{List, [], ◌∷◌, ◌++◌, map}
use mathlib.Core.Option
use mathlib.Core.Option.{Option, none, some}
use native.Mathlib.Omega.{arith}

-- The first index of a joined list, `k` being how many elements stand before the list.
abbrev pub or_later : Option ℕ → ℕ → Option ℕ → Option ℕ
or_later none k o = Option.map (λ i. k + i) o
or_later (some i) k o = some i

module _ {ℓ} {A : Type ℓ} (p : A → Bool) where
  -- The first index whose element passes the test.
  abbrev pub find_index : List A → Option ℕ
  find_index [] = none
  find_index (x ∷ xs) = elim (p x) [ true ↦ some 0 | false ↦ Option.map suc (find_index xs) ]

  pub find_index-append :
      (xs ys : List A)
      → find_index (xs ++ ys) ≡ or_later (find_index xs) (length xs) (find_index ys)
  find_index-append [] ys = elim (find_index ys) as (λ o. o ≡ or_later none 0 o) [
    | none ↦ refl
    | some i ↦ ap some (omega arith)
  ]
  find_index-append (x ∷ xs) ys = ground (arith, find_index-append xs ys)

  -- An element that passes the test ends the search: what follows it does not count.
  pub find_index-found :
      (xs ys : List A) (x : A)
      → p x ≡ true
      → (i : ℕ) × (find_index (xs ++ (x ∷ [])) ≡ some i) × (find_index (xs ++ (x ∷ ys)) ≡ some i)
  find_index-found [] ys x h = (0, rw h refl, rw h refl)
  find_index-found (y ∷ xs) ys x h =
      let (i, e, e') = find_index-found xs ys x h in
      elim (Bool-cases (p y)) [
        | inl t ↦ (0, rw t refl, rw t refl)
        | inr f ↦ (suc i, rw (f, e) refl, rw (f, e') refl)
      ]

  -- Where the search ends, the test passes.
  pub find_index-passes :
      (xs : List A) (i : ℕ)
      → find_index xs ≡ some i
      → (x : A) × (get_elem? xs i ≡ some x) × (p x ≡ true)
  find_index-passes [] i e = cc
  find_index-passes (x ∷ xs) zero e = (x, refl, ground arith)
  find_index-passes (x ∷ xs) (suc i) e = find_index-passes xs i (ground arith)

module _ {A : Type 0} (p : A → Bool) where
  -- The search ends within the list if an element passes the test.
  pub find_index-lt :
      (xs : List A) (x : A)
      → IsIn x xs
      → p x ≡ true
      → (i : ℕ) × (find_index p xs ≡ some i) × (i < length xs)
  find_index-lt [] x m h = absurd m
  find_index-lt (y ∷ xs) x m h = elim (Bool-cases (p y)) [
    | inl t ↦ (0, ground arith, omega arith)
    | inr f ↦ let (i, e, lt) = find_index-lt xs x (rest m f) h in (suc i, ground arith, omega arith)
  ]
    where
      rest : (y ≡ x) ⊎ IsIn x xs → p y ≡ false → IsIn x xs
      rest (inl same) f = cc
      rest (inr later) f = later

-- The search goes by what the tests answer on the elements, also through `map`.
pub find_index-map {ℓ κ} :
    {A : Type ℓ} {B : Type κ} (p : A → Bool) (q : B → Bool) (f : A → B) (xs : List A)
    → All (λ x. q (f x) ≡ p x) xs
    → find_index q (map f xs) ≡ find_index p xs
find_index-map p q f [] h = refl
find_index-map p q f (x ∷ xs) h = ground (arith, find_index-map p q f xs h.1)
