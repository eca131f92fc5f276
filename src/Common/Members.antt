-- ===== src/Common/Members.antt =====
-- What holds of every element of a list.
use flux_sdk_go.Common.Lists.{length, All, IsIn}
use mathlib.Core.Path.{◌≡◌, refl, sym, ap, subst}
use mathlib.Core.Logic.{◌≢◌, ◌⊎◌, inl, inr}
use mathlib.Core.List.{List, [], ◌∷◌, ◌++◌, map}
use Prim.Native.Nat.{suc}
use native.Mathlib.Omega.{arith}

module _ {A : Type 0} (P : A → Type 0) where
  pub All-of_members : (xs : List A) → ((x : A) → IsIn x xs → P x) → All P xs
  All-of_members [] h = tt
  All-of_members (x ∷ xs) h = (h x (inl refl), All-of_members xs (λ y m. h y (inr m)))

  pub All-member : (xs : List A) (x : A) → All P xs → IsIn x xs → P x
  All-member [] x h m = absurd m
  All-member (y ∷ xs) x h (inl e) = subst P e h.0
  All-member (y ∷ xs) x h (inr m) = All-member xs x h.1 m

module _ {A B : Type 0} (P : B → Type 0) (f : A → B) where
  pub All-map : (xs : List A) → All (λ x. P (f x)) xs → All P (map f xs)
  All-map [] h = tt
  All-map (x ∷ xs) h = (h.0, All-map xs h.1)

pub length-map {ℓ κ} :
    {A : Type ℓ} {B : Type κ} (f : A → B) (xs : List A) → length (map f xs) ≡ length xs
length-map f [] = refl
length-map f (x ∷ xs) = ap suc (length-map f xs)

pub map-ne-nil {ℓ κ} : {A : Type ℓ} {B : Type κ} (f : A → B) (xs : List A) → xs ≢ [] → map f xs ≢ []
map-ne-nil f [] h = λ e. h refl
map-ne-nil f (x ∷ xs) h = λ e. cc

pub All-imp {ℓ κ μ} :
    {A : Type ℓ} (P : A → Type κ) (Q : A → Type μ) (xs : List A)
    → ((x : A) → P x → Q x)
    → All P xs
    → All Q xs
All-imp P Q [] f h = tt
All-imp P Q (x ∷ xs) f h = (f x h.0, All-imp P Q xs f h.1)

pub ne-nil-of_length {ℓ κ} :
    {A : Type ℓ} {B : Type κ} (xs : List A) (ys : List B)
    → length ys ≡ length xs
    → xs ≢ []
    → ys ≢ []
ne-nil-of_length [] ys e h = λ _. h refl
ne-nil-of_length (x ∷ xs) [] e h = absurd (omega arith)
ne-nil-of_length (x ∷ xs) (y ∷ ys) e h = λ p. cc

module _ {A : Type 0} where
  pub IsIn-append : (x : A) (xs ys : List A) → IsIn x (xs ++ ys) → IsIn x xs ⊎ IsIn x ys
  IsIn-append x [] ys m = inr m
  IsIn-append x (y ∷ xs) ys (inl e) = inl (inl e)
  IsIn-append x (y ∷ xs) ys (inr m) = elim (IsIn-append x xs ys m) [
    | inl here ↦ inl (inr here)
    | inr there ↦ inr there
  ]

  pub IsIn-left : (x : A) (xs ys : List A) → IsIn x xs → IsIn x (xs ++ ys)
  IsIn-left x [] ys m = absurd m
  IsIn-left x (y ∷ xs) ys (inl e) = inl e
  IsIn-left x (y ∷ xs) ys (inr m) = inr (IsIn-left x xs ys m)

  pub IsIn-right : (x : A) (xs ys : List A) → IsIn x ys → IsIn x (xs ++ ys)
  IsIn-right x [] ys m = m
  IsIn-right x (y ∷ xs) ys m = inr (IsIn-right x xs ys m)

  -- No element stands twice.
  abbrev pub Distinct : List A → Type 0
  Distinct [] = Unit {0}
  Distinct (x ∷ xs) = (¬ IsIn x xs) × Distinct xs

  pub Distinct-append :
      (xs : List A) (x : A) → Distinct xs → ¬ IsIn x xs → Distinct (xs ++ (x ∷ []))
  Distinct-append [] x d n = (λ m. m, tt)
  Distinct-append (y ∷ xs) x d n = (
    λ m. elim (IsIn-append y xs (x ∷ []) m) [
      | inl here ↦ d.0 here
      | inr (inl e) ↦ n (inl (sym e))
      | inr (inr none_left) ↦ none_left
    ],
    Distinct-append xs x d.1 (λ m. n (inr m)),
  )
