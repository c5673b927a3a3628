-- ===== src/Prelude/Lists.antt =====
-- Lists measured by native numbers, searched and tested by Boolean functions.
use Prim.Native.Nat.{ℕ, suc, ◌+◌}
use mathlib.Core.Path.{◌≡◌, refl}
use mathlib.Core.Bool.{Bool, true, false}
use mathlib.Core.Option.{Option, none, some}
use mathlib.Core.List.{List, [], ◌∷◌, ◌++◌}
use native.Mathlib.Omega.{arith}
use sharpe_nova_os.Prelude.Tests.{if◌then◌else◌}

module _ {ℓ} {A : Type ℓ} where
  abbrev pub length : List A → ℕ
  length [] = 0
  length (x ∷ xs) = suc (length xs)

  -- The first element that passes the test (`SELECT … WHERE …` and `fetchone`).
  abbrev pub find_first : (A → Bool) → List A → Option A
  find_first p [] = none
  find_first p (x ∷ xs) = if p x then some x else find_first p xs

  -- Some element passes the test.
  abbrev pub exists_in : (A → Bool) → List A → Bool
  exists_in p [] = false
  exists_in p (x ∷ xs) = if p x then true else exists_in p xs

  -- How many elements pass the test (`cursor.rowcount`).
  abbrev pub count_in : (A → Bool) → List A → ℕ
  count_in p [] = 0
  count_in p (x ∷ xs) = if p x then suc (count_in p xs) else count_in p xs

  -- `UPDATE … SET … WHERE …`: the elements that pass the test are changed.
  abbrev pub update_where : (A → Bool) → (A → A) → List A → List A
  update_where p f [] = []
  update_where p f (x ∷ xs) = (if p x then f x else x) ∷ update_where p f xs

  abbrev pub All {κ} : (A → Type κ) → List A → Type κ
  All P [] = Unit
  All P (x ∷ xs) = P x × All P xs

  pub length-append : (xs ys : List A) → length (xs ++ ys) ≡ length xs + length ys
  length-append [] ys = omega arith
  length-append (x ∷ xs) ys = omega (arith, length-append xs ys)

  pub exists_in-append :
      (p : A → Bool) (xs ys : List A)
      → exists_in p (xs ++ ys) ≡ (if exists_in p xs then true else exists_in p ys)
  exists_in-append p [] ys = refl
  exists_in-append p (x ∷ xs) ys = ground (arith, exists_in-append p xs ys)

  pub find_first-append :
      (p : A → Bool) (xs ys : List A)
      → exists_in p xs ≡ false
      → find_first p (xs ++ ys) ≡ find_first p ys
  find_first-append p [] ys h = refl
  find_first-append p (x ∷ xs) ys h = ground (arith, find_first-append p xs ys)
