-- ===== src/Prelude/Integers.antt =====
-- The order of Python's integers.
use mathlib.Core.Path.{◌≡◌, refl, ap}
use mathlib.Core.Bool.{Bool, true, false}
use mathlib.Core.Logic.{inl, inr}
use native.Mathlib.Omega.{arith}
use sharpe_nova_os.Prelude.Tests.{Bool-cases}
use sharpe_nova_os.Prelude.Numbers.{ℤ, pos, negsuc, int_eq, int_leb}

-- What comes after `a`, and is not `a`, does not come before it.
pub int_leb_passed :
    (a b c : ℤ) → int_leb a b ≡ true → int_leb b c ≡ true → int_eq c a ≡ false → int_leb c a ≡ false
int_leb_passed (pos a) (pos b) (pos c) p q n = ground arith
int_leb_passed (pos a) (pos b) (negsuc c) p q n = cc
int_leb_passed (pos a) (negsuc b) c p q n = cc
int_leb_passed (negsuc a) (pos b) (pos c) p q n = refl
int_leb_passed (negsuc a) (pos b) (negsuc c) p q n = cc
int_leb_passed (negsuc a) (negsuc b) (pos c) p q n = refl
int_leb_passed (negsuc a) (negsuc b) (negsuc c) p q n = ground arith

int_leb_trans : (a b c : ℤ) → int_leb a b ≡ true → int_leb b c ≡ true → int_leb a c ≡ true
int_leb_trans (pos a) (pos b) (pos c) p q = ground arith
int_leb_trans (pos a) (pos b) (negsuc c) p q = cc
int_leb_trans (pos a) (negsuc b) c p q = cc
int_leb_trans (negsuc a) (pos b) (pos c) p q = refl
int_leb_trans (negsuc a) (pos b) (negsuc c) p q = cc
int_leb_trans (negsuc a) (negsuc b) (pos c) p q = refl
int_leb_trans (negsuc a) (negsuc b) (negsuc c) p q = ground arith

pub int_eq-leb : (a b : ℤ) → int_eq a b ≡ true → int_leb a b ≡ true
int_eq-leb (pos a) (pos b) e = ground arith
int_eq-leb (pos a) (negsuc b) e = cc
int_eq-leb (negsuc a) (pos b) e = cc
int_eq-leb (negsuc a) (negsuc b) e = ground arith

differ : (b : Bool) → b ≡ true → b ≡ false → ⊥
differ true t f = cc
differ false t f = cc

-- What comes after what is past the epoch is past it.
pub still_past :
    (last w epoch : ℤ)
    → int_leb last w ≡ true
    → int_leb last epoch ≡ false
    → (int_leb w epoch ≡ false) × (int_eq w epoch ≡ false)
still_past last w epoch later past = (ahead, apart)
  where
    ahead : int_leb w epoch ≡ false
    ahead = elim (Bool-cases (int_leb w epoch)) [
      | inl back ↦ absurd (differ _ (int_leb_trans last w epoch later back) past)
      | inr on ↦ on
    ]

    apart : int_eq w epoch ≡ false
    apart = elim (Bool-cases (int_eq w epoch)) [
      | inl same ↦ absurd (differ _ (int_eq-leb w epoch same) ahead)
      | inr other ↦ other
    ]

pub int_eq→eq : (a b : ℤ) → int_eq a b ≡ true → a ≡ b
int_eq→eq (pos a) (pos b) e = ap pos (ground arith)
int_eq→eq (pos a) (negsuc b) e = cc
int_eq→eq (negsuc a) (pos b) e = cc
int_eq→eq (negsuc a) (negsuc b) e = ap negsuc (ground arith)

pub int_eq_sym : (a b : ℤ) → int_eq a b ≡ true → int_eq b a ≡ true
int_eq_sym (pos a) (pos b) e = ground arith
int_eq_sym (pos a) (negsuc b) e = cc
int_eq_sym (negsuc a) (pos b) e = cc
int_eq_sym (negsuc a) (negsuc b) e = ground arith
