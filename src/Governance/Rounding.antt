-- ===== src/Governance/Rounding.antt =====
-- `round(x, 2)` as app.py uses it, half to even, on exact multiples of a small unit. `scale` units
-- make one hundredth: every finite binary number is such a multiple where `scale` is a large power of
-- two. The error of binary arithmetic on the results is not modelled.
use sharpe_nova_os.Prelude.{
  ℕ, zero, suc, ◌+◌, ◌-◌, ◌*◌, ◌/◌, ◌%◌, ◌≤◌, ◌<◌, ◌≡◌, arith, ltb, leb, eqb, if◌then◌else◌,
  Bool-cases, inl, inr,
}
use native.Mathlib.Nat.{div-add-mod, mul-le-mul_right}

-- `round(x, 2)`, in hundredths.
unfoldable pub round_to_cents : ℕ → ℕ → ℕ
round_to_cents scale x =
    if ltb (2 * (x % scale)) scale
    then x / scale
    else if ltb scale (2 * (x % scale))
    then suc (x / scale)
    else if eqb (x / scale % 2) 0
    then x / scale
    else suc (x / scale)

double : (q s : ℕ) → suc q * s ≡ q * s + s
double q s = grind arith

-- Half a hundredth is the most that rounding adds.
pub round_to_cents-le : (scale x : ℕ) → 2 * (round_to_cents scale x * scale) ≤ 2 * x + scale
unfolding round_to_cents
round_to_cents-le scale x = elim (Bool-cases (ltb (2 * (x % scale)) scale)) [
  | inl below ↦ rw below (omega (arith, parts))
  | inr at_least ↦ elim (Bool-cases (ltb scale (2 * (x % scale)))) [
    | inl above ↦ rw (at_least, above) (up (ground (arith, above)))
    | inr tie ↦ elim (Bool-cases (eqb (x / scale % 2) 0)) [
      | inl even ↦ rw (at_least, tie, even) (omega (arith, parts))
      | inr odd ↦ rw (at_least, tie, odd) (up (ground (arith, at_least)))
    ]
  ]
]
  where
    parts : x / scale * scale + x % scale ≡ x
    parts = grind (arith, div-add-mod x scale)

    up : scale ≤ 2 * (x % scale) → 2 * (suc (x / scale) * scale) ≤ 2 * x + scale
    up h = omega (arith, parts, double (x / scale) scale, h)

-- Rounding does not pass a whole number of hundredths.
pub round_to_cents-whole : (scale x n : ℕ) → 0 < scale → x ≤ n * scale → round_to_cents scale x ≤ n
round_to_cents-whole scale x n positive h = elim (Bool-cases (leb (round_to_cents scale x) n)) [
  | inl within ↦ ground (arith, within)
  | inr beyond ↦
      let more : suc n * scale ≤ round_to_cents scale x * scale =
        mul-le-mul_right scale (ground (arith, beyond)) in
      absurd (omega (arith, more, double n scale, round_to_cents-le scale x, h, positive))
]

-- What is consumed of what remains of a limit, rounded, passes the limit by half a hundredth at most.
pub round_to_cents-room :
    (scale limit n amount : ℕ)
    → amount ≤ round_to_cents scale (limit - n * scale)
    → 2 * (n * scale) ≤ 2 * limit + scale
    → 2 * ((n + amount) * scale) ≤ 2 * limit + scale
round_to_cents-room scale limit n zero room fits = grind (arith, fits)
round_to_cents-room scale limit n (suc a) room fits = omega (
  arith,
  fits,
  sum,
  double a scale,
  mul-le-mul_right scale room,
  round_to_cents-le scale (limit - n * scale),
)
  where
    sum : (n + suc a) * scale ≡ n * scale + suc a * scale
    sum = grind arith
