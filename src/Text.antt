-- ===== src/Text.antt =====
-- What the program uses of Python's texts: `str.strip`, membership of character classes, the
-- decimal digits, and `json.dumps` (in `Text.Json`).
pub mod Json
pub mod Split
pub mod Words
use Prim.Native.Char.{Char, code}
use Prim.Native.String.{◌++◌, ◌∷◌, []}
use sharpe_nova_os.Prelude.{
  ℕ, zero, suc, ◌-◌, ◌/◌, ◌%◌, ◌≤◌, ◌≡◌, refl, Bool, true, false, ◌&&◌, ◌||◌, String, arith, ltb,
  leb, eqb, ◌==◌, if◌then◌else◌,
}

abbrev pub in_range : ℕ → ℕ → ℕ → Bool
in_range lo hi c = leb lo c && leb c hi

-- `str.isspace` of one code point.
unfoldable pub is_space : ℕ → Bool
is_space c =
    in_range 9 13 c
    || in_range 28 32 c
    || eqb c 133
    || eqb c 160
    || eqb c 5760
    || in_range 8192 8202 c
    || in_range 8232 8233 c
    || eqb c 8239
    || eqb c 8287
    || eqb c 12288

pub strip_left : String → String
strip_left [] = []
strip_left (c ∷ s) = let rest = strip_left s in if is_space (code c) then rest else c ∷ s

pub strip_right : String → String
strip_right [] = []
strip_right (c ∷ s) =
    let rest = strip_right s in if rest == "" && is_space (code c) then [] else c ∷ rest

-- `s.strip()`
unfoldable pub strip : String → String
unfolding strip_left strip_right is_space
strip s = strip_right (strip_left s)

pub is_lower : ℕ → Bool
is_lower = in_range 97 122

pub is_digit : ℕ → Bool
is_digit = in_range 48 57

-- `[a-z0-9_]{0,n}` up to the end of the text.
pub word_up_to : ℕ → String → Bool
unfolding is_lower is_digit
word_up_to n [] = true
word_up_to zero (c ∷ s) = false
word_up_to (suc n) (c ∷ s) =
    let rest = word_up_to n s in (is_lower (code c) || is_digit (code c) || eqb (code c) 95) && rest

-- `^[a-z][a-z0-9_]{0,63}$` with `fullmatch`: `_FAILURE_REASON_PATTERN`.
unfoldable pub is_failure_reason : String → Bool
unfolding is_lower word_up_to
is_failure_reason [] = false
is_failure_reason (c ∷ s) = is_lower (code c) && word_up_to 63 s

-- `[0-9a-f]{n}` up to the end of the text.
pub hex_exactly : ℕ → String → Bool
unfolding is_digit
hex_exactly zero [] = true
hex_exactly zero (c ∷ s) = false
hex_exactly (suc n) [] = false
hex_exactly (suc n) (c ∷ s) =
    let rest = hex_exactly n s in (is_digit (code c) || in_range 97 102 (code c)) && rest

-- `_SHA256_PATTERN.fullmatch`
unfoldable pub is_sha256 : String → Bool
unfolding hex_exactly
is_sha256 = hex_exactly 64

strip_both : strip " \n state_ping\t" ≡ "state_ping"
unfolding strip
strip_both = refl

reasons :
    (is_failure_reason "payment_replay_conflict" ≡ true) × (is_failure_reason "Payment" ≡ false)
unfolding is_failure_reason
reasons = (refl, refl)
