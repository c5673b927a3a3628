-- ===== src/Prelude/Maps.antt =====
-- Dictionaries with texts as keys.
use Prim.Native.String.{String}
use mathlib.Core.Path.{◌≡◌}
use mathlib.Core.Bool.{false}
use mathlib.Core.Option.{Option, none, some}
use native.Mathlib.Omega.{arith}
use text.Mathlib.Text.{◌==◌}
use text.Mathlib.TextPositions.{eq_refl}
use sharpe_nova_os.Prelude.Tests.{if◌then◌else◌}

abbrev pub Dict {ℓ} : Type ℓ → Type ℓ
Dict A = String → Option A

module _ {ℓ} {A : Type ℓ} where
  abbrev pub empty_dict : Dict A
  empty_dict k = none

  -- `d[key] = value`
  abbrev pub put : String → A → Dict A → Dict A
  put key value d k = if k == key then some value else d k

  -- `d.setdefault(key, default)`
  abbrev pub get_or : A → Option A → A
  get_or default none = default
  get_or default (some a) = a

  pub put_same : (key : String) (value : A) (d : Dict A) → put key value d key ≡ some value
  put_same key value d = ground (arith, eq_refl key)

  pub put_other :
      (key other : String) (value : A) (d : Dict A)
      → (other == key) ≡ false
      → put key value d other ≡ d other
  put_other key other value d e = ground (arith, e)

  -- `d.pop(key, None)`
  abbrev pub pop : String → Dict A → Dict A
  pop key d k = if k == key then none else d k
