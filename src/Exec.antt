-- ===== src/Exec.antt =====
-- Methods that change a shared state and may raise. What was written before a raise stays written,
-- so the state comes back beside the error too; `try`/`except` is `attempt`.
pub mod Evolve
pub mod Yields
use sharpe_nova_os.Prelude.{Bool, true, false, String, if◌then◌else◌}

-- The exception classes that the handlers tell apart. `value_error` is `ValueError` and its
-- subclasses, with the reason that they carry.
pub data Error : Type 0 where
  value_error : String → Error
  runtime_error : String → Error
  sqlite_error : Error
  validation_error : Error
  type_error : Error

pub data Result {ℓ} (A : Type ℓ) : Type ℓ where
  ok : A → Result A
  err : Error → Result A

abbrev pub Exec {ℓ} : Type ℓ → Type ℓ → Type ℓ
Exec S A = S → Result A × S

module _ {ℓ} {S A : Type ℓ} where
  unfoldable pub pure : A → Exec S A
  pure a s = (ok a, s)

  unfoldable pub raise : Error → Exec S A
  raise e s = (err e, s)

  unfoldable pub lift : Result A → Exec S A
  lift r s = (r, s)

  unfoldable pub gets : (S → A) → Exec S A
  gets f s = (ok (f s), s)

  abbrev pub recover : Result A → (Error → Exec S A) → Exec S A
  recover (ok a) handler s = (ok a, s)
  recover (err e) handler s = handler e s

  -- `try: m` with `except`: the handler goes on from the state that `m` left.
  unfoldable pub attempt : Exec S A → (Error → Exec S A) → Exec S A
  attempt m handler s = let (r, s') = m s in recover r handler s'

-- `if c: raise e`
unfoldable pub raise_if : {S : Type 0} → Bool → Error → Exec S Unit
raise_if c e s = (if c then err e else ok tt, s)

module _ {ℓ} {S A B : Type ℓ} where
  abbrev pub proceed : Result A → (A → Exec S B) → Exec S B
  proceed (ok a) f s = f a s
  proceed (err e) f s = (err e, s)

  infixl 5 ◌>>=◌ ◌>>◌
  -- Opening this opens the other combinators too.
  unfoldable pub ◌>>=◌ : Exec S A → (A → Exec S B) → Exec S B
  unfolding pure raise lift gets attempt raise_if
  ◌>>=◌ m f s = let (r, s') = m s in proceed r f s'

  abbrev pub ◌>>◌ : Exec S A → Exec S B → Exec S B
  m >> k = m >>= λ _. k

-- The call returned.
abbrev pub returned {ℓ} : {A : Type ℓ} → Result A → Bool
returned (ok _) = true
returned (err _) = false
