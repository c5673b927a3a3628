-- ===== src/Exec/Yields.antt =====
-- What an action that returns has made true: partial correctness, one rule for each way to build an
-- action. A run that raises says nothing.
use sharpe_nova_os.Prelude.{◌≡◌, refl, Bool, true, false, not, if◌then◌else◌}
use sharpe_nova_os.Exec.{
  Error, Result, ok, err, Exec, raise, lift, attempt, recover, proceed, raise_if, ◌>>=◌,
}

abbrev pub Yields {ℓ} : {S A : Type 0} → (A → S → Type ℓ) → Result A × S → Type ℓ
Yields Q (ok a, s) = Q a s
Yields Q (err e, s) = Unit

-- What a returned value is, from an equation.
pub Yields-ok {ℓ} :
    {S A : Type 0} (Q : A → S → Type ℓ) (o : Result A × S) (a : A)
    → Yields Q o
    → o.0 ≡ ok a
    → Q a o.1
Yields-ok Q (ok b, s) a q e = rw (← injected) q
  where
    injected : b ≡ a
    injected = cc
Yields-ok Q (err x, s) a q e = cc

module _ {ℓ} {S A : Type 0} (Q : A → S → Type ℓ) where
  pub Yields-raise : (e : Error) (s : S) → Yields Q (raise e s)
  unfolding raise
  Yields-raise e s = tt

  pub Yields-if :
      (b : Bool) (m n : Exec S A) (s : S)
      → (b ≡ true → Yields Q (m s))
      → (b ≡ false → Yields Q (n s))
      → Yields Q ((if b then m else n) s)
  Yields-if true m n s km kn = km refl
  Yields-if false m n s km kn = kn refl

  -- An early return: the test failed.
  pub Yields-unless :
      (b : Bool) (m n : Exec S A) (s : S)
      → (b ≡ false → Yields Q (m s))
      → (b ≡ true → Yields Q (n s))
      → Yields Q ((if not b then m else n) s)
  Yields-unless true m n s km kn = kn refl
  Yields-unless false m n s km kn = km refl

  Yields-recover :
      (r : Result A) (handler : Error → Exec S A) (s : S)
      → ((a : A) → r ≡ ok a → Q a s)
      → ((e : Error) → Yields Q (handler e s))
      → Yields Q (recover r handler s)
  Yields-recover (ok a) handler s km kh = km a refl
  Yields-recover (err e) handler s km kh = kh e

  pub Yields-attempt :
      (m : Exec S A) (handler : Error → Exec S A) (s : S)
      → Yields Q (m s)
      → ((e : Error) → Yields Q (handler e (m s).1))
      → Yields Q (attempt m handler s)
  unfolding attempt
  Yields-attempt m handler s km kh =
      Yields-recover (m s).0 handler (m s).1 (λ a e. Yields-ok Q (m s) a km e) kh

module _ {ℓ} {S A B : Type 0} (Q : B → S → Type ℓ) where
  Yields-proceed :
      (r : Result A) (k : A → Exec S B) (s : S)
      → ((a : A) → r ≡ ok a → Yields Q (k a s))
      → Yields Q (proceed r k s)
  Yields-proceed (ok a) k s h = h a refl
  Yields-proceed (err e) k s h = tt

  pub Yields-bind :
      (m : Exec S A) (k : A → Exec S B) (s : S)
      → ((a : A) → (m s).0 ≡ ok a → Yields Q (k a (m s).1))
      → Yields Q ((m >>= k) s)
  unfolding ◌>>=◌
  Yields-bind m k s h = Yields-proceed (m s).0 k (m s).1 h

  pub Yields-lift :
      (r : Result A) (k : A → Exec S B) (s : S)
      → ((a : A) → r ≡ ok a → Yields Q (k a s))
      → Yields Q ((lift r >>= k) s)
  unfolding ◌>>=◌
  Yields-lift (ok a) k s h = h a refl
  Yields-lift (err e) k s h = tt

module _ {ℓ} {S B : Type 0} (Q : B → S → Type ℓ) where
  pub Yields-raise_if :
      (c : Bool) (e : Error) (k : Unit → Exec S B) (s : S)
      → (c ≡ false → Yields Q (k tt s))
      → Yields Q ((raise_if c e >>= k) s)
  unfolding ◌>>=◌
  Yields-raise_if true e k s h = tt
  Yields-raise_if false e k s h = h refl

pub Yields-map {ℓ κ} :
    {S A : Type 0} (Q : A → S → Type ℓ) (P : A → S → Type κ) (o : Result A × S)
    → ((a : A) (s : S) → Q a s → P a s)
    → Yields Q o
    → Yields P o
Yields-map Q P (ok a, s) f q = f a s q
Yields-map Q P (err e, s) f q = tt

-- A returned value beside what every run makes of the state.
pub Yields-with {ℓ κ} :
    {S A : Type 0} (Q : A → S → Type ℓ) (P : S → Type κ) (o : Result A × S)
    → P o.1
    → Yields Q o
    → Yields (λ a s. P s × Q a s) o
Yields-with Q P (ok a, s) p q = (p, q)
Yields-with Q P (err e, s) p q = tt

-- The state that a bind leaves, by whether its first action returned.
module _ {ℓ} {S A B : Type 0} (P : S → Type ℓ) where
  proceed-leaves :
      (r : Result A) (k : A → Exec S B) (s : S)
      → ((e : Error) → r ≡ err e → P s)
      → ((a : A) → r ≡ ok a → P (k a s).1)
      → P (proceed r k s).1
  proceed-leaves (ok a) k s stopped went = went a refl
  proceed-leaves (err e) k s stopped went = stopped e refl

  pub bind-leaves :
      (m : Exec S A) (k : A → Exec S B) (s : S)
      → ((e : Error) → (m s).0 ≡ err e → P (m s).1)
      → ((a : A) → (m s).0 ≡ ok a → P (k a (m s).1).1)
      → P ((m >>= k) s).1
  unfolding ◌>>=◌
  bind-leaves m k s stopped went = proceed-leaves (m s).0 k (m s).1 stopped went
