-- ===== src/Exec/Evolve.antt =====
-- How an action may change the state: a relation between the state before and the state after,
-- whether the action returns or raises. One rule for each way to build an action.
use sharpe_nova_os.Prelude.{◌≡◌, refl, Bool, true, false, if◌then◌else◌}
use sharpe_nova_os.Exec.{
  Error, Result, ok, err, Exec, pure, raise, lift, gets, attempt, recover, proceed, raise_if, ◌>>=◌,
}

pub record IsPreorder {S : Type 0} (R : S → S → Type 0) : Type 0 where
  pub reflexive : (s : S) → R s s
  pub transitive : (s t u : S) → R s t → R t u → R s u

-- Every run of `m` takes a state to one that `R` relates it to.
pub record Evolves {S A : Type 0} (R : S → S → Type 0) (m : Exec S A) : Type 0 where
  pub at : (s : S) → R s (m s).1

module _ {S : Type 0} {R : S → S → Type 0} (order : IsPreorder R) where
  pub Evolves-raise_if : (c : Bool) (e : Error) → Evolves R (raise_if {S = S} c e)
  unfolding raise_if
  Evolves-raise_if c e = record { at = order.reflexive }

module _ {S A : Type 0} {R : S → S → Type 0} (order : IsPreorder R) where
  pub Evolves-pure : (a : A) → Evolves R (pure a)
  unfolding pure
  Evolves-pure a = record { at = order.reflexive }

  pub Evolves-raise : (e : Error) → Evolves R (raise {A = A} e)
  unfolding raise
  Evolves-raise e = record { at = order.reflexive }

  pub Evolves-lift : (r : Result A) → Evolves R (lift r)
  unfolding lift
  Evolves-lift r = record { at = order.reflexive }

  pub Evolves-gets : (f : S → A) → Evolves R (gets f)
  unfolding gets
  Evolves-gets f = record { at = order.reflexive }

  recover-at :
      (r : Result A) (h : Error → Exec S A)
      → ((e : Error) → Evolves R (h e))
      → (s : S) → R s (recover r h s).1
  recover-at (ok a) h kh s = order.reflexive s
  recover-at (err e) h kh s = (kh e).at s

  pub Evolves-attempt :
      (m : Exec S A) (h : Error → Exec S A)
      → Evolves R m
      → ((e : Error) → Evolves R (h e))
      → Evolves R (attempt m h)
  unfolding attempt
  Evolves-attempt m h km kh = record {
    at = λ s.
        let (r, s') = m s in
        order.transitive s s' (recover r h s').1 (km.at s) (recover-at r h kh s');
  }

module _ {S A B : Type 0} {R : S → S → Type 0} (order : IsPreorder R) where
  proceed-at :
      (r : Result A) (f : A → Exec S B)
      → ((a : A) → Evolves R (f a))
      → (s : S) → R s (proceed r f s).1
  proceed-at (ok a) f kf s = (kf a).at s
  proceed-at (err e) f kf s = order.reflexive s

  pub Evolves-bind :
      (m : Exec S A) (f : A → Exec S B)
      → Evolves R m
      → ((a : A) → Evolves R (f a))
      → Evolves R (m >>= f)
  unfolding ◌>>=◌
  Evolves-bind m f km kf = record {
    at = λ s.
        let (r, s') = m s in
        order.transitive s s' (proceed r f s').1 (km.at s) (proceed-at r f kf s');
  }

module _ {S A : Type 0} {R : S → S → Type 0} where
  pub Evolves-if :
      (b : Bool) (m n : Exec S A) → Evolves R m → Evolves R n → Evolves R (if b then m else n)
  Evolves-if true m n km kn = km
  Evolves-if false m n km kn = kn

pub ruleset evolve_rules = (
  Evolves-pure, Evolves-raise, Evolves-lift, Evolves-gets, Evolves-raise_if, Evolves-attempt,
  Evolves-bind, Evolves-if,
)

-- What follows a guard may use that the guard did not raise.
module _ {S B : Type 0} {R : S → S → Type 0} (order : IsPreorder R) where
  pub Evolves-guard :
      (c : Bool) (e : Error) (f : Unit → Exec S B)
      → (c ≡ false → Evolves R (f tt))
      → Evolves R (raise_if c e >>= f)
  unfolding ◌>>=◌
  Evolves-guard true e f kf = record { at = order.reflexive }
  Evolves-guard false e f kf = kf refl

-- What follows a read may use what the state was.
module _ {S A B : Type 0} {R : S → S → Type 0} where
  pub Evolves-read :
      (f : S → A) (k : A → Exec S B) → ((s : S) → R s (k (f s) s).1) → Evolves R (gets f >>= k)
  unfolding ◌>>=◌
  Evolves-read f k h = record { at = h }
