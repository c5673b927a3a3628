-- ===== src/Service/World.antt =====
-- The state behind the service: the control store, the runtime guard, and what was asked of the
-- facilitator so far.
use sharpe_nova_os.Exec.{Exec}
use sharpe_nova_os.Store.Db.{Db}
use sharpe_nova_os.Guard.{GuardDb}
use sharpe_nova_os.Payment.Process.{Log}
use sharpe_nova_os.Exec.Evolve.{IsPreorder, Evolves}

pub record World : Type 0 where
  pub store : Db
  pub guard : GuardDb
  pub asked : Log

module _ {A : Type 0} where
  unfoldable pub on_store : Exec Db A → Exec World A
  on_store m w = let (r, s) = m w.store in (r, record w { store = s })

  unfoldable pub on_guard : Exec GuardDb A → Exec World A
  on_guard m w = let (r, g) = m w.guard in (r, record w { guard = g })

  unfoldable pub on_facilitator : Exec Log A → Exec World A
  on_facilitator m w = let (r, l) = m w.asked in (r, record w { asked = l })

-- How the three parts may change.
pub record Through (R : Db → Db → Type 0) (G : GuardDb → GuardDb → Type 0) (L : Log → Log → Type 0)
    (v w : World) : Type 0 where
  pub store : R v.store w.store
  pub guard : G v.guard w.guard
  pub asked : L v.asked w.asked

module _ {R : Db → Db → Type 0} {G : GuardDb → GuardDb → Type 0} {L : Log → Log → Type 0}
    (r : IsPreorder R) (g : IsPreorder G) (l : IsPreorder L) where
  pub Through-order : IsPreorder (Through R G L)
  Through-order = record {
    reflexive = λ w. record {
      store = r.reflexive w.store;
      guard = g.reflexive w.guard;
      asked = l.reflexive w.asked;
    };
    transitive = λ u v w p q. record {
      store = r.transitive u.store v.store w.store p.store q.store;
      guard = g.transitive u.guard v.guard w.guard p.guard q.guard;
      asked = l.transitive u.asked v.asked w.asked p.asked q.asked;
    };
  }

  module _ {A : Type 0} where
    pub on_store-Through : (m : Exec Db A) → Evolves R m → Evolves (Through R G L) (on_store m)
    unfolding on_store
    on_store-Through m k = record {
      at = λ w. record {
        store = k.at w.store;
        guard = g.reflexive w.guard;
        asked = l.reflexive w.asked;
      };
    }

    pub on_guard-Through : (m : Exec GuardDb A) → Evolves G m → Evolves (Through R G L) (on_guard m)
    unfolding on_guard
    on_guard-Through m k = record {
      at = λ w. record {
        store = r.reflexive w.store;
        guard = k.at w.guard;
        asked = l.reflexive w.asked;
      };
    }

    pub on_facilitator-Through :
        (m : Exec Log A) → Evolves L m → Evolves (Through R G L) (on_facilitator m)
    unfolding on_facilitator
    on_facilitator-Through m k = record {
      at = λ w. record {
        store = r.reflexive w.store;
        guard = g.reflexive w.guard;
        asked = k.at w.asked;
      };
    }
