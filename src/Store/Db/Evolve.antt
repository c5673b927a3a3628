-- ===== src/Store/Db/Evolve.antt =====
-- The rules of `Exec.Evolve` for connections and for the check that a table exists, for relations
-- that do not look at the schedule of faults.
use sharpe_nova_os.Prelude.{Bool, true, false, List, String, if◌then◌else◌}
use sharpe_nova_os.Exec.{Result, ok, err, sqlite_error, Exec}
use sharpe_nova_os.Exec.Evolve.{IsPreorder, Evolves, Evolves-bind, Evolves-gets, Evolves-raise_if}
use sharpe_nova_os.Store.Db.{Db, next_fault, connected, close, connection, require_table}

pub record IsDbPreorder (R : Db → Db → Type 0) : Type 0 where
  pub order : IsPreorder R
  pub faults_free : (s : Db) (fs : List Bool) → R s (record s { faults = fs })

module _ {A : Type 0} {R : Db → Db → Type 0} (o : IsDbPreorder R) where
  close-at :
      (before : Db) (r : Result A) (after : Db)
      → R before after
      → R before (close before (r, after)).1
  close-at before (ok a) after h = h
  close-at before (err e) after h = o.order.reflexive before

  connection-at :
      (fault : Bool) (s : Db) (out : Result A × Db)
      → R (connected s) out.1
      → R s (if fault then (err sqlite_error, connected s) else close (connected s) out).1
  connection-at true s out h = o.faults_free s _
  connection-at false s (r, after) h =
      o.order.transitive s (connected s) (close (connected s) (r, after)).1 (o.faults_free s _)
        (close-at (connected s) r after h)

  pub Evolves-connection : (work : Exec Db A) → Evolves R work → Evolves R (connection work)
  unfolding connection
  Evolves-connection work k = record {
    at = λ s. connection-at (next_fault s.faults) s (work (connected s)) (k.at (connected s));
  }

module _ {R : Db → Db → Type 0} (o : IsDbPreorder R) where
  pub Evolves-require_table : (name : String) → Evolves R (require_table name)
  unfolding require_table
  Evolves-require_table name =
      Evolves-bind o.order _ _ (Evolves-gets o.order _) (λ c. Evolves-raise_if o.order _ _)
