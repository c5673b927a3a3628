-- ===== src/Store/Db/Yields.antt =====
-- What a connection that returns has made true.
use sharpe_nova_os.Prelude.{Bool, true, false, if◌then◌else◌}
use sharpe_nova_os.Exec.{Result, ok, err, sqlite_error, Exec}
use sharpe_nova_os.Exec.Yields.{Yields}
use sharpe_nova_os.Store.Db.{Db, next_fault, connected, close, connection}

module _ {A : Type 0} (Q : A → Db → Type 0) where
  close-Yields : (before : Db) (o : Result A × Db) → Yields Q o → Yields Q (close before o)
  close-Yields before (ok a, s) q = q
  close-Yields before (err e, s) q = tt

  if-Yields :
      (b : Bool) (o o' : Result A × Db) → Yields Q o → Yields Q o' → Yields Q (if b then o else o')
  if-Yields true o o' q q' = q
  if-Yields false o o' q q' = q'

  pub connection-Yields :
      (work : Exec Db A) (db : Db) → Yields Q (work (connected db)) → Yields Q (connection work db)
  unfolding connection
  connection-Yields work db q =
      if-Yields (next_fault db.faults) (err sqlite_error, connected db)
        (close (connected db) (work (connected db))) tt
        (close-Yields (connected db) (work (connected db)) q)
