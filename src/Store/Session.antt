-- ===== src/Store/Session.antt =====
-- SQLAlchemy's session as the services use it: what was added and changed is written by `flush`,
-- which raises if a constraint is broken; a commit makes it lasting. Sessions do not flush by
-- themselves (backend/app/db/session.py), and a call that raises leaves the database as it was.
use timber_ops.Prelude.{arith, true, ◌≡◌, if◌then◌else◌}
use timber_ops.Domain.Errors.{◌>>=◌, Result, ok, err, integrity_error, data_error, conflict}
use timber_ops.Store.Db.{Db}
use timber_ops.Store.Constraints.{satisfies, in_range}

-- `session.flush()`, and `session.commit()` with nothing around it
unfoldable pub flush : Db → Result Db
unfolding satisfies in_range
flush db =
    if in_range db then if satisfies db then ok db else err integrity_error else err data_error

-- `except IntegrityError: raise ConflictError`
abbrev pub as_conflict {ℓ} : {A : Type ℓ} → Result A → Result A
as_conflict (ok a) = ok a
as_conflict (err integrity_error) = err conflict
as_conflict (err e) = err e

-- `_commit` of the weighing service, and the guarded commits of the others
unfoldable pub commit : Db → Result Db
unfolding flush
commit db = as_conflict (flush db)

-- What a database that was written satisfies.
pub record IsCommitted (db : Db) : Type 0 where
  pub constraints : satisfies db ≡ true
  pub ranges : in_range db ≡ true

pub flush-eq-ok : (db db' : Db) → flush db ≡ ok db' → (db' ≡ db) × IsCommitted db'
unfolding flush
flush-eq-ok db db' h = ground arith

pub commit-eq-ok : (db db' : Db) → commit db ≡ ok db' → (db' ≡ db) × IsCommitted db'
unfolding commit
commit-eq-ok db db' h = ground arith

-- A call that ends in `_commit` and returns an object has written what it added to the session.
pub commits-eq-ok :
    {A : Type 0} (w : Db) (r r' : A) (db' : Db)
    → ◌>>=◌ {B = A × Db} (commit w) (λ d. ok (r, d)) ≡ ok (r', db')
    → (r' ≡ r) × (db' ≡ w) × IsCommitted db'
unfolding commit
commits-eq-ok w r r' db' h = ground arith

pub flushes-eq-ok :
    {A : Type 0} (w : Db) (r r' : A) (db' : Db)
    → ◌>>=◌ {B = A × Db} (flush w) (λ d. ok (r, d)) ≡ ok (r', db')
    → (r' ≡ r) × (db' ≡ w) × IsCommitted db'
unfolding flush
flushes-eq-ok w r r' db' h = ground arith
