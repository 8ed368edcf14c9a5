-- ===== src/System/Induction.antt =====
-- A property that every change keeps is kept by every run of requests.
use timber_ops.Prelude.{List, [], ◌∷◌}
use timber_ops.Store.Db.{Db, Env}
use timber_ops.System.Requests.{Request, step, run}
use timber_ops.System.Changes.{Change}
use timber_ops.System.Execution.Dispatch.{step-Change}

module _ (P : Db → Type 0)
    (keeps : (env : Env) (db db' : Db) → Change env db db' → P db → P db') where
  pub run_induction : (rs : List (Env × Request)) (db : Db) → P db → P (run rs db)
  unfolding run
  run_induction [] db p = p
  run_induction ((env, r) ∷ rs) db p =
      run_induction rs (step (env, r) db) (keeps env db _ (step-Change env r db) p)
