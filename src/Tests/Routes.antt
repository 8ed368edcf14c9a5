-- ===== src/Tests/Routes.antt =====
-- The theorems on the routes, applied to the calls of an administrator, of a user without a role and
-- of nobody.
use timber_ops.Prelude.{◌≡◌, refl, String, some, none, Option, [], ◌∷◌}
use timber_ops.Store.Session.{flush, commit}
use timber_ops.Billing.Fees.{
  ensure_record_for_completed_task, create_record, effective_rule, newest,
}
use timber_ops.Weighing.Tasks.{get_task_for_update}
use timber_ops.Weighing.Lifecycle.{complete_task}
use timber_ops.System.Requests.{execute, run}
use timber_ops.Api.{Call, Claims, Credentials, Route, handle, serve}
use timber_ops.Api.Permitted.{permitted, serve-run}
use timber_ops.Tests.Fixtures.{env_at, weighed_db, undo_input}
use timber_ops.Tests.Accounts.{ann_admin, with_ann}

abbrev as_is : String → String
as_is s = s

-- Every token is Ann's.
abbrev of_ann : String → Option Claims
of_ann token = some (record { sub = 20; username = "ann" })

abbrev header : Credentials
header = record { scheme = "bearer"; token = "" }

abbrev finishing : Call
finishing = record { env = env_at 7; credentials = some header; route = Route.complete_task 20 }

abbrev nameless : Call
nameless = record { env = env_at 8; credentials = none; route = Route.reverse_task 20 undo_input }

serve-run_example :
    serve as_is of_ann (nameless ∷ finishing ∷ []) ann_admin weighed_db
    ≡ run (permitted as_is of_ann (nameless ∷ finishing ∷ []) ann_admin) weighed_db
serve-run_example = serve-run as_is of_ann (nameless ∷ finishing ∷ []) ann_admin weighed_db

unknown_answer : handle as_is of_ann nameless ann_admin weighed_db ≡ (401, weighed_db)
unfolding handle
unknown_answer = refl

forbidden_answer : handle as_is of_ann finishing with_ann weighed_db ≡ (403, weighed_db)
unfolding handle
forbidden_answer = refl

finished_answer : (handle as_is of_ann finishing ann_admin weighed_db).0 ≡ 200
unfolding handle execute complete_task get_task_for_update ensure_record_for_completed_task
    create_record effective_rule newest flush commit
finished_answer = refl
