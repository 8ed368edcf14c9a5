-- ===== src/Lib.antt =====
-- A model of the backend of TimberOps, which weighs trucks at a timber yard, and what holds of it.
--
-- A task takes a truck through its weighing: it is created for a vehicle, gets a tare reading, waits
-- for its gross reading, is weighed again while it is overweight, and is completed, or cancelled or
-- deleted before. Completion bills it, at the price of the rule for the vehicle's type; the fee is
-- paid or waived, unless the task is reversed. Vehicles and customers are the master data. A user's
-- roles say what the user may do, and the first administrator is made by a command. The dashboard
-- and the reports count what is not deleted and not reversed; a weighbridge shows weights, which are
-- entered by hand. The AI tools ask for summaries, overweight readings and single tasks; an auditor
-- lists the audit trail. The HTTP routes ask for a token and a permission before they call a service.
-- Every call of a service is one database transaction, and most of them write an audit entry.
--
-- The files, and what they are of (paths from the repository's root):
--   Domain/Enums, Errors        backend/app/domain/enums.py and exceptions.py
--   Domain/Decimal, Weighing    backend/app/domain/weighing.py: `quantize_tons`, `calculate_weight`
--   Store/Rows, Constraints     backend/app/models: the rows and the constraints of the tables
--   Store/Db, Session           the database, what a request draws, `flush` and `commit`
--                               (backend/app/db/session.py and base.py)
--   Weighing/*                  backend/app/services/weighing_service.py, with the commands of
--                               backend/app/schemas/weighing.py and lifecycle.py
--   Billing/*                   backend/app/services/billing_service.py
--   Reversal, Reversal/*        backend/app/services/weighing_reversal_service.py
--   Master/*                    backend/app/services/vehicle_service.py and customer_service.py
--   Access/*                    backend/app/services/user_service.py, rbac_service.py and
--                               bootstrap_admin_service.py, with backend/app/models/rbac.py
--   Domain/Days                 dates, and the days of a clock at UTC+8, of several services
--   Reports/*                   backend/app/services/dashboard_service.py, report_service.py, with
--                               backend/app/domain/weighing_validity.py
--   Weighbridge/*               backend/app/integrations/weighbridge and
--                               backend/app/services/weighbridge_service.py
--   Analytics, Analytics/*      backend/app/services/analytics_service.py
--   Audit, Audit/*              backend/app/services/audit_service.py
--   System/*                    runs of requests, which call the services one after another
--   Api, Api/*                  backend/app/api/v1: the routes that write, with dependencies.py and
--                               exceptions.py of backend/app/api
--   Tests/*                     a small database, a day of requests on it, and the theorems there
-- A method of a service is a function of the same name (a leading underscore is dropped), which
-- takes the database, and returns an object with the database after it, or the exception.
--
-- How a proof about all requests goes: each `*-eq-ok` lemma says what a call has tested and written
-- when it returns; System/Execution turns these into the kinds of `Change` of System/Changes; a
-- property that each kind keeps is kept by every run (System/Induction).
--
-- Choices of the model:
--   - Ids and times are numbers, a time in microseconds. A request reads the clock once (`now`),
--     where the code may read it again, and draws its ids from a function (`uuid`), of which nothing
--     is assumed: an id that is taken already breaks the primary key and the call raises.
--   - The text of a task number is drawn from the surroundings too.
--   - A Decimal is a coefficient and a number of places, a stored weight a number of thousandths, a
--     fee a number of hundredths. More than 28 digits raise InvalidOperation, as in the default
--     context of Python; a weight of more digits than its column raises DataError.
--   - A call that raises leaves the database as it was, since its session is closed without commit.
--   - The rows of a table stand in the order of their insertion.
--   - A date is Python's ordinal, 1 for 0001-01-01; a date that Python has no day before or after for
--     raises OverflowError where the code asks for that day.
--   - No loop is recursive: there is no fuel.
--   - Parameters: the hash of a password and its verification, which bcrypt does; the decoding of a
--     token, by PyJWT; the order of texts in a query, which is the collation of the database; upper
--     and lower case; and the texts of ids and fees.
-- Not modelled: the lengths of text columns, the validators of the schemas, the workbooks, metrics
-- and logs, and of HTTP the paths, the bodies and the routes that only read.
-- `cancel_task` is a request here, though no route calls it. A run takes requests one after another;
-- what happens between the reads and the flush of `reverse` is its argument `others`.
pub mod Api
pub mod Audit
pub mod Analytics
pub mod Prelude
pub mod Domain
pub mod Store
pub mod Billing
pub mod Weighing
pub mod Reversal
pub mod Master
pub mod Reports
pub mod Weighbridge
pub mod Access
pub mod System
pub mod Tests
