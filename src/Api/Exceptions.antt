-- ===== src/Api/Exceptions.antt =====
-- backend/app/api/exceptions.py: which handler answers an exception, and how.
use timber_ops.Prelude.{ℕ, String, ◌==◌, nat_eq, Option, none, some, List, [], ◌∷◌, if◌then◌else◌}
use timber_ops.Domain.Errors.{Error}
use timber_ops.Weighbridge.Device
use timber_ops.Weighbridge.Device.{WeighbridgeError}

-- The classes of backend/app/domain/exceptions.py, and `Exception`.
pub data Class : Type 0 where
  domain validation invalid_state business_rule not_found conflict authentication : Class
  permission_denied registration_disabled coded vehicle_has_history customer_has_history : Class
  paid_weighing_requires_refund reversed_billing_immutable exception : Class

abbrev pub class_index : Class → ℕ
class_index Class.domain = 0
class_index Class.validation = 1
class_index Class.invalid_state = 2
class_index Class.business_rule = 3
class_index Class.not_found = 4
class_index Class.conflict = 5
class_index Class.authentication = 6
class_index Class.permission_denied = 7
class_index Class.registration_disabled = 8
class_index Class.coded = 9
class_index Class.vehicle_has_history = 10
class_index Class.customer_has_history = 11
class_index Class.paid_weighing_requires_refund = 12
class_index Class.reversed_billing_immutable = 13
class_index Class.exception = 14

-- `__mro__`: a class and its bases.
abbrev pub domain_mro : List Class
domain_mro = Class.domain ∷ Class.exception ∷ []

abbrev pub validation_mro : List Class
validation_mro = Class.validation ∷ domain_mro

abbrev pub business_rule_mro : List Class
business_rule_mro = Class.business_rule ∷ validation_mro

abbrev pub coded_mro : List Class
coded_mro = Class.coded ∷ business_rule_mro

-- The exceptions of the libraries, of Python and of the command line are `Exception`s.
abbrev pub mro : Error → List Class
mro Error.validation = validation_mro
mro Error.invalid_state = Class.invalid_state ∷ validation_mro
mro Error.business_rule = business_rule_mro
mro Error.not_found = Class.not_found ∷ domain_mro
mro Error.conflict = Class.conflict ∷ domain_mro
mro Error.authentication = Class.authentication ∷ domain_mro
mro Error.permission_denied = Class.permission_denied ∷ domain_mro
mro Error.registration_disabled = Class.registration_disabled ∷ domain_mro
mro Error.vehicle_has_history = Class.vehicle_has_history ∷ coded_mro
mro Error.customer_has_history = Class.customer_has_history ∷ coded_mro
mro Error.paid_weighing_requires_refund = Class.paid_weighing_requires_refund ∷ coded_mro
mro Error.reversed_billing_immutable = Class.reversed_billing_immutable ∷ coded_mro
mro _ = Class.exception ∷ []

-- `exc.code` of a CodedBusinessError
abbrev pub error_code : Error → String
error_code Error.vehicle_has_history = "VEHICLE_HAS_HISTORY"
error_code Error.customer_has_history = "CUSTOMER_HAS_HISTORY"
error_code Error.paid_weighing_requires_refund = "PAID_WEIGHING_REQUIRES_REFUND"
error_code Error.reversed_billing_immutable = "REVERSED_BILLING_IMMUTABLE"
error_code _ = "BUSINESS_CONFLICT"

-- The status and the code of an answer. The messages are not kept.
pub record Envelope : Type 0 where
  pub status_code : ℕ
  pub code : String

abbrev pub envelope : ℕ → String → Envelope
envelope status_code code = record { status_code = status_code; code = code }

-- The handlers, each for the exception that it answers.
abbrev pub resource_not_found_handler : Error → Envelope
resource_not_found_handler e = envelope 404 "RESOURCE_NOT_FOUND"

abbrev pub authentication_error_handler : Error → Envelope
authentication_error_handler e = envelope 401 "AUTHENTICATION_FAILED"

abbrev pub permission_denied_handler : Error → Envelope
permission_denied_handler e = envelope 403 "PERMISSION_DENIED"

abbrev pub registration_disabled_handler : Error → Envelope
registration_disabled_handler e = envelope 403 "REGISTRATION_DISABLED"

abbrev pub invalid_state_handler : Error → Envelope
invalid_state_handler e = envelope 409 "INVALID_STATE"

abbrev pub business_conflict_handler : Error → Envelope
business_conflict_handler e = envelope 409 "BUSINESS_CONFLICT"

abbrev pub coded_business_error_handler : Error → Envelope
coded_business_error_handler e = envelope 409 (error_code e)

abbrev pub unexpected_error_handler : Error → Envelope
unexpected_error_handler e = envelope 500 "INTERNAL_SERVER_ERROR"

-- `register_exception_handlers`, without the AI tools and the weighbridge
abbrev pub handlers : List (Class × (Error → Envelope))
handlers =
    (Class.not_found, resource_not_found_handler)
    ∷ (Class.authentication, authentication_error_handler)
    ∷ (Class.permission_denied, permission_denied_handler)
    ∷ (Class.registration_disabled, registration_disabled_handler)
    ∷ (Class.invalid_state, invalid_state_handler)
    ∷ (Class.coded, coded_business_error_handler)
    ∷ (Class.conflict, business_conflict_handler)
    ∷ (Class.business_rule, business_conflict_handler)
    ∷ (Class.validation, business_conflict_handler)
    ∷ (Class.exception, unexpected_error_handler)
    ∷ []

abbrev pub registered : Class → List (Class × (Error → Envelope)) → Option (Error → Envelope)
registered c [] = none
registered c ((k, handler) ∷ hs) =
    let rest = registered c hs in if class_index k == class_index c then some handler else rest

-- Starlette takes the handler of the first class of `__mro__` that has one.
abbrev pub handler_of : List Class → Error → Envelope
handler_of [] = unexpected_error_handler
handler_of (c ∷ cs) =
    let rest = handler_of cs in elim (registered c handlers) [ none ↦ rest | some h ↦ h ]

unfoldable pub respond : Error → Envelope
respond e = handler_of (mro e) e

-- `weighbridge_error_handler`: an InvalidWeightError is a DeviceReadError.
unfoldable pub weighbridge_error_handler : WeighbridgeError → Envelope
weighbridge_error_handler WeighbridgeError.manual_mode =
    envelope 409 (Device.code WeighbridgeError.manual_mode)
weighbridge_error_handler WeighbridgeError.device_timeout =
    envelope 504 (Device.code WeighbridgeError.device_timeout)
weighbridge_error_handler WeighbridgeError.device_offline =
    envelope 503 (Device.code WeighbridgeError.device_offline)
weighbridge_error_handler WeighbridgeError.device_read =
    envelope 502 (Device.code WeighbridgeError.device_read)
weighbridge_error_handler WeighbridgeError.invalid_weight =
    envelope 502 (Device.code WeighbridgeError.invalid_weight)
