-- ===== src/Billing/Pricing.antt =====
-- The rule that the billing service picks: the query of `_effective_rule`, against what it means.
use timber_ops.Prelude.{
  ◌≡◌, ◌⊎◌, true, false, if◌then◌else◌, nat_eq, Option, some, none, List, [], ◌∷◌,
}
use timber_ops.Domain.Enums.{VehicleType}
use timber_ops.Store.Rows.{Uuid, Time, BillingRule}
use timber_ops.Store.Db.{Db}
use timber_ops.Billing.Fees.{applies, newer}

-- A row stands in a list of rows.
abbrev pub IsIn : Uuid × BillingRule → List (Uuid × BillingRule) → Type 0
IsIn x [] = ⊥
IsIn x (y ∷ ys) = (x ≡ y) ⊎ IsIn x ys

abbrev choose : Uuid × BillingRule → Option (Uuid × BillingRule) → Option (Uuid × BillingRule)
choose x none = some x
choose x (some y) = if newer y.1 x.1 then some y else some x

-- What the choice of a rule promises: it is a rule of the vehicle's type, effective by then, and
-- none such is effective later, or as late and created later; without one, there is no such rule.
pub data IsPriced (t : VehicleType) (at : Time) (db : Db)
    : Option (Uuid × BillingRule) → Type 0 where
  by_rule :
      (r : Uuid × BillingRule)
      → IsIn r db.billing_rules
      → applies t at r ≡ true
      → ((x : Uuid × BillingRule)
          → IsIn x db.billing_rules
          → applies t at x ≡ true
          → newer x.1 r.1 ≡ false)
      → IsPriced t at db (some r)
  no_rule :
      ((x : Uuid × BillingRule) → IsIn x db.billing_rules → applies t at x ≡ false)
      → IsPriced t at db none
