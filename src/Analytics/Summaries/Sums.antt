-- ===== src/Analytics/Summaries/Sums.antt =====
-- The loops of the summaries are sums.
use timber_ops.Prelude.{
  ◌≡◌, refl, ap, ◌∙◌, inl, inr, Bool, Bool-cases, true, false, ◌==◌, List, [], ◌∷◌, where_, arith,
}
use timber_ops.Prelude.Int.{◌+ℤ◌, int_laws}
use timber_ops.Prelude.Totals.{amounts, total, add_ℤ_assoc}
use timber_ops.Domain.Enums.{CargoType, cargo_type_eq, weighing_status_eq}
use timber_ops.Domain.Decimal.{Tons}
use timber_ops.Store.Rows.{Uuid, WeighingTask}
use timber_ops.Reports.Figures.{decimal_or}
use timber_ops.Reports.Rankings.Accounts.{net_of}
use timber_ops.Analytics.Summaries.{add_tasks, add_to, sum_from}

abbrev pub of_cargo : CargoType → Uuid × WeighingTask → Bool
of_cargo c r = r.1.cargo_type == c

-- `==` on cargo types, the other way round
cargo_swap : (a b : CargoType) → (a == b) ≡ (b == a)
cargo_swap a b = ground arith

pub add_tasks-total :
    (tasks : List (Uuid × WeighingTask)) (a : Tons) (f : CargoType → Tons)
    → (add_tasks tasks a f).0 ≡ a +ℤ total amounts net_of tasks
add_tasks-total [] a f = omega int_laws
add_tasks-total ((_, t) ∷ tasks) a f =
    let w = decimal_or t.net_weight_tons in
    add_tasks-total tasks (a +ℤ w) (add_to t.cargo_type w f)
    ∙ add_ℤ_assoc a w (total amounts net_of tasks)

pub add_tasks-cargo :
    (c : CargoType) (tasks : List (Uuid × WeighingTask)) (a : Tons) (f : CargoType → Tons)
    → (add_tasks tasks a f).1 c ≡ f c +ℤ total amounts net_of (where_ (of_cargo c) tasks)
add_tasks-cargo c [] a f = omega int_laws
add_tasks-cargo c ((id, t) ∷ tasks) a f =
    let w = decimal_or t.net_weight_tons in
    let rest = add_tasks-cargo c tasks (a +ℤ w) (add_to t.cargo_type w f) in
    elim (Bool-cases (t.cargo_type == c)) [
      | inl mine ↦
          let found : (c == t.cargo_type) ≡ true = cargo_swap c t.cargo_type ∙ mine in
          let start : add_to t.cargo_type w f c ≡ f c +ℤ w = rw found refl in
          rw mine (
            rest
            ∙ ap (λ n. n +ℤ total amounts net_of (where_ (of_cargo c) tasks)) start
            ∙ add_ℤ_assoc (f c) w (total amounts net_of (where_ (of_cargo c) tasks)))
      | inr other ↦
          let missed : (c == t.cargo_type) ≡ false = cargo_swap c t.cargo_type ∙ other in
          let start : add_to t.cargo_type w f c ≡ f c = rw missed refl in
          rw other (rest ∙ ap (λ n. n +ℤ total amounts net_of (where_ (of_cargo c) tasks)) start)
    ]

pub sum_from-total :
    (tasks : List (Uuid × WeighingTask)) (a : Tons)
    → sum_from a tasks ≡ a +ℤ total amounts net_of tasks
sum_from-total [] a = omega int_laws
sum_from-total ((_, t) ∷ tasks) a =
    let w = decimal_or t.net_weight_tons in
    sum_from-total tasks (a +ℤ w) ∙ add_ℤ_assoc a w (total amounts net_of tasks)
