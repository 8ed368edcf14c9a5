-- ===== src/Prelude/Queries.antt =====
-- What WHERE and LIMIT 1 see of a table, under an insert and an update.
use Prim.Native.Nat.{ℕ, ◌+◌, ◌≤◌}
use mathlib.Core.Path.{◌≡◌, refl}
use mathlib.Core.Logic.{◌≢◌}
use mathlib.Core.Bool.{Bool, true, false}
use mathlib.Core.List.{[], ◌∷◌}
use mathlib.Core.Option.{Option, some, none}
use native.Mathlib.Omega.{arith}
use timber_ops.Prelude.Tests.{if◌then◌else◌}
use timber_ops.Prelude.Lists.{length, where_, first}
use timber_ops.Prelude.Keyed.{Table, lookup, insert, update, delete, has_unique_keys}

module _ {V : Type 0} (p : V → Bool) where
  -- The rows that pass, the number of them, and the first of them.
  abbrev pub rows_where : Table V → Table V
  rows_where = where_ (λ r. p r.1)

  abbrev pub count_where : Table V → ℕ
  count_where t = length (rows_where t)

  abbrev pub first_where : Table V → Option (ℕ × V)
  first_where = first (λ r. p r.1)

  pub count_where-insert :
      (k : ℕ) (v : V) (t : Table V)
      → count_where (insert k v t) ≡ count_where t + (if p v then 1 else 0)
  count_where-insert k v [] = ground arith
  count_where-insert k v (x ∷ t) = ground (arith, count_where-insert k v t)

  -- an update that changes nothing the test reads
  pub count_where-update :
      (k : ℕ) (v w : V) (t : Table V)
      → lookup k t ≡ some w
      → p v ≡ p w
      → count_where (update k v t) ≡ count_where t
  count_where-update k v w [] h e = refl
  count_where-update k v w (x ∷ t) h e = ground (arith, count_where-update k v w t)

  pub count_where-none : (t : Table V) → first_where t ≡ none → count_where t ≡ 0
  count_where-none [] e = refl
  count_where-none (x ∷ t) e = ground (arith, count_where-none t)

  pub count_where-some : (r : ℕ × V) (t : Table V) → first_where t ≡ some r → 1 ≤ count_where t
  count_where-some r [] e = cc
  count_where-some r (x ∷ t) e = ground (arith, count_where-some r t)

  pub first_where-insert_old :
      (r : ℕ × V) (k : ℕ) (v : V) (t : Table V)
      → first_where t ≡ some r
      → first_where (insert k v t) ≡ some r
  first_where-insert_old r k v [] e = cc
  first_where-insert_old r k v (x ∷ t) e = ground (arith, first_where-insert_old r k v t)

  pub first_where-insert_new :
      (k : ℕ) (v : V) (t : Table V)
      → first_where t ≡ none
      → p v ≡ true
      → first_where (insert k v t) ≡ some (k, v)
  first_where-insert_new k v [] e h = ground arith
  first_where-insert_new k v (x ∷ t) e h = ground (arith, first_where-insert_new k v t)

  pub first_where-insert_other :
      (k : ℕ) (v : V) (t : Table V) → p v ≡ false → first_where (insert k v t) ≡ first_where t
  first_where-insert_other k v [] h = ground arith
  first_where-insert_other k v (x ∷ t) h = ground (arith, first_where-insert_other k v t)

  pub first_where-update_other :
      (k : ℕ) (v w : V) (t : Table V)
      → lookup k t ≡ some w
      → p w ≡ false
      → p v ≡ false
      → first_where (update k v t) ≡ first_where t
  first_where-update_other k v w [] h e g = refl
  first_where-update_other k v w (x ∷ t) h e g = ground (arith, first_where-update_other k v w t)

  -- a row that passes is one reason why the query finds something
  pub first_where-lookup :
      (k : ℕ) (v : V) (t : Table V) → lookup k t ≡ some v → p v ≡ true → first_where t ≢ none
  first_where-lookup k v [] h e = cc
  first_where-lookup k v (x ∷ t) h e = ground (arith, first_where-lookup k v t)

  -- an update of the row that the query finds
  pub first_where-update_self :
      (k : ℕ) (v w : V) (t : Table V)
      → first_where t ≡ some (k, w)
      → p v ≡ true
      → lookup k t ≡ some w
      → first_where (update k v t) ≡ some (k, v)
  first_where-update_self k v w [] h e g = absurd cc
  first_where-update_self k v w (x ∷ t) h e g = ground (arith, first_where-update_self k v w t)

  -- DELETE of a row
  pub count_where-delete :
      (k : ℕ) (v : V) (t : Table V)
      → lookup k t ≡ some v
      → count_where (delete k t) + (if p v then 1 else 0) ≡ count_where t
  count_where-delete k v [] h = absurd cc
  count_where-delete k v (x ∷ t) h = ground (arith, count_where-delete k v t)

  pub lookup-first_where :
      (k : ℕ) (v : V) (t : Table V)
      → has_unique_keys t ≡ true
      → first_where t ≡ some (k, v)
      → lookup k t ≡ some v
  lookup-first_where k v [] u h = absurd cc
  lookup-first_where k v (x ∷ t) u h = ground (arith, lookup-first_where k v t)

  pub first_where_holds : (r : ℕ × V) (t : Table V) → first_where t ≡ some r → p r.1 ≡ true
  first_where_holds r [] h = absurd cc
  first_where_holds r (x ∷ t) h = ground (arith, first_where_holds r t)
