-- ===== src/Prelude/Rows.antt =====
-- Statements about all rows of a table, under an insert and an update.
use Prim.Native.Nat.{ℕ}
use mathlib.Core.Path.{◌≡◌, subst, sym}
use mathlib.Core.Logic.{inl, inr}
use mathlib.Core.Bool.{true}
use mathlib.Core.Option.{some}
use native.Mathlib.Omega.{arith}
use timber_ops.Prelude.Tests.{nat_beq, nat_beq_iff, Bool-cases, Option-cases}
use timber_ops.Prelude.Keyed.{
  Table, lookup, insert, update, lookup-update_self, lookup-update_ne, lookup-insert_old,
  lookup-insert_new, lookup-insert_ne,
}

module _ {V : Type 0} where
  pub same_row :
      (j k : ℕ) (t : Table V) (v w : V)
      → nat_beq j k ≡ true
      → lookup j t ≡ some v
      → lookup k t ≡ some w
      → v ≡ w
  same_row j k t v w e h g = let key : j ≡ k = (nat_beq_iff j k).0 e in cc (key, h, g)

  -- Every row, with its key.
  abbrev pub Every : (ℕ → V → Type 0) → Table V → Type 0
  Every P t = (k : ℕ) (v : V) → lookup k t ≡ some v → P k v

  pub Every-insert :
      (P : ℕ → V → Type 0) (i : ℕ) (w : V) (t : Table V)
      → Every P t
      → P i w
      → Every P (insert i w t)
  Every-insert P i w t all new k v h = elim (Option-cases (lookup k t)) [
    | inr (u, old) ↦
        let same : u ≡ v = cc (lookup-insert_old k i w u t old, h) in subst (P k) same (all k u old)
    | inl free ↦ elim (Bool-cases (nat_beq k i)) [
      | inl e ↦
          let key : i ≡ k = sym ((nat_beq_iff k i).0 e) in
          let here = lookup-insert_new k w t free in
          let same : w ≡ v = ground (arith, key, here, h) in
          subst (λ j. P j v) key (subst (P i) same new)
      | inr ne ↦ absurd (ground (arith, lookup-insert_ne k i w t, free, h))
    ]
  ]

  pub Every-update :
      (P : ℕ → V → Type 0) (i : ℕ) (w u : V) (t : Table V)
      → lookup i t ≡ some u
      → Every P t
      → P i w
      → Every P (update i w t)
  Every-update P i w u t there all new k v h = elim (Bool-cases (nat_beq k i)) [
    | inl e ↦
        let key : i ≡ k = sym ((nat_beq_iff k i).0 e) in
        let here = lookup-update_self i w u t there in
        let same : w ≡ v = ground (arith, key, here, h) in
        subst (λ j. P j v) key (subst (P i) same new)
    | inr ne ↦ all k v (ground (arith, lookup-update_ne k i w t))
  ]
