-- ===== src/Prelude/Keyed.antt =====
-- A database table: the rows under their primary keys, in insertion order.
use Prim.Native.Nat.{ℕ}
use mathlib.Core.Path.{◌≡◌, refl}
use mathlib.Core.Logic.{◌≢◌}
use mathlib.Core.Bool.{Bool, true, ◌&&◌}
use mathlib.Core.List.{List, [], ◌∷◌, ◌++◌}
use mathlib.Core.Option.{Option, none, some}
use native.Mathlib.Omega.{arith}
use timber_ops.Prelude.Tests.{nat_beq, if◌then◌else◌, is_none}

abbrev pub Table {ℓ} : Type ℓ → Type ℓ
Table V = List (ℕ × V)

module _ {ℓ} {V : Type ℓ} where
  abbrev pub lookup : ℕ → Table V → Option V
  lookup k [] = none
  lookup k ((j, v) ∷ t) = let rest = lookup k t in if nat_beq j k then some v else rest

  -- INSERT: the row goes to the end, also under a key that is taken; `has_unique_keys` tells.
  abbrev pub insert : ℕ → V → Table V → Table V
  insert k v t = t ++ (k, v) ∷ []

  -- UPDATE of the row under its key.
  abbrev pub update : ℕ → V → Table V → Table V
  update k v [] = []
  update k v ((j, w) ∷ t) =
      let rest = update k v t in if nat_beq j k then (j, v) ∷ t else (j, w) ∷ rest

  -- DELETE.
  abbrev pub delete : ℕ → Table V → Table V
  delete k [] = []
  delete k ((j, w) ∷ t) = let rest = delete k t in if nat_beq j k then t else (j, w) ∷ rest

  -- The primary key.
  abbrev pub has_unique_keys : Table V → Bool
  has_unique_keys [] = true
  has_unique_keys ((j, _) ∷ t) = is_none (lookup j t) && has_unique_keys t

  pub lookup-update_self :
      (k : ℕ) (v w : V) (t : Table V) → lookup k t ≡ some w → lookup k (update k v t) ≡ some v
  lookup-update_self k v w [] e = cc
  lookup-update_self k v w (x ∷ t) e = ground (arith, lookup-update_self k v w t)

  pub lookup-update_ne :
      (j k : ℕ) (v : V) (t : Table V) → j ≢ k → lookup j (update k v t) ≡ lookup j t
  lookup-update_ne j k v [] h = refl
  lookup-update_ne j k v (x ∷ t) h = ground (arith, lookup-update_ne j k v t h)

  -- An INSERT hides no row.
  pub lookup-insert_old :
      (j k : ℕ) (v w : V) (t : Table V) → lookup j t ≡ some w → lookup j (insert k v t) ≡ some w
  lookup-insert_old j k v w [] e = cc
  lookup-insert_old j k v w (x ∷ t) e = ground (arith, lookup-insert_old j k v w t)

  pub lookup-insert_new :
      (k : ℕ) (v : V) (t : Table V) → lookup k t ≡ none → lookup k (insert k v t) ≡ some v
  lookup-insert_new k v [] e = ground arith
  lookup-insert_new k v (x ∷ t) e = ground (arith, lookup-insert_new k v t)

  pub lookup-insert_ne :
      (j k : ℕ) (v : V) (t : Table V) → j ≢ k → lookup j (insert k v t) ≡ lookup j t
  lookup-insert_ne j k v [] h = ground arith
  lookup-insert_ne j k v (x ∷ t) h = ground (arith, lookup-insert_ne j k v t h)

  pub lookup-insert-ne-none :
      (j k : ℕ) (v : V) (t : Table V) → j ≡ k → lookup j (insert k v t) ≢ none
  lookup-insert-ne-none j k v [] e = ground arith
  lookup-insert-ne-none j k v (x ∷ t) e = ground (arith, lookup-insert-ne-none j k v t e)

  -- A table with unique keys had no row yet under the key that was inserted.
  pub lookup_fresh :
      (k : ℕ) (v : V) (t : Table V) → has_unique_keys (insert k v t) ≡ true → lookup k t ≡ none
  lookup_fresh k v [] h = refl
  lookup_fresh k v (x ∷ t) h = ground (arith, lookup_fresh k v t, lookup-insert-ne-none x.0 k v t)
