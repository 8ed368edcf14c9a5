-- ===== src/Prelude/Totals.antt =====
-- SQL's COUNT and SUM of the rows of a query, and GROUP BY. What is added up, and how, is an
-- interface: counts and weights are both added in any order.
use Prim.Native.Nat.{ℕ, ◌+◌}
use mathlib.Core.Path.{◌≡◌, refl, sym, ap, ◌∙◌}
use mathlib.Core.Logic.{inl, inr}
use mathlib.Core.Bool.{Bool, true, false, ◌&&◌, ◌||◌}
use mathlib.Core.List.{List, [], ◌∷◌, map}
use native.Mathlib.Omega.{arith}
use timber_ops.Prelude.Tests.{Equality, ◌==◌, if◌then◌else◌, Bool-cases}
use timber_ops.Prelude.Lists.{length, where_}
use timber_ops.Prelude.Int.{ℤ, pos, ◌+ℤ◌, int_laws}
use timber_ops.Prelude.Sorting.{insert_ordered, order_by}

pub record Addition (M : Type 0) : Type 0 where
  pub none_ : M
  pub plus : M → M → M
  pub none-plus : (a : M) → plus none_ a ≡ a
  pub plus_comm : (a b : M) → plus a b ≡ plus b a
  pub plus_assoc : (a b c : M) → plus (plus a b) c ≡ plus a (plus b c)

pub add_left_id : (a : ℕ) → 0 + a ≡ a
add_left_id a = omega arith

pub add_swap : (a b : ℕ) → a + b ≡ b + a
add_swap a b = omega arith

pub add_regroup : (a b c : ℕ) → (a + b) + c ≡ a + (b + c)
add_regroup a b c = omega arith

abbrev pub counts : Addition ℕ
counts = record {
  none_ = 0;
  plus = λ a b. a + b;
  none-plus = add_left_id;
  plus_comm = add_swap;
  plus_assoc = add_regroup;
}

pub zero-add_ℤ : (a : ℤ) → pos 0 +ℤ a ≡ a
zero-add_ℤ a = omega int_laws

pub add_ℤ_comm : (a b : ℤ) → a +ℤ b ≡ b +ℤ a
add_ℤ_comm a b = omega int_laws

pub add_ℤ_assoc : (a b c : ℤ) → (a +ℤ b) +ℤ c ≡ a +ℤ (b +ℤ c)
add_ℤ_assoc a b c = omega int_laws

abbrev pub amounts : Addition ℤ
amounts = record {
  none_ = pos 0;
  plus = λ a b. a +ℤ b;
  none-plus = zero-add_ℤ;
  plus_comm = add_ℤ_comm;
  plus_assoc = add_ℤ_assoc;
}

-- The rows of each key, in the order in which the keys are first met from the end.
module _ {A K : Type 0} ⦃e : Equality K⦄ (key : A → K) where
  abbrev pub place : A → List (K × List A) → List (K × List A)
  place x [] = (key x, x ∷ []) ∷ []
  place x ((k, ys) ∷ gs) =
      let rest = place x gs in if k == key x then (k, x ∷ ys) ∷ gs else (k, ys) ∷ rest

  unfoldable pub group_by : List A → List (K × List A)
  group_by [] = []
  group_by (x ∷ xs) = place x (group_by xs)

module _ {A M : Type 0} (s : Addition M) (w : A → M) where
  abbrev pub total : List A → M
  total [] = s.none_
  total (x ∷ xs) = s.plus (w x) (total xs)

  plus_swap : (a b c : M) → s.plus a (s.plus b c) ≡ s.plus b (s.plus a c)
  plus_swap a b c =
      sym (s.plus_assoc a b c) ∙ ap (λ m. s.plus m c) (s.plus_comm a b) ∙ s.plus_assoc b a c

  -- the rows of a condition that splits in two
  pub total-where_split :
      (p q r : A → Bool) (xs : List A)
      → ((x : A) → p x ≡ (q x || r x))
      → ((x : A) → (q x && r x) ≡ false)
      → total (where_ p xs) ≡ s.plus (total (where_ q xs)) (total (where_ r xs))
  total-where_split p q r [] h d = sym (s.none-plus s.none_)
  total-where_split p q r (x ∷ xs) h d =
      let rest = total-where_split p q r xs h d in
      let left = total (where_ q xs) in
      let right = total (where_ r xs) in
      elim (Bool-cases (q x)) [
        | inl of_q ↦
            let of_p : p x ≡ true = ground (arith, h x) in
            let not_r : r x ≡ false = ground (arith, d x) in
            rw (of_p, of_q, not_r) (ap (s.plus (w x)) rest ∙ sym (s.plus_assoc (w x) left right))
        | inr not_q ↦ elim (Bool-cases (r x)) [
          | inl of_r ↦
              let of_p : p x ≡ true = ground (arith, h x) in
              rw (of_p, not_q, of_r) (ap (s.plus (w x)) rest ∙ plus_swap (w x) left right)
          | inr not_r ↦
              let not_p : p x ≡ false = ground (arith, h x) in rw (not_p, not_q, not_r) rest
        ]
      ]

  total-insert_ordered :
      (le : A → A → Bool) (x : A) (ys : List A)
      → total (insert_ordered le x ys) ≡ s.plus (w x) (total ys)
  unfolding insert_ordered
  total-insert_ordered le x [] = refl
  total-insert_ordered le x (y ∷ ys) = elim (Bool-cases (le x y)) [
    | inl first_ ↦ rw first_ refl
    | inr later ↦
        rw later
          (ap (s.plus (w y)) (total-insert_ordered le x ys) ∙ plus_swap (w y) (w x) (total ys))
  ]

  -- The order of the rows makes no difference.
  pub total-order_by : (le : A → A → Bool) (xs : List A) → total (order_by le xs) ≡ total xs
  unfolding order_by
  total-order_by le [] = refl
  total-order_by le (x ∷ xs) =
      total-insert_ordered le x (order_by le xs) ∙ ap (s.plus (w x)) (total-order_by le xs)

module _ {A K M : Type 0} ⦃e : Equality K⦄ (key : A → K) (s : Addition M) (w : A → M) where
  abbrev pub group_total : K × List A → M
  group_total (_, ys) = total s w ys

  total-place :
      (x : A) (gs : List (K × List A))
      → total s group_total (place key x gs) ≡ s.plus (w x) (total s group_total gs)
  total-place x [] = s.plus_comm (s.plus (w x) s.none_) s.none_ ∙ s.none-plus (s.plus (w x) s.none_)
  total-place x ((k, ys) ∷ gs) = elim (Bool-cases (k == key x)) [
    | inl here ↦ rw here (s.plus_assoc (w x) (total s w ys) (total s group_total gs))
    | inr later ↦ rw later (
        ap (s.plus (total s w ys)) (total-place x gs)
        ∙ plus_swap s w (total s w ys) (w x) (total s group_total gs))
  ]

  -- The groups together hold what the rows hold.
  pub total-group_by : (xs : List A) → total s group_total (group_by key xs) ≡ total s w xs
  unfolding group_by
  total-group_by [] = refl
  total-group_by (x ∷ xs) = total-place x (group_by key xs) ∙ ap (s.plus (w x)) (total-group_by xs)

pub total-map :
    {A B M : Type 0} (s : Addition M) (w : B → M) (f : A → B) (xs : List A)
    → total s w (map f xs) ≡ total s (λ x. w (f x)) xs
total-map s w f [] = refl
total-map s w f (x ∷ xs) = ap (s.plus (w (f x))) (total-map s w f xs)

pub total-cong :
    {A M : Type 0} (s : Addition M) (v w : A → M) (xs : List A)
    → ((x : A) → v x ≡ w x)
    → total s v xs ≡ total s w xs
total-cong s v w [] h = refl
total-cong s v w (x ∷ xs) h =
    ap (λ m. s.plus m (total s v xs)) (h x) ∙ ap (s.plus (w x)) (total-cong s v w xs h)

pub length-total : {A : Type 0} (xs : List A) → length xs ≡ total counts (λ _. 1) xs
length-total [] = refl
length-total (x ∷ xs) = omega (arith, length-total xs)

pub where-where :
    {A : Type 0} (p q : A → Bool) (xs : List A)
    → where_ (λ x. p x && q x) xs ≡ where_ q (where_ p xs)
where-where p q [] = refl
where-where p q (x ∷ xs) = elim (Bool-cases (p x)) [
  | inl kept ↦ rw kept (ap (λ ys. if q x then x ∷ ys else ys) (where-where p q xs))
  | inr dropped ↦ rw dropped (where-where p q xs)
]
