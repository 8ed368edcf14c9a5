-- ===== src/Prelude/Groups.antt =====
-- SQL's MIN over the groups of a GROUP BY, and rows that a uniqueness constraint tells apart.
use Prim.Native.Nat.{ℕ, ◌≤◌}
use mathlib.Core.Path.{◌≡◌, refl, sym, ap, ◌∙◌, subst}
use mathlib.Core.Logic.{inl, inr}
use mathlib.Core.Bool.{Bool, true, false, not, ◌&&◌, ◌||◌}
use mathlib.Core.List.{List, [], ◌∷◌, map}
use mathlib.Core.Option.{Option, none, some}
use native.Mathlib.Omega.{arith}
use timber_ops.Prelude.Tests.{◌==◌, nat_eq, leb, if◌then◌else◌, Bool-cases}
use timber_ops.Prelude.Lists.{length, where_, all, any, distinct}
use timber_ops.Prelude.Keyed.{Table, lookup}
use timber_ops.Prelude.Totals.{group_by, place}

-- SQL's MIN of the rows of a group, which has one row at least.
abbrev pub minimum : List ℕ → ℕ
minimum [] = 0
minimum (n ∷ []) = n
minimum (n ∷ m ∷ ms) = let rest = minimum (m ∷ ms) in if leb n rest then n else rest

minimum-attained : (n : ℕ) (ns : List ℕ) → any (λ m. m == minimum (n ∷ ns)) (n ∷ ns) ≡ true
minimum-attained n [] = ground arith
minimum-attained n (m ∷ ms) = ground (arith, minimum-attained m ms)

all_mono :
    {A : Type 0} (p q : A → Bool) (xs : List A)
    → ((x : A) → p x ≡ true → q x ≡ true)
    → all p xs ≡ true
    → all q xs ≡ true
all_mono p q [] h a = refl
all_mono p q (x ∷ xs) h a = ground (arith, h x, all_mono p q xs h)

minimum-least : (n : ℕ) (ns : List ℕ) → all (λ m. leb (minimum (n ∷ ns)) m) (n ∷ ns) ≡ true
minimum-least n [] = ground arith
minimum-least n (m ∷ ms) =
    let rest =
      all_mono (λ i. leb (minimum (m ∷ ms)) i) (λ i. leb (minimum (n ∷ m ∷ ms)) i) (m ∷ ms)
        (λ i h. ground arith) (minimum-least m ms) in
    ground (arith, rest)

module _ {A : Type 0} where
  -- A row of a list: what all rows have, it has.
  abbrev pub IsIn : A → List A → Type 0
  IsIn x xs = (p : A → Bool) → all p xs ≡ true → p x ≡ true

  pub IsIn-cons : (x y : A) (xs : List A) → IsIn x xs → IsIn x (y ∷ xs)
  IsIn-cons x y xs m p h = m p (ground arith)

  pub IsIn-head : (x : A) (xs : List A) → IsIn x (x ∷ xs)
  IsIn-head x xs p h = ground arith

  pub any-true : (p : A → Bool) (xs : List A) → any p xs ≡ true → (x : A) × IsIn x xs × (p x ≡ true)
  any-true p [] h = absurd cc
  any-true p (x ∷ xs) h = elim (Bool-cases (p x)) [
    | inl here ↦ (x, IsIn-head x xs, here)
    | inr other ↦ let (y, m, q) = any-true p xs (ground arith) in (y, IsIn-cons y x xs m, q)
  ]

  pub any-false : (p : A → Bool) (xs : List A) → any p xs ≡ false → all (λ x. not (p x)) xs ≡ true
  any-false p [] h = refl
  any-false p (x ∷ xs) h = ground (arith, any-false p xs)

  -- Rows of the same place, where a constraint lets no two rows have one place.
  module _ (same : A → A → Bool) (at : A → Bool)
      (meets : (x y : A) → at x ≡ true → at y ≡ true → same x y ≡ true) where
    apart :
        (x : A) (xs : List A)
        → at x ≡ true
        → any (same x) xs ≡ false
        → all (λ y. not (at y)) xs ≡ true
    apart x [] h d = refl
    apart x (y ∷ ys) h d = ground (arith, meets x y h, apart x ys h)

    none_at : (xs : List A) → all (λ y. not (at y)) xs ≡ true → length (where_ at xs) ≡ 0
    none_at [] h = refl
    none_at (x ∷ xs) h = ground (arith, none_at xs)

    pub one_at : (xs : List A) → distinct same xs ≡ true → length (where_ at xs) ≤ 1
    one_at [] d = omega arith
    one_at (x ∷ xs) d = elim (Bool-cases (at x)) [
      | inl here ↦
          let others = none_at xs (apart x xs here (ground arith)) in
          rw here (omega (arith, others))
      | inr other ↦ rw other (one_at xs (ground arith))
    ]

    -- what one of them has, all of them have
    pub all_at :
        (e : A → Bool) (xs : List A)
        → distinct same xs ≡ true
        → any (λ x. e x && at x) xs ≡ true
        → all (λ x. not (at x) || e x) xs ≡ true
    all_at e [] d h = refl
    all_at e (x ∷ xs) d h = elim (Bool-cases (at x)) [
      | inl here ↦
          let others = apart x xs here (ground arith) in
          let rest =
            all_mono (λ y. not (at y)) (λ y. not (at y) || e y) xs (λ y n. ground arith) others in
          elim (Bool-cases (e x)) [
            | inl holds ↦ ground (arith, rest)
            | inr fails ↦
                let (y, m, q) = any-true (λ y. e y && at y) xs (ground arith) in
                absurd (ground (arith, m (λ y. not (at y)) others))
          ]
      | inr other ↦ ground (arith, all_at e xs)
    ]

abbrev grouped : {A : Type 0} → Option (List A) → List A
grouped none = []
grouped (some xs) = xs

-- the rows of a group, if there are any
abbrev pub non_empty : {A : Type 0} → List A → Option (List A)
non_empty [] = none
non_empty (x ∷ xs) = some (x ∷ xs)

grouped-non_empty : {A : Type 0} (xs : List A) → grouped (non_empty xs) ≡ xs
grouped-non_empty [] = refl
grouped-non_empty (x ∷ xs) = refl

module _ {A : Type 0} (key : A → ℕ) (k : ℕ) where
  lookup-place :
      (x : A) (gs : Table (List A))
      → lookup k (place key x gs)
        ≡ (if key x == k then some (x ∷ grouped (lookup k gs)) else lookup k gs)
  lookup-place x [] = ground arith
  lookup-place x ((j, ys) ∷ gs) = ground (arith, lookup-place x gs)

  abbrev of_key : A → Bool
  of_key x = key x == k

  -- GROUP BY puts the rows of a key together, in their order.
  pub lookup-group_by : (xs : List A) → lookup k (group_by key xs) ≡ non_empty (where_ of_key xs)
  unfolding group_by
  lookup-group_by [] = refl
  lookup-group_by (x ∷ xs) = elim (Bool-cases (key x == k)) [
    | inl here ↦ rw here (
        lookup-place x (group_by key xs)
        ∙ rw here (
            ap (λ g. some (x ∷ grouped g)) (lookup-group_by xs)
            ∙ ap (λ g. some (x ∷ g)) (grouped-non_empty (where_ of_key xs))))
    | inr other ↦ rw other (lookup-place x (group_by key xs) ∙ rw other (lookup-group_by xs))
  ]

abbrev pub applied : {A B : Type 0} → (A → B) → Option A → Option B
applied f none = none
applied f (some a) = some (f a)

pub lookup-map :
    {A B : Type 0} (f : A → B) (k : ℕ) (t : Table A)
    → lookup k (map (λ g. (g.0, f g.1)) t) ≡ applied f (lookup k t)
lookup-map f k [] = refl
lookup-map f k ((j, v) ∷ t) = elim (Bool-cases (j == k)) [
  | inl here ↦ rw here refl
  | inr other ↦ rw other (lookup-map f k t)
]

pub all-implied :
    {A : Type 0} (q p : A → Bool) (xs : List A)
    → all p (where_ q xs) ≡ true
    → all (λ x. not (q x) || p x) xs ≡ true
all-implied q p [] h = refl
all-implied q p (x ∷ xs) h = ground (arith, all-implied q p xs)

all-map :
    {A B : Type 0} (f : A → B) (p : B → Bool) (xs : List A)
    → all p (map f xs) ≡ all (λ x. p (f x)) xs
all-map f p [] = refl
all-map f p (x ∷ xs) = ap (λ b. p (f x) && b) (all-map f p xs)

any-map :
    {A B : Type 0} (f : A → B) (p : B → Bool) (xs : List A)
    → any p (map f xs) ≡ any (λ x. p (f x)) xs
any-map f p [] = refl
any-map f p (x ∷ xs) = ap (λ b. p (f x) || b) (any-map f p xs)

any-where :
    {A : Type 0} (q p : A → Bool) (xs : List A) → any p (where_ q xs) ≡ any (λ x. q x && p x) xs
any-where q p [] = refl
any-where q p (x ∷ xs) = ground (arith, any-where q p xs)

-- `SELECT key, min(seq) ... WHERE wanted GROUP BY key`
module _ {A : Type 0} (key seq : A → ℕ) (wanted : A → Bool) (k : ℕ) where
  abbrev pub least : List A → Option ℕ
  least xs = lookup k (map (λ g. (g.0, minimum (map seq g.1))) (group_by key (where_ wanted xs)))

  abbrev rows : List A → List A
  rows xs = where_ (λ x. key x == k) (where_ wanted xs)

  least_lem : (xs : List A) → least xs ≡ applied (λ g. minimum (map seq g)) (non_empty (rows xs))
  least_lem xs =
      lookup-map (λ g. minimum (map seq g)) k (group_by key (where_ wanted xs))
      ∙ ap (applied (λ g. minimum (map seq g))) (lookup-group_by key k (where_ wanted xs))

  minimum_of :
      (n : ℕ) (ys : List A)
      → applied (λ g. minimum (map seq g)) (non_empty ys) ≡ some n
      → (any (λ y. seq y == n) ys ≡ true) × (all (λ y. leb n (seq y)) ys ≡ true)
  minimum_of n [] h = absurd cc
  minimum_of n (y ∷ ys) h =
      let same : minimum (map seq (y ∷ ys)) ≡ n = ground arith in
      let attained =
        sym (any-map seq (λ m. m == minimum (map seq (y ∷ ys))) (y ∷ ys))
        ∙ minimum-attained (seq y) (map seq ys) in
      let below =
        sym (all-map seq (λ m. leb (minimum (map seq (y ∷ ys))) m) (y ∷ ys))
        ∙ minimum-least (seq y) (map seq ys) in
      subst
        (λ m. (any (λ z. seq z == m) (y ∷ ys) ≡ true) × (all (λ z. leb m (seq z)) (y ∷ ys) ≡ true))
        same (attained, below)

  none_of :
      (ys : List A)
      → applied (λ g. minimum (map seq g)) (non_empty ys) ≡ none
      → all (λ _. false) ys ≡ true
  none_of [] h = refl
  none_of (y ∷ ys) h = absurd cc

  abbrev of_k : A → Bool
  of_k x = key x == k

  -- The least of a group is one of its rows, and no row of it is less.
  pub least-some :
      (n : ℕ) (xs : List A)
      → least xs ≡ some n
      → (any (λ x. wanted x && (key x == k && seq x == n)) xs ≡ true)
        × (all (λ x. not (wanted x) || (not (key x == k) || leb n (seq x))) xs ≡ true)
  least-some n xs h =
      let (attained, below) = minimum_of n (rows xs) (sym (least_lem xs) ∙ h) in
      (
        sym (any-where wanted (λ x. of_k x && seq x == n) xs)
            ∙ sym (any-where of_k (λ x. seq x == n) (where_ wanted xs))
            ∙ attained,
        all-implied wanted (λ x. not (of_k x) || leb n (seq x)) xs
            (all-implied of_k (λ x. leb n (seq x)) (where_ wanted xs) below),
      )

  pub least-none :
      (xs : List A)
      → least xs ≡ none
      → all (λ x. not (wanted x) || (not (key x == k) || false)) xs ≡ true
  least-none xs h =
      all-implied wanted (λ x. not (of_k x) || false) xs
        (all-implied of_k (λ _. false) (where_ wanted xs)
          (none_of (rows xs) (sym (least_lem xs) ∙ h)))
