-- ===== src/Store/Uniqueness.antt =====
-- What the UNIQUE constraints refuse, and what the other columns of a committed database hold.
use timber_ops.Prelude.{
  ◌≡◌, Bool, true, false, ◌&&◌, ◌||◌, nat_eq, string_eq, List, [], ◌∷◌, ◌++◌, some, Table, lookup,
  all, any, first, distinct, arith,
}

module _ {ℓ} {A : Type ℓ} where
  pub all-append : (p : A → Bool) (xs : List A) (x : A) → all p (xs ++ x ∷ []) ≡ (all p xs && p x)
  all-append p [] x = ground arith
  all-append p (y ∷ xs) x = ground (arith, all-append p xs x)

  pub any-append : (p : A → Bool) (xs : List A) (x : A) → any p (xs ++ x ∷ []) ≡ (any p xs || p x)
  any-append p [] x = ground arith
  any-append p (y ∷ xs) x = ground (arith, any-append p xs x)

  -- a row that repeats one that is there
  pub distinct-append_false :
      (same : A → A → Bool) (x y : A) (xs : List A)
      → first (λ z. same z x) xs ≡ some y
      → distinct same (xs ++ x ∷ []) ≡ false
  distinct-append_false same x y [] h = absurd cc
  distinct-append_false same x y (z ∷ xs) h =
      ground (arith, any-append (same z) xs x, distinct-append_false same x y xs)

  pub all-first :
      (p q : A → Bool) (y : A) (xs : List A) → all p xs ≡ true → first q xs ≡ some y → p y ≡ true
  all-first p q y [] h e = absurd cc
  all-first p q y (z ∷ xs) h e = ground (arith, all-first p q y xs)

module _ {V : Type 0} where
  pub all-lookup :
      (p : V → Bool) (k : _) (v : V) (t : Table V)
      → all (λ r. p r.1) t ≡ true
      → lookup k t ≡ some v
      → p v ≡ true
  all-lookup p k v [] h e = absurd cc
  all-lookup p k v (x ∷ t) h e = ground (arith, all-lookup p k v t)

  pub any-lookup :
      (p : V → Bool) (k : _) (v : V) (t : Table V)
      → lookup k t ≡ some v
      → p v ≡ true
      → any (λ r. p r.1) t ≡ true
  any-lookup p k v [] e h = absurd cc
  any-lookup p k v (x ∷ t) e h = ground (arith, any-lookup p k v t)

  -- two rows that are not distinct are one
  pub distinct-lookup :
      (same : V → V → Bool) (sym_ : (v w : V) → same v w ≡ true → same w v ≡ true) (i j : _)
      (v w : V) (t : Table V)
      → distinct (λ a b. same a.1 b.1) t ≡ true
      → lookup i t ≡ some v
      → lookup j t ≡ some w
      → same v w ≡ true
      → i ≡ j
  distinct-lookup same sym_ i j v w [] d h g e = absurd cc
  distinct-lookup same sym_ i j v w (x ∷ t) d h g e = ground (
    arith,
    distinct-lookup same sym_ i j v w t,
    any-lookup (same x.1) i v t,
    any-lookup (same x.1) j w t,
    sym_ v w,
  )
