-- ===== src/Audit/Trail.antt =====
-- The loops that fill the dictionary of displays, for one entry. A query for each type of target
-- comes to one lookup for each entry.
use timber_ops.Prelude.{
  ◌≡◌, refl, sym, ap, ◌∙◌, inl, inr, String, string_eq, Bool, Bool-cases, true, false, not, ◌&&◌,
  ◌==◌, nat_eq, nat_beq_iff, Option, none, some, [], ◌∷◌, lookup, Table, has_unique_keys,
  if◌then◌else◌, arith,
}
use timber_ops.Store.Rows.{Uuid}
use timber_ops.Audit.{TargetKind, is_kind, Displays, put, for_rows}

-- what one lookup shows: nothing for a missing row or an empty text
abbrev pub named : {V : Type 0} → (V → String) → Option V → Option String
named show none = none
named show (some v) = if show v == "" then none else some (show v)

abbrev pub first_of : Option String → Option String → Option String
first_of none other = other
first_of (some s) other = some s

put_tests :
    (wanted empty of_kind here : Bool) (new old : Option String)
    → (of_kind && here) ≡ false
    → (if wanted then (if not empty && (of_kind && here) then new else old) else old) ≡ old
put_tests true true of_kind here new old h = refl
put_tests true false of_kind here new old h = rw h refl
put_tests false empty of_kind here new old h = refl

put_kept :
    (empty : Bool) (new : String) (old : Option String)
    → (if not empty && true then some new else old)
      ≡ first_of (if empty then none else some new) old
put_kept true new old = refl
put_kept false new old = refl

pub is_kind_refl : (k : TargetKind) → is_kind k k ≡ true
is_kind_refl k = ground arith

module _ {V : Type 0} (kind : TargetKind) (show : V → String) (wanted : Uuid → Bool) where
  abbrev put_row : Uuid → V → Displays → Displays
  put_row id v d k i = if wanted id then put kind id (show v) d k i else d k i

  put_row_apart :
      (k : TargetKind) (i id : Uuid) (v : V) (d : Displays)
      → (is_kind k kind && i == id) ≡ false
      → put_row id v d k i ≡ d k i
  put_row_apart k i id v d h =
      put_tests (wanted id) (show v == "") (is_kind k kind) (i == id) (some (show v)) (d k i) h

  put_row_here :
      (id : Uuid) (v : V) (d : Displays)
      → wanted id ≡ true
      → put_row id v d kind id ≡ first_of (named show (some v)) (d kind id)
  put_row_here id v d w =
      let here : (is_kind kind kind && id == id) ≡ true = rw (is_kind_refl kind) (ground arith) in
      rw (w, here) (put_kept (show v == "") (show v) (d kind id))

  pub for_rows_other :
      (k : TargetKind) (i : Uuid) (rows : Table V) (d : Displays)
      → is_kind k kind ≡ false
      → for_rows kind show wanted rows d k i ≡ d k i
  for_rows_other k i [] d h = refl
  for_rows_other k i ((id, v) ∷ rows) d h =
      for_rows_other k i rows (put_row id v d) h
      ∙ put_row_apart k i id v d (ap (λ b. b && i == id) h)

  for_rows_missing :
      (i : Uuid) (rows : Table V) (d : Displays)
      → lookup i rows ≡ none
      → for_rows kind show wanted rows d kind i ≡ d kind i
  for_rows_missing i [] d h = refl
  for_rows_missing i ((id, v) ∷ rows) d h =
      for_rows_missing i rows (put_row id v d) (ground arith)
      ∙ put_row_apart kind i id v d (rw (is_kind_refl kind) (ground arith))

  pub for_rows_wanted :
      (i : Uuid) (rows : Table V) (d : Displays)
      → has_unique_keys rows ≡ true
      → wanted i ≡ true
      → for_rows kind show wanted rows d kind i ≡ first_of (named show (lookup i rows)) (d kind i)
  for_rows_wanted i [] d u w = refl
  for_rows_wanted i ((id, v) ∷ rows) d u w = elim (Bool-cases (id == i)) [
    | inl here ↦
        let same : i ≡ id = sym ((nat_beq_iff id i).0 here) in
        let gone : lookup i rows ≡ none = ground (arith, same, u) in
        rw here (
          for_rows_missing i rows (put_row id v d) gone
          ∙ ap (put_row id v d kind) same
          ∙ put_row_here id v d (ap wanted (sym same) ∙ w)
          ∙ ap (λ j. first_of (named show (some v)) (d kind j)) (sym same))
    | inr other ↦ rw other (
        for_rows_wanted i rows (put_row id v d) (ground (arith, u)) w
        ∙ ap (first_of (named show (lookup i rows)))
            (put_row_apart kind i id v d (rw (is_kind_refl kind) (ground (arith, other)))))
  ]

pub first_of-none : (o : Option String) → first_of o none ≡ o
first_of-none none = refl
first_of-none (some s) = refl
