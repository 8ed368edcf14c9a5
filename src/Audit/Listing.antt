-- ===== src/Audit/Listing.antt =====
-- What `list_logs` returns, said with one lookup for each entry where the code has one query for
-- each type of target.
use timber_ops.Prelude.{
  ℕ, ◌≡◌, refl, sym, ap, ◌∙◌, inl, inr, String, string_eq, Bool, Bool-cases, true, false, not, ◌&&◌,
  ◌==◌, nat_eq, option_eq, option_beq_iff, Option, none, some, List, [], ◌∷◌, map, where_,
  if◌then◌else◌, arith,
}
use timber_ops.Prelude.Groups.{IsIn, IsIn-cons, IsIn-head, any-false}
use timber_ops.Prelude.Sorting.{order_by}
use timber_ops.Domain.Days.{is_after_end, overflows_by, starts_by, ends_after, local_date}
use timber_ops.Domain.Days.Intervals.{is_within, start-le_iff}
use timber_ops.Domain.Decimal.{Money}
use timber_ops.Domain.Errors.{ok, business_rule, overflow_error, raise_if-eq-ok}
use timber_ops.Store.Rows.{Uuid, Time, AuditLog}
use timber_ops.Store.Db.{Db}
use timber_ops.Store.Constraints.{satisfies}
use timber_ops.Audit.{
  TargetKind, is_of_kind, target_kind, no_displays, is_wanted, resolve_target_displays, get_or_id,
  shown, target_display, log_read, AuditFilter, AuditLogRead, is_selected, fits_id, fits_text,
  log_le, list_logs,
}
use timber_ops.Audit.Trail.{is_kind_refl}
use timber_ops.Audit.Displays.{HasKeys, satisfies-HasKeys, row_display, resolve-row_display}

contradiction : false ≡ true → ⊥
contradiction e = cc

same_interval :
    (start end_ : Option ℕ) (at : Time)
    → (starts_by start at && ends_after end_ at) ≡ is_within start end_ (local_date at)
same_interval none none at = refl
same_interval (some s) none at = rw (start-le_iff s at) (ground arith)
same_interval none (some e) at = ground arith
same_interval (some s) (some e) at = ground (arith, start-le_iff s at)

abbrev is_about : TargetKind → Uuid → Uuid × AuditLog → Bool
is_about kind id l = is_of_kind kind (target_kind l.1.target_type) && l.1.target_id == some id

wanted-IsIn :
    (l : Uuid × AuditLog) (logs : List (Uuid × AuditLog)) (kind : TargetKind) (id : Uuid)
    → IsIn l logs
    → target_kind l.1.target_type ≡ some kind
    → l.1.target_id ≡ some id
    → is_wanted logs kind id ≡ true
wanted-IsIn l logs kind id m k t =
    let of_kind : is_of_kind kind (target_kind l.1.target_type) ≡ true =
      ap (is_of_kind kind) k ∙ is_kind_refl kind in
    let of_id : (l.1.target_id == some id) ≡ true = (option_beq_iff l.1.target_id (some id)).1 t in
    elim (Bool-cases (is_wanted logs kind id)) [
      | inl found ↦ found
      | inr lost ↦
          let refused : not (is_about kind id l) ≡ true =
            m (λ x. not (is_about kind id x)) (any-false (is_about kind id) logs lost) in
          let about : is_about kind id l ≡ true = rw (of_kind, of_id) refl in
          absurd (contradiction (sym (ap not about) ∙ refused))
    ]

module _ (uuid_text : Uuid → String) (fee_text : Money → String) where
  -- What an entry shows of its target: the text of the row, or else the id.
  abbrev pub row_shown : Db → Uuid → Option TargetKind → String
  row_shown db id none = uuid_text id
  row_shown db id (some kind) =
      get_or_id uuid_text fee_text id (row_display uuid_text fee_text db kind id)

  abbrev pub row_target : Db → String → Option Uuid → Option String
  row_target db target_type none = none
  row_target db target_type (some id) = some (row_shown db id (target_kind target_type))

  abbrev pub row_read : Db → Uuid × AuditLog → AuditLogRead
  row_read db (id, l) = record (log_read uuid_text fee_text db no_displays (id, l)) {
    target_display = row_target db l.target_type l.target_id;
  }

  shown-row_shown :
      (db : Db) (logs : List (Uuid × AuditLog)) (l : Uuid × AuditLog) (id : Uuid)
      (kind : Option TargetKind)
      → HasKeys db
      → IsIn l logs
      → target_kind l.1.target_type ≡ kind
      → l.1.target_id ≡ some id
      → shown uuid_text fee_text (resolve_target_displays uuid_text fee_text db logs) id kind
        ≡ row_shown db id kind
  shown-row_shown db logs l id none u m k t = refl
  shown-row_shown db logs l id (some kind) u m k t =
      ap (get_or_id uuid_text fee_text id) (
        resolve-row_display uuid_text fee_text db logs kind id u (wanted-IsIn l logs kind id m k t))

  log_read-row_read :
      (db : Db) (logs : List (Uuid × AuditLog)) (l : Uuid × AuditLog)
      → HasKeys db
      → IsIn l logs
      → log_read uuid_text fee_text db (resolve_target_displays uuid_text fee_text db logs) l
        ≡ row_read db l
  log_read-row_read db logs l u m =
      ap (λ d. record (row_read db l) { target_display = d }) (targets l.1.target_id refl)
    where
      targets :
          (target : Option Uuid)
          → l.1.target_id ≡ target
          → target_display uuid_text fee_text
              (resolve_target_displays uuid_text fee_text db logs)
              l.1.target_type
              target
            ≡ row_target db l.1.target_type target
      targets none t = refl
      targets (some id) t =
          ap some (shown-row_shown db logs l id (target_kind l.1.target_type) u m refl t)

map-cong :
    {A B : Type 0} (f g : A → B) (xs : List A)
    → ((x : A) → IsIn x xs → f x ≡ g x)
    → map f xs ≡ map g xs
map-cong f g [] h = refl
map-cong f g (x ∷ xs) h =
    ap (λ y. y ∷ map f xs) (h x (IsIn-head x xs))
    ∙ ap (λ ys. g x ∷ ys) (map-cong f g xs (λ y m. h y (IsIn-cons y x xs m)))

-- The filters, with the date that a clock at UTC+8 shows.
abbrev pub is_asked : AuditFilter → Uuid × AuditLog → Bool
is_asked f (_, l) =
    is_within f.start_date f.end_date (local_date l.created_at)
    && fits_id f.operator_id l.operator_id
    && fits_text f.action l.action
    && fits_text f.target_type l.target_type

selected-asked :
    (f : AuditFilter) (logs : List (Uuid × AuditLog))
    → where_ (is_selected f) logs ≡ where_ (is_asked f) logs
selected-asked f [] = refl
selected-asked f (l ∷ logs) =
    let here : is_selected f l ≡ is_asked f l =
      ap
        (λ b.
          b
          && fits_id f.operator_id l.1.operator_id
          && fits_text f.action l.1.action
          && fits_text f.target_type l.1.target_type)
        (same_interval f.start_date f.end_date l.1.created_at) in
    rw here (ap (λ ls. if is_asked f l then l ∷ ls else ls) (selected-asked f logs))

-- In a database that meets its constraints, `list_logs` returns, newest first, exactly the entries
-- that pass the filters, with both dates included by a clock at UTC+8; each shows of its target the
-- text of the row that its id has now, and the id where there is no such row, no text or no such
-- type, whatever the other entries are about.
pub list_logs_lem :
    (uuid_text : Uuid → String) (fee_text : Money → String) (f : AuditFilter) (db : Db)
    (xs : List AuditLogRead)
    → satisfies db ≡ true
    → list_logs uuid_text fee_text f db ≡ ok xs
    → xs
      ≡ map (row_read uuid_text fee_text db) (order_by log_le (where_ (is_asked f) db.audit_logs))
unfolding list_logs
list_logs_lem uuid_text fee_text f db xs ok_db h =
    let u = satisfies-HasKeys db ok_db in
    let rows = order_by log_le (where_ (is_selected f) db.audit_logs) in
    let (_, rest) = raise_if-eq-ok (is_after_end f.start_date f.end_date) business_rule _ xs h in
    let (_, same) =
      raise_if-eq-ok (overflows_by f.start_date f.end_date) overflow_error _ xs rest in
    let returned : map
          (log_read uuid_text fee_text db (resolve_target_displays uuid_text fee_text db rows)) rows
        ≡ xs =
      ground (arith, same) in
    sym returned
    ∙ map-cong _ (row_read uuid_text fee_text db) rows
        (λ l m. log_read-row_read uuid_text fee_text db rows l u m)
    ∙ ap (λ ls. map (row_read uuid_text fee_text db) (order_by log_le ls))
        (selected-asked f db.audit_logs)
