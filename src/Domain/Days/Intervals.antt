-- ===== src/Domain/Days/Intervals.antt =====
-- The times that a filter by dates lets pass are those of its dates.
use timber_ops.Prelude.{ℕ, ◌≤◌, ◌≡◌, refl, Bool, true, ◌&&◌, leb, Option, none, some, arith}
use timber_ops.Domain.Days.{local_day_start_utc, local_date, starts_by, ends_after}

-- A date in the interval of a filter, both ends included.
abbrev pub is_within : Option ℕ → Option ℕ → ℕ → Bool
is_within none none d = true
is_within (some s) none d = leb s d
is_within none (some e) d = leb d e
is_within (some s) (some e) d = leb s d && leb d e

starts-within : (s : ℕ) (at : ℕ) → starts_by (some s) at ≡ true → s ≤ local_date at
starts-within s at h = ground arith

ends-within : (e : ℕ) (at : ℕ) → ends_after (some e) at ≡ true → local_date at ≤ e
ends-within e at h = ground arith

pub selected-within :
    (s e : Option ℕ) (at : ℕ)
    → starts_by s at ≡ true
    → ends_after e at ≡ true
    → is_within s e (local_date at) ≡ true
selected-within none none at h i = refl
selected-within (some s) none at h i = ground (arith, starts-within s at h)
selected-within none (some e) at h i = ground (arith, ends-within e at i)
selected-within (some s) (some e) at h i = ground (arith, starts-within s at h, ends-within e at i)

-- The days of a clock at UTC+8 meet where one ends and the next begins.
pub start-le_iff : (date at : ℕ) → leb (local_day_start_utc date) at ≡ leb date (local_date at)
start-le_iff date at = ground arith
