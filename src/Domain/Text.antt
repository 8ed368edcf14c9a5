-- ===== src/Domain/Text.antt =====
-- The tests for blank text: Python's `not s.strip()` and SQL's `length(trim(s)) > 0`.
use Prim.Native.Char.{Char, code}
use timber_ops.Prelude.{
  ℕ, String, Bool, ◌&&◌, ◌||◌, List, [], ◌∷◌, leb, nat_beq, all, if◌then◌else◌,
}

abbrev pub codes : String → List ℕ
codes String.[] = []
codes (String.◌∷◌ c s) = code c ∷ codes s

-- `str.isspace` of one character
unfoldable pub is_space : ℕ → Bool
is_space c =
    (leb 9 c && leb c 13)
    || (leb 28 c && leb c 32)
    || nat_beq c 133
    || nat_beq c 160
    || nat_beq c 5760
    || (leb 8192 c && leb c 8202)
    || (leb 8232 c && leb c 8233)
    || nat_beq c 8239
    || nat_beq c 8287
    || nat_beq c 12288

-- `not s.strip()`
unfoldable pub is_blank : String → Bool
unfolding is_space
is_blank s = all is_space (codes s)

-- SQL's TRIM takes the space character only.
unfoldable pub is_trimmed_empty : String → Bool
is_trimmed_empty s = all (λ c. nat_beq c 32) (codes s)

abbrev lstrip : String → String
lstrip String.[] = String.[]
lstrip (String.◌∷◌ c s) = let rest = lstrip s in if is_space (code c) then rest else String.◌∷◌ c s

-- the character goes with what is left of the text behind it
abbrev rstripped : Char → String → String
rstripped c String.[] = if is_space (code c) then String.[] else String.◌∷◌ c String.[]
rstripped c (String.◌∷◌ d s) = String.◌∷◌ c (String.◌∷◌ d s)

abbrev rstrip : String → String
rstrip String.[] = String.[]
rstrip (String.◌∷◌ c s) = rstripped c (rstrip s)

-- `str.strip`
unfoldable pub strip : String → String
unfolding is_space
strip s = rstrip (lstrip s)
