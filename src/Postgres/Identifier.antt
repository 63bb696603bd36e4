-- ===== src/Postgres/Identifier.antt =====
-- modules/postgres/queries.go: `validatePostgresQuotedIdentifier`, and what it promises.
use Prim.Native.Char.{Char, code}
use Prim.Native.String.{len}
use blackstart.Prelude.{
  String, Bool, true, not, ◌&&◌, Option, none, some, ltb, leb, ◌==◌, if◌then◌else◌, ◌≡◌, ◌≤◌, ◌≢◌,
  arith, eq_iff,
}
use blackstart.Text.{all_char, ◌=ℕ◌}
use blackstart.Module.{Error, invalid_identifier}

abbrev pub is_plain : Char → Bool
is_plain c = not (code c =ℕ 34) && leb 32 (code c)

unfoldable pub validate_quoted_identifier : String → Option Error
validate_quoted_identifier id =
    if id == ""
    then some invalid_identifier
    else if ltb 63 (len id)
    then some invalid_identifier
    else if all_char is_plain id
    then none
    else some invalid_identifier

-- A text of characters other than `"` and the control characters.
abbrev pub IsPlain : String → Type 0
IsPlain String.[] = Unit
IsPlain (String.◌∷◌ c s) = (code c ≢ 34) × (32 ≤ code c) × IsPlain s

all_char-IsPlain : (s : String) → all_char is_plain s ≡ true → IsPlain s
all_char-IsPlain String.[] h = tt
all_char-IsPlain (String.◌∷◌ c s) h =
    (ground arith, ground arith, all_char-IsPlain s (ground arith))

-- What may stand between double quotes in a statement.
pub record IsIdentifier (s : String) : Type 0 where
  pub filled : s ≢ ""
  pub short : len s ≤ 63
  pub plain : IsPlain s

pub validate_quoted_identifier-IsIdentifier :
    (s : String) → validate_quoted_identifier s ≡ none → IsIdentifier s
unfolding validate_quoted_identifier
validate_quoted_identifier-IsIdentifier s h = record {
  filled = ground (arith, eq_iff s "");
  short = ground arith;
  plain = all_char-IsPlain s (ground arith);
}
