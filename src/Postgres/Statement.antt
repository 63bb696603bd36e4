-- ===== src/Postgres/Statement.antt =====
-- modules/postgres/grant.go: the statements that give and take away a grant.
use Prim.Native.Char.{Char, code}
use Prim.Native.String.{◌++◌ as ◌append◌}
use blackstart.Prelude.{
  String, Bool, true, false, List, [], ◌∷◌, contains, if◌then◌else◌, ◌&&◌, ◌==◌,
}
use blackstart.Text.{trim_space, trim_suffix_char, ◌=ℕ◌}
use blackstart.Module.{Result, ok, err, ◌>>=◌, invalid_permission}
use blackstart.Postgres.Grant.{
  Scope, on_instance, Grant, string_to_scope, grant_permissions, normalize_permission,
}
use blackstart.Postgres.Template.{set_template, revoke_template}

-- A part of a template: a text, or a field in double braces.
pub data Piece : Type 0 where
  text : String → Piece
  field : String → Piece

-- Where the parser of text/template stands: in a text or in an action, with what it has read of it.
pub data Mode : Type 0 where
  in_text in_action : Mode

abbrev piece : Mode → String → Piece
piece in_text acc = text acc
piece in_action acc = field acc

abbrev ends : Mode → Char → Char → Bool
ends in_text c d = code c =ℕ 123 && code d =ℕ 123
ends in_action c d = code c =ℕ 125 && code d =ℕ 125

abbrev other : Mode → Mode
other in_text = in_action
other in_action = in_text

abbrev add_char : String → Char → String
add_char acc c = acc append (String.◌∷◌ c String.[])

scan : Mode → String → String → List Piece
scan mode acc String.[] = piece mode acc ∷ []
scan mode acc (String.◌∷◌ c String.[]) = piece mode (add_char acc c) ∷ []
scan mode acc (String.◌∷◌ c (String.◌∷◌ d s)) = elim (ends mode c d) [
  | true ↦ piece mode acc ∷ scan (other mode) "" s
  | false ↦ scan mode (add_char acc c) (String.◌∷◌ d s)
]

-- template.Parse, for a template whose actions are fields
unfoldable pub parse : String → List Piece
unfolding scan
parse template = scan in_text "" template

abbrev field_of : String → Grant → String
field_of name g =
    if name == ".Permission"
    then g.permission
    else if name == ".Schema"
    then g.schema
    else if name == ".Resource"
    then g.resource
    else if name == ".Role"
    then g.role
    else ""

unfoldable pub render : List Piece → Grant → String
render [] g = ""
render (text s ∷ ps) g = s append render ps g
render (field name ∷ ps) g = field_of name g append render ps g

-- tmpl.Execute
unfoldable pub execute : String → Grant → String
unfolding parse render
execute template g = render (parse template) g

-- applyWithGrantOptionClause
unfoldable pub apply_with_grant_option : String → Bool → String
apply_with_grant_option query false = query
apply_with_grant_option query true =
    trim_suffix_char 59 (trim_space query) append " WITH GRANT OPTION;"

-- normalizedTarget
abbrev pub normalized : Scope → Grant → Grant
normalized sc g = record g { permission = normalize_permission sc g.permission }

-- The test of the permission in the switches of `getGrantSetQuery` and `getGrantRevokeQuery`.
unfoldable pub admitted : Scope → String → Bool
admitted on_instance perm = true
admitted sc perm = contains (grant_permissions sc) perm

unfoldable pub set_query_at : Grant → Scope → Result String
unfolding admitted execute apply_with_grant_option
set_query_at g sc =
    if admitted sc (normalize_permission sc g.permission)
    then ok (
        apply_with_grant_option (execute (set_template sc g.all) (normalized sc g))
          g.with_grant_option)
    else err (invalid_permission g.permission)

-- getGrantSetQuery; the list of parameters is always nil
unfoldable pub get_grant_set_query : Grant → Result String
unfolding set_query_at
get_grant_set_query g = string_to_scope g.scope >>= set_query_at g

unfoldable pub revoke_query_at : Grant → Scope → Result String
unfolding admitted execute
revoke_query_at g sc =
    if admitted sc (normalize_permission sc g.permission)
    then ok (execute (revoke_template sc g.all) (normalized sc g))
    else err (invalid_permission g.permission)

-- getGrantRevokeQuery; the list of parameters is always nil
unfoldable pub get_grant_revoke_query : Grant → Result String
unfolding revoke_query_at
get_grant_revoke_query g = string_to_scope g.scope >>= revoke_query_at g
