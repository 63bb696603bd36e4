-- ===== src/Sql.antt =====
-- What the modules for databases share: the connection that an input holds, the database as a
-- parameter of the model, and the execution of statements in order.
use blackstart.Prelude.{String, true, Option, none, some, List, [], ◌∷◌, if◌then◌else◌, ◌≡◌}
use blackstart.Values.{GoType, Value, nil}
use blackstart.Values.Reflect.{same_type}
use blackstart.Inputs.{Target, context_input_as}
use blackstart.Module.{Error, Result, ok, err, ModuleContext, not_of_type, query_error}

-- coerceValue[*sql.DB] on the values of the model: the handle of a connection
unfoldable pub coerce_connection : Value → Result Value
coerce_connection (Value.opaque t n) =
    if same_type t (GoType.pointer (GoType.named "sql.DB"))
    then ok (Value.opaque t n)
    else err not_of_type
coerce_connection _ = err not_of_type

abbrev pub connection_target : Target Value
connection_target = record { zero_value = nil; coerce = coerce_connection; is_filled = λ v. true }

-- The method `setup` of the modules for databases: the connection
unfoldable pub setup_connection : ModuleContext → Result Value
unfolding context_input_as coerce_connection
setup_connection ctx = context_input_as connection_target ctx "connection" true

-- What the database answers to a query for one Boolean; `invalid_value` is PostgreSQL's SQLSTATE
-- 22023.
pub data Answer : Type 0 where
  yes no invalid_value : Answer
  failed : Error → Answer

-- The database, by the queries that a module asks.
pub record Database (Q World : Type 0) : Type 0 where
  pub query : Value → Q → List String → World → Answer × World
  pub exec : Value → String → World → Option Error × World

-- What `Set` does once a statement has run.
abbrev pub executed :
    {World : Type 0} → Option Error × World → (World → Result Unit × World) → Result Unit × World
executed (some e, w) rest = (err (query_error e), w)
executed (none, w) rest = rest w

-- A step that needs a text or a list that may not be made.
abbrev pub given :
    {A B World : Type 0} → Result A → World → (A → Result B × World) → Result B × World
given (err e) w next = (err (query_error e), w)
given (ok a) w next = next a

-- `setup` and `expandGrantsFromContext`, with which `Check` and `Set` begin: the first error ends them.
abbrev pub with_targets :
    {Target A World : Type 0}
    → Result Value
    → Result (List Target)
    → World
    → (Value → List Target → Result A × World)
    → Result A × World
with_targets (err e) targets w run = (err e, w)
with_targets (ok conn) (err e) w run = (err e, w)
with_targets (ok conn) (ok gs) w run = run conn gs

module _ {World : Type 0} (exec : String → World → Option Error × World) where
  -- How statements run, one after the other: until there is none left, or one fails, whose error is
  -- the result; the statements after it do not run.
  pub data Runs : List String → World → Result Unit × World → Type 0 where
    finished : (w : World) → Runs [] w (ok tt, w)
    failed_at :
        (s : String) (ss : List String) (e : Error) (w w' : World)
        → exec s w ≡ (some e, w')
        → Runs (s ∷ ss) w (err (query_error e), w')
    followed :
        (s : String) (ss : List String) (w w' : World) (r : Result Unit × World)
        → exec s w ≡ (none, w')
        → Runs ss w' r
        → Runs (s ∷ ss) w r

  pub executed-Runs :
      (s : String) (ss : List String) (w : World) (r : Option Error × World)
      (rest : World → Result Unit × World)
      → exec s w ≡ r
      → ((w' : World) → Runs ss w' (rest w'))
      → Runs (s ∷ ss) w (executed r rest)
  executed-Runs s ss w (some e, w') rest same later = failed_at s ss e w w' same
  executed-Runs s ss w (none, w') rest same later = followed s ss w w' (rest w') same (later w')
