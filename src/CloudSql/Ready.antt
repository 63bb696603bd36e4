-- ===== src/CloudSql/Ready.antt =====
-- modules/google/cloudsql/database.go: what `setup` promises of a database, and of the request for it.
use blackstart.Prelude.{
  String, Bool, true, false, ◌||◌, ◌==◌, if◌then◌else◌, ◌≡◌, ◌⊎◌, inl, inr, refl, sym, ap, ◌∙◌,
  subst, Bool-cases, if_true, if_false,
}
use blackstart.Inputs.{string_target, context_input_as}
use blackstart.Module.{Result, ok, err, ModuleContext, empty_value}
use blackstart.Module.Results.{ok-inj, bind-ok, if-ok}
use blackstart.CloudSql.Names.{Engine, postgres, mysql, sqlserver, unknown, instance_engine}
use blackstart.CloudSql.Admin.{
  Google, ◌then_do◌, call, call_service, project_id_from_credentials, current_project,
}
use blackstart.CloudSql.Database.{
  Databases, DatabaseConfig, filled_input, read_names, read_options, has_text, supported,
  of_instance, new_database, project_of, setup_database,
}

-- A step that ends without an error: what came before it, and what it makes of that.
then_do-ok :
    {A B World : Type 0} (r : Result A × World) (next : A → World → Result B × World) (b : B)
    (w : World)
    → (r then_do next) ≡ (ok b, w)
    → (a : A) × (w' : World) × (r ≡ (ok a, w')) × (next a w' ≡ (ok b, w))
then_do-ok (err e, w') next b w h = cc
then_do-ok (ok a, w') next b w h = (a, w', refl, h)

filled_input-filled :
    (ctx : ModuleContext) (key v : String) → filled_input ctx key ≡ ok v → (v == "") ≡ false
filled_input-filled ctx key v h =
    let (value, read, checked) = bind-ok (context_input_as string_target ctx key true) _ v h in
    let (filled, same) = if-ok (value == "") (empty_value key) (ok value) v checked in
    subst (λ s. (s == "") ≡ false) (ok-inj same) filled

-- A text that a step makes where another is empty.
otherwise-filled :
    {World : Type 0} (s v : String) (r : Result String × World) (w w' : World)
    → (r ≡ (ok v, w') → (v == "") ≡ false)
    → (if s == "" then r else (ok s, w)) ≡ (ok v, w')
    → (v == "") ≡ false
otherwise-filled {World} s v r w w' made h = elim (Bool-cases (s == "")) [
  | inl empty ↦ made (sym (if_true (λ (q : Result String × World). q) _ _ empty) ∙ h)
  | inr filled ↦
      let same = sym (if_false (λ (q : Result String × World). q.0) _ _ filled) ∙ ap (λ q. q.0) h in
      subst (λ u. (u == "") ≡ false) (ok-inj same) filled
]

project_id-filled :
    (project v : String) → project_id_from_credentials project ≡ ok v → (v == "") ≡ false
project_id-filled project v h =
    let (filled, same) = if-ok (project == "") _ (ok project) v h in
    subst (λ s. (s == "") ≡ false) (ok-inj same) filled

module _ {World : Type 0} (google : Google World) where
  current_project-filled :
      (v : String) (w w' : World) → current_project google w ≡ (ok v, w') → (v == "") ≡ false
  unfolding current_project
  current_project-filled v w w' h =
      otherwise-filled google.project_env v _ w w'
        (λ made.
          let (project, w1, found, checked) =
            then_do-ok (google.default_credentials w) _ v w' made in
          project_id-filled project v (ap (λ q. q.0) checked))
        h

-- What `setup` takes from the inputs and from the project.
record HasNames (t : DatabaseConfig) : Type 0 where
  instance_filled : (t.instance_name == "") ≡ false
  database_filled : (t.database == "") ≡ false
  project_filled : (t.project == "") ≡ false

read_options-HasNames :
    (ctx : ModuleContext) (names : String × String × String) (project : String) (t : DatabaseConfig)
    → read_names ctx ≡ ok names
    → (project == "") ≡ false
    → read_options ctx names project ≡ ok t
    → HasNames t
read_options-HasNames ctx names project t named filled h =
    let (i, read_i, h1) = bind-ok (filled_input ctx "instance") _ names named in
    let (d, read_d, h2) = bind-ok (filled_input ctx "database") _ names h1 in
    let (p, read_p, h3) = bind-ok (context_input_as string_target ctx "project" false) _ names h2 in
    let same = ok-inj h3 in
    let (r, read_r, k1) = bind-ok (context_input_as string_target ctx "region" false) _ t h in
    let (c, read_c, k2) = bind-ok (context_input_as string_target ctx "charset" false) _ t k1 in
    let (l, read_l, k3) = bind-ok (context_input_as string_target ctx "collation" false) _ t k2 in
    let made = ok-inj k3 in
    record {
      instance_filled =
          subst (λ (u : DatabaseConfig). (u.instance_name == "") ≡ false) made
            (subst (λ (n : String × String × String). (n.0 == "") ≡ false) same
              (filled_input-filled ctx "instance" i read_i));
      database_filled =
          subst (λ (u : DatabaseConfig). (u.database == "") ≡ false) made
            (subst (λ (n : String × String × String). (n.1 == "") ≡ false) same
              (filled_input-filled ctx "database" d read_d));
      project_filled = subst (λ (u : DatabaseConfig). (u.project == "") ≡ false) made filled;
    }

-- A charset and a collation are asked for in MySQL only.
abbrev pub IsAskable : DatabaseConfig → Type 0
IsAskable t =
    ((t.engine ≡ postgres) × ((new_database t).charset ≡ "") × ((new_database t).collation ≡ ""))
    ⊎ (t.engine ≡ mysql)

neither : (a b : Bool) → (a || b) ≡ false → (a ≡ false) × (b ≡ false)
neither true b h = cc
neither false b h = (refl, h)

supported-IsAskable :
    (t t' : DatabaseConfig) (engine : Engine)
    → t.engine ≡ engine
    → supported t engine ≡ ok t'
    → (t ≡ t') × IsAskable t'
supported-IsAskable t t' postgres is h =
    let (blank, same) = if-ok (has_text t.charset || has_text t.collation) _ (ok t) t' h in
    let (no_charset, no_collation) = neither (has_text t.charset) (has_text t.collation) blank in
    (
      ok-inj same,
      subst IsAskable (ok-inj same) (
          inl (
            is,
            if_false (λ (u : String). u) t.charset "" no_charset,
            if_false (λ (u : String). u) t.collation "" no_collation,
          )),
    )
supported-IsAskable t t' mysql is h = (ok-inj h, subst IsAskable (ok-inj h) (inr is))
supported-IsAskable t t' sqlserver is h = cc
supported-IsAskable t t' unknown is h = cc

-- What `setup` makes can be asked for: the names are there, and the options fit the engine.
abbrev pub IsReady : DatabaseConfig → Type 0
IsReady t =
    ((t.instance_name == "") ≡ false)
    × ((t.database == "") ≡ false)
    × ((t.project == "") ≡ false)
    × IsAskable t

module _ {World : Type 0} (google : Google World) (databases : Databases World) where
  -- When `setup` ends without an error, the instance, the database and the project have names, also a
  -- project that the environment or the credentials have named, and the engine is PostgreSQL, for
  -- which the request for a new database has neither a charset nor a collation, or MySQL.
  pub setup_database-IsReady :
      (ctx : ModuleContext) (t : DatabaseConfig) (w w' : World)
      → setup_database google databases ctx w ≡ (ok t, w')
      → IsReady t
  unfolding setup_database
  setup_database-IsReady ctx t w w' h =
      let (names, w1, named, h1) = then_do-ok (read_names ctx, w) _ t w' h in
      let (project, w2, found, h2) =
        then_do-ok (project_of google databases names.2 w1) _ t w' h1 in
      let (read, w3, options, h3) = then_do-ok (read_options ctx names project, w2) _ t w' h2 in
      let (u, w4, served, h4) =
        then_do-ok (call_service (google.new_sql_admin_service w3)) _ t w' h3 in
      let (i, w5, got, h5) =
        then_do-ok (call (google.get_instance read.project read.instance_name w4)) _ t w' h4 in
      let filled =
        otherwise-filled names.2 project _ w1 w2 (current_project-filled google project w1 w2)
          found in
      let has_names =
        read_options-HasNames ctx names project read (ap (λ q. q.0) named) filled
          (ap (λ q. q.0) options) in
      let (same, askable) =
        supported-IsAskable (of_instance read i) t (instance_engine i.database_version) refl
          (ap (λ q. q.0) h5) in
      (
        subst (λ (v : DatabaseConfig). (v.instance_name == "") ≡ false) same
            has_names.instance_filled,
        subst (λ (v : DatabaseConfig). (v.database == "") ≡ false) same has_names.database_filled,
        subst (λ (v : DatabaseConfig). (v.project == "") ≡ false) same has_names.project_filled,
        askable,
      )
