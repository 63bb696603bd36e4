-- ===== src/CloudSql/Laws.antt =====
-- modules/google/cloudsql/user.go: how the tests on the list of users agree.
use Prim.Native.Char.{Char}
use blackstart.Prelude.{
  String, Bool, true, false, not, ◌&&◌, Option, none, some, List, [], ◌∷◌, ◌==◌, if◌then◌else◌, ◌≡◌,
  refl, sym, ap, ◌∙◌, arith, if_false,
}
use blackstart.Module.{Error, Result, ok, err}
use blackstart.CloudSql.Names.{Engine, mysql, mysql_iam_user}
use blackstart.CloudSql.Users.{
  CloudUser, is_mysql, type_is, has_user, collision_in, is_named, cloud_sql_user_is_correct,
  or_itself, cloud_sql_user_exists, collision_of, validate_mysql_user_collision,
}
use blackstart.CloudSql.Admin.{ConnectionConfig}
use blackstart.CloudSql.Methods.{is_as_wanted}

type_is-has_user :
    (users : List CloudUser) (name user_type : String)
    → type_is users name user_type ≡ true
    → has_user users name ≡ true
unfolding type_is has_user
type_is-has_user [] name user_type h = cc
type_is-has_user (u ∷ us) name user_type h = ground (arith, type_is-has_user us name user_type)

collision_step :
    (same typed found named : Bool) (e : Error) (rest : Option Error)
    → (rest ≡ none → found ≡ named)
    → (if same && not typed then some e else rest) ≡ none
    → (if same then typed else found) ≡ (if same then true else named)
collision_step true true found named e rest later h = refl
collision_step true false found named e rest later h = cc
collision_step false typed found named e rest later h = later h

collision_in-type_is :
    (users : List CloudUser) (name user_type : String)
    → collision_in users name user_type ≡ none
    → type_is users name user_type ≡ has_user users name
unfolding type_is has_user collision_in
collision_in-type_is [] name user_type h = refl
collision_in-type_is (u ∷ us) name user_type h =
    collision_step (u.name == name) (u.type == user_type) (type_is us name user_type)
      (has_user us name) _ (collision_in us name user_type) (collision_in-type_is us name user_type)
      h

module _ (lower_other : Char → Char) where
  exists_elsewhere :
      (users : List CloudUser) (name : String) (engine : Engine)
      → is_mysql engine ≡ false
      → cloud_sql_user_exists lower_other users name engine ≡ has_user users name
  unfolding cloud_sql_user_exists
  exists_elsewhere users name engine h = if_false (has_user users) _ _ h

  named-or_itself :
      (users : List CloudUser) (name user_type : String) (local : Result String)
      → is_named lower_other users user_type local ≡ true
      → has_user users (or_itself lower_other name local) ≡ true
  named-or_itself users name user_type (err e) h = cc
  named-or_itself users name user_type (ok local) h = type_is-has_user users local user_type h

  correct-exists :
      (users : List CloudUser) (name user_type : String) (is_my : Bool)
      → (if is_my
          then is_named lower_other users user_type (mysql_iam_user lower_other name)
          else type_is users name user_type)
        ≡ true
      → has_user users
          (if is_my then or_itself lower_other name (mysql_iam_user lower_other name) else name)
        ≡ true
  correct-exists users name user_type true h = named-or_itself users name user_type _ h
  correct-exists users name user_type false h = type_is-has_user users name user_type h

  -- `Check` cannot want both: an IAM user that is as wanted in the list is not missing from it, so no
  -- list of users answers yes to an operation and to the same operation with `doesNotExist`.
  pub is_as_wanted-exclusive :
      (t : ConnectionConfig) (u : CloudUser) (users : List CloudUser)
      → (t.user_type == "BUILT_IN") ≡ false
      → is_as_wanted lower_other false t u users ≡ true
      → is_as_wanted lower_other true t u users ≡ false
  unfolding is_as_wanted cloud_sql_user_exists cloud_sql_user_is_correct
  is_as_wanted-exclusive t u users iam h = ap not (
      correct-exists users u.name t.user_type (is_mysql t.engine)
        (sym (if_false (λ (b : Bool). b) _ _ iam) ∙ h))

  agree :
      (users : List CloudUser) (name user_type : String) (local : Result String)
      → collision_of lower_other users user_type local ≡ none
      → is_named lower_other users user_type local
        ≡ has_user users (or_itself lower_other name local)
  agree users name user_type (err e) h = cc
  agree users name user_type (ok local) h = collision_in-type_is users local user_type h

  -- In an instance of MySQL, when no user of the list collides with an IAM user, the user is as wanted
  -- exactly if there is one of its local name.
  pub validate_mysql_user_collision-agree :
      (users : List CloudUser) (name user_type : String)
      → (user_type == "BUILT_IN") ≡ false
      → validate_mysql_user_collision lower_other users name user_type mysql ≡ none
      → cloud_sql_user_is_correct lower_other users name user_type mysql
        ≡ cloud_sql_user_exists lower_other users name mysql
  unfolding validate_mysql_user_collision cloud_sql_user_is_correct cloud_sql_user_exists
  validate_mysql_user_collision-agree users name user_type iam h =
      if_false (λ (b : Bool). b) _ _ iam
      ∙ agree users name user_type (mysql_iam_user lower_other name)
          (sym (if_false (λ (o : Option Error). o) _ _ iam) ∙ h)
