-- ===== src/Role/Settled.antt =====
-- modules/postgres/role.go: what `Check` and `Set` do for a module that `NewPostgresRole` makes.
use blackstart.Prelude.{◌≡◌, refl, ap}
use blackstart.Module.{ok, err, ModuleContext}
use blackstart.Role.Methods.{
  RoleModule, new_postgres_role, RoleDatabase, create_target_role, nil_pointer, check_role_exists,
  checked_with, check_role, set_role,
}

module _ {World : Type 0} (server : RoleDatabase World) (ctx : ModuleContext) (w : World) where
  -- For the module that `NewPostgresRole` makes, `Check` never answers: when its inputs are valid, it
  -- uses a nil pointer, since the target stands in the copy of `createTargetRole`; and so does `Set`.
  -- The database is not asked and does not change.
  pub new_postgres_role-panic :
      (copy : RoleModule)
      → create_target_role new_postgres_role ctx ≡ ok copy
      → (check_role server new_postgres_role ctx w ≡ (err nil_pointer, w))
        × (set_role server new_postgres_role w ≡ (err nil_pointer, w))
  unfolding check_role check_role_exists set_role
  new_postgres_role-panic copy made =
      (ap (λ c. checked_with server new_postgres_role c w) made, refl)
