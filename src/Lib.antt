-- ===== src/Lib.antt =====
-- Blackstart: workflows of operations that are checked and, where needed, set, in the order of their
-- dependencies.
--
-- The parts, and the files that model them:
--
-- Values, Values/Reflect: the values of type `any`, and what workflow.go asks package reflect of
--   their types (`matchesType`, `matchesAnyType`, `containsExactType`).
-- Operation: operation.go (`Operation`, `setup`) and the inputs of module.go (`moduleInput`).
-- Graph: workflow.go, `dependencyGraph` with `addDep`, `dfs`, `topoSort`, and `opoSort`. The maps
--   `visited` and `recursionStack` are functions from names. `dfs` takes fuel, the number of names
--   in the graph: each level of recursion visits a new name, so it is enough.
--   Graph/Reach has paths and orders, Graph/Walks the invariant of the search, Graph/Traversal its
--   induction, Graph/Correct the step from the graph to the operations, Graph/Order the results.
-- Module: module.go. Module/Registry has the registry of modules and Module/Context the context that
--   an operation runs in. A module is a record of functions over a state `World` of everything
--   outside of the run, so the results hold whatever modules do.
-- Workflow: workflow.go. Workflow/Checks has `findDuplicateOperationID` and `checkInputsOutputs`,
--   Workflow/Prepare the part of `execute` before its execution phase, Workflow/Run the execution
--   phase with operation.go's `executeWithModule`, and Workflow/Execute the whole of `execute` with
--   its deferred clean-up. The lines that the code logs for each operation are kept in a list, which
--   says when an operation was checked and when it was completed.
--   Workflow/Log, Guarded, Progress and Tables prove what the parts keep, Workflow/Duplicates,
--   Workflow/Conforms and Workflow/Outcome what a run promises.
--
-- Text: what the code uses of packages strings, strconv and unicode.
-- Inputs: helpers.go (`InputAs`, `ContextInputAs`) at the types string, []string, bool and *sql.DB.
-- Postgres: modules/postgres/grant.go and the parts of modules/postgres/queries.go that it uses.
--   Postgres/Identifier and Grant have the validation and the scopes, Dimensions and Targets
--   `expandGrantsFromContext`, Template and Statement the statements, QueryText, QueryParams and
--   ExistsQuery the queries, Validate and GrantModule the methods of the module. The database is a
--   parameter: what it answers to a query, by the name of the query's constant, and what it does
--   with a statement. Valid, Expanded, Given and Applied have the proofs.
-- Mysql: modules/mysql/grant.go and modules/mysql/queries.go, laid out as Postgres, with Mysql/Made for the text of the statements; Mysql/Literal has a
--   reader of the literals that the statements hold, as the server's manual describes it.
-- DefaultPrivileges: modules/postgres/default_privileges.go. Scope and Targets have the validation and
--   `expandTargets`, Catalog the database as a parameter and the query on pg_default_acl, as a function of
--   the tables that it reads, Statement, Methods and Validate the rest; Expanded, Applied and NoSchema have
--   the proofs.
-- Role: modules/postgres/role.go, with the copies that value receivers work on; a nil pointer that is used
--   is an error. Role/Settled has the proofs.
-- CloudSql: modules/google/cloudsql/user.go with what it uses of cloudsql.go, and `CurrentProject` of
--   modules/google/cloud/cloud.go. Names has the names of users and versions, Users the tests on the list
--   of users, Admin the calls of Google Cloud as a parameter and `setup`, Methods the methods of the
--   module; Laws and Identity have the proofs. Database has modules/google/cloudsql/database.go, and
--   Ready its proofs. The lower case of letters outside of ASCII is a parameter.
-- Sql, Module/Loops, Inputs/Static: what these have in common: the connection, the database as a
--   parameter, loops that append or fail, and the checks of static inputs in `Validate`.
--
-- Controller: cmd/blackstart/controller_runtime.go. Controller/Scheduler has
--   `controllerScheduler` with its methods, each of which holds the mutex from its start to its
--   end, and Controller/Dispatch the loops of `runWorkflowsControllerInK8s` as steps of the
--   dispatcher and of the workers, which may come in any order. Controller/Namespaces has
--   `parseNamespaces`. Flags, Owned and Settled prove whose runs the flags of an entry are about, Steps and
--   Drains that the work ends. A pointer to an entry is the name under which the map has it: a refresh
--   deletes no entry that is queued or running (Controller/Kept), and those are the ones that
--   runs point to. Not modelled: the watches and the calls of the cluster, whose results are in
--   the steps, and the warnings in the log.
--
-- Kubernetes: modules/kubernetes/configmap_value.go and secret_value.go, whose methods differ only in the
--   object that holds the values (`Kind`): `Check` and `Set` in Kubernetes/ConfigMapValue, `Validate` in
--   Kubernetes/Validate, and modules/kubernetes/value_input.go in Kubernetes/ValueInput and Validate, with
--   proofs in Kubernetes/Policy and Kubernetes/Written. The data of the object is the state, and a
--   parameter says what the client returns from an update, which is the data that the code goes on with.
--
-- A Go map is an association list, whose order stands for the order of `range`; where the code goes
-- over a map that it made itself, that order is a function parameter (`range_order`). Errors are
-- values of one type with a constructor for each message, and a panic is an error too.
pub mod Prelude
pub mod Text
pub mod Values
pub mod Operation
pub mod Module
pub mod Inputs
pub mod Sql
pub mod Postgres
pub mod Mysql
pub mod DefaultPrivileges
pub mod Role
pub mod CloudSql
pub mod Graph
pub mod Workflow
pub mod Controller
pub mod Kubernetes
