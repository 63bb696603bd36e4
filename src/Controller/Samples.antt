-- ===== src/Controller/Samples.antt =====
-- Tests of the controller, and its theorems at a concrete run.
use blackstart.Prelude.{
  IsDistinct, ◌≢◌, ◌+◌, ◌*◌, ◌≤◌, ◌<◌, ◌⊎◌, arith, String, true, false, none, some, [], ◌∷◌,
  contains, length, ◌≡◌, refl, All, map,
}
use blackstart.Prelude.Dict.{Dict, lookup, insert}
use blackstart.Text.{trim_space, split_char}
use blackstart.Controller.Namespaces.{
  parse_namespaces, named_parts, parse_namespaces-IsDistinct, contains-parse_namespaces,
}
use blackstart.Controller.Scheduler
use blackstart.Controller.Scheduler.{
  Source, ScheduledSource, Entry, Run, replace_from_workflows, is_due, due_workflows,
}
use blackstart.Controller.Dispatch.{
  Controller, Action, tick, dispatch, receive, start, step, initial, Reachable, at_start, after,
  move_to,
}
use blackstart.Controller.Counts.{copies, busy}
use blackstart.Controller.Steps.{pending, is_work}
use blackstart.Controller.Drains.{IsIdle, CanWork, step-Drains}
use blackstart.Controller.Exclusive.{Reachable-IsExclusive}
use blackstart.Controller.Kept.{
  HasRun, due_names, replace_from_workflows-HasRun, due_workflows-IsDue,
}

abbrev hourly : String → ScheduledSource
hourly name = record {
  source = some (record { namespace = "ops"; name = name; last_ran = none });
  reconcile_interval = 3600;
}

abbrev first_entries : Dict Entry
first_entries = replace_from_workflows 10 (hourly "a" ∷ hourly "b" ∷ []) []

abbrev advance : Action → Controller → Controller
advance action c = elim (step 2 action c) [ none ↦ c | some d ↦ d ]

abbrev c0 : Controller
c0 = initial 2 first_entries

abbrev c1 : Controller
c1 = advance (tick 20) c0

abbrev c2 : Controller
c2 = advance (dispatch 21) c1

abbrev c3 : Controller
c3 = advance receive c2

abbrev c4 : Controller
c4 = advance (start 0) c3

c4-Reachable : Reachable 2 first_entries c4
unfolding step due_workflows replace_from_workflows insert Scheduler.schedule_key lookup
c4-Reachable =
    after (start 0) c3 c4
      (after receive c2 c3 (after (dispatch 21) c1 c2 (after (tick 20) c0 c1 at_start refl) refl)
        refl)
      refl

-- One worker runs the first of the two workflows, and the other waits in `due`.
c4_busy : busy "ops/a" c4.workers ≡ 1
unfolding step due_workflows replace_from_workflows insert Scheduler.schedule_key lookup move_to
c4_busy = refl

Reachable-IsExclusive_example :
    ((a : String) → copies a c4.queue + busy a c4.workers ≤ 1)
    × ((a : String) → 1 ≤ copies a c4.queue + busy a c4.workers → contains c4.active_keys a ≡ true)
    × (length c4.queue ≤ 2 * 4)
    × (length c4.workers ≤ 2)
Reachable-IsExclusive_example = Reachable-IsExclusive 2 first_entries c4 c4-Reachable

abbrev running_entry : Entry
running_entry = record {
  namespace = "ops";
  name = "a";
  workflow = hourly "a";
  interval = 3600;
  next_run_at = 10;
  queued_at = 20;
  running = true;
  queued = false;
}

abbrev one_entry : Dict Entry
one_entry = ("ops/a", running_entry) ∷ []

one_entry-lookup : lookup "ops/a" one_entry ≡ some running_entry
unfolding lookup
one_entry-lookup = refl

replace_from_workflows-HasRun_example :
    HasRun "ops/a" running_entry (replace_from_workflows 30 (hourly "b" ∷ []) one_entry)
replace_from_workflows-HasRun_example =
    replace_from_workflows-HasRun 30 (hourly "b" ∷ []) one_entry "ops/a" running_entry refl
      one_entry-lookup

due_workflows-IsDue_example :
    (map (λ r. r.entry) (due_workflows 20 first_entries).0 ≡ due_names 20 first_entries)
    × All (λ named. is_due 20 named.1 ≡ false) (due_workflows 20 first_entries).1
due_workflows-IsDue_example = due_workflows-IsDue 20 first_entries

two_namespaces : parse_namespaces " ops, dev,,ops " ≡ "ops" ∷ "dev" ∷ []
unfolding parse_namespaces split_char trim_space
two_namespaces = refl

has_ops : contains (named_parts (split_char 44 (trim_space " ops, dev"))) "ops" ≡ true
unfolding split_char trim_space
has_ops = refl

parse_namespaces-IsDistinct_example :
    IsDistinct (parse_namespaces " ops, dev,,ops ") × (parse_namespaces " ops, dev,,ops " ≢ [])
parse_namespaces-IsDistinct_example = parse_namespaces-IsDistinct " ops, dev,,ops "

contains-parse_namespaces_example :
    contains (parse_namespaces " ops, dev") "dev"
    ≡ contains (named_parts (split_char 44 (trim_space " ops, dev"))) "dev"
contains-parse_namespaces_example = contains-parse_namespaces " ops, dev" "dev" "ops" has_ops

two_workers : 1 ≤ 2
two_workers = omega arith

step-Drains_example :
    (((pending c4 ≡ 0) × IsIdle 2 c4) ⊎ CanWork 2 c4)
    × ((action : Action) (d : Controller)
        → is_work action ≡ true
        → step 2 action c4 ≡ some d
        → pending d < pending c4)
step-Drains_example = step-Drains 2 10 (hourly "a" ∷ hourly "b" ∷ []) c4 two_workers c4-Reachable
