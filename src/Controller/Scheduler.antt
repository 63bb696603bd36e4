-- ===== src/Controller/Scheduler.antt =====
-- cmd/blackstart/controller_runtime.go: `controllerScheduler`. A time and a duration are numbers of
-- nanoseconds; the code gives no meaning to a negative interval but that of 0. A pointer to an entry
-- is the name under which the map has the entry.
use Prim.Native.String
use blackstart.Prelude.{
  ℕ, ◌+◌, ◌-◌, String, Bool, true, false, not, ◌&&◌, ◌||◌, Option, none, some, List, [], ◌∷◌,
  contains, leb, ltb, suc, ◌==◌, if◌then◌else◌,
}
use blackstart.Prelude.Dict.{Dict, lookup, insert}

-- The `Source` of a workflow from Kubernetes: its key, and when it last ran.
pub record Source : Type 0 where
  pub namespace : String
  pub name : String
  pub last_ran : Option ℕ

-- The parts of a workflow that the scheduler reads.
pub record ScheduledSource : Type 0 where
  pub source : Option Source
  pub reconcile_interval : ℕ

-- type scheduledWorkflow struct; its key is the two names
pub record Entry : Type 0 where
  pub namespace : String
  pub name : String
  pub workflow : ScheduledSource
  pub interval : ℕ
  pub next_run_at : ℕ
  pub queued_at : ℕ
  pub running : Bool
  pub queued : Bool

-- type scheduledWorkflowRun struct
pub record Run : Type 0 where
  pub entry : String
  pub namespace : String
  pub name : String
  pub workflow : ScheduledSource
  pub queued_at : ℕ

-- scheduleKey
unfoldable pub schedule_key : String → String → String
schedule_key namespace name =
    if namespace == ""
    then name
    else Prim.Native.String.◌++◌ namespace (Prim.Native.String.◌++◌ "/" name)

abbrev pub run_key : Run → String
run_key r = schedule_key r.namespace r.name

-- computeNextRunFromStatus
unfoldable pub compute_next_run : ℕ → Option ℕ → ℕ → ℕ
compute_next_run now none interval = now
compute_next_run now (some last) interval =
    if leb interval 0 then now else if ltb (last + interval) now then now else last + interval

-- An entry as `upsert` makes or updates it.
unfoldable pub updated : ℕ → ScheduledSource → Source → Option Entry → Entry
unfolding compute_next_run
updated now wf kwf none = record {
  namespace = kwf.namespace;
  name = kwf.name;
  workflow = wf;
  interval = wf.reconcile_interval;
  next_run_at = compute_next_run now kwf.last_ran wf.reconcile_interval;
  queued_at = 0;
  running = false;
  queued = false;
}
updated now wf kwf (some e) = record e {
  workflow = wf;
  interval = wf.reconcile_interval;
  next_run_at =
      if not e.running && not e.queued
      then compute_next_run now kwf.last_ran wf.reconcile_interval
      else e.next_run_at;
}

abbrev pub source_id : Source → String
source_id kwf = schedule_key kwf.namespace kwf.name

unfoldable pub upsert_source : ℕ → ScheduledSource → Option Source → Dict Entry → Dict Entry
unfolding updated
upsert_source now wf none entries = entries
upsert_source now wf (some kwf) entries =
    insert (source_id kwf) (updated now wf kwf (lookup (source_id kwf) entries)) entries

-- upsert
unfoldable pub upsert : ℕ → ScheduledSource → Dict Entry → Dict Entry
unfolding upsert_source
upsert now wf entries = upsert_source now wf wf.source entries

abbrev add_present : Option Source → List String → List String
add_present none ids = ids
add_present (some kwf) ids = source_id kwf ∷ ids

-- The names in the map `present` of `replaceFromWorkflows`.
unfoldable pub present : List ScheduledSource → List String
present [] = []
present (wf ∷ wfs) = add_present wf.source (present wfs)

unfoldable pub upsert_all : ℕ → List ScheduledSource → Dict Entry → Dict Entry
unfolding upsert
upsert_all now [] entries = entries
upsert_all now (wf ∷ wfs) entries = upsert_all now wfs (upsert now wf entries)

-- The last loop of `replaceFromWorkflows`.
unfoldable pub delete_absent : List String → Dict Entry → Dict Entry
delete_absent ids [] = []
delete_absent ids ((id, e) ∷ rest) =
    let kept = delete_absent ids rest in
    if not (contains ids id) && not e.running && not e.queued then kept else (id, e) ∷ kept

-- replaceFromWorkflows
unfoldable pub replace_from_workflows : ℕ → List ScheduledSource → Dict Entry → Dict Entry
unfolding present upsert_all delete_absent
replace_from_workflows now wfs entries = delete_absent (present wfs) (upsert_all now wfs entries)

unfoldable pub is_due : ℕ → Entry → Bool
is_due now e = not (e.running || e.queued) && leb e.next_run_at now

-- dueWorkflows: the runs, and the entries with the due ones marked as queued
unfoldable pub due_workflows : ℕ → Dict Entry → List Run × Dict Entry
unfolding is_due
due_workflows now [] = ([], [])
due_workflows now ((id, e) ∷ rest) =
    let (runs, others) = due_workflows now rest in
    if is_due now e
    then (
      record {
        entry = id;
        namespace = e.namespace;
        name = e.name;
        workflow = e.workflow;
        queued_at = now;
      }
          ∷ runs,
      (id, record e { queued = true; queued_at = now }) ∷ others,
    )
    else (runs, (id, e) ∷ others)

-- A write to the entry that a run points to.
unfoldable pub update : String → (Entry → Entry) → Dict Entry → Dict Entry
update id f [] = []
update id f ((key, e) ∷ rest) = (key, if key == id then f e else e) ∷ update id f rest

unfoldable pub mark_running : String → Dict Entry → Dict Entry
unfolding update
mark_running id entries = update id (λ e. record e { running = true; queued = false }) entries

unfoldable pub mark_done : ℕ → String → Dict Entry → Dict Entry
unfolding update
mark_done now id entries =
    update id (λ e. record e { running = false; queued = false; next_run_at = now + e.interval })
      entries

unfoldable pub mark_queue_full : ℕ → ℕ → String → Dict Entry → Dict Entry
unfolding update
mark_queue_full now retry id entries =
    update id (λ e. record e { queued = false; next_run_at = now + retry }) entries

-- type queueHealth struct
pub record QueueHealth : Type 0 where
  pub queued_count : ℕ
  pub missed_interval_keys : List String

-- (s *controllerScheduler) queueHealth; a key is printed with both its names
unfoldable pub queue_health : ℕ → Dict Entry → QueueHealth
queue_health now [] = record { queued_count = 0; missed_interval_keys = [] }
queue_health now ((id, e) ∷ rest) =
    let health = queue_health now rest in
    if e.queued
    then record {
      queued_count = suc health.queued_count;
      missed_interval_keys =
          if ltb 0 e.interval && leb e.interval (now - e.queued_at)
          then Prim.Native.String.◌++◌ e.namespace (Prim.Native.String.◌++◌ "/" e.name)
            ∷ health.missed_interval_keys
          else health.missed_interval_keys;
    }
    else health
