-- ===== src/Controller/Kept.antt =====
-- cmd/blackstart/controller_runtime.go: what a refresh keeps, and what `dueWorkflows` returns.
use blackstart.Prelude.{
  ℕ, String, Bool, true, false, not, ◌&&◌, ◌||◌, Option, none, some, List, [], ◌∷◌, map, contains,
  leb, All, ◌==◌, if◌then◌else◌, ◌≡◌, inl, inr, refl, sym, ap, subst, ◌∙◌, arith, Bool-cases,
  String-cases,
}
use blackstart.Prelude.Dict.{Dict, lookup, insert, lookup-insert, lookup-insert_self}
use blackstart.Controller.Scheduler.{
  Source, ScheduledSource, Entry, source_id, updated, upsert_source, upsert, present, upsert_all,
  delete_absent, replace_from_workflows, is_due, due_workflows,
}

-- An entry that is queued or running.
abbrev pub is_active : Entry → Bool
is_active e = e.running || e.queued

-- The second entry is as far in its run as the first.
pub record IsSameRun (e e' : Entry) : Type 0 where
  pub same_running : e'.running ≡ e.running
  pub same_queued : e'.queued ≡ e.queued
  pub same_next : e'.next_run_at ≡ e.next_run_at
  pub same_since : e'.queued_at ≡ e.queued_at

abbrev pub HasRun : String → Entry → Dict Entry → Type 0
HasRun id e entries = (e' : Entry) × (lookup id entries ≡ some e') × IsSameRun e e'

updated-IsSameRun :
    (now : ℕ) (wf : ScheduledSource) (kwf : Source) (e e' : Entry)
    → is_active e ≡ true
    → IsSameRun e e'
    → IsSameRun e (updated now wf kwf (some e'))
unfolding updated
updated-IsSameRun now wf kwf e e' active same = record {
  same_running = same.same_running;
  same_queued = same.same_queued;
  same_next = ground (arith, same.same_next, same.same_running, same.same_queued);
  same_since = same.same_since;
}

upsert_source-HasRun :
    (now : ℕ) (wf : ScheduledSource) (o : Option Source) (entries : Dict Entry) (id : String)
    (e : Entry)
    → is_active e ≡ true
    → HasRun id e entries
    → HasRun id e (upsert_source now wf o entries)
unfolding upsert_source
upsert_source-HasRun now wf none entries id e active has = has
upsert_source-HasRun now wf (some kwf) entries id e active (e', found, same) =
    let value = updated now wf kwf (lookup (source_id kwf) entries) in
    let read = lookup-insert (source_id kwf) id value entries in
    elim (String-cases (source_id kwf) id) [
      | inl here ↦
          subst (λ i. HasRun i e (insert (source_id kwf) value entries)) here
            (
              updated now wf kwf (some e'),
              (lookup-insert_self (source_id kwf) value entries
                  ∙ ap (λ o. some (updated now wf kwf o))
                      (subst (λ i. lookup i entries ≡ some e') (sym here) found)),
              updated-IsSameRun now wf kwf e e' active same,
            )
      | inr other ↦ (e', ground (arith, read), same)
    ]

upsert_all-HasRun :
    (now : ℕ) (wfs : List ScheduledSource) (entries : Dict Entry) (id : String) (e : Entry)
    → is_active e ≡ true
    → HasRun id e entries
    → HasRun id e (upsert_all now wfs entries)
unfolding upsert_all upsert
upsert_all-HasRun now [] entries id e active has = has
upsert_all-HasRun now (wf ∷ wfs) entries id e active has =
    upsert_all-HasRun now wfs (upsert now wf entries) id e active
      (upsert_source-HasRun now wf wf.source entries id e active has)

-- The names of the entries that are neither queued nor running and whose time has come.
abbrev pub due_names : ℕ → Dict Entry → List String
due_names now [] = []
due_names now ((id, e) ∷ rest) =
    let others = due_names now rest in
    if not (is_active e) && leb e.next_run_at now then id ∷ others else others

kept-lookup :
    (drop : Bool) (id key : String) (x : Entry) (rest : Dict Entry)
    → lookup id (if drop then rest else (key, x) ∷ rest)
      ≡ (if drop then lookup id rest else if key == id then some x else lookup id rest)
unfolding lookup
kept-lookup true id key x rest = refl
kept-lookup false id key x rest = refl

first-same :
    (test : Bool) (x e : Entry) (o : Option Entry)
    → test ≡ true
    → (if test then some x else o) ≡ some e
    → x ≡ e
first-same true x e o holds found = ap (λ p. elim p [ none ↦ x | some y ↦ y ]) found
first-same false x e o holds found = cc

delete_absent-lookup :
    (ids : List String) (entries : Dict Entry) (id : String) (e : Entry)
    → is_active e ≡ true
    → lookup id entries ≡ some e
    → lookup id (delete_absent ids entries) ≡ some e
unfolding delete_absent lookup
delete_absent-lookup ids [] id e active found = cc
delete_absent-lookup ids ((key, x) ∷ rest) id e active found =
    let drop = not (contains ids key) && not x.running && not x.queued in
    let read = kept-lookup drop id key x (delete_absent ids rest) in
    elim (Bool-cases (key == id)) [
      | inl here ↦
          let same = first-same (key == id) x e (lookup id rest) here found in
          let active_x = subst (λ y. is_active y ≡ true) (sym same) active in read ∙ ground arith
      | inr other ↦
          let later = delete_absent-lookup ids rest id e active (ground arith) in
          read ∙ ground (arith, later)
    ]

-- When an entry is queued or running, a refresh with any list of workflows keeps it in the map, with
-- the same flags, the same time to run next and the same time since when it is queued.
pub replace_from_workflows-HasRun :
    (now : ℕ) (wfs : List ScheduledSource) (entries : Dict Entry) (id : String) (e : Entry)
    → is_active e ≡ true
    → lookup id entries ≡ some e
    → HasRun id e (replace_from_workflows now wfs entries)
unfolding replace_from_workflows
replace_from_workflows-HasRun now wfs entries id e active found =
    let start : IsSameRun e e = record {
      same_running = refl;
      same_queued = refl;
      same_next = refl;
      same_since = refl;
    } in
    let (e', upserted, same) = upsert_all-HasRun now wfs entries id e active (e, found, start) in
    (
      e',
      delete_absent-lookup (present wfs) (upsert_all now wfs entries) id e'
          (ground (arith, same.same_running, same.same_queued)) upserted,
      same,
    )

-- The runs that `due_workflows` returns have the names of the entries that are neither queued nor
-- running and whose time has come, in the order of the map, and once it has marked them no entry is
-- due.
pub due_workflows-IsDue :
    (now : ℕ) (entries : Dict Entry)
    → (map (λ r. r.entry) (due_workflows now entries).0 ≡ due_names now entries)
      × All (λ named. is_due now named.1 ≡ false) (due_workflows now entries).1
unfolding due_workflows is_due
due_workflows-IsDue now [] = (refl, tt)
due_workflows-IsDue now ((id, e) ∷ rest) =
    let (names, idle) = due_workflows-IsDue now rest in
    elim (Bool-cases (is_due now e)) [
      | inl due ↦ rw due (ap (λ ns. id ∷ ns) names, (ground arith, idle))
      | inr later ↦ rw later (names, (later, idle))
    ]
