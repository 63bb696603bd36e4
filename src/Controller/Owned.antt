-- ===== src/Controller/Owned.antt =====
-- cmd/blackstart/controller_runtime.go: in every state that the goroutines reach, the flags of an entry
-- are about a run of it.
use blackstart.Prelude.{
  ℕ, String, Bool, true, false, not, ◌&&◌, ◌||◌, Option, none, some, List, [], ◌∷◌, contains, ◌==◌,
  ◌≡◌, inl, inr, refl, subst, arith, eq_iff, Bool-cases,
}
use blackstart.Prelude.Dict.{Dict, lookup, insert}
use blackstart.Controller.Scheduler.{
  Source, ScheduledSource, Entry, source_id, updated, upsert_source, upsert, present, upsert_all,
  delete_absent, replace_from_workflows, is_due, due_workflows,
}
use blackstart.Controller.Dispatch.{Controller}
use blackstart.Controller.Flags.{has_run, at, is_received, is_started, IsAbout, AllAbout}

pub AllAbout-mono :
    (waits runs waits' runs' : String → Bool) (entries : Dict Entry)
    → ((id : String) → (waits id ≡ true → waits' id ≡ true) × (runs id ≡ true → runs' id ≡ true))
    → AllAbout waits runs entries
    → AllAbout waits' runs' entries
AllAbout-mono waits runs waits' runs' [] more about = tt
AllAbout-mono waits runs waits' runs' ((id, e) ∷ rest) more about = (
  ((λ h. (more id).0 (about.0.0 h)), (λ h. (more id).1 (about.0.1 h))),
  AllAbout-mono waits runs waits' runs' rest more about.1,
)

or_right : (a b : Bool) → b ≡ true → (a || b) ≡ true
or_right true b h = refl
or_right false b h = h

or_left : (a b : Bool) → a ≡ true → (a || b) ≡ true
or_left true b h = refl
or_left false b h = cc

pub due_workflows-AllAbout :
    (now : ℕ) (waits runs : String → Bool) (entries : Dict Entry)
    → AllAbout waits runs entries
    → AllAbout
        (λ id. has_run id (due_workflows now entries).0 || waits id)
        runs
        (due_workflows now entries).1
unfolding due_workflows is_due
due_workflows-AllAbout now waits runs [] about = tt
due_workflows-AllAbout now waits runs ((id, e) ∷ rest) about =
    let later = due_workflows-AllAbout now waits runs rest about.1 in
    elim (Bool-cases (is_due now e)) [
      | inl due ↦ rw due (
        ((λ h. or_left _ _ (or_left (id == id) _ ((eq_iff id id).1 refl))), about.0.1),
        AllAbout-mono _ runs _ runs (due_workflows now rest).1
            (λ other. ((λ h. ground (arith, h)), (λ h. h))) later,
      )
      | inr idle ↦ rw idle (((λ h. or_right _ _ (about.0.0 h)), about.0.1), later)
    ]

module _ (waits runs : String → Bool) where
  insert-AllAbout :
      (id : String) (e : Entry) (entries : Dict Entry)
      → IsAbout waits runs id e
      → AllAbout waits runs entries
      → AllAbout waits runs (insert id e entries)
  unfolding insert
  insert-AllAbout id e [] mine about = (mine, tt)
  insert-AllAbout id e ((key, x) ∷ rest) mine about = elim (Bool-cases (key == id)) [
    | inl here ↦ rw here (mine, about.1)
    | inr other ↦ rw other (about.0, insert-AllAbout id e rest mine about.1)
  ]

  updated-IsAbout :
      (now : ℕ) (wf : ScheduledSource) (kwf : Source) (id : String) (entries : Dict Entry)
      → AllAbout waits runs entries
      → IsAbout waits runs id (updated now wf kwf (lookup id entries))
  unfolding updated lookup
  updated-IsAbout now wf kwf id [] about = ((λ h. cc), (λ h. cc))
  updated-IsAbout now wf kwf id ((key, x) ∷ rest) about = elim (Bool-cases (key == id)) [
    | inl here ↦
        let mine = subst (λ k. IsAbout waits runs k x) ((eq_iff key id).0 here) about.0 in
        rw here ((λ h. mine.0 h), (λ h. mine.1 h))
    | inr other ↦ rw other (updated-IsAbout now wf kwf id rest about.1)
  ]

  upsert_source-AllAbout :
      (now : ℕ) (wf : ScheduledSource) (o : Option Source) (entries : Dict Entry)
      → AllAbout waits runs entries
      → AllAbout waits runs (upsert_source now wf o entries)
  unfolding upsert_source
  upsert_source-AllAbout now wf none entries about = about
  upsert_source-AllAbout now wf (some kwf) entries about =
      insert-AllAbout (source_id kwf) _ entries
        (updated-IsAbout now wf kwf (source_id kwf) entries about) about

  upsert_all-AllAbout :
      (now : ℕ) (wfs : List ScheduledSource) (entries : Dict Entry)
      → AllAbout waits runs entries
      → AllAbout waits runs (upsert_all now wfs entries)
  unfolding upsert_all upsert
  upsert_all-AllAbout now [] entries about = about
  upsert_all-AllAbout now (wf ∷ wfs) entries about =
      upsert_all-AllAbout now wfs (upsert now wf entries)
        (upsert_source-AllAbout now wf wf.source entries about)

  delete_absent-AllAbout :
      (ids : List String) (entries : Dict Entry)
      → AllAbout waits runs entries
      → AllAbout waits runs (delete_absent ids entries)
  unfolding delete_absent
  delete_absent-AllAbout ids [] about = tt
  delete_absent-AllAbout ids ((id, e) ∷ rest) about =
      elim (Bool-cases (not (contains ids id) && not e.running && not e.queued)) [
        | inl drop ↦ rw drop (delete_absent-AllAbout ids rest about.1)
        | inr keep ↦ rw keep (about.0, delete_absent-AllAbout ids rest about.1)
      ]

  pub replace_from_workflows-AllAbout :
      (now : ℕ) (wfs : List ScheduledSource) (entries : Dict Entry)
      → AllAbout waits runs entries
      → AllAbout waits runs (replace_from_workflows now wfs entries)
  unfolding replace_from_workflows
  replace_from_workflows-AllAbout now wfs entries about =
      delete_absent-AllAbout (present wfs) (upsert_all now wfs entries)
        (upsert_all-AllAbout now wfs entries about)

-- The runs that are due or queued, or that a worker has received, and those that a worker runs.
abbrev pub waiting : Controller → String → Bool
waiting c id = has_run id c.due || (has_run id c.queue || at is_received id c.workers)

abbrev pub running : Controller → String → Bool
running c id = at is_started id c.workers

-- A queued entry has a run that waits, and a running entry has one that runs.
abbrev pub IsOwned : Controller → Type 0
IsOwned c = AllAbout (waiting c) (running c) c.entries
