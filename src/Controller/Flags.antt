-- ===== src/Controller/Flags.antt =====
-- cmd/blackstart/controller_runtime.go: whose run the flags of an entry are about.
use blackstart.Prelude.{
  ℕ, zero, suc, String, Bool, true, false, ◌&&◌, ◌||◌, none, some, List, [], ◌∷◌, ◌++◌, All, ◌==◌,
  ◌≡◌, inl, inr, refl, sym, ap, subst, arith, eq_iff, Bool-cases,
}
use blackstart.Prelude.Dict.{Dict}
use blackstart.Controller.Scheduler.{Entry, Run, update}
use blackstart.Controller.Dispatch.{Stage, received, started, worker_at, move_to, retire}

-- Whether one of the runs is for the entry.
abbrev pub has_run : String → List Run → Bool
has_run id [] = false
has_run id (r ∷ rs) = (r.entry == id) || has_run id rs

-- Whether a worker that is at one of some stages has a run for the entry.
abbrev pub at : (Stage → Bool) → String → List (Run × Stage) → Bool
at test id [] = false
at test id (w ∷ ws) = (test w.1 && (w.0.entry == id)) || at test id ws

abbrev pub is_received : Stage → Bool
is_received received = true
is_received _ = false

abbrev pub is_started : Stage → Bool
is_started started = true
is_started _ = false

pub has_run-append :
    (id : String) (rs : List Run) (r : Run)
    → has_run id (rs ++ r ∷ []) ≡ ((r.entry == id) || has_run id rs)
has_run-append id [] r = refl
has_run-append id (q ∷ rs) r = ground (arith, has_run-append id rs r)

worker-eq : (v w : Run × Stage) → some v ≡ some w → v ≡ w
worker-eq v w h = ap (λ o. elim o [ none ↦ v | some x ↦ x ]) h

-- A worker that moves matters only to its own entry.
pub at-move_to :
    (test : Stage → Bool) (id : String) (i : ℕ) (s : Stage) (ws : List (Run × Stage))
    (w : Run × Stage)
    → worker_at i ws ≡ some w
    → (w.0.entry == id) ≡ false
    → at test id (move_to i s ws) ≡ at test id ws
unfolding move_to
at-move_to test id i s [] w found other = cc
at-move_to test id zero s (v ∷ ws) w found other =
    let mine = subst (λ u. (u.0.entry == id) ≡ false) (sym (worker-eq v w found)) other in
    ground (arith, mine)
at-move_to test id (suc i) s (v ∷ ws) w found other =
    ground (arith, at-move_to test id i s ws w found other)

pub at-move_to_self :
    (test : Stage → Bool) (i : ℕ) (s : Stage) (ws : List (Run × Stage)) (w : Run × Stage)
    → worker_at i ws ≡ some w
    → test s ≡ true
    → at test w.0.entry (move_to i s ws) ≡ true
unfolding move_to
at-move_to_self test i s [] w found holds = cc
at-move_to_self test zero s (v ∷ ws) w found holds =
    let same = ap (λ u. u.0.entry) (worker-eq v w found) in
    ground (arith, same, eq_iff v.0.entry w.0.entry)
at-move_to_self test (suc i) s (v ∷ ws) w found holds =
    ground (arith, at-move_to_self test i s ws w found holds)

pub at-retire :
    (test : Stage → Bool) (id : String) (i : ℕ) (ws : List (Run × Stage)) (w : Run × Stage)
    → worker_at i ws ≡ some w
    → test w.1 ≡ false
    → at test id (retire i ws) ≡ at test id ws
unfolding retire
at-retire test id i [] w found past = cc
at-retire test id zero (v ∷ ws) w found past =
    let mine = subst (λ u. test u.1 ≡ false) (sym (worker-eq v w found)) past in
    ground (arith, mine)
at-retire test id (suc i) (v ∷ ws) w found past =
    ground (arith, at-retire test id i ws w found past)

-- An entry's flags are about a run: one that waits, where it is queued, and one that runs, where it
-- is running.
abbrev pub IsAbout : (String → Bool) → (String → Bool) → String → Entry → Type 0
IsAbout waits runs id e = (e.queued ≡ true → waits id ≡ true) × (e.running ≡ true → runs id ≡ true)

abbrev pub AllAbout : (String → Bool) → (String → Bool) → Dict Entry → Type 0
AllAbout waits runs entries = All (λ named. IsAbout waits runs named.0 named.1) entries

-- A write to an entry, when for all others there is what there was.
pub update-AllAbout :
    (waits runs waits' runs' : String → Bool) (id : String) (f : Entry → Entry)
    (entries : Dict Entry)
    → ((e : Entry) → IsAbout waits runs id e → IsAbout waits' runs' id (f e))
    → ((other : String)
        → (id == other) ≡ false
        → (waits other ≡ true → waits' other ≡ true) × (runs other ≡ true → runs' other ≡ true))
    → AllAbout waits runs entries
    → AllAbout waits' runs' (update id f entries)
unfolding update
update-AllAbout waits runs waits' runs' id f [] mine others about = tt
update-AllAbout waits runs waits' runs' id f ((key, e) ∷ rest) mine others about = (
  elim (Bool-cases (key == id)) [
    | inl here ↦ rw here (
        subst (λ k. IsAbout waits' runs' k (f e)) (sym ((eq_iff key id).0 here))
          (mine e (subst (λ k. IsAbout waits runs k e) ((eq_iff key id).0 here) about.0)))
    | inr other ↦
        let kept = others key (ground (arith, eq_iff key id, eq_iff id key)) in
        rw other ((λ h. kept.0 (about.0.0 h)), (λ h. kept.1 (about.0.1 h)))
  ],
  update-AllAbout waits runs waits' runs' id f rest mine others about.1,
)
