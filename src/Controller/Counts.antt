-- ===== src/Controller/Counts.antt =====
-- cmd/blackstart/controller_runtime.go: how many runs with a key are queued or with a worker.
use blackstart.Prelude.{
  ℕ, zero, suc, ◌≤◌, String, not, ◌&&◌, none, some, List, [], ◌∷◌, ◌++◌, contains, length, ◌==◌,
  if◌then◌else◌, ◌≡◌, refl, sym, ap, arith, eq_iff,
}
use blackstart.Controller.Scheduler.{Run, run_key}
use blackstart.Controller.Dispatch.{Stage, delete_key, worker_at, move_to, retire}

-- How many of the runs have the key.
abbrev pub copies : String → List Run → ℕ
copies a [] = 0
copies a (r ∷ rs) = let rest = copies a rs in if run_key r == a then suc rest else rest

-- How many of the busy workers have a run with the key.
abbrev pub busy : String → List (Run × Stage) → ℕ
busy a [] = 0
busy a (w ∷ ws) = let rest = busy a ws in if run_key w.0 == a then suc rest else rest

abbrev pub member : String → List String → ℕ
member a ks = if contains ks a then 1 else 0

pub copies-append :
    (a : String) (rs : List Run) (r : Run)
    → copies a (rs ++ r ∷ []) ≡ (if run_key r == a then suc (copies a rs) else copies a rs)
copies-append a [] r = refl
copies-append a (q ∷ rs) r = ground (arith, copies-append a rs r)

pub length-append_one : (rs : List Run) (r : Run) → length (rs ++ r ∷ []) ≡ suc (length rs)
length-append_one [] r = refl
length-append_one (q ∷ rs) r = omega (arith, length-append_one rs r)

pub contains-delete_key :
    (k a : String) (ks : List String)
    → contains (delete_key k ks) a ≡ (contains ks a && not (k == a))
unfolding delete_key
contains-delete_key k a [] = refl
contains-delete_key k a (x ∷ ks) =
    ground (arith, contains-delete_key k a ks, eq_iff x k, eq_iff x a, eq_iff k a)

pub busy-move_to :
    (a : String) (i : ℕ) (s : Stage) (ws : List (Run × Stage)) → busy a (move_to i s ws) ≡ busy a ws
unfolding move_to
busy-move_to a i s [] = refl
busy-move_to a zero s (w ∷ ws) = refl
busy-move_to a (suc i) s (w ∷ ws) = ground (arith, busy-move_to a i s ws)

pub length-move_to :
    (i : ℕ) (s : Stage) (ws : List (Run × Stage)) → length (move_to i s ws) ≡ length ws
unfolding move_to
length-move_to i s [] = refl
length-move_to zero s (w ∷ ws) = refl
length-move_to (suc i) s (w ∷ ws) = omega (arith, length-move_to i s ws)

worker-eq : (v w : Run × Stage) → some v ≡ some w → v ≡ w
worker-eq v w h = ap (λ o. elim o [ none ↦ v | some x ↦ x ]) h

pub busy-retire :
    (a : String) (i : ℕ) (ws : List (Run × Stage)) (w : Run × Stage)
    → worker_at i ws ≡ some w
    → busy a ws ≡ (if run_key w.0 == a then suc (busy a (retire i ws)) else busy a (retire i ws))
unfolding retire
busy-retire a i [] w h = cc
busy-retire a zero (v ∷ ws) w h = rw (sym (worker-eq v w h)) refl
busy-retire a (suc i) (v ∷ ws) w h = ground (arith, busy-retire a i ws w h)

pub length-retire : (i : ℕ) (ws : List (Run × Stage)) → length (retire i ws) ≤ length ws
unfolding retire
length-retire i [] = omega arith
length-retire zero (w ∷ ws) = omega arith
length-retire (suc i) (w ∷ ws) = omega (arith, length-retire i ws)
