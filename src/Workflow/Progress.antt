-- ===== src/Workflow/Progress.antt =====
-- The execution loop of workflow.go completes a prefix of the sorted ids, and counts it.
use blackstart.Prelude.{
  ℕ, suc, ◌+◌, String, ◌≡◌, refl, sym, ap, ◌∙◌, Option, none, some, List, [], ◌∷◌, ◌++◌, arith,
  length,
}
use mathlib.Core.List.{append_assoc, append-nil}
use blackstart.Prelude.Dict
use blackstart.Operation.{Operation}
use blackstart.Module.{Error}
use blackstart.Module.Registry.{Registry}
use blackstart.Workflow.{WorkflowResult}
use blackstart.Workflow.Prepare.{Tables}
use blackstart.Workflow.Run.{
  LogLine, Execution, proceed, run_found, run_operation, run_all, one_more,
}
use blackstart.Workflow.Log.{Logs, run_operation-Logs}
use blackstart.Workflow.Guarded.{finished, finished-append, finished-OneRun, IsKeyed}

-- From a log with `seen` finished, the loop over `rest` has finished `taken` too.
pub record Progress (seen rest : List String) (count : ℕ) (res : WorkflowResult)
    (log : List LogLine) : Type 0 where
  pub taken : List String
  pub left : List String
  pub splits : rest ≡ taken ++ left
  pub finishes : finished log ≡ seen ++ taken
  pub counts : res.completed_operations ≡ count + length taken
  pub all_taken : res.err ≡ none → left ≡ []

abbrev Loop : Type 0 → Type 0
Loop World = WorkflowResult → Execution World → WorkflowResult × Execution World

module _ {World : Type 0} (r : Registry World) (t : Tables World) (keyed : IsKeyed t) where
  -- The loop stops here: nothing more is taken.
  stops :
      (seen rest : List String) (res : WorkflowResult) (log : List LogLine) (op : Option Operation)
      (x : Error)
      → finished log ≡ seen
      → Progress seen rest res.completed_operations (record res { op = op; err = some x }) log
  stops seen rest res log op x f = record {
    taken = [];
    left = rest;
    splits = refl;
    finishes = f ∙ sym (append-nil seen);
    counts = omega arith;
    all_taken = λ e. cc;
  }

  -- One more id is taken before the others.
  takes :
      (seen rest : List String) (id : String) (count : ℕ) (res : WorkflowResult)
      (log : List LogLine)
      → Progress (seen ++ id ∷ []) rest (suc count) res log
      → Progress seen (id ∷ rest) count res log
  takes seen rest id count res log p = record {
    taken = id ∷ p.taken;
    left = p.left;
    splits = ap (λ l. id ∷ l) p.splits;
    finishes = p.finishes ∙ append_assoc seen (id ∷ []) p.taken;
    counts = omega (arith, p.counts);
    all_taken = p.all_taken;
  }

  abbrev Later : List String → List String → String → Loop World → Type 0
  Later seen rest id next =
      (res : WorkflowResult) (st : Execution World)
      → res.err ≡ none
      → finished st.log ≡ seen ++ id ∷ []
      → let (res', st') = next res st in
        Progress (seen ++ id ∷ []) rest res.completed_operations res' st'.log

  proceed-Progress :
      (op : Operation) (seen rest : List String) (res : WorkflowResult) (next : Loop World)
      (st : Execution World) (out : Option Error × Execution World)
      → res.err ≡ none
      → finished st.log ≡ seen
      → Logs op.id st out
      → Later seen rest op.id next
      → Progress seen
          (op.id ∷ rest)
          res.completed_operations
          (proceed op res next out).0
          (proceed op res next out).1.log
  proceed-Progress op seen rest res next st (some x, st') fine f (lines, extends, run) later =
      stops seen (op.id ∷ rest) res st'.log (some op) x
        (rw extends (finished-append st.log lines ∙ cc (f, finished-OneRun run, append-nil seen)))
  proceed-Progress op seen rest res next st (none, st') fine f (lines, extends, run) later =
      takes seen rest op.id res.completed_operations _ _ (
        later (one_more op res) st' fine
          (rw extends (finished-append st.log lines ∙ cc (f, finished-OneRun run))))

  run_found-Progress :
      (id : String) (seen rest : List String) (res : WorkflowResult) (next : Loop World)
      (found : Option Operation) (st : Execution World)
      → ((op : Operation) → found ≡ some op → op.id ≡ id)
      → res.err ≡ none
      → finished st.log ≡ seen
      → Later seen rest id next
      → Progress seen
          (id ∷ rest)
          res.completed_operations
          (run_found r t id res next found st).0
          (run_found r t id res next found st).1.log
  run_found-Progress id seen rest res next none st same fine f later =
      stops seen (id ∷ rest) res st.log none _ f
  run_found-Progress id seen rest res next (some op) st same fine f later = rw (← same op refl) (
      proceed-Progress op seen rest res next st (run_operation r t op st) fine f
        (run_operation-Logs r t op st)
        (λ res st x f. rw (same op refl) (later res st x (rw (same op refl) at f))))

  pub run_all-Progress :
      (rest seen : List String) (res : WorkflowResult) (st : Execution World)
      → res.err ≡ none
      → finished st.log ≡ seen
      → Progress seen rest res.completed_operations
          (run_all r t rest res st).0
          (run_all r t rest res st).1.log
  unfolding run_all
  run_all-Progress [] seen res st fine f = record {
    taken = [];
    left = [];
    splits = refl;
    finishes = f ∙ sym (append-nil seen);
    counts = omega arith;
    all_taken = λ e. refl;
  }
  run_all-Progress (id ∷ rest) seen res st fine f =
      run_found-Progress id seen rest res (run_all r t rest) (Dict.lookup id t.operations) st
        (keyed id) fine f (λ res st x g. run_all-Progress rest (seen ++ id ∷ []) res st x g)

module _ {World : Type 0} (r : Registry World) (t : Tables World) where
  proceed-total :
      (op : Operation) (res : WorkflowResult) (next : Loop World)
      (out : Option Error × Execution World)
      → ((res : WorkflowResult) (st : Execution World)
          → (next res st).0.total_operations ≡ res.total_operations)
      → (proceed op res next out).0.total_operations ≡ res.total_operations
  proceed-total op res next (some x, st) later = refl
  proceed-total op res next (none, st) later = later (one_more op res) st

  run_found-total :
      (id : String) (res : WorkflowResult) (next : Loop World) (found : Option Operation)
      (st : Execution World)
      → ((res : WorkflowResult) (st : Execution World)
          → (next res st).0.total_operations ≡ res.total_operations)
      → (run_found r t id res next found st).0.total_operations ≡ res.total_operations
  run_found-total id res next none st later = refl
  run_found-total id res next (some op) st later =
      proceed-total op res next (run_operation r t op st) later

  pub run_all-total :
      (rest : List String) (res : WorkflowResult) (st : Execution World)
      → (run_all r t rest res st).0.total_operations ≡ res.total_operations
  unfolding run_all
  run_all-total [] res st = refl
  run_all-total (id ∷ rest) res st =
      run_found-total id res (run_all r t rest) (Dict.lookup id t.operations) st
        (run_all-total rest)
