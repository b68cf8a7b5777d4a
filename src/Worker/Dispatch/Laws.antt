-- ===== src/Worker/Dispatch/Laws.antt =====
-- Which operation `doWork` runs.
use mcma_libraries.Prelude.{
  ◌≡◌, refl, sym, ap, subst, Bool, true, false, String, none, some, List, [], ◌∷◌, ◌++◌, Result, ok,
  err,
}
use mcma_libraries.Worker.Dispatch.{
  WorkerRequest, WorkerOperation, Search, pick, find_operation, no_handler_message, failed_message,
  executed, run_operation, do_work,
}

module _ {I S : Type 0} (request : WorkerRequest I) where
  -- The operations decline the request, one after another.
  pub data Decline : List (WorkerOperation I S) → S → S → Type 0 where
    nobody : (s : S) → Decline [] s s
    declined :
        (op : WorkerOperation I S) (ops : List (WorkerOperation I S)) (s s₁ s₂ : S)
        → op.accepts request s ≡ (ok false, s₁)
        → Decline ops s₁ s₂
        → Decline (op ∷ ops) s s₂

  -- `op` is the first of the operations that does not decline, and it is asked in the state `s₀`.
  pub record FirstAsked (operations : List (WorkerOperation I S)) (s : S) (op : WorkerOperation I S)
      (s₀ : S) : Type 0 where
    pub before : List (WorkerOperation I S)
    pub after : List (WorkerOperation I S)
    pub parts : operations ≡ before ++ (op ∷ after)
    pub declining : Decline before s s₀

  pub data Found (operations : List (WorkerOperation I S)) (s : S) (out : Search I S) : Type 0 where
    found :
        (op : WorkerOperation I S) (s₀ s₁ : S)
        → FirstAsked operations s op s₀
        → op.accepts request s₀ ≡ (ok true, s₁)
        → out ≡ (ok (some op), s₁)
        → Found operations s out
    threw :
        (op : WorkerOperation I S) (s₀ s₁ : S) (message : String)
        → FirstAsked operations s op s₀
        → op.accepts request s₀ ≡ (err message, s₁)
        → out ≡ (err message, s₁)
        → Found operations s out
    missing : (s₀ : S) → Decline operations s s₀ → out ≡ (ok none, s₀) → Found operations s out

  later :
      (op : WorkerOperation I S) (ops : List (WorkerOperation I S)) (s s₁ : S) (out : Search I S)
      → op.accepts request s ≡ (ok false, s₁)
      → Found ops s₁ out
      → Found (op ∷ ops) s out
  later op ops s s₁ out refused (found op' s₀ s₂ first accepted e) =
      found op' s₀ s₂
        (record {
          before = op ∷ first.before;
          after = first.after;
          parts = ap (λ xs. op ∷ xs) first.parts;
          declining = declined op first.before s s₁ s₀ refused first.declining;
        })
        accepted e
  later op ops s s₁ out refused (threw op' s₀ s₂ m first accepted e) =
      threw op' s₀ s₂ m
        (record {
          before = op ∷ first.before;
          after = first.after;
          parts = ap (λ xs. op ∷ xs) first.parts;
          declining = declined op first.before s s₁ s₀ refused first.declining;
        })
        accepted e
  later op ops s s₁ out refused (missing s₀ all e) =
      missing s₀ (declined op ops s s₁ s₀ refused all) e

  head :
      (op : WorkerOperation I S) (ops : List (WorkerOperation I S)) (s : S)
      → FirstAsked (op ∷ ops) s op s
  head op ops s = record { before = []; after = ops; parts = refl; declining = nobody s }

  pick-Found :
      (op : WorkerOperation I S) (ops : List (WorkerOperation I S)) (s : S) (answer : Result Bool)
      (s₁ : S) (rest : Search I S)
      → op.accepts request s ≡ (answer, s₁)
      → Found ops s₁ rest
      → Found (op ∷ ops) s (pick op answer s₁ rest)
  unfolding pick
  pick-Found op ops s (err m) s₁ rest e f = threw op s s₁ m (head op ops s) e refl
  pick-Found op ops s (ok true) s₁ rest e f = found op s s₁ (head op ops s) e refl
  pick-Found op ops s (ok false) s₁ rest e f = later op ops s s₁ rest e f

  find_operation-Found :
      (operations : List (WorkerOperation I S)) (s : S)
      → Found operations s (find_operation operations request s)
  unfolding find_operation
  find_operation-Found [] s = missing s (nobody s) refl
  find_operation-Found (op ∷ ops) s =
      pick-Found op ops s (op.accepts request s).0 (op.accepts request s).1 _ refl
        (find_operation-Found ops (op.accepts request s).1)

  -- How the work on the request ends.
  pub data Work (operations : List (WorkerOperation I S)) (s : S) (out : Result (Unit {0}) × S)
      : Type 0 where
    done :
        (op : WorkerOperation I S) (s₀ s₁ s₂ : S)
        → FirstAsked operations s op s₀
        → op.accepts request s₀ ≡ (ok true, s₁)
        → op.execute request s₁ ≡ (ok tt, s₂)
        → out ≡ (ok tt, s₂)
        → Work operations s out
    failed :
        (op : WorkerOperation I S) (s₀ s₁ s₂ : S) (message : String)
        → FirstAsked operations s op s₀
        → op.accepts request s₀ ≡ (ok true, s₁)
        → op.execute request s₁ ≡ (err message, s₂)
        → out ≡ (err (failed_message request.operation_name), s₂)
        → Work operations s out
    filter_threw :
        (op : WorkerOperation I S) (s₀ s₁ : S) (message : String)
        → FirstAsked operations s op s₀
        → op.accepts request s₀ ≡ (err message, s₁)
        → out ≡ (err message, s₁)
        → Work operations s out
    no_handler :
        (s₀ : S)
        → Decline operations s s₀
        → out ≡ (err (no_handler_message request.operation_name), s₀)
        → Work operations s out

  executed-Work :
      (operations : List (WorkerOperation I S)) (s : S) (op : WorkerOperation I S) (s₀ s₁ : S)
      → FirstAsked operations s op s₀
      → op.accepts request s₀ ≡ (ok true, s₁)
      → (answer : Result (Unit {0})) (s₂ : S) → op.execute request s₁ ≡ (answer, s₂)
      → Work operations s (executed request (answer, s₂))
  unfolding executed
  executed-Work operations s op s₀ s₁ first accepted (ok x) s₂ e =
      done op s₀ s₁ s₂ first accepted e refl
  executed-Work operations s op s₀ s₁ first accepted (err m) s₂ e =
      failed op s₀ s₁ s₂ m first accepted e refl

  run_operation-Work :
      (operations : List (WorkerOperation I S)) (s : S) (out : Search I S)
      → Found operations s out
      → Work operations s (run_operation request out)
  unfolding run_operation
  run_operation-Work operations s out (found op s₀ s₁ first accepted e) =
      subst (λ o. Work operations s (run_operation request o)) (sym e)
        (executed-Work operations s op s₀ s₁ first accepted (op.execute request s₁).0
          (op.execute request s₁).1 refl)
  run_operation-Work operations s out (threw op s₀ s₁ m first refused e) =
      filter_threw op s₀ s₁ m first refused (ap (run_operation request) e)
  run_operation-Work operations s out (missing s₀ all e) =
      no_handler s₀ all (ap (run_operation request) e)

  -- doWork asks the operations in order, and runs the first one that accepts: its exception is
  -- replaced by one that names the operation. An exception of a filter ends the search and is
  -- passed on. Where all decline, it throws that there is no handler.
  pub do_work-Work :
      (operations : List (WorkerOperation I S)) (s : S)
      → Work operations s (do_work operations request s)
  unfolding do_work
  do_work-Work operations s = run_operation-Work operations s _ (find_operation-Found operations s)
