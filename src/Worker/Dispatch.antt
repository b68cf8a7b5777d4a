-- ===== src/Worker/Dispatch.antt =====
-- base/worker/lib/worker.ts and worker-request.ts: the operations that a worker has, and the choice
-- among them. A provider collection is part of the state `S`; the `logger` is left out.
pub mod Laws
use mcma_libraries.Prelude.{
  Bool, true, false, String, Option, none, some, List, [], ◌∷◌, ◌++◌, Result, ok, err, ◌==◌,
  is_empty,
}
use Prim.Native.String.{◌++◌ as ◌<>◌}

pub record WorkerRequest (I : Type 0) : Type 0 where
  pub operation_name : String
  pub input : Option I

-- The constructor of `WorkerRequest`.
unfoldable pub new_worker_request : {I : Type 0} → String → Option I → Result (WorkerRequest I)
new_worker_request name input = elim (is_empty name) [
  | true ↦ err "operationName must be a non-empty string."
  | false ↦ ok (record { operation_name = name; input = input })
]

-- base/worker/lib/operation-filter.ts, operation-handler.ts and worker-operation.ts
abbrev pub OperationFilter : Type 0 → Type 0 → Type 0
OperationFilter I S = WorkerRequest I → S → Result Bool × S

abbrev pub OperationHandler : Type 0 → Type 0 → Type 0
OperationHandler I S = WorkerRequest I → S → Result (Unit {0}) × S

pub record WorkerOperation (I S : Type 0) : Type 0 where
  pub accepts : OperationFilter I S
  pub execute : OperationHandler I S

-- What `addOperation` is called with: a name, a filter or an operation.
pub data Operation (I S : Type 0) : Type 0 where
  named : (operation_name : String) → Operation I S
  filtered : (operation_filter : OperationFilter I S) → Operation I S
  whole : (operation : WorkerOperation I S) → Operation I S

abbrev pub Search : Type 0 → Type 0 → Type 0
Search I S = Result (Option (WorkerOperation I S)) × S

unfoldable pub no_handler_message : String → String
no_handler_message name =
    "No handler found for operation '" <> name <> "' that can handle this request."

unfoldable pub failed_message : String → String
failed_message name = "Failed to process worker operation '" <> name <> "'"

module _ {I S : Type 0} where
  abbrev pub named_filter : String → OperationFilter I S
  named_filter name request s = (ok (request.operation_name == name), s)

  -- The operation of the arguments of `addOperation`.
  unfoldable pub operation_of :
      Operation I S → Option (OperationHandler I S) → Result (WorkerOperation I S)
  operation_of (whole operation) handler = ok operation
  operation_of (named name) (some handler) =
      ok (record { accepts = named_filter name; execute = handler })
  operation_of (filtered filter) (some handler) =
      ok (record { accepts = filter; execute = handler })
  operation_of (named name) none =
      err
        "addOperation must specify a handler argument if the provided object is not a WorkerOperation."
  operation_of (filtered filter) none =
      err
        "addOperation must specify a handler argument if the provided object is not a WorkerOperation."

  push :
      List (WorkerOperation I S)
      → Result (WorkerOperation I S)
      → Result (List (WorkerOperation I S))
  push operations (err e) = err e
  push operations (ok operation) = ok (operations ++ (operation ∷ []))

  unfoldable pub add_operation :
      List (WorkerOperation I S)
      → Operation I S
      → Option (OperationHandler I S)
      → Result (List (WorkerOperation I S))
  unfolding push
  add_operation operations operation handler = push operations (operation_of operation handler)

  -- What the loop of `doWork` does with the answer of an operation's filter.
  pick : WorkerOperation I S → Result Bool → S → Search I S → Search I S
  pick op (err e) s later = (err e, s)
  pick op (ok true) s later = (ok (some op), s)
  pick op (ok false) s later = later

  find_operation : List (WorkerOperation I S) → WorkerRequest I → S → Search I S
  find_operation [] request s = (ok none, s)
  find_operation (op ∷ ops) request s =
      let (answer, s') = op.accepts request s in
      let later = find_operation ops request s' in pick op answer s' later

  executed : WorkerRequest I → Result (Unit {0}) × S → Result (Unit {0}) × S
  executed request (ok _, s) = (ok tt, s)
  executed request (err e, s) = (err (failed_message request.operation_name), s)

  run_operation : WorkerRequest I → Search I S → Result (Unit {0}) × S
  run_operation request (err e, s) = (err e, s)
  run_operation request (ok none, s) = (err (no_handler_message request.operation_name), s)
  run_operation request (ok (some op), s) = executed request (op.execute request s)

  -- `doWork`
  unfoldable pub do_work : List (WorkerOperation I S) → WorkerRequest I → S → Result (Unit {0}) × S
  unfolding find_operation run_operation pick executed
  do_work operations request s = run_operation request (find_operation operations request s)
