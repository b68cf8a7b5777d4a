-- ===== src/CloudWatch/Process/Outcome.antt =====
-- What one call of `processBatch` achieves.
use mcma_libraries.Prelude.{
  ℕ, ◌+◌, ◌<◌, ◌≡◌, ◌≢◌, refl, ap, ◌∙◌, Bool, true, false, ◌||◌, none, some, List, [], length,
  is_nil, eq-nil_of_is_nil, inl, inr, Bool-cases, String,
}
use mcma_libraries.CloudWatch.Text.{IsText}
use mcma_libraries.CloudWatch.Process.{Client, World, find_group, process_batch}
use mcma_libraries.CloudWatch.Process.Delivery.{IsReady, Delivered, Delivered-refl}
use mcma_libraries.CloudWatch.Process.Delivery.Rounds.{process_loop-Round}

module _ {E S : Type 0} where
  abbrev set_processing : Bool → World E S → World E S
  set_processing b w = record w { processing = b }

  Delivered-set_processing :
      (to_string : E → List ℕ) (a b : Bool) (w w' : World E S)
      → Delivered to_string (set_processing a w) w'
      → Delivered to_string w (set_processing b w')
  Delivered-set_processing to_string a b w w' d = record {
    taken = d.taken;
    sent = d.sent;
    queue = d.queue;
    requests = d.requests;
    content = d.content;
    within = d.within;
  }

  guard :
      (w : World E S) (b : Bool)
      → w.processing ≡ false
      → is_nil w.log_events ≡ b
      → (w.processing || is_nil w.log_events) ≡ b
  guard w b idle e = ap (λ (p : Bool). p || is_nil w.log_events) idle ∙ e

-- Let the paging of log groups end within the fuel `pages`, let the texts of the events be texts
-- of JavaScript, and let `rounds` exceed the number of waits in which events arrive by two. Then a
-- call of `processBatch` that finds the flag `processing` clear returns, with the flag clear, and
-- with the events taken from the head of the queue (with the arrivals behind it) handed to
-- PutLogEvents, which may take a request or throw: the texts in the new requests, joined, are the
-- texts of the events that were taken, and each new request is within the size limit. No other event
-- leaves the queue, whatever the service answers. If both flags, logGroupVerified and
-- logStreamCreated, were set before the call, the queue is empty after it.
pub process_batch-Delivered :
    {E S : Type 0} (client : Client S) (group stream : String) (timestamp_of : E → ℕ)
    (to_string : E → List ℕ) (texts : (e : E) → IsText (to_string e)) (pages rounds : ℕ)
    (ends : (s : S) → find_group client group pages none s ≢ none) (w : World E S)
    → w.processing ≡ false
    → length w.arrivals + 1 < rounds
    → (w' : World E S) × (process_batch client group stream timestamp_of to_string pages rounds w
        ≡ some w')
      × Delivered to_string w w'
      × (w'.processing ≡ false)
      × (IsReady w → w'.log_events ≡ [])
unfolding process_batch
process_batch-Delivered client group stream timestamp_of to_string texts pages rounds ends w idle
      h =
    elim (Bool-cases (is_nil w.log_events)) [
      | inl done ↦ (
        w,
        rw (guard w true idle done, process_batch),
        Delivered-refl to_string w,
        idle,
        λ _. eq-nil_of_is_nil w.log_events done,
      )
      | inr more ↦
          let (r, u, looped, delivered, empty, fine) =
            process_loop-Round client group stream timestamp_of to_string texts pages ends rounds
              (set_processing true w) (inr h) in
          (
            set_processing false u,
            rw (guard w false idle more, process_batch) (rw looped),
            Delivered-set_processing to_string true false w u delivered,
            refl,
            λ k. empty (fine k),
          )
    ]
