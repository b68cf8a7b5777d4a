-- ===== src/CloudWatch/Batches.antt =====
-- The requests that `processBatch` sends for the log events that it takes from its queue.
use mcma_libraries.Prelude.{
  ℕ, ◌+◌, ◌≤◌, ◌≡◌, refl, ◌∙◌, ap, List, [], ◌∷◌, ◌++◌, map, inl, inr, ok, ltb, All, All-append,
  length, join, append-nil, append_assoc, arith, Bool-cases,
}
use mcma_libraries.CloudWatch.{
  max_request_size, PreparedLogEvent, InputLogEvent, to_input, prepare, batch,
}
use mcma_libraries.CloudWatch.Text.{IsText, IsPiece, utf8_length, split_message-Pieces}

-- The size of a request as CloudWatch counts it: 26 bytes for each event beside its text.
abbrev pub request_size : List InputLogEvent → ℕ
request_size [] = 0
request_size (e ∷ es) = utf8_length e.message + 26 + request_size es

request_size-append :
    (xs ys : List InputLogEvent) → request_size (xs ++ ys) ≡ request_size xs + request_size ys
request_size-append [] ys = omega arith
request_size-append (x ∷ xs) ys = omega (arith, request_size-append xs ys)

-- No event is larger than a request, and its byte length is not less than its size.
abbrev pub Fits : PreparedLogEvent → Type 0
Fits p = (utf8_length p.message + 26 ≤ p.byte_length) × (p.byte_length ≤ max_request_size)

-- Batching keeps all events, in their order, and every request is within the limit.
pub batch_lem :
    (input : List InputLogEvent) (size : ℕ) (prepared : List PreparedLogEvent)
    → request_size input ≤ size
    → size ≤ max_request_size
    → All Fits prepared
    → (join (batch input size prepared) ≡ input ++ map to_input prepared)
      × All (λ r. request_size r ≤ max_request_size) (batch input size prepared)
unfolding batch
batch_lem input size [] h k _ = (refl, (omega arith, tt))
batch_lem input size (p ∷ prepared) h k (f, fs) =
    elim (Bool-cases (ltb max_request_size (size + p.byte_length))) [
      | inl full ↦
          let (kept, within) =
            batch_lem (to_input p ∷ []) p.byte_length prepared (omega arith) f.1 fs in
          rw full (ap (◌++◌ input) kept, (omega arith, within))
      | inr room ↦
          let (kept, within) =
            batch_lem (input ++ to_input p ∷ []) (size + p.byte_length) prepared
              (omega (arith, request_size-append input (to_input p ∷ []))) (ground arith) fs in
          rw room (kept ∙ append_assoc input (to_input p ∷ []) (map to_input prepared), within)
    ]

pub map-message :
    (prepared : List PreparedLogEvent)
    → map (λ (e : InputLogEvent). e.message) (map to_input prepared) ≡ map (λ p. p.message) prepared
map-message [] = refl
map-message (p ∷ prepared) = ap (◌∷◌ p.message) (map-message prepared)

IsPiece-Fits :
    (timestamp : ℕ) (pieces : List PreparedLogEvent)
    → All (IsPiece timestamp) pieces
    → All Fits pieces
IsPiece-Fits timestamp [] h = tt
IsPiece-Fits timestamp (p ∷ pieces) (h, hs) =
    ((h.measured, omega (arith, h.small)), IsPiece-Fits timestamp pieces hs)

join_messages-append :
    (xs ys : List PreparedLogEvent)
    → join (map (λ p. p.message) (xs ++ ys))
      ≡ join (map (λ p. p.message) xs) ++ join (map (λ p. p.message) ys)
join_messages-append [] ys = refl
join_messages-append (x ∷ xs) ys = simp (join_messages-append xs ys, append_assoc)

module _ {E : Type 0} (timestamp_of : E → ℕ) (to_string : E → List ℕ)
    (texts : (e : E) → IsText (to_string e)) where
  -- What the loop over the queue returns, behind what it had prepared before.
  pub record Prepared (prepared : List PreparedLogEvent) (events : List E) : Type 0 where
    pub pieces : List PreparedLogEvent
    pub returned : prepare timestamp_of to_string prepared events ≡ (ok (prepared ++ pieces), [])
    pub whole : join (map (λ p. p.message) pieces) ≡ join (map to_string events)
    pub fits : All Fits pieces

  pub prepare-Prepared :
      (prepared : List PreparedLogEvent) (events : List E) → Prepared prepared events
  unfolding prepare
  prepare-Prepared prepared [] = record {
    pieces = [];
    returned = rw append-nil;
    whole = refl;
    fits = tt;
  }
  prepare-Prepared prepared (e ∷ events) =
      let c =
        split_message-Pieces (length (to_string e)) (timestamp_of e) (to_string e) (texts e)
          (omega arith) in
      let ih = prepare-Prepared (prepared ++ c.pieces) events in
      record {
        pieces = c.pieces ++ ih.pieces;
        returned = rw (c.returned, prepare) (rw (← append_assoc) ih.returned);
        whole = rw join_messages-append (rw (c.whole, ih.whole));
        fits =
            All-append Fits c.pieces ih.pieces (IsPiece-Fits (timestamp_of e) c.pieces c.sound)
              ih.fits;
      }
