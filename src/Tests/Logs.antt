-- ===== src/Tests/Logs.antt =====
-- The CloudWatch logger, run with a service that knows one log group.
use mcma_libraries.Prelude.{
  ℕ, ◌+◌, ◌≤◌, ◌≡◌, ◌≢◌, refl, Bool, true, false, none, some, List, [], ◌∷◌, ◌++◌, ok, map, join,
  All, length, arith,
}
use mcma_libraries.CloudWatch.{
  PreparedLogEvent, InputLogEvent, to_input, byte_sub_string, split_message, batch,
  max_request_size,
}
use mcma_libraries.CloudWatch.Text.{IsText, Pieces, split_message-Pieces, utf8_length}
use mcma_libraries.CloudWatch.Batches.{request_size, Fits, batch_lem}
use mcma_libraries.CloudWatch.Process.{Client, World, find_group, process_batch}
use mcma_libraries.CloudWatch.Process.Delivery.{IsReady, Delivered}
use mcma_libraries.CloudWatch.Process.Outcome.{process_batch-Delivered}

-- Two letters and a face, which is a pair of surrogates.
abbrev greeting : List ℕ
greeting = 0x48 ∷ 0x69 ∷ 0xd83d ∷ 0xde00 ∷ []

split_message-Pieces_example : Pieces 7 greeting (split_message 4 7 greeting)
split_message-Pieces_example = split_message-Pieces 4 7 greeting (omega arith) (omega arith)

-- The pair has four bytes in UTF-8, and the source counts seven.
greeting_bytes :
    (byte_sub_string greeting 100 ≡ ok (record { text = greeting; byte_length = 9 }))
    × (utf8_length greeting ≡ 6)
unfolding byte_sub_string utf8_length
greeting_bytes = (refl, refl)

-- A limit of six bytes cuts the pair in two, although all of the text has six bytes.
greeting_cut :
    byte_sub_string greeting 6 ≡ ok (record { text = 0x48 ∷ 0x69 ∷ 0xd83d ∷ []; byte_length = 6 })
unfolding byte_sub_string
greeting_cut = refl

abbrev prepared : List PreparedLogEvent
prepared =
    record { message = 0x48 ∷ []; timestamp = 1; byte_length = 1000000 }
    ∷ record { message = 0x69 ∷ []; timestamp = 2; byte_length = 48576 }
    ∷ record { message = 0x6a ∷ []; timestamp = 3; byte_length = 27 }
    ∷ []

prepared-Fits : All Fits prepared
unfolding utf8_length
prepared-Fits = omega arith

batch_lem_example :
    (join (batch [] 0 prepared) ≡ [] ++ map to_input prepared)
    × All (λ r. request_size r ≤ max_request_size) (batch [] 0 prepared)
batch_lem_example = batch_lem [] 0 prepared (omega arith) (omega arith) prepared-Fits

-- The second event fills the first request to the last byte.
prepared_requests : map (λ (r : List InputLogEvent). length r) (batch [] 0 prepared) ≡ 2 ∷ 1 ∷ []
unfolding batch
prepared_requests = refl

abbrev service : Client ℕ
service = record {
  describe_log_groups = λ prefix token s. (ok ("group" ∷ [], none), s);
  create_log_group = λ group s. (ok tt, s);
  create_log_stream = λ group stream s. (ok tt, s);
  put_log_events = λ events token s. (ok (some "next"), s + 1);
}

abbrev letters : Bool → List ℕ
letters true = greeting
letters false = 0x6f ∷ []

letters-IsText : (e : Bool) → IsText (letters e)
letters-IsText true = omega arith
letters-IsText false = omega arith

service_ends : (s : ℕ) → find_group service "group" 1 none s ≢ none
unfolding find_group
service_ends s e = cc

abbrev start_world : World Bool ℕ
start_world = record {
  log_events = true ∷ [];
  log_group_verified = true;
  log_stream_created = true;
  processing = false;
  sequence_token = none;
  service = 0;
  requests = [];
  refused = [];
  arrivals = [] ∷ (false ∷ []) ∷ [];
}

process_batch-Delivered_example :
    (w' : World Bool ℕ) × (process_batch service "group" "stream" (λ _. 5) letters 1 4 start_world
      ≡ some w')
    × Delivered letters start_world w'
    × (w'.processing ≡ false)
    × (IsReady start_world → w'.log_events ≡ [])
process_batch-Delivered_example =
    process_batch-Delivered service "group" "stream" (λ _. 5) letters letters-IsText 1 4
      service_ends start_world refl (omega arith)
