-- ===== src/CloudWatch/Process.antt =====
-- `AwsCloudWatchLoggerProvider`: its state, `addLogEvent`, `processBatch` and `sendLogEvents`. The
-- client of CloudWatch Logs is a parameter with a state of its own.
pub mod Delivery
pub mod Outcome
use mcma_libraries.Prelude.{
  ℕ, zero, suc, Bool, true, false, String, Option, none, some, List, [], ◌∷◌, ◌++◌, not, ◌||◌,
  Result, ok, err, is_nil,
}
use mcma_libraries.Prelude.{any_equal, is_empty}
use mcma_libraries.CloudWatch.{InputLogEvent, prepare, batch}

-- The calls of the AWS SDK: each answers or throws, and changes the state of the service.
pub record Client (S : Type 0) : Type 0 where
  pub describe_log_groups : String → Option String → S → Result (List String × Option String) × S
  pub create_log_group : String → S → Result (Unit {0}) × S
  pub create_log_stream : String → String → S → Result (Unit {0}) × S
  pub put_log_events : List InputLogEvent → Option String → S → Result (Option String) × S

-- The provider, the service, the requests that have been handed to PutLogEvents (`requests`), those
-- of them for which it threw, whose events are lost (`refused`), and what other code will hand to
-- `addLogEvent` while the provider waits: one list for each wait.
pub record World (E S : Type 0) : Type 0 where
  pub log_events : List E
  pub log_group_verified : Bool
  pub log_stream_created : Bool
  pub processing : Bool
  pub sequence_token : Option String
  pub service : S
  pub requests : List (List InputLogEvent)
  pub refused : List (List InputLogEvent)
  pub arrivals : List (List E)

-- `while (… && nextToken)`: a token that is missing or empty ends the loop.
abbrev token_left : Option String → Bool
token_left none = false
token_left (some token) = not (is_empty token)

module _ {E S : Type 0} where
  pub add_log_event : E → World E S → World E S
  add_log_event e w = record w { log_events = w.log_events ++ e ∷ [] }

  -- The events that arrive during one wait.
  abbrev pub arrive_from : List (List E) → World E S → World E S
  arrive_from [] w = w
  arrive_from (events ∷ later) w = record w {
    log_events = w.log_events ++ events;
    arrivals = later;
  }

  unfoldable pub arrive : World E S → World E S
  arrive w = arrive_from w.arrivals w

module _ {S : Type 0} (client : Client S) (group : String) where
  -- The loop over the pages of log groups. `none` means that the fuel is used up.
  unfoldable pub find_group : ℕ → Option String → S → Option (Result Bool × S)
  find_group zero token s = none
  find_group (suc pages) token s =
      let (answer, s') = client.describe_log_groups group token s in
      elim answer [
        | err e ↦ some (err e, s')
        | ok page ↦
            let (groups, next) = page in
            elim (any_equal group groups) [
              | true ↦ some (ok true, s')
              | false ↦ elim (token_left next) [
                | true ↦ find_group pages next s'
                | false ↦ some (ok false, s')
              ]
            ]
      ]

module _ {E S : Type 0} (client : Client S) (group stream : String) where
  create_group : World E S → Result (Unit {0}) × World E S
  create_group w =
      let (answer, s') = client.create_log_group group w.service in
      elim answer [
        | ok _ ↦ (ok tt, record w { service = s'; log_group_verified = true })
        | err e ↦ (err e, record w { service = s' })
      ]

  -- `if (!this.logGroupVerified) { … }`
  unfoldable pub verify_group : ℕ → World E S → Option (Result (Unit {0}) × World E S)
  unfolding find_group create_group
  verify_group pages w = elim w.log_group_verified [
    | true ↦ some (ok tt, w)
    | false ↦ elim (find_group client group pages none w.service) [
      | none ↦ none
      | some out ↦
          let (answer, s') = out in
          elim answer [
            | err e ↦ some (err e, record w { service = s' })
            | ok found ↦ elim found [
              | true ↦ some (ok tt, record w { service = s'; log_group_verified = true })
              | false ↦ some (create_group (record w { service = s' }))
            ]
          ]
    ]
  ]

  -- `if (!this.logStreamCreated) { … }`
  unfoldable pub create_stream : World E S → Result (Unit {0}) × World E S
  create_stream w = elim w.log_stream_created [
    | true ↦ (ok tt, w)
    | false ↦
        let (answer, s') = client.create_log_stream group stream w.service in
        elim answer [
          | ok _ ↦ (ok tt, record w { service = s'; log_stream_created = true })
          | err e ↦ (err e, record w { service = s' })
        ]
  ]

  -- `sendLogEvents`: what PutLogEvents throws is caught and printed, and the request is not made
  -- again.
  unfoldable pub send_log_events : List InputLogEvent → World E S → World E S
  send_log_events events w =
      let (answer, s') = client.put_log_events events w.sequence_token w.service in
      elim answer [
        | ok token ↦ record w {
          service = s';
          sequence_token = token;
          requests = w.requests ++ events ∷ [];
        }
        | err _ ↦ record w {
          service = s';
          requests = w.requests ++ events ∷ [];
          refused = w.refused ++ events ∷ [];
        }
      ]

  unfoldable pub send_all : List (List InputLogEvent) → World E S → World E S
  unfolding send_log_events
  send_all [] w = w
  send_all (r ∷ rs) w = send_all rs (send_log_events r w)

  module _ (timestamp_of : E → ℕ) (to_string : E → List ℕ) where
    -- From `preparedLogEvents` to the last `sendLogEvents` of a round.
    unfoldable pub drain : World E S → Result (Unit {0}) × World E S
    unfolding prepare batch send_all
    drain w =
        let (answer, left) = prepare timestamp_of to_string [] w.log_events in
        let w' : World E S = record w { log_events = left } in
        elim answer [
          | ok prepared ↦ (ok tt, arrive (send_all (batch [] 0 prepared) w'))
          | err e ↦ (err e, w')
        ]

    -- One round of `while (this.logEvents.length > 0)`.
    unfoldable pub process_round : ℕ → World E S → Option (Result (Unit {0}) × World E S)
    unfolding verify_group create_stream arrive drain
    process_round pages w = elim (verify_group pages w) [
      | none ↦ none
      | some out ↦
          let (verified, w₁) = out in
          elim verified [
            | err e ↦ some (err e, arrive w₁)
            | ok _ ↦
                let (created, w₂) = create_stream w₁ in
                elim created [ err e ↦ some (err e, arrive w₂) | ok _ ↦ some (drain (arrive w₂)) ]
          ]
    ]

    unfoldable pub process_loop : ℕ → ℕ → World E S → Option (Result (Unit {0}) × World E S)
    unfolding process_round
    process_loop pages zero w = none
    process_loop pages (suc rounds) w = elim (is_nil w.log_events) [
      | true ↦ some (ok tt, w)
      | false ↦ elim (process_round pages w) [
        | none ↦ none
        | some out ↦
            let (answer, w') = out in
            elim answer [ err e ↦ some (err e, w') | ok _ ↦ process_loop pages rounds w' ]
      ]
    ]

    -- `processBatch`: what the loop throws is caught and printed, and the flag is cleared.
    unfoldable pub process_batch : ℕ → ℕ → World E S → Option (World E S)
    unfolding process_loop
    process_batch pages rounds w = elim (w.processing || is_nil w.log_events) [
      | true ↦ some w
      | false ↦ elim (process_loop pages rounds (record w { processing = true })) [
        | none ↦ none
        | some out ↦ let (_, w') = out in some (record w' { processing = false })
      ]
    ]
