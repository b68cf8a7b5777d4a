-- ===== src/Api/Controller/Answers.antt =====
-- That every request is answered.
use mcma_libraries.Prelude.{
  ℕ, ◌≡◌, ◌≤◌, ◌<◌, ◌/◌, ◌*◌, refl, Bool, true, false, String, Option, List, [], ◌∷◌, Result, ok,
  err, eqb, ◌⊎◌, All, is_empty, arith, Bool-cases, inl, inr,
}
use mcma_libraries.Api.{Body, no_body, raw, value, Context, Handler, Platform}
use mcma_libraries.Api.Controller.{
  Route, Match, unmatched, not_allowed, matched, has_content, complete_response, completed, respond,
  read_body, parsed, read_text, after_body, process_route, pipeline, caught, handle_request,
  answer_not_found, answer_options, answer_not_allowed, answer_unserved, is_json, answer_error,
  reset_headers,
}

module _ {V S : Type 0} (platform : Platform V S) where
  -- The response has a status, and a content if the status is that of an error other than 401 and 403.
  pub record Answered (c : Context V S) : Type 0 where
    pub has_status : ¬ (c.response.status_code ≡ 0)
    pub has_error :
        400 ≤ c.response.status_code
        → c.response.status_code < 600
        → (has_content platform c.response.body ≡ true)
          ⊎ ((c.response.status_code ≡ 401) ⊎ (c.response.status_code ≡ 403))

  has_zero : (n : ℕ) → eqb (n / 200 * 200) 400 ≡ true → ¬ (n ≡ 0)
  has_zero n e z = ground arith

  status_ok_error : (X : Type 0) → 400 ≤ 200 → 200 < 600 → X
  status_ok_error X low high = absurd (omega arith)

  no_error : (n : ℕ) (X : Type 0) → eqb (n / 200 * 200) 400 ≡ false → 400 ≤ n → n < 600 → X
  no_error n X good low high = absurd (ground arith)

  no_zero : (n : ℕ) → eqb n 0 ≡ false → ¬ (n ≡ 0)
  no_zero n nonzero e = ground arith

  complete_response-Answered : (c : Context V S) → Answered (complete_response platform c)
  unfolding complete_response has_content
  complete_response-Answered c = elim (Bool-cases (eqb (c.response.status_code / 200 * 200) 400)) [
    | inl bad ↦ elim (Bool-cases (has_content platform c.response.body)) [
      | inl has ↦
          rw (bad, has, complete_response)
            (record {
              has_status = has_zero c.response.status_code bad;
              has_error = λ _ _. inl has;
            })
      | inr lacks ↦
          rw (bad, lacks, complete_response)
            (record {
              has_status = has_zero c.response.status_code bad;
              has_error = λ _ _. inl refl;
            })
    ]
    | inr good ↦ elim (Bool-cases (eqb c.response.status_code 0)) [
      | inl zero_status ↦
          rw (good, zero_status, complete_response)
            (record { has_status = omega arith; has_error = status_ok_error _ })
      | inr nonzero ↦
          rw (good, nonzero, complete_response)
            (record {
              has_status = no_zero c.response.status_code nonzero;
              has_error = no_error c.response.status_code _ good;
            })
    ]
  ]

  answer_error-Answered :
      (status : ℕ) (message : Option String) (c : Context V S)
      → ¬ (status ≡ 0)
      → Answered (answer_error platform status message c)
  unfolding answer_error has_content
  answer_error-Answered status message c e = record { has_status = e; has_error = λ _ _. inl refl }

  -- What does not throw has answered.
  abbrev pub Ends : Result (Unit {0}) × Context V S → Type 0
  Ends (ok _, c) = Answered c
  Ends (err message, c) = Unit

  completed-Ends : (out : Result (Unit {0}) × Context V S) → Ends (completed platform out)
  unfolding completed
  completed-Ends (ok _, c) = complete_response-Answered c
  completed-Ends (err message, c) = tt

  answer_options-Answered :
      (methods : String) (c : Context V S) → Answered (answer_options platform methods c)
  unfolding answer_options
  answer_options-Answered methods c = record {
    has_status = omega arith;
    has_error = status_ok_error _;
  }

  answer_unserved-Answered :
      (asked : Bool) (methods : String) (c : Context V S)
      → Answered (answer_unserved platform asked methods c)
  unfolding answer_unserved answer_not_allowed
  answer_unserved-Answered true methods c = answer_options-Answered methods c
  answer_unserved-Answered false methods c = answer_error-Answered _ _ _ (omega arith)

  respond-Ends : (found : Match V S) (c : Context V S) → Ends (respond platform found c)
  unfolding respond answer_not_found
  respond-Ends unmatched c = answer_error-Answered _ _ _ (omega arith)
  respond-Ends (matched route) c = completed-Ends _
  respond-Ends (not_allowed methods) c = answer_unserved-Answered _ _ c

  -- The body has been read, or an error is answered.
  abbrev Reads : Bool × Context V S → Type 0
  Reads (true, c) = Unit
  Reads (false, c) = Answered c

  parsed-Reads : (result : Result V) (c : Context V S) → Reads (parsed platform result c)
  unfolding parsed
  parsed-Reads (ok v) c = tt
  parsed-Reads (err message) c = answer_error-Answered _ _ _ (omega arith)

  read_text-Reads : (body : Body V) (c : Context V S) → Reads (read_text platform body c)
  unfolding read_text
  read_text-Reads no_body c = tt
  read_text-Reads (value v) c = tt
  read_text-Reads (raw characters) c = elim (Bool-cases (is_empty characters)) [
    | inl empty ↦ rw empty tt
    | inr full ↦ elim (Bool-cases (is_json platform c.request)) [
      | inl json ↦ rw (full, json) (parsed-Reads _ c)
      | inr other ↦ rw (full, other) tt
    ]
  ]

  read_body-Reads : (c : Context V S) → Reads (read_body platform c)
  unfolding read_body
  read_body-Reads c = read_text-Reads c.request.body c

  after_body-Ends :
      (routes : List (Route V S)) (out : Bool × Context V S)
      → Reads out
      → Ends (after_body platform routes out)
  unfolding after_body
  after_body-Ends routes (false, c) answered = answered
  after_body-Ends routes (true, c) read = respond-Ends _ c

  process_route-Ends :
      (routes : List (Route V S)) (c : Context V S) → Ends (process_route platform routes c)
  unfolding process_route
  process_route-Ends routes c = after_body-Ends routes _ (read_body-Reads c)

  -- A middleware answers, if what it may call next does.
  abbrev pub Keeps : (Handler V S → Handler V S) → Type 0
  Keeps execute =
      (next : Handler V S)
      → ((c : Context V S) → Ends (next c))
      → (c : Context V S) → Ends (execute next c)

  pipeline-Ends :
      (routes : List (Route V S)) (middleware : List (Handler V S → Handler V S))
      → All Keeps middleware
      → (c : Context V S) → Ends (pipeline platform routes middleware c)
  unfolding pipeline
  pipeline-Ends routes [] keeps c = process_route-Ends routes c
  pipeline-Ends routes (execute ∷ middleware) (keep, keeps) c =
      keep (pipeline platform routes middleware) (pipeline-Ends routes middleware keeps) c

  caught-Answered :
      (out : Result (Unit {0}) × Context V S) → Ends out → Answered (caught platform out)
  unfolding caught
  caught-Answered (ok _, c) answered = answered
  caught-Answered (err message, c) _ = answer_error-Answered _ _ _ (omega arith)

  -- Every request is answered, whatever the handlers do and wherever they throw: the response has a
  -- status other than 0, and a content that counts as true if the status is 400 or above and below
  -- 600 and neither 401 nor 403, which middleware may answer without a body. Each middleware must
  -- answer in this way or throw, where what it may call next does.
  pub handle_request-Answered :
      (routes : List (Route V S)) (middleware : List (Handler V S → Handler V S))
      → All Keeps middleware
      → (c : Context V S) → Answered (handle_request platform routes middleware c)
  unfolding handle_request
  handle_request-Answered routes middleware keeps c =
      caught-Answered _ (pipeline-Ends routes middleware keeps (reset_headers platform c))
