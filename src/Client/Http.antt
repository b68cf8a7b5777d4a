-- ===== src/Client/Http.antt =====
-- base/client/lib/http/http-client.ts: the defaults of the configuration and the attempts of
-- `request`. The HTTP library and the authenticator are parameters; so are the body of a request and
-- the response, of types `D` and `R`. What `request` does before the attempts is
-- in Client/Requests.
pub mod Attempts
use mcma_libraries.Prelude.{
  ℕ, zero, suc, Bool, true, false, String, Option, none, some, List, [], ◌∷◌, ◌||◌, ltb, leb, eqb,
  at_least, if◌then◌else◌,
}
use Prim.Native.String.{◌++◌}

-- The defaults of the constructor; `none` is a value that is no number.
unfoldable pub max_attempts_of : Option ℕ → ℕ
max_attempts_of = at_least 1 3

unfoldable pub retry_interval_of : Option ℕ → ℕ
retry_interval_of = at_least 0 5000

pub record HttpRequestConfig (D : Type 0) : Type 0 where
  pub method : String
  pub url : String
  pub headers : Option (List (String × String))
  pub content : D

-- An error that an attempt ends in, with the status of its response if it has one.
pub record Failure : Type 0 where
  pub status : Option ℕ
  pub message : String

pub data Answer (R : Type 0) : Type 0 where
  answered : (response : R) → Answer R
  failing : (failure : Failure) → Answer R

-- What a signer leaves: the config, and the headers object that it was given, which it may change
-- in place.
pub record Signed (D S : Type 0) : Type 0 where
  pub answer : Answer (Unit {0})
  pub config : HttpRequestConfig D
  pub given_headers : Option (List (String × String))
  pub world : S

pub record Network (D R S : Type 0) : Type 0 where
  pub sign : Option (HttpRequestConfig D → S → Signed D S)
  pub send : HttpRequestConfig D → S → Answer R × S
  pub sleep : ℕ → S → S

-- `config.headers = headers`, and the state that goes with an attempt.
pub record Attempt (D S : Type 0) : Type 0 where
  pub config : HttpRequestConfig D
  pub headers : Option (List (String × String))
  pub world : S

-- 404, and 500 and above.
unfoldable pub is_retried : Option ℕ → Bool
is_retried none = false
is_retried (some status) = eqb status 404 || leb 500 status

-- What `request` throws at the end.
unfoldable pub failed_request : {D : Type 0} → HttpRequestConfig D → Failure
failed_request config = record {
  status = none;
  message = "HttpClient: " ++ config.method ++ " request to " ++ config.url ++ " failed!";
}

module _ {D R S : Type 0} (network : Network D R S) (retry_interval : Option ℕ) where
  sent : Signed D S → Answer R × Attempt D S
  sent signed = sent_as signed.answer
    where
      sent_as : Answer (Unit {0}) → Answer R × Attempt D S
      sent_as (failing failure) = (
        failing failure,
        record { config = signed.config; headers = signed.given_headers; world = signed.world },
      )
      sent_as (answered _) =
          let (answer, s) = network.send signed.config signed.world in
          (answer, record { config = signed.config; headers = signed.given_headers; world = s })

  signed_by : Option (HttpRequestConfig D → S → Signed D S) → HttpRequestConfig D → S → Signed D S
  signed_by none config s = record {
    answer = answered tt;
    config = config;
    given_headers = config.headers;
    world = s;
  }
  signed_by (some sign) config s = sign config s

  -- The body of the `try` of an attempt.
  unfoldable pub try_once : Attempt D S → Answer R × Attempt D S
  unfolding sent signed_by
  try_once a = sent (signed_by network.sign (record a.config { headers = a.headers }) a.world)

  unfoldable pub pause : Attempt D S → Attempt D S
  pause a = record a { world = network.sleep (retry_interval_of retry_interval) a.world }

  -- The end of an attempt after which `left` more are left, with what they would come to.
  after_attempt : ℕ → Answer R × Attempt D S → Answer R × Attempt D S → Answer R × Attempt D S
  after_attempt left (answered response, a) later = (answered response, a)
  after_attempt zero (failing failure, a) later = (failing (failed_request a.config), a)
  after_attempt (suc left) (failing failure, a) later =
      if is_retried failure.status then later else (failing (failed_request a.config), a)

  -- The loop, by the number of attempts that are left.
  unfoldable pub run_attempts : ℕ → Attempt D S → Answer R × Attempt D S
  unfolding after_attempt
  run_attempts zero a = (failing (failed_request a.config), a)
  run_attempts (suc left) a =
      let out = try_once a in
      let later = run_attempts left (pause out.1) in after_attempt left out later

  abbrev pub first_attempt : HttpRequestConfig D → S → Attempt D S
  first_attempt config s = record { config = config; headers = config.headers; world = s }

  unfoldable pub request : Option ℕ → HttpRequestConfig D → S → Answer R × Attempt D S
  request max_attempts config s =
      run_attempts (max_attempts_of max_attempts) (first_attempt config s)
