-- ===== src/Tests/Calls.antt =====
-- The HTTP client, run with a server that knows nothing and a signer that
-- changes the headers in place, to a text that tells whether they were signed before.
use mcma_libraries.Prelude.{ℕ, ◌+◌, ◌≡◌, refl, String, Option, none, some, List, [], ◌∷◌}
use mcma_libraries.Client.Http.{
  HttpRequestConfig, answered, failing, Network, max_attempts_of, retry_interval_of, is_retried,
  try_once, pause, run_attempts, first_attempt, request,
}
use mcma_libraries.Client.Http.Attempts.{Ended, request-Ended}

abbrev Headers : Type 0
Headers = Option (List (String × String))

abbrev signature_of : Headers → Headers
signature_of none = none
signature_of (some []) = some (("Authorization", "plain") ∷ [])
signature_of (some (_ ∷ _)) = some (("Authorization", "over a signature") ∷ [])

-- The state holds the time and the headers that the server has seen.
abbrev World : Type 0
World = ℕ × List Headers

abbrev network : Network String String World
network = record {
  sign = some (λ config w. record {
    answer = answered tt;
    config = record config { headers = signature_of config.headers };
    given_headers = signature_of config.headers;
    world = w;
  });
  send = λ config w.
      (failing (record { status = some 404; message = "" }), (w.0, config.headers ∷ w.1));
  sleep = λ n w. (w.0 + n, w.1);
}

abbrev config : HttpRequestConfig String
config = record { method = "GET"; url = "https://example.org"; headers = some []; content = "" }

request-Ended_example :
    Ended network none
      (max_attempts_of (some 2))
      (first_attempt network none config (0, []))
      (request network none (some 2) config (0, []))
request-Ended_example = request-Ended network none (some 2) config (0, [])

-- The signer of the second attempt gets the headers that the first one has signed, since they are
-- not copied again.
signed_twice : (request network none (some 2) config (0, [])).1.world ≡ (
  5000,
  some (("Authorization", "over a signature") ∷ []) ∷ some (("Authorization", "plain") ∷ []) ∷ [],
)
unfolding request run_attempts try_once pause max_attempts_of retry_interval_of is_retried
signed_twice = refl
