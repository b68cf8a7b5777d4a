-- ===== src/Tests/Requests.antt =====
-- The API, run with one route and a table that is a list of the paths that it has stored.
use mcma_libraries.Prelude.{◌≡◌, refl, true, String, some, List, [], ◌∷◌, ◌==◌, ok, err}
use mcma_libraries.Api.{
  no_body, no_content, set_response_error, Request, new_response, Context, Platform,
  set_response_body, new_api_error,
}
use mcma_libraries.Api.Controller.{
  Route, read_body, process_route, pipeline, choose, respond, complete_response, has_content,
  handle_request, answer_unserved, answer_not_allowed, answer_error, reset_headers, with_options,
  includes_options, add_method, default_headers, completed, with_variables,
}
use mcma_libraries.Api.Controller.Answers.{Answered, handle_request-Answered}
use mcma_libraries.Api.Security.{
  Secrets, property, config_allows_access, authorize, get_config, execute,
}
use mcma_libraries.Api.Security.Refusals.{execute-Keeps}
use mcma_libraries.Api.Security.Access.{Guarded, execute-Guarded}

abbrev platform : Platform String (List String)
platform = record {
  parse_json = λ s. ok s;
  lower_case = λ s. s;
  truthy = λ v. true;
  now = λ s. 0;
  utc_text = λ s. "today";
}

abbrev jobs : Route String (List String)
jobs = record {
  http_method = "GET";
  test = λ path. path == "/jobs";
  from_uri = λ path. [];
  handler = λ c. (ok tt, set_response_body "all" (record c { world = "read" ∷ c.world }));
}

abbrev request_with : String → String → String → Request String
request_with key path http_method = record {
  path = path;
  http_method = http_method;
  headers = ("x-mcma-api-key", key) ∷ [];
  path_variables = [];
  query_string_parameters = [];
  body = no_body;
}

abbrev request : String → String → Request String
request = request_with "toString"

abbrev context : String → String → Context String (List String)
context path http_method = record {
  request = request path http_method;
  response = new_response;
  world = [];
}

-- The method is not among those of the route.
post_refused : (process_route platform (jobs ∷ []) (context "/jobs" "POST")).1.response.headers ≡ (
    ("Date", "today")
    ∷ ("Content-Type", "application/json")
    ∷ ("Access-Control-Allow-Origin", "*")
    ∷ ("Allow", "GET, OPTIONS")
    ∷ [])
unfolding process_route read_body choose respond answer_unserved answer_not_allowed answer_error
    with_options includes_options add_method default_headers new_api_error
post_refused = refl

get_answered :
    (handle_request platform (jobs ∷ []) [] (context "/jobs" "GET")).response.status_code ≡ 200
unfolding handle_request pipeline process_route read_body choose respond complete_response
    has_content reset_headers default_headers completed with_variables set_response_body
get_answered = refl

-- Every holder of a key may read the jobs, and one key is given out.
abbrev secrets : Secrets (List String)
secrets = record {
  test_regexp = λ regexp path. ok (regexp == path);
  kept = λ s. some (("valid-auth", ("/jobs", "GET" ∷ []) ∷ []) ∷ ("k1", []) ∷ []);
  keep = λ config s. s;
  load = λ s. (err "no secrets", s);
}

abbrev with_k1 : Context String (List String)
with_k1 = record (context "/jobs" "GET") { request = request_with "k1" "/jobs" "GET" }

execute-Guarded_example :
    Guarded secrets jobs.handler with_k1 [] (execute secrets jobs.handler with_k1)
unfolding get_config
execute-Guarded_example = execute-Guarded secrets jobs.handler with_k1

-- The request with the key "toString" is let through to the route.
inherited_key_passes :
    (execute secrets jobs.handler (context "/jobs" "GET")).1.world ≡ ("read" ∷ [])
unfolding execute get_config authorize config_allows_access property set_response_body
inherited_key_passes = refl

-- The request has a key that is not given out, and the middleware answers 401 without a body.
abbrev with_k2 : Context String (List String)
with_k2 = record (context "/jobs" "GET") { request = request_with "k2" "/jobs" "GET" }

handle_request-Answered_example :
    Answered platform (handle_request platform (jobs ∷ []) (execute secrets ∷ []) with_k2)
handle_request-Answered_example =
    handle_request-Answered platform (jobs ∷ []) (execute secrets ∷ [])
      (execute-Keeps platform secrets, tt) with_k2

refused_without_body :
    ((handle_request platform (jobs ∷ []) (execute secrets ∷ []) with_k2).response.status_code
      ≡ 401)
    × ((handle_request platform (jobs ∷ []) (execute secrets ∷ []) with_k2).response.body
        ≡ no_content)
unfolding handle_request pipeline execute get_config authorize config_allows_access property
    reset_headers default_headers set_response_error
refused_without_body = (refl, refl)
