-- ===== src/Api/Controller.antt =====
-- base/api/lib/http/mcma-api-controller.ts, with base/api/lib/routing/route.ts. The template of a
-- route, which another package parses, is a test of paths and the variables that it reads off one.
pub mod Routes
pub mod Answers
use mcma_libraries.Prelude.{
  ℕ, ◌/◌, ◌*◌, Bool, true, false, String, Option, none, some, List, [], ◌∷◌, Result, ok, err, ◌==◌,
  is_empty, not, eqb, if◌then◌else◌,
}
use Prim.Native.String.{◌++◌}
use text.Mathlib.Text.{starts_with, find?}
use mcma_libraries.Api.Statuses.{
  status_ok, bad_request, not_found, method_not_allowed, internal_server_error,
}
use mcma_libraries.Api.{
  Entries, lookup, set, Body, no_body, raw, value, Request, Response, Content, no_content,
  error_content, value_content, Context, Handler, Platform, with_response, new_api_error,
}

pub record Route (V S : Type 0) : Type 0 where
  pub http_method : String
  pub test : String → Bool
  pub from_uri : String → Entries
  pub handler : Handler V S

-- What the loop over the routes finds: no route for the path, routes of other methods, or one to
-- run.
pub data Match (V S : Type 0) : Type 0 where
  unmatched : Match V S
  not_allowed : (methods_allowed : String) → Match V S
  matched : (route : Route V S) → Match V S

unfoldable pub add_method : String → String → String
add_method methods method = (if is_empty methods then methods else methods ++ ", ") ++ method

unfoldable pub includes_options : String → Bool
includes_options methods = elim (find? methods "OPTIONS") [ none ↦ false | some _ ↦ true ]

unfoldable pub with_options : String → String
with_options methods = if includes_options methods then methods else add_method methods "OPTIONS"

module _ {V S : Type 0} where
  abbrev after_route : Route V S → Bool → Bool → Match V S → Match V S → Match V S
  after_route route false same skipped listed = skipped
  after_route route true true skipped listed = matched route
  after_route route true false skipped listed = listed

  -- The loop, with the methods listed so far and whether a path has matched.
  unfoldable pub choose : Request V → List (Route V S) → String → Bool → Match V S
  choose request [] methods true = not_allowed methods
  choose request [] methods false = unmatched
  choose request (route ∷ routes) methods path_matched =
      let skipped = choose request routes methods path_matched in
      let listed = choose request routes (add_method methods route.http_method) true in
      after_route route (route.test request.path) (route.http_method == request.http_method) skipped
        listed

module _ {V S : Type 0} (platform : Platform V S) where
  unfoldable pub default_headers : Context V S → Entries
  default_headers c =
      ("Date", platform.utc_text c.world)
      ∷ ("Content-Type", "application/json")
      ∷ ("Access-Control-Allow-Origin", "*")
      ∷ []

  -- The first key that is "content-type" in small letters.
  find_key : String → Entries → Option String
  find_key name [] = none
  find_key name ((k, v) ∷ es) =
      let rest = find_key name es in if platform.lower_case k == name then some k else rest

  -- The property that an absent key names.
  abbrev property_of : Option String → String
  property_of none = "undefined"
  property_of (some k) = k

  is_json_type : Option String → Bool
  is_json_type none = false
  is_json_type (some content_type) =
      starts_with (platform.lower_case content_type) "application/json"

  unfoldable pub is_json : Request V → Bool
  unfolding find_key is_json_type
  is_json request =
      is_json_type (lookup (property_of (find_key "content-type" request.headers)) request.headers)

  -- The status and the error of a response, with the headers that it has.
  unfoldable pub answer_error : ℕ → Option String → Context V S → Context V S
  answer_error status message c =
      with_response
        (λ r. record r {
          status_code = status;
          body = error_content (new_api_error platform status message c);
        })
        c

  unfoldable pub reset_headers : Context V S → Context V S
  reset_headers c = with_response (λ r. record r { headers = default_headers c }) c

  parsed : Result V → Context V S → Bool × Context V S
  parsed (ok v) c = (true, record c { request = record c.request { body = value v } })
  parsed (err message) c = (false, answer_error bad_request (some message) c)

  read_text : Body V → Context V S → Bool × Context V S
  read_text no_body c = (true, c)
  read_text (value v) c = (true, c)
  read_text (raw characters) c =
      if is_empty characters
      then (true, c)
      else (if is_json c.request then parsed (platform.parse_json characters) c else (true, c))

  unfoldable pub read_body : Context V S → Bool × Context V S
  unfolding parsed read_text
  read_body c = read_text c.request.body c

  unfoldable pub answer_not_found : Context V S → Context V S
  answer_not_found c =
      answer_error not_found (some ("Resource not found on path '" ++ c.request.path ++ "'."))
        (reset_headers c)

  -- The value of the last header with a name in small letters.
  last_header : String → Entries → Option String → Option String
  last_header name [] found = found
  last_header name ((k, v) ∷ es) found =
      last_header name es (if platform.lower_case k == name then some v else found)

  abbrev set_given : String → Option String → Entries → Entries
  set_given name none headers = headers
  set_given name (some v) headers = if is_empty v then headers else set name v headers

  options_headers : String → Option String → Option String → Entries → Entries
  options_headers methods none cors_headers headers = set "Allow" methods headers
  options_headers methods (some cors_method) cors_headers headers = elim (is_empty cors_method) [
    | true ↦ set "Allow" methods headers
    | false ↦
        set_given "Access-Control-Allow-Headers" cors_headers
          (set "Access-Control-Allow-Methods" methods headers)
  ]

  unfoldable pub answer_options : String → Context V S → Context V S
  unfolding last_header options_headers
  answer_options methods c =
      with_response
        (λ r. record r {
          status_code = status_ok;
          headers =
              options_headers methods
                (last_header "access-control-request-method" c.request.headers none)
                (last_header "access-control-request-headers" c.request.headers none)
                (default_headers c);
        })
        c

  unfoldable pub answer_not_allowed : String → Context V S → Context V S
  answer_not_allowed methods c =
      answer_error method_not_allowed
        (some (
          "Method '" ++ c.request.http_method ++ "' not allowed on path '" ++ c.request.path
          ++ "'."))
        (with_response (λ r. record r { headers = set "Allow" methods (default_headers c) }) c)

  unfoldable pub has_content : Content V → Bool
  has_content no_content = false
  has_content (error_content e) = true
  has_content (value_content v) = platform.truthy v

  -- What follows the handler of a route.
  unfoldable pub complete_response : Context V S → Context V S
  complete_response c = elim (eqb (c.response.status_code / 200 * 200) 400) [
    | true ↦
        if has_content c.response.body
        then c
        else with_response
            (λ r. record r {
              body = error_content (new_api_error platform r.status_code r.error_message c);
            })
            c
    | false ↦
        if eqb c.response.status_code 0
        then with_response (λ r. record r { status_code = status_ok }) c
        else c
  ]

  unfoldable pub completed : Result (Unit {0}) × Context V S → Result (Unit {0}) × Context V S
  completed (ok _, c) = (ok tt, complete_response c)
  completed (err message, c) = (err message, c)

  unfoldable pub with_variables : Route V S → Context V S → Context V S
  with_variables route c = record c {
    request = record c.request { path_variables = route.from_uri c.request.path };
  }

  unfoldable pub answer_unserved : Bool → String → Context V S → Context V S
  answer_unserved true methods c = answer_options methods c
  answer_unserved false methods c = answer_not_allowed methods c

  unfoldable pub respond : Match V S → Handler V S
  respond unmatched c = (ok tt, answer_not_found c)
  respond (not_allowed methods) c =
      (ok tt, answer_unserved (c.request.http_method == "OPTIONS") (with_options methods) c)
  respond (matched route) c = completed (route.handler (with_variables route c))

  after_body : List (Route V S) → Bool × Context V S → Result (Unit {0}) × Context V S
  after_body routes (false, c) = (ok tt, c)
  after_body routes (true, c) = respond (choose c.request routes "" false) c

  unfoldable pub process_route : List (Route V S) → Handler V S
  unfolding after_body
  process_route routes c = after_body routes (read_body c)

  unfoldable pub pipeline : List (Route V S) → List (Handler V S → Handler V S) → Handler V S
  pipeline routes [] = process_route routes
  pipeline routes (execute ∷ middleware) = execute (pipeline routes middleware)

  caught : Result (Unit {0}) × Context V S → Context V S
  caught (ok _, c) = c
  caught (err message, c) = answer_error internal_server_error (some message) (reset_headers c)

  -- `handleRequest`, which throws nothing.
  unfoldable pub handle_request :
      List (Route V S) → List (Handler V S → Handler V S) → Context V S → Context V S
  unfolding caught
  handle_request routes middleware c = caught (pipeline routes middleware (reset_headers c))
