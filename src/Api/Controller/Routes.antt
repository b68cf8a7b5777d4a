-- ===== src/Api/Controller/Routes.antt =====
-- Which route the controller runs.
use mcma_libraries.Prelude.{
  ℕ, ◌≡◌, Bool, true, false, ◌&&◌, ◌||◌, String, Option, some, ◌⊎◌, List, [], ◌∷◌, ◌++◌, Result, ok,
  ◌==◌, All, if◌then◌else◌,
}
use mcma_libraries.Api.{Request, Context, Platform, lookup, ApiError, error_content}
use mcma_libraries.Api.Controller.{
  Route, Match, unmatched, not_allowed, matched, add_method, with_options, completed,
  with_variables,
}

-- The methods, one after another, with commas.
abbrev pub listing : String → List String → String
listing methods [] = methods
listing methods (m ∷ ms) = listing (add_method methods m) ms

module _ {V S : Type 0} (request : Request V) where
  abbrev pub serves : Route V S → Bool
  serves route = route.test request.path && (route.http_method == request.http_method)

  -- The methods of the routes for the path of the request.
  abbrev pub methods_of : List (Route V S) → List String
  methods_of [] = []
  methods_of (route ∷ routes) =
      let rest = methods_of routes in
      if route.test request.path then route.http_method ∷ rest else rest

  abbrev pub any_matches : List (Route V S) → Bool
  any_matches [] = false
  any_matches (route ∷ routes) = route.test request.path || any_matches routes

  -- `route` is the first of the routes that serves the request.
  pub record FirstServing (routes : List (Route V S)) (route : Route V S) : Type 0 where
    pub before : List (Route V S)
    pub after : List (Route V S)
    pub parts : routes ≡ before ++ (route ∷ after)
    pub skipped : All (λ r. serves r ≡ false) before
    pub serving : serves route ≡ true

  -- What is found where `methods` are listed and `path_matched` tells whether a path has matched.
  pub data Choice (routes : List (Route V S)) (methods : String) (path_matched : Bool)
      (found : Match V S) : Type 0 where
    serving :
        (route : Route V S)
        → FirstServing routes route
        → found ≡ matched route
        → Choice routes methods path_matched found
    other_methods :
        All (λ r. serves r ≡ false) routes
        → (path_matched || any_matches routes) ≡ true
        → found ≡ not_allowed (listing methods (methods_of routes))
        → Choice routes methods path_matched found
    nowhere :
        (path_matched || any_matches routes) ≡ false
        → found ≡ unmatched
        → Choice routes methods path_matched found

module _ {V S : Type 0} (platform : Platform V S) (routes : List (Route V S)) where
  abbrev pub allowed : Context V S → String
  allowed c = with_options (listing "" (methods_of c.request routes))

  -- The request of `c` is answered with a status, and nothing outside changes.
  pub record AnsweredWith (c : Context V S) (status : ℕ) (out : Result (Unit {0}) × Context V S)
      : Type 0 where
    pub done : out.0 ≡ ok tt
    pub with_status : out.1.response.status_code ≡ status
    pub unchanged : out.1.world ≡ c.world

  -- The body of the answer is an error of this status for the path of the request.
  pub record ErrorWith (c : Context V S) (status : ℕ) (out : Result (Unit {0}) × Context V S)
      : Type 0 where
    pub error : ApiError
    pub body : out.1.response.body ≡ error_content error
    pub error_status : error.status ≡ status
    pub error_path : error.path ≡ c.request.path

  abbrev header : String → Result (Unit {0}) × Context V S → Option String
  header name out = lookup name out.1.response.headers

  -- How the request of `c` is answered.
  pub data Routed (c : Context V S) (out : Result (Unit {0}) × Context V S) : Type 0 where
    ran :
        (route : Route V S)
        → FirstServing c.request routes route
        → out ≡ completed platform (route.handler (with_variables platform route c))
        → Routed c out
    no_route :
        any_matches c.request routes ≡ false
        → AnsweredWith c 404 out
        → ErrorWith c 404 out
        → Routed c out
    options :
        All (λ r. serves c.request r ≡ false) routes
        → any_matches c.request routes ≡ true
        → (c.request.http_method == "OPTIONS") ≡ true
        → AnsweredWith c 200 out
        → (header "Allow" out ≡ some (allowed c))
          ⊎ (header "Access-Control-Allow-Methods" out ≡ some (allowed c))
        → Routed c out
    refused :
        All (λ r. serves c.request r ≡ false) routes
        → any_matches c.request routes ≡ true
        → (c.request.http_method == "OPTIONS") ≡ false
        → AnsweredWith c 405 out
        → ErrorWith c 405 out
        → header "Allow" out ≡ some (allowed c)
        → Routed c out
