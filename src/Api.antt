-- ===== src/Api.antt =====
-- base/api/lib/http: requests, responses and the request context of the HTTP API. What the code
-- uses of the platform is a parameter: the parser of JSON, the case of letters, the truth of a
-- parsed value, and the clock. The identifier of a request, its original and its log are left out.
pub mod Statuses
pub mod Controller
pub mod Defaults
pub mod Queries
pub mod Security
use mcma_libraries.Prelude.{
  ℕ, Bool, true, false, String, Option, none, some, List, [], ◌∷◌, Result, ok, err, ◌==◌, ◌&&◌, leb,
  ltb, if◌then◌else◌, Action,
}
use Prim.Native.String.{◌++◌}
use mcma_libraries.Api.Statuses.{bad_request, not_found, created, get_status_error}

-- An object whose values are texts.
abbrev pub Entries : Type 0
Entries = List (String × String)

abbrev pub lookup : {A : Type 0} → String → List (String × A) → Option A
lookup k [] = none
lookup k ((j, v) ∷ es) = let rest = lookup k es in if j == k then some v else rest

abbrev pub set : String → String → Entries → Entries
set k v [] = (k, v) ∷ []
set k v ((j, w) ∷ es) = let rest = set k v es in if j == k then (k, v) ∷ es else (j, w) ∷ rest

-- The body of a request: none, the text as it came, or a value.
pub data Body (V : Type 0) : Type 0 where
  no_body : Body V
  raw : (characters : String) → Body V
  value : (parsed : V) → Body V

-- base/api/lib/http/mcma-api-request.ts
pub record Request (V : Type 0) : Type 0 where
  pub path : String
  pub http_method : String
  pub headers : Entries
  pub path_variables : Entries
  pub query_string_parameters : Entries
  pub body : Body V

-- base/api/lib/http/mcma-api-error.ts
pub record ApiError : Type 0 where
  pub timestamp : ℕ
  pub status : ℕ
  pub error : String
  pub path : String
  pub message : Option String

pub data Content (V : Type 0) : Type 0 where
  no_content : Content V
  error_content : (error : ApiError) → Content V
  value_content : (resource : V) → Content V

-- base/api/lib/http/mcma-api-response.ts
pub record Response (V : Type 0) : Type 0 where
  pub status_code : ℕ
  pub error_message : Option String
  pub headers : Entries
  pub body : Content V

abbrev pub new_response : {V : Type 0} → Response V
new_response = record { status_code = 0; error_message = none; headers = []; body = no_content }

-- The request context, with all that is outside.
pub record Context (V S : Type 0) : Type 0 where
  pub request : Request V
  pub response : Response V
  pub world : S

abbrev pub Handler : Type 0 → Type 0 → Type 0
Handler V S = Action (Context V S) (Unit {0})

pub record Platform (V S : Type 0) : Type 0 where
  pub parse_json : String → Result V
  pub lower_case : String → String
  pub truthy : V → Bool
  pub now : S → ℕ
  pub utc_text : S → String

module _ {V S : Type 0} where
  abbrev pub with_response : (Response V → Response V) → Context V S → Context V S
  with_response f c = record c { response = f c.response }

  -- `new McmaApiError`
  unfoldable pub new_api_error : Platform V S → ℕ → Option String → Context V S → ApiError
  new_api_error platform status message c = record {
    timestamp = platform.now c.world;
    status = status;
    error = get_status_error status;
    path = c.request.path;
    message = message;
  }

  -- base/api/lib/http/mcma-api-request-context.ts
  unfoldable pub set_response_error : ℕ → Option String → Handler V S
  set_response_error status message c = elim (leb 400 status && ltb status 600) [
    | true ↦
        (ok tt, with_response (λ r. record r { status_code = status; error_message = message }) c)
    | false ↦ (
      err "McmaApiRequestContext.setResponseError can only be used to handle 4xx or 5xx errors",
      c,
    )
  ]

  unfoldable pub set_response_bad_request_due_to_missing_body : Handler V S
  set_response_bad_request_due_to_missing_body =
      set_response_error bad_request (some "Missing request body.")

  unfoldable pub set_response_resource_not_found : Handler V S
  set_response_resource_not_found c =
      set_response_error not_found (some ("No resource found on path '" ++ c.request.path ++ "'."))
        c

  unfoldable pub set_response_body : V → Context V S → Context V S
  set_response_body resource = with_response (λ r. record r { body = value_content resource })

  unfoldable pub set_response_resource_created : String → V → Context V S → Context V S
  set_response_resource_created id resource = with_response (λ r. record r {
    headers = set "Location" id r.headers;
    status_code = created;
    body = value_content resource;
  })
