-- ===== src/Client/Requests.antt =====
-- base/client/lib/http: what `get`, `post`, `put`, `patch` and `delete` of the HTTP client send. The
-- response is its data. JSON and base 64 for the tracker are a parameter. The identifier of a body
-- is a text.
pub mod Address
use mcma_libraries.Prelude.{
  ℕ, Bool, true, false, String, Option, none, some, List, [], ◌∷◌, Result, ok, err, ◌>>=◌, ◌&&◌,
  ◌||◌, not, ◌==◌, eqb, set_key, is_empty, if◌then◌else◌, Action, starts_with,
}
use Prim.Native.String.{◌++◌}
use Prim.Native.Char.{code}
use mcma_libraries.Documents.{
  Value, undefined, null, boolean, number, text, date, array, object, Fields, end, field,
}
use mcma_libraries.Core.Models.{own_property}
use mcma_libraries.Client.Http.{
  HttpRequestConfig, Failure, Answer, answered, failing, Network, Attempt, request,
}

-- The optional config of a call.
pub record RequestConfig (N T : Type 0) : Type 0 where
  pub base_url : Option String
  pub params : Fields N T
  pub headers : Option (List (String × String))
  pub tracker : Value N T

pub data UrlOrConfig (N T : Type 0) : Type 0 where
  a_url : String → UrlOrConfig N T
  a_config : RequestConfig N T → UrlOrConfig N T
  neither : UrlOrConfig N T

-- What `prepareRequest` gives `request`.
pub record Prepared (N T : Type 0) : Type 0 where
  pub method : String
  pub url : String
  pub body : Value N T
  pub config : RequestConfig N T

-- The parameters and the body of a request.
abbrev pub Content : Type 0 → Type 0 → Type 0
Content N T = Fields N T × Value N T

-- An HTTP client: the network with the authenticator, and the configuration.
pub record HttpClient (N T S : Type 0) : Type 0 where
  pub network : Network (Content N T) (Value N T) S
  pub base_url : Option String
  pub max_attempts : Option ℕ
  pub retry_interval : Option ℕ
  pub tracker_text : Value N T → String

-- base/client/lib/http/http.ts
pub record Http (N T S : Type 0) : Type 0 where
  pub get : UrlOrConfig N T → Option (RequestConfig N T) → Action S (Value N T)
  pub post : Value N T → UrlOrConfig N T → Option (RequestConfig N T) → Action S (Value N T)
  pub put : Value N T → UrlOrConfig N T → Option (RequestConfig N T) → Action S (Value N T)
  pub patch : Value N T → UrlOrConfig N T → Option (RequestConfig N T) → Action S (Value N T)
  pub delete : UrlOrConfig N T → Option (RequestConfig N T) → Action S (Value N T)

-- `baseURL.replace(/\/?\/$/, "")`: without one or two slashes at the end.
abbrev pub without_slashes_at_end : String → String
without_slashes_at_end String.[] = ""
without_slashes_at_end (String.◌∷◌ c s) =
    let rest = without_slashes_at_end s in
    if eqb (code c) b'/' && (is_empty s || (s == "/")) then "" else String.◌∷◌ c rest

-- `url.replace(/^\/+/, "")`
abbrev pub without_slashes_at_start : String → String
without_slashes_at_start String.[] = ""
without_slashes_at_start (String.◌∷◌ c s) =
    let rest = without_slashes_at_start s in if eqb (code c) b'/' then rest else String.◌∷◌ c s

abbrev pub is_absolute : String → Bool
is_absolute url = starts_with url "http://" || starts_with url "https://"

abbrev pub headers_of : Option (List (String × String)) → List (String × String)
headers_of none = []
headers_of (some headers) = headers

-- A text that is missing counts as empty.
abbrev pub text_or_empty : Option String → String
text_or_empty none = ""
text_or_empty (some t) = t

abbrev pub mismatch : String → String → String → String
mismatch method base url =
    "HttpClient: Making " ++ method ++ " request to URL '" ++ url
    ++ "' which does not match baseURL '" ++ base ++ "'"

-- The address that `request` sends to, from the base and the given address.
unfoldable pub full_address : String → String → String → Result String
full_address method base url =
    if is_empty base
    then ok url
    else if is_empty url
    then ok base
    else if not (is_absolute url)
    then ok (without_slashes_at_end base ++ "/" ++ without_slashes_at_start url)
    else if starts_with url base
    then ok url
    else err (mismatch method base url)

unfoldable pub given : String → Result String
given url = if is_empty url then err "HttpClient: Missing url in request config" else ok url

unfoldable pub resolve_address : String → String → String → Result String
unfolding given
resolve_address method base url = full_address method base url >>= given

module _ {N T : Type 0} where
  abbrev pub empty_config : RequestConfig N T
  empty_config = record { base_url = none; params = end; headers = none; tracker = undefined }

  abbrev pub config_or_empty : Option (RequestConfig N T) → RequestConfig N T
  config_or_empty none = empty_config
  config_or_empty (some config) = config

  -- `body?.id`
  abbrev pub id_of : Value N T → String
  id_of body = elim (own_property "id" body) [ text s ↦ s | _ ↦ "" ]

  -- The address and the config that both versions of `prepareRequest` begin with.
  unfoldable pub url_and_config :
      UrlOrConfig N T → Option (RequestConfig N T) → Value N T → String × RequestConfig N T
  url_and_config (a_url url) config body =
      (if is_empty url then id_of body else url, config_or_empty config)
  url_and_config (a_config config) none body = (id_of body, config)
  url_and_config neither none body = (id_of body, empty_config)
  url_and_config (a_config other) (some config) body = (id_of body, config)
  url_and_config neither (some config) body = (id_of body, config)

  -- `headers[McmaHeaders.tracker] = ...` where there is a tracker.
  unfoldable pub tracked :
      (Value N T → String) → RequestConfig N T → Option (List (String × String))
  tracked tracker_text config = elim config.tracker [
    | object fs ↦
        some (set_key "mcma-tracker" (tracker_text (object fs)) (headers_of config.headers))
    | _ ↦ config.headers
  ]

module _ {N T S : Type 0} (client : HttpClient N T S) where
  unfoldable pub prepare_request :
      String → UrlOrConfig N T → Option (RequestConfig N T) → Value N T → Prepared N T
  prepare_request method url_or_config config body =
      let (url, config') = url_and_config url_or_config config body in
      record {
        method = method;
        url = url;
        body = body;
        config =
            if is_empty (text_or_empty config'.base_url)
            then record config' { base_url = client.base_url }
            else config';
      }

  result_of : Answer (Value N T) × Attempt (Content N T) S → Result (Value N T) × S
  result_of (answered response, a) = (ok response, a.world)
  result_of (failing failure, a) = (err failure.message, a.world)

  unfoldable pub send_to : Prepared N T → Result String → Action S (Value N T)
  unfolding result_of
  send_to p (err message) s = (err message, s)
  send_to p (ok url) s = result_of (
      request client.network client.retry_interval client.max_attempts
        (record {
          method = p.method;
          url = url;
          headers = tracked client.tracker_text p.config;
          content = (p.config.params, p.body);
        })
        s)

  -- `request`
  unfoldable pub send_request : Prepared N T → Action S (Value N T)
  send_request p = send_to p (resolve_address p.method (text_or_empty p.config.base_url) p.url)

  abbrev pub http_client : Http N T S
  http_client = record {
    get = λ url config. send_request (prepare_request "GET" url config undefined);
    post = λ body url config. send_request (prepare_request "POST" url config body);
    put = λ body url config. send_request (prepare_request "PUT" url config body);
    patch = λ body url config. send_request (prepare_request "PATCH" url config body);
    delete = λ url config. send_request (prepare_request "DELETE" url config undefined);
  }
