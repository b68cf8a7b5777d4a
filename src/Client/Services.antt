-- ===== src/Client/Services.antt =====
-- base/client/lib/resources/service-client.ts and resource-endpoint-client.ts. What all clients need is
-- the platform. The authenticator that a client is made with at its first request is that of the
-- provider, which does not change after that. Types of resources are no names that every object has.
pub mod Endpoints
use mcma_libraries.Prelude.{
  ℕ, Bool, true, false, String, Option, none, some, List, [], ◌∷◌, Result, ok, err, ◌>>=◌, is_empty,
  if◌then◌else◌, Action, set_key, find_key, map,
}
use mcma_libraries.Documents.{Value, undefined, null, text, object, array, Items, nil, cons, Fields}
use mcma_libraries.Core.Properties.{is_missing, get_field}
use mcma_libraries.Core.Models.{own_property}
use mcma_libraries.Client.Http.{HttpRequestConfig, Answer, Network, Signed}
use mcma_libraries.Client.Auth.{get_authenticator}
use mcma_libraries.Client.Requests.{
  RequestConfig, UrlOrConfig, a_url, Content, HttpClient, Http, url_and_config, prepare_request,
  send_request, http_client,
}

-- A signer of requests.
abbrev pub Authenticator : Type 0 → Type 0 → Type 0 → Type 0
Authenticator N T S = HttpRequestConfig (Content N T) → S → Signed (Content N T) S

-- What sends and waits, and `HttpClientConfig`.
pub record Platform (N T S : Type 0) : Type 0 where
  pub send : HttpRequestConfig (Content N T) → S → Answer (Value N T) × S
  pub sleep : ℕ → S → S
  pub tracker_text : Value N T → String
  pub lower_case : String → String
  pub base_url : Option String
  pub max_attempts : Option ℕ
  pub retry_interval : Option ℕ

-- The fields of a `ResourceEndpointClient`.
pub record EndpointClient : Type 0 where
  pub resource_type : String
  pub http_endpoint : String
  pub auth_type : String
  pub service_auth_type : String

-- `endpointsMap` of a `ServiceClient`
abbrev pub ServiceClient : Type 0
ServiceClient = List (String × EndpointClient)

module _ {N T : Type 0} where
  -- A text of an object, which is empty where there is none.
  abbrev pub text_field : String → Fields N T → String
  text_field name o = elim (get_field name o) [ text s ↦ s | _ ↦ "" ]

  abbrev made : String → Fields N T → EndpointClient
  made service_auth_type o = record {
    resource_type = text_field "resourceType" o;
    http_endpoint = text_field "httpEndpoint" o;
    auth_type = text_field "authType" o;
    service_auth_type = service_auth_type;
  }

  -- The constructor of `ResourceEndpointClient`, for an object.
  abbrev pub endpoint_client : String → Value N T → Result EndpointClient
  endpoint_client service_auth_type v = elim v [
    | object o ↦ ok (made service_auth_type o)
    | _ ↦ err "resourceEndpoint cannot be null or undefined."
  ]

  -- `endpointsMap`, from the endpoints so far.
  abbrev pub add_endpoints : String → Items N T → ServiceClient → Result ServiceClient
  add_endpoints service_auth_type nil endpoints = ok endpoints
  add_endpoints service_auth_type (cons v vs) endpoints =
      endpoint_client service_auth_type v >>= λ e.
      add_endpoints service_auth_type vs (set_key e.resource_type e endpoints)

  abbrev pub endpoints_from : String → Value N T → Result ServiceClient
  endpoints_from service_auth_type resources = elim resources [
    | array vs ↦ add_endpoints service_auth_type vs []
    | _ ↦ err "service.resources is not iterable"
  ]

  -- The constructor of `ServiceClient`.
  unfoldable pub service_client : Fields N T → Result ServiceClient
  service_client service =
      endpoints_from (text_field "authType" service) (get_field "resources" service)

-- `getResourceEndpointClient`
abbrev pub get_resource_endpoint_client :
    String → List (String × EndpointClient) → Option EndpointClient
get_resource_endpoint_client = find_key

-- `hasResourceEndpoint`
abbrev pub has_resource_endpoint : String → List (String × EndpointClient) → Bool
has_resource_endpoint resource_type endpoints = elim (find_key resource_type endpoints) [
  | some e ↦ true
  | none ↦ false
]

-- `getAllResourceEndpointClients`
abbrev pub all_endpoint_clients : List (String × EndpointClient) → List EndpointClient
all_endpoint_clients [] = []
all_endpoint_clients ((k, e) ∷ endpoints) = e ∷ all_endpoint_clients endpoints

module _ {N T S : Type 0} (platform : Platform N T S) where
  abbrev pub client_with : Option (Authenticator N T S) → HttpClient N T S
  client_with sign = record {
    network = record { sign = sign; send = platform.send; sleep = platform.sleep };
    base_url = platform.base_url;
    max_attempts = platform.max_attempts;
    retry_interval = platform.retry_interval;
    tracker_text = platform.tracker_text;
  }

  -- The client of an endpoint, with the authenticator of the endpoint or else of the service.
  abbrev pub client_of : List (String × Authenticator N T S) → EndpointClient → HttpClient N T S
  client_of types e = client_with (
      get_authenticator platform.lower_case
        (if is_empty e.auth_type then e.service_auth_type else e.auth_type) types)

  module _ (types : List (String × Authenticator N T S)) (e : EndpointClient) where
    -- `prepareRequest` of the endpoint, then that of its HTTP client.
    unfoldable pub send_to_endpoint :
        String → UrlOrConfig N T → Option (RequestConfig N T) → Value N T → Action S (Value N T)
    send_to_endpoint method url_or_config config body =
        let (url, config') = url_and_config url_or_config config body in
        send_request (client_of types e) (
          prepare_request (client_of types e) method (a_url url)
            (some (record config' { base_url = some e.http_endpoint })) body)

    abbrev pub endpoint_http : Http N T S
    endpoint_http = record {
      get = λ url config. send_to_endpoint "GET" url config undefined;
      post = λ body url config. send_to_endpoint "POST" url config body;
      put = λ body url config. send_to_endpoint "PUT" url config body;
      patch = λ body url config. send_to_endpoint "PATCH" url config body;
      delete = λ url config. send_to_endpoint "DELETE" url config undefined;
    }
