-- ===== src/Client/Manager.antt =====
-- base/client/lib/resources/resource-manager.ts: the service clients and `init`. What all clients need is
-- the platform. A state holds the service clients and the state outside. The results of a response are
-- an array. The log is left out.
pub mod Start
pub mod Calls
pub mod Query
use mcma_libraries.Prelude.{
  ℕ, Bool, true, false, String, Option, none, some, List, [], ◌∷◌, ◌++◌, Result, ok, err, ◌>>=◌,
  ◌==◌, ◌||◌, ◌&&◌, is_empty, if◌then◌else◌, Action, follow, any_equal, starts_with, eqb, is_nil,
}
use Prim.Native.String.{◌++◌ as ◌<>◌}
use Prim.Native.Char.{code}
use mcma_libraries.Documents.{
  Value, undefined, null, boolean, number, text, date, array, object, Items, nil, cons, Fields, end,
  field,
}
use mcma_libraries.Core.Properties.{is_missing, get_field}
use mcma_libraries.Core.Models.{
  Parsers, own_property, read_property, resource_endpoint, service, notification,
}
use mcma_libraries.Client.Auth.{get_authenticator, get_default}
use mcma_libraries.Client.Requests.{
  RequestConfig, a_url, a_config, neither, empty_config, Http, HttpClient, http_client,
  text_or_empty,
}
use mcma_libraries.Client.Services.{
  Authenticator, Platform, EndpointClient, ServiceClient, text_field, service_client,
  get_resource_endpoint_client, all_endpoint_clients, client_with, endpoint_http,
}

-- base/client/lib/resources/resource-manager-config.ts
pub record ResourceManagerConfig : Type 0 where
  pub service_registry_url : String
  pub service_registry_auth_type : Option String

-- What a resource manager is made with, and a test for the number 0.
pub record Setting (N T S : Type 0) : Type 0 where
  pub platform : Platform N T S
  pub parsers : Parsers N T
  pub is_zero : N → Bool
  pub types : List (String × Authenticator N T S)
  pub config : ResourceManagerConfig

pub record Manager (S : Type 0) : Type 0 where
  pub service_clients : List ServiceClient
  pub world : S

-- Without one slash at the end, as the constructor leaves the address of the registry.
abbrev pub without_slash_at_end : String → String
without_slash_at_end String.[] = ""
without_slash_at_end (String.◌∷◌ c s) =
    let rest = without_slash_at_end s in
    if eqb (code c) b'/' && is_empty s then "" else String.◌∷◌ c rest

-- The endpoints of all service clients.
abbrev pub all_endpoints : List ServiceClient → List EndpointClient
all_endpoints [] = []
all_endpoints (c ∷ cs) = all_endpoint_clients c ++ all_endpoints cs

module _ {N T : Type 0} where
  -- `response.data.results`
  unfoldable pub results_of : Value N T → Result (Items N T)
  results_of response = read_property "results" response >>= λ results. elim results [
    | array vs ↦ ok vs
    | _ ↦ err "results is not iterable"
  ]

abbrev pub failed_to_initialize : String
failed_to_initialize = "ResourceManager: Failed to initialize"

module _ {N T S : Type 0} (setting : Setting N T S) where
  -- `httpClient`
  abbrev pub registry_http : Http N T S
  registry_http = http_client (
      client_with setting.platform
        (elim (get_authenticator setting.platform.lower_case
          (text_or_empty setting.config.service_registry_auth_type) setting.types) [
            | some a ↦ some a
            | none ↦ get_default setting.types
          ]))

  -- A call outside, in the state of the manager.
  abbrev pub outside : {A : Type 0} → Action S A → Action (Manager S) A
  outside call m = let (r, s) = call m.world in (r, record m { world = s })

  abbrev pub endpoint_object : String → String → Value N T
  endpoint_object resource_type path = object (
      field "resourceType" (text resource_type)
        (field "httpEndpoint" (text (setting.config.service_registry_url <> path)) end))

  abbrev pub optional_text : Option String → Value N T
  optional_text none = undefined
  optional_text (some t) = text t

  unfoldable pub registry_service : Result (Fields N T)
  registry_service =
      resource_endpoint setting.parsers (endpoint_object "Service" "/services") >>= λ services.
      resource_endpoint setting.parsers (endpoint_object "JobProfile" "/job-profiles")
      >>= λ profiles. service setting.parsers (
          object (
            field "name" (text "Service Registry") (
              field "authType" (optional_text setting.config.service_registry_auth_type) (
                field "resources" (array (cons (object services) (cons (object profiles) nil)))
                  end))))

  -- `new ServiceClient(new Service(service), ...)`
  unfoldable pub client_from : Value N T → Result ServiceClient
  client_from v = service setting.parsers v >>= service_client

  abbrev pub is_registry : Value N T → Bool
  is_registry v = elim (own_property "name" v) [ text s ↦ s == "Service Registry" | _ ↦ false ]

  abbrev pub clients_of : Result ServiceClient → List ServiceClient
  clients_of (ok c) = c ∷ []
  clients_of (err message) = []

  -- The clients of the listed services, but for the registry and those that cannot be made.
  unfoldable pub listed_clients : Items N T → List ServiceClient
  listed_clients nil = []
  listed_clients (cons v vs) =
      (if is_registry v then [] else clients_of (client_from v)) ++ listed_clients vs

  listed : Result (Items N T) → Action (Manager S) (Unit {0})
  listed (err message) m = (err failed_to_initialize, m)
  listed (ok services) m =
      (ok tt, record m { service_clients = m.service_clients ++ listed_clients services })

  loaded : Result (Value N T) × Manager S → Result (Unit {0}) × Manager S
  loaded (err message, m) = (err failed_to_initialize, m)
  loaded (ok response, m) = listed (results_of response) m

  fetched : Option EndpointClient → Action (Manager S) (Unit {0})
  fetched none m = (err failed_to_initialize, m)
  fetched (some e) m =
      loaded (outside (λ s. (endpoint_http setting.platform setting.types e).get neither none s) m)

  started : Result ServiceClient → Action (Manager S) (Unit {0})
  started (err message) m = (err failed_to_initialize, m)
  started (ok c) m =
      fetched (get_resource_endpoint_client "Service" c) (record m { service_clients = c ∷ [] })

  unfoldable pub init : Action (Manager S) (Unit {0})
  unfolding started fetched loaded listed
  init m = started (registry_service >>= service_client) (record m { service_clients = [] })

  -- `init` where there are no service clients.
  unfoldable pub ready : Action (Manager S) (Unit {0})
  ready m = if is_nil m.service_clients then init m else (ok tt, m)
