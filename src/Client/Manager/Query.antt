-- ===== src/Client/Manager/Query.antt =====
-- base/client/lib/resources/resource-manager.ts: `query`. The text of the errors it throws is that for the
-- type of the resources.
pub mod Distinct
use mcma_libraries.Prelude.{
  ℕ, Bool, true, false, String, Option, none, some, List, [], ◌∷◌, ◌++◌, Result, ok, err, ◌>>=◌,
  ◌==◌, ◌||◌, ◌&&◌, is_empty, if◌then◌else◌, Action, follow, any_equal, starts_with, eqb, is_nil,
}
use Prim.Native.String.{◌++◌ as ◌<>◌}
use Prim.Native.Char.{code}
use mcma_libraries.Documents.{
  Value, undefined, null, boolean, number, text, date, array, object, Items, nil, cons, Fields, end,
  field,
}
use mcma_libraries.Core.Properties.{is_missing, get_field}
use mcma_libraries.Core.Models.{
  Parsers, own_property, read_property, resource_endpoint, service, notification,
}
use mcma_libraries.Client.Auth.{get_authenticator, get_default}
use mcma_libraries.Client.Requests.{
  RequestConfig, a_url, a_config, neither, empty_config, Http, HttpClient, http_client,
  text_or_empty,
}
use mcma_libraries.Client.Services.{
  Authenticator, Platform, EndpointClient, ServiceClient, text_field, service_client,
  get_resource_endpoint_client, all_endpoint_clients, client_with, endpoint_http,
}
use mcma_libraries.Client.Manager.{
  Setting, Manager, all_endpoints, results_of, registry_http, outside, ready,
}

module _ {N T : Type 0} where
  abbrev pub set_field : String → Value N T → Fields N T → Fields N T
  set_field name v end = field name v end
  set_field name v (field k w fs) =
      let rest = set_field name v fs in if k == name then field k v fs else field k w rest

  -- `Object.assign(params, filter)`
  abbrev pub assign : Fields N T → Fields N T → Fields N T
  assign params end = params
  assign params (field k v fs) = assign (set_field k v params) fs

  abbrev pub when_given : String → Option String → Fields N T → Fields N T
  when_given name none params = params
  when_given name (some t) params = set_field name (text t) params

  -- The parameters of a query.
  abbrev pub params_of : Fields N T → Option String → Option String → Fields N T
  params_of filter sort_by sort_order =
      assign (when_given "sortOrder" sort_order (when_given "sortBy" sort_by end)) filter

  abbrev pub append_items : Items N T → Items N T → Items N T
  append_items nil ws = ws
  append_items (cons v vs) ws = cons v (append_items vs ws)

-- What a query has so far.
pub record Asked (N T : Type 0) : Type 0 where
  pub results : Items N T
  pub used_http_endpoints : List String
  pub errors : List String

abbrev pub failed_to_retrieve : String → String → String
failed_to_retrieve resource_type endpoint =
    "Failed to retrieve '" <> resource_type <> "' from endpoint '" <> endpoint <> "'"

abbrev pub failed_to_query : String → String
failed_to_query resource_type =
    "Failed to query any available resource endpoints for resource type '" <> resource_type <> "'"

module _ {N T S : Type 0} (setting : Setting N T S) where
  -- The items that an endpoint answers.
  unfoldable pub ask : Fields N T → EndpointClient → Action (Manager S) (Items N T)
  ask params e m =
      let (r, m') =
        outside setting
          (λ s.
            (endpoint_http setting.platform setting.types e).get
              (a_config (record empty_config { params = params })) none s)
          m in
      (r >>= results_of, m')

  -- What is kept of the answer of an endpoint.
  asked_with : String → String → Asked N T → Result (Items N T) → Asked N T
  asked_with resource_type endpoint a (err message) = record a {
    errors = a.errors ++ (failed_to_retrieve resource_type endpoint ∷ []);
  }
  asked_with resource_type endpoint a (ok vs) = record a {
    results = append_items a.results vs;
    used_http_endpoints = a.used_http_endpoints ++ (endpoint ∷ []);
  }

  -- The body of the loop, for the endpoint of a service.
  unfoldable pub ask_once :
      String → Fields N T → EndpointClient → Asked N T → Manager S → Asked N T × Manager S
  unfolding asked_with
  ask_once resource_type params e a m =
      if any_equal e.http_endpoint a.used_http_endpoints
      then (record a { used_http_endpoints = a.used_http_endpoints ++ (e.http_endpoint ∷ []) }, m)
      else (let (r, m') = ask params e m in (asked_with resource_type e.http_endpoint a r, m'))

  -- A service without an endpoint for the type is passed over.
  abbrev pub ask_found :
      String → Fields N T → Option EndpointClient → Asked N T → Manager S → Asked N T × Manager S
  ask_found resource_type params none a m = (a, m)
  ask_found resource_type params (some e) a m = ask_once resource_type params e a m

  unfoldable pub ask_all :
      String → Fields N T → List ServiceClient → Asked N T → Manager S → Asked N T × Manager S
  ask_all resource_type params [] a m = (a, m)
  ask_all resource_type params (c ∷ cs) a m =
      let (a', m') =
        ask_found resource_type params (get_resource_endpoint_client resource_type c) a m in
      ask_all resource_type params cs a' m'

  abbrev outcome : String → Asked N T → Result (Items N T)
  outcome resource_type a =
      if is_nil a.errors then ok a.results else err (failed_to_query resource_type)

  abbrev pub nothing_asked : Asked N T
  nothing_asked = record { results = nil; used_http_endpoints = []; errors = [] }

  unfoldable pub query :
      String → Fields N T → Option String → Option String → Action (Manager S) (Items N T)
  query resource_type filter sort_by sort_order m =
      let (r, m') = ready setting m in
      follow r
        (λ _ m''.
          let (a, out) =
            ask_all resource_type (params_of filter sort_by sort_order) m''.service_clients
              nothing_asked m'' in
          (outcome resource_type a, out))
        m'
