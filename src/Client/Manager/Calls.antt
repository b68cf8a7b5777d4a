-- ===== src/Client/Manager/Calls.antt =====
-- base/client/lib/resources/resource-manager.ts: the calls for one resource.
pub mod Routes
use mcma_libraries.Prelude.{
  ℕ, Bool, true, false, String, Option, none, some, List, [], ◌∷◌, ◌++◌, Result, ok, err, ◌>>=◌,
  ◌==◌, ◌||◌, ◌&&◌, is_empty, if◌then◌else◌, Action, follow, any_equal, starts_with, eqb, is_nil,
}
use Prim.Native.String.{◌++◌ as ◌<>◌}
use Prim.Native.Char.{code}
use mcma_libraries.Documents.{
  Value, undefined, null, boolean, number, text, date, array, object, Items, nil, cons, Fields, end,
  field,
}
use mcma_libraries.Core.Properties.{is_missing, get_field}
use mcma_libraries.Core.Models.{
  Parsers, own_property, read_property, resource_endpoint, service, notification,
}
use mcma_libraries.Client.Auth.{get_authenticator, get_default}
use mcma_libraries.Client.Requests.{
  RequestConfig, a_url, a_config, neither, empty_config, Http, HttpClient, http_client,
  text_or_empty,
}
use mcma_libraries.Client.Services.{
  Authenticator, Platform, EndpointClient, ServiceClient, text_field, service_client,
  get_resource_endpoint_client, all_endpoint_clients, client_with, endpoint_http,
}
use mcma_libraries.Client.Manager.{
  Setting, Manager, all_endpoints, results_of, registry_http, outside, ready,
}

-- `replace(/\/+$/, "")`: without the slashes at the end.
abbrev pub trimmed : String → String
trimmed String.[] = ""
trimmed (String.◌∷◌ c s) =
    let rest = trimmed s in if eqb (code c) b'/' && is_empty rest then "" else String.◌∷◌ c rest

unfoldable pub serves : String → EndpointClient → Bool
serves url e =
    let endpoint = trimmed e.http_endpoint in
    (url == endpoint) || starts_with url (endpoint <> "/") || starts_with url (endpoint <> "?")

abbrev pub first_serving : String → List EndpointClient → Option EndpointClient
first_serving url [] = none
first_serving url (e ∷ es) =
    let later = first_serving url es in if serves url e then some e else later

module _ {N T S : Type 0} (setting : Setting N T S) where
  -- `getResourceEndpointClient`
  unfoldable pub get_endpoint_client : String → Action (Manager S) (Option EndpointClient)
  get_endpoint_client url m =
      let (r, m') = ready setting m in
      follow r (λ _ m''. (ok (first_serving url (all_endpoints m''.service_clients)), m'')) m'

  abbrev pub http_of : Option EndpointClient → Http N T S
  http_of none = (registry_http setting)
  http_of (some e) = endpoint_http setting.platform setting.types e

  -- What is found for an address and called with it.
  abbrev pub with_http :
      {A : Type 0} → String → (Http N T S → Action (Manager S) A) → Action (Manager S) A
  with_http url call m =
      let (r, m') = get_endpoint_client url m in follow r (λ e m''. call (http_of e) m'') m'

  abbrev pub failed_to_get : String → String
  failed_to_get url = "ResourceManager: Failed to get resource from URL '" <> url <> "'"

  abbrev pub illegal : {A : Type 0} → String → String → Result A
  illegal url type =
      err ("ResourceManager: Resource at '" <> url <> "' has illegal type '" <> type <> "'")

  -- What `get` makes of the data of a response.
  unfoldable pub checked_resource : String → Value N T → Result (Option (Value N T))
  checked_resource url v = elim v [
    | undefined ↦ ok none
    | null ↦ ok none
    | boolean b ↦ if b then illegal url "boolean" else ok none
    | number n ↦ if setting.is_zero n then ok none else illegal url "number"
    | text t ↦ if is_empty t then ok none else illegal url "string"
    | date d ↦ ok (some (date d))
    | array xs ↦ illegal url "Array"
    | object o ↦ ok (some (object o))
  ]

  got : String → Result (Value N T) × Manager S → Result (Option (Value N T)) × Manager S
  got url (err message, m) = (err (failed_to_get url), m)
  got url (ok v, m) = (checked_resource url v, m)

  unfoldable pub get : String → Action (Manager S) (Option (Value N T))
  unfolding got
  get url = with_http url (λ http m. got url (outside setting (λ s. http.get (a_url url) none s) m))

  -- The identifier of the resource is a text.
  unfoldable pub update : Fields N T → Action (Manager S) (Value N T)
  update resource m =
      let (r, m') = ready setting m in
      follow r
        (λ _. with_http (text_field "id" resource) (λ http m''.
          outside setting
            (λ s. http.put (object resource) (a_url (text_field "id" resource)) none s) m''))
        m'

  -- The address of what is deleted: a text, or the identifier of a resource.
  abbrev pub resource_id : Value N T → Result String
  resource_id v = elim v [
    | text t ↦ ok t
    | object o ↦
        if is_empty (text_field "id" o)
        then err "Unexpected input of type 'object' for ResourceManager.delete"
        else ok (text_field "id" o)
    | _ ↦ err "Unexpected input for ResourceManager.delete"
  ]

  deleted : Result (Value N T) × Manager S → Result (Unit {0}) × Manager S
  deleted (ok v, m) = (ok tt, m)
  deleted (err message, m) = (err message, m)

  unfoldable pub delete : Value N T → Action (Manager S) (Unit {0})
  unfolding deleted
  delete v m =
      follow (resource_id v)
        (λ url m₀.
          let (r, m') = ready setting m₀ in
          follow r
            (λ _.
              with_http url
                (λ http m''. deleted (outside setting (λ s. http.delete (a_url url) none s) m'')))
            m')
        m

  -- The first service client that has an endpoint for the type.
  abbrev pub first_endpoint : String → List ServiceClient → Option EndpointClient
  first_endpoint resource_type [] = none
  first_endpoint resource_type (c ∷ cs) =
      let later = first_endpoint resource_type cs in
      elim (get_resource_endpoint_client resource_type c) [ some e ↦ some e | none ↦ later ]

  created : Fields N T → Option EndpointClient → Action (Manager S) (Value N T)
  created resource none m = (
    err (
        "ResourceManager: Failed to find service to create resource of type '"
        <> text_field "@type" resource
        <> "'."),
    m,
  )
  created resource (some e) m =
      outside setting
        (λ s.
          (endpoint_http setting.platform setting.types e).post (object resource) neither none s)
        m

  unfoldable pub create : Fields N T → Action (Manager S) (Value N T)
  unfolding created
  create resource m =
      let (r, m') = ready setting m in
      follow r
        (λ _ m''.
          created resource (first_endpoint (text_field "@type" resource) m''.service_clients) m'')
        m'

  chosen_http : String → Option EndpointClient → Result (Http N T S)
  chosen_http auth_type (some e) = ok (endpoint_http setting.platform setting.types e)
  chosen_http auth_type none =
      if is_empty auth_type
      then ok (registry_http setting)
      else elim (get_authenticator setting.platform.lower_case auth_type setting.types) [
        | some a ↦ ok (http_client (client_with setting.platform (some a)))
        | none ↦ err ("No authenticator registered for auth type '" <> auth_type <> "'")
      ]

  -- `getHttpClient`, where an empty type is none.
  unfoldable pub get_http_client : String → String → Action (Manager S) (Http N T S)
  unfolding chosen_http
  get_http_client url auth_type m =
      let (r, m') = get_endpoint_client url m in
      follow r (λ e m''. (chosen_http auth_type e, m'')) m'

  abbrev pub failed_to_send : String
  failed_to_send = "ResourceManager: Failed to send notification."

  sent : {A : Type 0} → Result A × Manager S → Result (Unit {0}) × Manager S
  sent (ok _, m) = (ok tt, m)
  sent (err message, m) = (err failed_to_send, m)

  posted : Result (Fields N T) → String → Http N T S → Action (Manager S) (Value N T)
  posted (err message) url http m = (err message, m)
  posted (ok n) url http m = outside setting (λ s. http.post (object n) (a_url url) none s) m

  -- `sendNotification`; the notification endpoint of a resource is an object if it is there.
  unfoldable pub send_notification : Fields N T → Action (Manager S) (Unit {0})
  unfolding sent posted
  send_notification resource m = elim (get_field "notificationEndpoint" resource) [
    | object endpoint ↦ sent (
        with_http (text_field "httpEndpoint" endpoint)
          (posted
            (notification setting.parsers (
              object
                (field "source" (get_field "id" resource) (field "content" (object resource) end))))
            (text_field "httpEndpoint" endpoint))
          m)
    | _ ↦ (ok tt, m)
  ]
