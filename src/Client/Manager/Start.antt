-- ===== src/Client/Manager/Start.antt =====
-- How `init` ends.
use mcma_libraries.Prelude.{
  ◌≡◌, refl, String, true, false, Option, none, some, List, [], ◌∷◌, ◌++◌, Result, ok, err, ◌>>=◌,
  Bool-cases, inl, inr,
}
use mcma_libraries.Documents.{Value, Items, nil, cons}
use mcma_libraries.Core.Models.{service}
use mcma_libraries.Client.Requests.{neither}
use mcma_libraries.Client.Services.{
  EndpointClient, ServiceClient, service_client, get_resource_endpoint_client, endpoint_http,
}
use mcma_libraries.Client.Manager.{
  Setting, Manager, results_of, registry_service, is_registry, client_from, clients_of,
  listed_clients, failed_to_initialize, started, fetched, loaded, listed, init,
}

module _ {N T S : Type 0} (setting : Setting N T S) where
  -- What the endpoint for services of the registry answers, and the state outside that follows.
  abbrev pub answer_of : EndpointClient → S → Result (Value N T) × S
  answer_of e s = (endpoint_http setting.platform setting.types e).get neither none s

  -- The clients of the listed services, in order: the registry is passed over, and so is a service
  -- whose client cannot be made.
  pub data IsListed : Items N T → List ServiceClient → Type 0 where
    no_more : IsListed nil []
    registry_left :
        (v : Value N T) (vs : Items N T) (clients : List ServiceClient)
        → is_registry setting v ≡ true
        → IsListed vs clients
        → IsListed (cons v vs) clients
    not_made :
        (v : Value N T) (vs : Items N T) (clients : List ServiceClient) (message : String)
        → is_registry setting v ≡ false
        → (service setting.parsers v >>= service_client) ≡ err message
        → IsListed vs clients
        → IsListed (cons v vs) clients
    client_made :
        (v : Value N T) (vs : Items N T) (client : ServiceClient) (clients : List ServiceClient)
        → is_registry setting v ≡ false
        → (service setting.parsers v >>= service_client) ≡ ok client
        → IsListed vs clients
        → IsListed (cons v vs) (client ∷ clients)

  listed_clients-IsListed :
      (services : Items N T) → IsListed services (listed_clients setting services)
  unfolding listed_clients client_from
  listed_clients-IsListed nil = no_more
  listed_clients-IsListed (cons v vs) =
      let rest = listed_clients-IsListed vs in
      elim (Bool-cases (is_registry setting v)) [
        | inl registry ↦ rw registry (registry_left v vs _ registry rest)
        | inr other ↦ rw other (one (service setting.parsers v >>= service_client) other refl rest)
      ]
    where
      one :
          (r : Result ServiceClient)
          → is_registry setting v ≡ false
          → (service setting.parsers v >>= service_client) ≡ r
          → IsListed vs (listed_clients setting vs)
          → IsListed (cons v vs) (clients_of setting r ++ listed_clients setting vs)
      one (err message) other e rest = not_made v vs _ message other e rest
      one (ok client) other e rest = client_made v vs client _ other e rest

  -- The end of `init`, from a state outside.
  pub data Started (s : S) : Result (Unit {0}) × Manager S → Type 0 where
    no_registry :
        (message : String)
        → (registry_service setting >>= service_client) ≡ err message
        → Started s (err failed_to_initialize, record { service_clients = []; world = s })
    no_endpoint :
        (registry : ServiceClient)
        → (registry_service setting >>= service_client) ≡ ok registry
        → get_resource_endpoint_client "Service" registry ≡ none
        → Started s
            (err failed_to_initialize, record { service_clients = registry ∷ []; world = s })
    no_services :
        (registry : ServiceClient) (e : EndpointClient) (message : String)
        → (registry_service setting >>= service_client) ≡ ok registry
        → get_resource_endpoint_client "Service" registry ≡ some e
        → ((answer_of e s).0 >>= results_of) ≡ err message
        → Started s (
          err failed_to_initialize,
          record { service_clients = registry ∷ []; world = (answer_of e s).1 },
        )
    initialized :
        (registry : ServiceClient) (e : EndpointClient) (services : Items N T)
        (clients : List ServiceClient)
        → (registry_service setting >>= service_client) ≡ ok registry
        → get_resource_endpoint_client "Service" registry ≡ some e
        → ((answer_of e s).0 >>= results_of) ≡ ok services
        → IsListed services clients
        → Started s
            (ok tt, record { service_clients = registry ∷ clients; world = (answer_of e s).1 })

  loaded-Started :
      (s : S) (registry : ServiceClient) (e : EndpointClient) (r : Result (Value N T))
      → (registry_service setting >>= service_client) ≡ ok registry
      → get_resource_endpoint_client "Service" registry ≡ some e
      → (answer_of e s).0 ≡ r
      → Started s (
          loaded setting (r, record { service_clients = registry ∷ []; world = (answer_of e s).1 }))
  unfolding loaded listed
  loaded-Started s registry e (err message) made found answered =
      no_services registry e message made found (rw answered refl)
  loaded-Started s registry e (ok response) made found answered =
      listed-Started (results_of response) (rw answered refl)
    where
      listed-Started :
          (r : Result (Items N T))
          → ((answer_of e s).0 >>= results_of) ≡ r
          → Started s (
              listed setting r
                (record { service_clients = registry ∷ []; world = (answer_of e s).1 }))
      listed-Started (err message) failed = no_services registry e message made found failed
      listed-Started (ok services) there =
          initialized registry e services _ made found there (listed_clients-IsListed services)

  fetched-Started :
      (s : S) (registry : ServiceClient) (o : Option EndpointClient)
      → (registry_service setting >>= service_client) ≡ ok registry
      → get_resource_endpoint_client "Service" registry ≡ o
      → Started s (fetched setting o (record { service_clients = registry ∷ []; world = s }))
  unfolding fetched
  fetched-Started s registry none made found = no_endpoint registry made found
  fetched-Started s registry (some e) made found = loaded-Started s registry e _ made found refl

  started-Started :
      (s : S) (r : Result ServiceClient)
      → (registry_service setting >>= service_client) ≡ r
      → Started s (started setting r (record { service_clients = []; world = s }))
  unfolding started
  started-Started s (err message) made = no_registry message made
  started-Started s (ok registry) made = fetched-Started s registry _ made refl

  -- `init` forgets the clients from before. It ends with the client of the registry and those of the
  -- services that the registry answers, in order, but for the ones that cannot be made and the
  -- registry itself. Or it throws: with no client where that of the registry cannot be made, and with
  -- the client of the registry alone where the services are not answered.
  pub init-Started : (m : Manager S) → Started m.world (init setting m)
  unfolding init
  init-Started m = started-Started m.world _ refl
