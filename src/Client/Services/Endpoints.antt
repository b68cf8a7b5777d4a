-- ===== src/Client/Services/Endpoints.antt =====
-- The endpoints that a service client has.
use mcma_libraries.Prelude.{
  ◌≡◌, refl, sym, ap, ◌∙◌, String, Option, none, some, [], ok, ◌==◌, eq_iff, Bool-cases, inl, inr,
  if◌then◌else◌, set_key, find_key, find_key-set_key, find_key-set_key_other,
}
use mcma_libraries.Documents.{object, array, Items, nil, cons, Fields}
use mcma_libraries.Core.Properties.{get_field}
use mcma_libraries.Core.Models.{Parsers}
use mcma_libraries.Core.Models.Typed.{AllObjects, IsService}
use mcma_libraries.Client.Services.{
  EndpointClient, ServiceClient, text_field, made, add_endpoints, endpoints_from, service_client,
  get_resource_endpoint_client,
}

abbrev pub or_else : Option EndpointClient → Option EndpointClient → Option EndpointClient
or_else none o = o
or_else (some e) o = some e

abbrev pub if_type : String → EndpointClient → Option EndpointClient
if_type resource_type e = if e.resource_type == resource_type then some e else none

or_else-none : (a : Option EndpointClient) → or_else a none ≡ a
or_else-none none = refl
or_else-none (some e) = refl

or_else_assoc : (a b c : Option EndpointClient) → or_else (or_else a b) c ≡ or_else a (or_else b c)
or_else_assoc none b c = refl
or_else_assoc (some e) b c = refl

find_key-endpoint :
    (resource_type : String) (e : EndpointClient) (endpoints : ServiceClient)
    → find_key resource_type (set_key e.resource_type e endpoints)
      ≡ or_else (if_type resource_type e) (find_key resource_type endpoints)
find_key-endpoint resource_type e endpoints = elim (Bool-cases (e.resource_type == resource_type)) [
  | inl same ↦ rw same (
      ap (λ k. find_key k (set_key e.resource_type e endpoints)) (sym ((eq_iff _ _).0 same))
      ∙ find_key-set_key e.resource_type e endpoints)
  | inr apart ↦ rw apart (find_key-set_key_other e.resource_type resource_type e endpoints apart)
]

module _ {N T : Type 0} where
  -- The client of the last of the listed endpoints for a type.
  abbrev pub last_for : String → String → Items N T → Option EndpointClient
  last_for service_auth_type resource_type nil = none
  last_for service_auth_type resource_type (cons v vs) =
      or_else (last_for service_auth_type resource_type vs)
        (elim v [ object o ↦ if_type resource_type (made service_auth_type o) | _ ↦ none ])

  add_endpoints-last :
      (P : Fields N T → Type 0) (service_auth_type : String) (vs : Items N T)
      (endpoints : ServiceClient)
      → AllObjects P vs
      → (made_endpoints : ServiceClient) × (add_endpoints service_auth_type vs endpoints
          ≡ ok made_endpoints)
        × ((t : String)
            → find_key t made_endpoints
              ≡ or_else (last_for service_auth_type t vs) (find_key t endpoints))
  add_endpoints-last P service_auth_type nil endpoints good = (endpoints, refl, λ t. refl)
  add_endpoints-last P service_auth_type (cons v vs) endpoints ((o, e, _), good) =
      let here = made service_auth_type o in
      let (out, added, found) =
        add_endpoints-last P service_auth_type vs (set_key here.resource_type here endpoints)
          good in
      (
        out,
        rw e added,
        λ t. rw e (
            found t
            ∙ ap (or_else (last_for service_auth_type t vs)) (find_key-endpoint t here endpoints)
            ∙ sym (
                or_else_assoc (last_for service_auth_type t vs) (if_type t here)
                  (find_key t endpoints))),
      )

-- The constructor of a service client never throws for a service that its own constructor has made,
-- and the client has, for each type of resource, the last of the service's endpoints for it.
pub service_client-last :
    {N T : Type 0} (parsers : Parsers N T) (service : Fields N T)
    → IsService parsers service
    → (endpoints : ServiceClient) × (vs : Items N T) × (service_client service ≡ ok endpoints)
      × (get_field "resources" service ≡ array vs)
      × ((t : String)
          → get_resource_endpoint_client t endpoints
            ≡ last_for (text_field "authType" service) t vs)
unfolding service_client
service_client-last parsers service (_, (vs, e, good)) =
    let (out, added, found) = add_endpoints-last _ (text_field "authType" service) vs [] good in
    (
      out,
      vs,
      ap (endpoints_from (text_field "authType" service)) e ∙ added,
      e,
      λ t. found t ∙ or_else-none _,
    )
