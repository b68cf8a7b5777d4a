-- ===== src/Core/Models/Typed.antt =====
-- What the objects are like that the constructors make.
use mcma_libraries.Prelude.{
  ◌≡◌, refl, ap, ◌∙◌, subst, Bool, true, false, String, List, [], ◌∷◌, Result, ok, ◌>>=◌, inl, inr,
  bind-ok,
}
use mcma_libraries.Documents.{
  Value, undefined, null, boolean, number, text, date, array, object, Items, nil, cons, Fields,
}
use mcma_libraries.Core.Properties.{get_field, check_property}
use mcma_libraries.Core.Properties.Types.{
  Expected, a_url, an_array, a_string, name_of, Accepts, check_property_iff,
}
use mcma_libraries.Core.Models.{
  Parsers, service_object, custom_of, own_property, read_property, construct_items, map_property,
  check_all, resource_endpoint, service,
}

module _ {N T : Type 0} (parsers : Parsers N T) where
  -- A property with a type and whether it is required, for each check.
  abbrev pub tests : List (String × Expected × Bool) → List (String × String × Bool)
  tests [] = []
  tests ((name, e, required) ∷ ts) = (name, name_of e, required) ∷ tests ts

  abbrev pub AcceptsAll : Fields N T → List (String × Expected × Bool) → Type 0
  AcceptsAll o [] = Unit
  AcceptsAll o ((name, e, required) ∷ ts) =
      Accepts parsers.is_valid_url o name e required × AcceptsAll o ts

  check_all-AcceptsAll :
      (type : String) (o o' : Fields N T) (ts : List (String × Expected × Bool))
      → check_all parsers type o (tests ts) ≡ ok o'
      → (o ≡ o') × AcceptsAll o ts
  check_all-AcceptsAll type o o' [] h = (cc, tt)
  check_all-AcceptsAll type o o' ((name, e, required) ∷ ts) h =
      let (_, passed, rest) =
        bind-ok (check_property parsers.is_valid_url type o name (name_of e) required)
          (λ _. check_all parsers type o (tests ts)) o' h in
      let (same, later) = check_all-AcceptsAll type o o' ts rest in
      (same, ((check_property_iff parsers.is_valid_url type o name e required).0 passed, later))

abbrev pub endpoint_types : List (String × Expected × Bool)
endpoint_types =
    ("resourceType", a_string, true)
    ∷ ("httpEndpoint", a_url, true)
    ∷ ("authType", a_string, false)
    ∷ []

abbrev pub service_types : List (String × Expected × Bool)
service_types =
    ("name", a_string, true)
    ∷ ("resources", an_array, true)
    ∷ ("authType", a_string, false)
    ∷ ("jobType", a_string, false)
    ∷ ("jobProfileIds", an_array, false)
    ∷ []

module _ {N T : Type 0} where
  abbrev pub AllObjects : (Fields N T → Type 0) → Items N T → Type 0
  AllObjects P nil = Unit
  AllObjects P (cons v vs) = ((o : Fields N T) × (v ≡ object o) × P o) × AllObjects P vs

  construct_items-AllObjects :
      (P : Fields N T → Type 0) (f : Value N T → Result (Fields N T))
      → ((v : Value N T) (o : Fields N T) → f v ≡ ok o → P o)
      → (vs os : Items N T) → construct_items f vs ≡ ok os
      → AllObjects P os
  construct_items-AllObjects P f good nil nil h = tt
  construct_items-AllObjects P f good nil (cons w ws) h = cc
  construct_items-AllObjects P f good (cons v vs) os h =
      let (o, made, rest) =
        bind-ok (f v) (λ o. construct_items f vs >>= λ os'. ok (cons (object o) os')) os h in
      let (os', others, same) =
        bind-ok (construct_items f vs) (λ os'. ok (cons (object o) os')) os rest in
      let e : cons (object o) os' ≡ os = cc same in
      subst (AllObjects P) e
        ((o, refl, good v o made), construct_items-AllObjects P f good vs os' others)

  map_property-AllObjects :
      (P : Fields N T → Type 0) (f : Value N T → Result (Fields N T))
      → ((v : Value N T) (o : Fields N T) → f v ≡ ok o → P o)
      → (v : Value N T) (os : Items N T) → map_property f v ≡ ok (array os)
      → AllObjects P os
  unfolding map_property
  map_property-AllObjects P f good undefined os h = cc
  map_property-AllObjects P f good null os h = cc
  map_property-AllObjects P f good (boolean b) os h = cc
  map_property-AllObjects P f good (number n) os h = cc
  map_property-AllObjects P f good (text s) os h = cc
  map_property-AllObjects P f good (date t) os h = cc
  map_property-AllObjects P f good (object fs) os h = cc
  map_property-AllObjects P f good (array xs) os h =
      let (os', made, same) = bind-ok (construct_items f xs) (λ os'. ok (array os')) (array os) h in
      let e : os' ≡ os = cc same in
      subst (AllObjects P) e (construct_items-AllObjects P f good xs os' made)

module _ {N T : Type 0} (parsers : Parsers N T) where
  abbrev pub IsEndpoint : Fields N T → Type 0
  IsEndpoint o = AcceptsAll parsers o endpoint_types

  abbrev pub IsService : Fields N T → Type 0
  IsService o =
      AcceptsAll parsers o service_types
      × ((os : Items N T) × (get_field "resources" o ≡ array os) × AllObjects IsEndpoint os)

  resource_endpoint-IsEndpoint :
      (v : Value N T) (o : Fields N T) → resource_endpoint parsers v ≡ ok o → IsEndpoint o
  unfolding resource_endpoint
  resource_endpoint-IsEndpoint v o h =
      let (a, _, h₁) = bind-ok (read_property "resourceType" v) _ o h in
      let (b, _, h₂) = bind-ok (read_property "httpEndpoint" v) _ o h₁ in
      let (c, _, h₃) = bind-ok (read_property "authType" v) _ o h₂ in
      let (same, good) = check_all-AcceptsAll parsers "ResourceEndpoint" _ o endpoint_types h₃ in
      subst IsEndpoint same good

  made-IsService :
      (v custom name resources : Value N T) (o : Fields N T)
      → map_property (resource_endpoint parsers) (own_property "resources" v) ≡ ok resources
      → check_all parsers "Service"
          (service_object parsers v custom name resources)
          (tests parsers service_types)
        ≡ ok o
      → IsService o
  made-IsService v custom name resources o mapped checked =
      let (same, good) = check_all-AcceptsAll parsers "Service" _ o service_types checked in
      elim good.1.0 [
        | inl (_, optional) ↦ cc optional
        | inr (xs, e) ↦ subst IsService same (
          good,
          (
            xs,
            e,
            map_property-AllObjects IsEndpoint (resource_endpoint parsers)
                resource_endpoint-IsEndpoint (own_property "resources" v) xs (mapped ∙ ap ok e),
          ),
        )
      ]

  -- A service that the constructor makes has a text for a name, an array of endpoints, each with a
  -- text for the type of its resources and a valid address, and texts for the types of
  -- authentication and job and an array of job profiles, where it has these.
  pub service-IsService : (v : Value N T) (o : Fields N T) → service parsers v ≡ ok o → IsService o
  unfolding service
  service-IsService v o h =
      let (custom, _, h₁) = bind-ok (custom_of parsers.digits (own_property "custom" v)) _ o h in
      let (name, _, h₂) = bind-ok (read_property "name" v) _ o h₁ in
      let (resources, mapped, h₃) =
        bind-ok (map_property (resource_endpoint parsers) (own_property "resources" v)) _ o h₂ in
      made-IsService v custom name resources o mapped h₃
