-- ===== src/Core/Models.antt =====
-- base/core/lib/model: constructors that copy the properties they are given and check them. What
-- they are given is any value, and what they make is an object of fields. The parsers of addresses
-- and dates are parameters. A field that is left out is undefined.
pub mod Typed
use mcma_libraries.Prelude.{
  ℕ, ◌+◌, Bool, true, false, String, Option, none, some, List, [], ◌∷◌, Result, ok, err, ◌>>=◌,
  if◌then◌else◌,
}
use Prim.Native.String.{◌++◌}
use mcma_libraries.Documents.{
  Value, undefined, null, boolean, number, text, date, array, object, Items, nil, cons, Fields, end,
  field,
}
use mcma_libraries.Core.Properties.{
  is_missing, is_array, get_field, ensure_valid_date_or_undefined, check_property,
}

pub record Parsers (N T : Type 0) : Type 0 where
  pub is_valid_url : String → Bool
  pub to_date : Value N T → Option T
  pub digits : ℕ → String

module _ {N T : Type 0} where
  -- What a value has under a name; a value that is no object has none of the names that are read.
  abbrev pub own_property : String → Value N T → Value N T
  own_property name v = elim v [ object fs ↦ get_field name fs | _ ↦ undefined ]

  -- `properties.name`
  unfoldable pub read_property : String → Value N T → Result (Value N T)
  read_property name v =
      if is_missing v
      then err ("Cannot read properties of undefined or null (reading '" ++ name ++ "')")
      else ok (own_property name v)

  abbrev pub construct_items : (Value N T → Result (Fields N T)) → Items N T → Result (Items N T)
  construct_items f nil = ok nil
  construct_items f (cons v vs) =
      f v >>= λ o. construct_items f vs >>= λ os. ok (cons (object o) os)

  -- `properties.name?.map(p => new ...)`
  unfoldable pub map_property : (Value N T → Result (Fields N T)) → Value N T → Result (Value N T)
  map_property f v = elim v [
    | undefined ↦ ok undefined
    | null ↦ ok undefined
    | array xs ↦ construct_items f xs >>= λ os. ok (array os)
    | _ ↦ err "map is not a function"
  ]

  abbrev pub indexed : (ℕ → String) → ℕ → Items N T → Fields N T
  indexed digits i nil = end
  indexed digits i (cons v vs) = field (digits i) v (indexed digits (i + 1) vs)

  -- `Object.assign({}, properties.custom)` where it has keys.
  unfoldable pub custom_of : (ℕ → String) → Value N T → Result (Value N T)
  custom_of digits v = elim v [
    | null ↦ err "Cannot convert undefined or null to object"
    | object (field k w fs) ↦ ok (object (field k w fs))
    | array (cons w ws) ↦ ok (object (indexed digits 0 (cons w ws)))
    | _ ↦ ok undefined
  ]

  abbrev pub copy_of_array : Value N T → Value N T
  copy_of_array v = if is_array v then v else undefined

  -- base/core/lib/model/mcma-object.ts, with the fields that the derived class adds.
  abbrev pub mcma_object : String → Fields N T → Fields N T
  mcma_object type fields = field "@type" (text type) fields

  -- The constructor of base/core/lib/model/mcma-resource.ts.
  abbrev pub mcma_resource : Parsers N T → String → Value N T → Value N T → Fields N T → Fields N T
  mcma_resource parsers type properties custom fields = mcma_object type (
      field "id" (own_property "id" properties) (
        field "dateCreated"
          (ensure_valid_date_or_undefined parsers.to_date (own_property "dateCreated" properties))
          (field "dateModified"
            (ensure_valid_date_or_undefined parsers.to_date
              (own_property "dateModified" properties))
            (field "custom" custom fields))))

module _ {N T : Type 0} (parsers : Parsers N T) where
  -- `checkProperty` for each name, type and requirement in turn.
  abbrev pub check_all : String → Fields N T → List (String × String × Bool) → Result (Fields N T)
  check_all type o [] = ok o
  check_all type o ((name, expected, required) ∷ checks) =
      check_property parsers.is_valid_url type o name expected required >>= λ _.
      check_all type o checks

  -- base/core/lib/model/resource-endpoint.ts
  unfoldable pub resource_endpoint : Value N T → Result (Fields N T)
  resource_endpoint properties = read_property "resourceType" properties >>= λ resource_type.
      read_property "httpEndpoint" properties >>= λ http_endpoint.
      read_property "authType" properties >>= λ auth_type.
      check_all "ResourceEndpoint"
        (mcma_object "ResourceEndpoint" (
          field "resourceType" resource_type
            (field "httpEndpoint" http_endpoint (field "authType" auth_type end))))
        (("resourceType", "string", true)
          ∷ ("httpEndpoint", "url", true)
          ∷ ("authType", "string", false)
          ∷ [])

  abbrev pub service_object : Value N T → Value N T → Value N T → Value N T → Fields N T
  service_object properties custom name resources =
      mcma_resource parsers "Service" properties custom (
        field "name" name (
          field "resources" resources (
            field "authType" (own_property "authType" properties) (
              field "jobType" (own_property "jobType" properties) (
                field "jobProfileIds" (copy_of_array (own_property "jobProfileIds" properties))
                  end)))))

  -- base/core/lib/model/service.ts
  unfoldable pub service : Value N T → Result (Fields N T)
  service properties = custom_of parsers.digits (own_property "custom" properties) >>= λ custom.
      read_property "name" properties >>= λ name.
      map_property resource_endpoint (own_property "resources" properties) >>= λ resources.
      check_all "Service" (service_object properties custom name resources) (
        ("name", "string", true)
        ∷ ("resources", "Array", true)
        ∷ ("authType", "string", false)
        ∷ ("jobType", "string", false)
        ∷ ("jobProfileIds", "Array", false)
        ∷ [])

  -- base/core/lib/model/notification.ts
  unfoldable pub notification : Value N T → Result (Fields N T)
  notification properties = read_property "source" properties >>= λ source.
      read_property "content" properties >>= λ content.
      check_all "Notification"
        (mcma_object "Notification" (field "source" source (field "content" content end)))
        (("source", "string", false) ∷ ("content", "object", true) ∷ [])

  -- base/core/lib/model/notification-endpoint.ts
  unfoldable pub notification_endpoint : Value N T → Result (Fields N T)
  notification_endpoint properties = read_property "httpEndpoint" properties >>= λ http_endpoint.
      check_all "NotificationEndpoint"
        (mcma_object "NotificationEndpoint" (field "httpEndpoint" http_endpoint end))
        (("httpEndpoint", "url", true) ∷ [])

  -- base/core/lib/model/job-parameter.ts
  unfoldable pub job_parameter : Value N T → Result (Fields N T)
  job_parameter properties = read_property "parameterName" properties >>= λ parameter_name.
      read_property "parameterType" properties >>= λ parameter_type.
      check_all "JobParameter"
        (mcma_object "JobParameter"
          (field "parameterName" parameter_name (field "parameterType" parameter_type end)))
        (("parameterName", "string", false) ∷ ("parameterType", "string", false) ∷ [])

  -- base/core/lib/model/job-profile.ts
  unfoldable pub job_profile : Value N T → Result (Fields N T)
  job_profile properties = custom_of parsers.digits (own_property "custom" properties) >>= λ custom.
      read_property "name" properties >>= λ name.
      map_property job_parameter (own_property "inputParameters" properties) >>= λ inputs.
      map_property job_parameter (own_property "optionalInputParameters" properties)
      >>= λ optionals.
          map_property job_parameter (own_property "outputParameters" properties) >>= λ outputs.
          check_all "JobProfile"
            (mcma_resource parsers "JobProfile" properties custom (
              field "name" name (
                field "inputParameters" inputs (
                  field "optionalInputParameters" optionals
                    (field "outputParameters" outputs end)))))
            (("name", "string", true)
              ∷ ("inputParameters", "Array", false)
              ∷ ("outputParameters", "Array", false)
              ∷ ("optionalInputParameters", "Array", false)
              ∷ [])
