-- ===== src/Core/Properties.antt =====
-- base/core/lib/utils.ts: `checkProperty` and `ensureValidDateOrUndefined`, over the values of
-- documents. The parsers of addresses and dates are parameters.
pub mod Types
use mcma_libraries.Prelude.{
  ◌≡◌, refl, ◌↔◌, Bool, true, false, String, Option, none, some, Result, ok, err, ◌==◌, eq_iff,
  Bool-cases, if◌then◌else◌, inl, inr, not, ap, sym, ◌∙◌, bind-ok, ◌>>=◌, ◌≢◌, ◌||◌, ◌&&◌, arith,
}
use Prim.Native.String.{◌++◌}
use mcma_libraries.Documents.{
  Value, undefined, null, boolean, number, text, date, array, object, Fields, end, field,
}

abbrev pub required_message : String → String → String → String
required_message type name what =
    "Resource of type '" ++ type ++ "' requires property '" ++ name ++ "' to " ++ what

abbrev pub unless : Bool → String → Result (Unit {0})
unless true message = ok tt
unless false message = err message

module _ {N T : Type 0} where
  -- `typeof`
  abbrev pub type_of : Value N T → String
  type_of undefined = "undefined"
  type_of null = "object"
  type_of (boolean b) = "boolean"
  type_of (number n) = "number"
  type_of (text s) = "string"
  type_of (date t) = "object"
  type_of (array xs) = "object"
  type_of (object fs) = "object"

  abbrev pub is_array : Value N T → Bool
  is_array v = elim v [ array xs ↦ true | _ ↦ false ]

  abbrev pub is_missing : Value N T → Bool
  is_missing v = elim v [ undefined ↦ true | null ↦ true | _ ↦ false ]

  abbrev pub get_field : String → Fields N T → Value N T
  get_field name end = undefined
  get_field name (field k v fs) = let rest = get_field name fs in if k == name then v else rest

  abbrev pub is_url : (String → Bool) → Value N T → Bool
  is_url is_valid_url v = elim v [ text s ↦ is_valid_url s | _ ↦ false ]

  abbrev pub when_date : Option T → Value N T
  when_date none = undefined
  when_date (some t) = date (some t)

  -- `ensureValidDateOrUndefined`, where `to_date` is the constructor of `Date`.
  unfoldable pub ensure_valid_date_or_undefined : (Value N T → Option T) → Value N T → Value N T
  ensure_valid_date_or_undefined to_date v =
      if is_missing v then undefined else when_date (to_date v)

  -- The tests of a value that is not missing.
  unfoldable pub check_type :
      (String → Bool) → String → String → String → Value N T → Result (Unit {0})
  check_type is_valid_url type name expected v =
      if expected == "url"
      then unless (is_url is_valid_url v) (required_message type name "have a valid URL")
      else if expected == "Array"
      then unless (is_array v) (required_message type name "have type Array")
      else if expected == "object"
      then unless (type_of v == "object" && not (is_array v))
          (required_message type name "have type object")
      else unless (expected == type_of v) (required_message type name ("have type " ++ expected))

  -- `type` is what the object has under "@type".
  unfoldable pub check_property :
      (String → Bool) → String → Fields N T → String → String → Bool → Result (Unit {0})
  check_property is_valid_url type o name expected required =
      if is_missing (get_field name o)
      then (if required then err (required_message type name "be defined") else ok tt)
      else check_type is_valid_url type name expected (get_field name o)
