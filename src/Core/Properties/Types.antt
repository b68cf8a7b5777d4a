-- ===== src/Core/Properties/Types.antt =====
-- What the values are like that `checkProperty` lets pass.
use mcma_libraries.Prelude.{
  ◌≡◌, refl, ◌↔◌, Bool, true, false, String, Option, Result, ok, err, Bool-cases, if◌then◌else◌,
  inl, inr, ◌⊎◌, ap,
}
use mcma_libraries.Documents.{
  Value, Items, undefined, null, boolean, number, text, date, array, object, Fields,
}
use mcma_libraries.Core.Properties.{
  is_missing, get_field, required_message, unless, check_type, check_property,
}

-- The types that the constructors ask for.
pub data Expected : Type 0 where
  a_url : Expected
  an_array : Expected
  an_object : Expected
  a_string : Expected
  a_number : Expected
  a_boolean : Expected

abbrev pub name_of : Expected → String
name_of a_url = "url"
name_of an_array = "Array"
name_of an_object = "object"
name_of a_string = "string"
name_of a_number = "number"
name_of a_boolean = "boolean"

passed_tests :
    (missing required : Bool) (message : String) (r : Result (Unit {0}))
    → (if missing then (if required then err message else ok tt) else r) ≡ ok tt
    → ((missing ≡ true) × (required ≡ false)) ⊎ ((missing ≡ false) × (r ≡ ok tt))
passed_tests true true message r h = cc
passed_tests true false message r h = inl (refl, refl)
passed_tests false required message r h = inr (refl, h)

module _ {N T : Type 0} (is_valid_url : String → Bool) where
  -- What a value of a type is.
  abbrev pub Fits : Expected → Value N T → Type 0
  Fits a_url v = (s : String) × (v ≡ text s) × (is_valid_url s ≡ true)
  Fits an_array v = (xs : Items N T) × (v ≡ array xs)
  Fits an_object v = ((fs : Fields N T) × (v ≡ object fs)) ⊎ ((t : Option T) × (v ≡ date t))
  Fits a_string v = (s : String) × (v ≡ text s)
  Fits a_number v = (n : N) × (v ≡ number n)
  Fits a_boolean v = (b : Bool) × (v ≡ boolean b)

  check_url-Fits :
      (type name : String) (v : Value N T)
      → is_missing v ≡ false
      → check_type is_valid_url type name (name_of a_url) v ≡ ok tt
      → Fits a_url v
  unfolding check_type
  check_url-Fits type name undefined m h = cc
  check_url-Fits type name null m h = cc
  check_url-Fits type name (boolean b) m h = cc
  check_url-Fits type name (number n) m h = cc
  check_url-Fits type name (text s) m h = elim (Bool-cases (is_valid_url s)) [
    | inl good ↦ (s, refl, good)
    | inr bad ↦ cc (h, ap (λ b. unless b (required_message type name "have a valid URL")) bad)
  ]
  check_url-Fits type name (date t) m h = cc
  check_url-Fits type name (array xs) m h = cc
  check_url-Fits type name (object fs) m h = cc

  check_array-Fits :
      (type name : String) (v : Value N T)
      → is_missing v ≡ false
      → check_type is_valid_url type name (name_of an_array) v ≡ ok tt
      → Fits an_array v
  unfolding check_type
  check_array-Fits type name undefined m h = cc
  check_array-Fits type name null m h = cc
  check_array-Fits type name (boolean b) m h = cc
  check_array-Fits type name (number n) m h = cc
  check_array-Fits type name (text s) m h = cc
  check_array-Fits type name (date t) m h = cc
  check_array-Fits type name (array xs) m h = (xs, refl)
  check_array-Fits type name (object fs) m h = cc

  check_object-Fits :
      (type name : String) (v : Value N T)
      → is_missing v ≡ false
      → check_type is_valid_url type name (name_of an_object) v ≡ ok tt
      → Fits an_object v
  unfolding check_type
  check_object-Fits type name undefined m h = cc
  check_object-Fits type name null m h = cc
  check_object-Fits type name (boolean b) m h = cc
  check_object-Fits type name (number n) m h = cc
  check_object-Fits type name (text s) m h = cc
  check_object-Fits type name (date t) m h = inr (t, refl)
  check_object-Fits type name (array xs) m h = cc
  check_object-Fits type name (object fs) m h = inl (fs, refl)

  check_string-Fits :
      (type name : String) (v : Value N T)
      → is_missing v ≡ false
      → check_type is_valid_url type name (name_of a_string) v ≡ ok tt
      → Fits a_string v
  unfolding check_type
  check_string-Fits type name undefined m h = cc
  check_string-Fits type name null m h = cc
  check_string-Fits type name (boolean b) m h = cc
  check_string-Fits type name (number n) m h = cc
  check_string-Fits type name (text s) m h = (s, refl)
  check_string-Fits type name (date t) m h = cc
  check_string-Fits type name (array xs) m h = cc
  check_string-Fits type name (object fs) m h = cc

  check_number-Fits :
      (type name : String) (v : Value N T)
      → is_missing v ≡ false
      → check_type is_valid_url type name (name_of a_number) v ≡ ok tt
      → Fits a_number v
  unfolding check_type
  check_number-Fits type name undefined m h = cc
  check_number-Fits type name null m h = cc
  check_number-Fits type name (boolean b) m h = cc
  check_number-Fits type name (number n) m h = (n, refl)
  check_number-Fits type name (text s) m h = cc
  check_number-Fits type name (date t) m h = cc
  check_number-Fits type name (array xs) m h = cc
  check_number-Fits type name (object fs) m h = cc

  check_boolean-Fits :
      (type name : String) (v : Value N T)
      → is_missing v ≡ false
      → check_type is_valid_url type name (name_of a_boolean) v ≡ ok tt
      → Fits a_boolean v
  unfolding check_type
  check_boolean-Fits type name undefined m h = cc
  check_boolean-Fits type name null m h = cc
  check_boolean-Fits type name (boolean b) m h = (b, refl)
  check_boolean-Fits type name (number n) m h = cc
  check_boolean-Fits type name (text s) m h = cc
  check_boolean-Fits type name (date t) m h = cc
  check_boolean-Fits type name (array xs) m h = cc
  check_boolean-Fits type name (object fs) m h = cc

  check_type-Fits :
      (type name : String) (e : Expected) (v : Value N T)
      → is_missing v ≡ false
      → check_type is_valid_url type name (name_of e) v ≡ ok tt
      → Fits e v
  check_type-Fits type name a_url = check_url-Fits type name
  check_type-Fits type name an_array = check_array-Fits type name
  check_type-Fits type name an_object = check_object-Fits type name
  check_type-Fits type name a_string = check_string-Fits type name
  check_type-Fits type name a_number = check_number-Fits type name
  check_type-Fits type name a_boolean = check_boolean-Fits type name

  Fits-check_type :
      (type name : String) (e : Expected) (v : Value N T)
      → Fits e v
      → (is_missing v ≡ false) × (check_type is_valid_url type name (name_of e) v ≡ ok tt)
  unfolding check_type
  Fits-check_type type name a_url v (s, e, good) = rw (e, good) (refl, refl)
  Fits-check_type type name an_array v (xs, e) = rw e (refl, refl)
  Fits-check_type type name an_object v (inl (fs, e)) = rw e (refl, refl)
  Fits-check_type type name an_object v (inr (t, e)) = rw e (refl, refl)
  Fits-check_type type name a_string v (s, e) = rw e (refl, refl)
  Fits-check_type type name a_number v (n, e) = rw e (refl, refl)
  Fits-check_type type name a_boolean v (b, e) = rw e (refl, refl)

  -- What `checkProperty` accepts: a property that is neither there nor required, or one that is what
  -- the expected type says.
  abbrev pub Accepts : Fields N T → String → Expected → Bool → Type 0
  Accepts o name e required =
      ((is_missing (get_field name o) ≡ true) × (required ≡ false)) ⊎ Fits e (get_field name o)

  check_property-Accepts :
      (type : String) (o : Fields N T) (name : String) (e : Expected) (required : Bool)
      → check_property is_valid_url type o name (name_of e) required ≡ ok tt
      → Accepts o name e required
  unfolding check_property
  check_property-Accepts type o name e required h =
      elim (passed_tests (is_missing (get_field name o)) required _ _ h) [
        | inl absent ↦ inl absent
        | inr (there, passed) ↦ inr (check_type-Fits type name e (get_field name o) there passed)
      ]

  Accepts-check_property :
      (type : String) (o : Fields N T) (name : String) (e : Expected) (required : Bool)
      → Accepts o name e required
      → check_property is_valid_url type o name (name_of e) required ≡ ok tt
  unfolding check_property
  Accepts-check_property type o name e required (inl (missing, optional)) =
      rw (missing, optional) refl
  Accepts-check_property type o name e required (inr fits) =
      let (there, passed) = Fits-check_type type name e (get_field name o) fits in
      rw (there, passed) refl

  -- `checkProperty`, asked for one of the six types, passes just where the property is neither there
  -- nor required, or is a value of the type: a text with a valid address, an array, an object or a
  -- date, a text, a number or a truth value.
  pub check_property_iff :
      (type : String) (o : Fields N T) (name : String) (e : Expected) (required : Bool)
      → (check_property is_valid_url type o name (name_of e) required ≡ ok tt)
        ↔ Accepts o name e required
  check_property_iff type o name e required =
      (check_property-Accepts type o name e required, Accepts-check_property type o name e required)
