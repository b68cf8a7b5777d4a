-- ===== src/Documents.antt =====
-- Values of the language as documents hold them, and `deserialize`, which
-- aws/dynamodb/lib/dynamo-db-table.ts and azure/cosmos-db/lib/cosmos-db-table.ts have in the same
-- words. The numbers and the times of valid dates are of types `N` and `T`.
pub mod RoundTrip
pub mod Ids
pub mod Map
use mcma_libraries.Prelude.{Bool, true, false, String, Option, none, some, if◌then◌else◌}
use mcma_libraries.Core.Dates.{is_valid_date_string}

mutual
  pub data Value (N T : Type 0) : Type 0 where
    undefined : Value N T
    null : Value N T
    boolean : Bool → Value N T
    number : N → Value N T
    text : String → Value N T
    date : Option T → Value N T
    array : Items N T → Value N T
    object : Fields N T → Value N T

  pub data Items (N T : Type 0) : Type 0 where
    nil : Items N T
    cons : Value N T → Items N T → Items N T

  pub data Fields (N T : Type 0) : Type 0 where
    end : Fields N T
    field : String → Value N T → Fields N T → Fields N T

-- `toISOString`, and the `Date` of a text.
pub record DateTexts (T : Type 0) : Type 0 where
  pub to_iso_string : T → String
  pub parse_date : String → Option T

module _ {N T : Type 0} (dates : DateTexts T) where
  -- The loop body of `serialize` in dynamo-db-table.ts, and `serialize` for arrays and objects. The
  -- call for null copies nothing, and the call for an invalid date copies no key.
  unfoldable mutual
    pub serialize_value : Value N T → Value N T
    serialize_value undefined = undefined
    serialize_value null = undefined
    serialize_value (boolean b) = boolean b
    serialize_value (number n) = number n
    serialize_value (text s) = text s
    serialize_value (date (some t)) = text (dates.to_iso_string t)
    serialize_value (date none) = object end
    serialize_value (array xs) = array (serialize_items xs)
    serialize_value (object fs) = object (serialize fs)

    pub serialize_items : Items N T → Items N T
    serialize_items nil = nil
    serialize_items (cons v vs) = cons (serialize_value v) (serialize_items vs)

    pub serialize : Fields N T → Fields N T
    serialize end = end
    serialize (field k v fs) = field k (serialize_value v) (serialize fs)

  unfoldable mutual
    pub deserialize_value : Value N T → Value N T
    deserialize_value undefined = undefined
    deserialize_value null = undefined
    deserialize_value (boolean b) = boolean b
    deserialize_value (number n) = number n
    deserialize_value (text s) =
        if is_valid_date_string s then date (dates.parse_date s) else text s
    deserialize_value (date t) = object end
    deserialize_value (array xs) = array (deserialize_items xs)
    deserialize_value (object fs) = object (deserialize fs)

    pub deserialize_items : Items N T → Items N T
    deserialize_items nil = nil
    deserialize_items (cons v vs) = cons (deserialize_value v) (deserialize_items vs)

    pub deserialize : Fields N T → Fields N T
    deserialize end = end
    deserialize (field k v fs) = field k (deserialize_value v) (deserialize fs)
