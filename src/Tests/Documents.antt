-- ===== src/Tests/Documents.antt =====
-- Documents, and a table of DynamoDB in memory that meets what is assumed of the service.
use mcma_libraries.Prelude.{
  ℕ, zero, suc, ◌≡◌, ◌≢◌, refl, true, false, String, Option, none, some, [], ◌∷◌, ok, err, inl, inr,
  ◌==◌, eq_iff, Bool-cases, Result, Bool, ◌⊎◌,
}
use native.Mathlib.Decide.{ℕ_discrete}
use mathlib.Core.Logic.{ite, if_pos, if_neg}
use mcma_libraries.Core.Dates.{is_valid_date_string}
use mcma_libraries.Queries.{Query}
use mcma_libraries.Documents.{
  Value, null, text, date, Fields, end, field, DateTexts, serialize, deserialize,
}
use mcma_libraries.Documents.RoundTrip.{DateLaws, HasStorable, HasPlain, deserialize-serialize}
use mcma_libraries.Documents.Ids.{Codes, slash, last_slash_index}
use mcma_libraries.DynamoDb.Keys.{parse_partition_and_sort_keys}
use mcma_libraries.DynamoDb.Client.{
  TableDescription, TableKey, Item, DynamoDbTableOptions, QueryInput, DocClient, Texts,
}
use mcma_libraries.DynamoDb.Table.{
  get, put, delete, query_input, base64_json_from_key, key_from_base64_json,
}
use mcma_libraries.Documents.Map.{IsMap}
use mcma_libraries.DynamoDb.Table.Map.{ClientLaws, IsStored, document, table-IsMap}
use mcma_libraries.DynamoDb.Table.Pages.{ComesBack, query_input-page}

-- One time, the first of January 2020.
abbrev Time : Type 0
Time = Unit {0}

abbrev dates : DateTexts Time
dates = record { to_iso_string = λ t. "2020-01-01T00:00:00.000Z"; parse_date = λ s. some tt }

abbrev IsCommon : Time → Type 0
IsCommon t = Unit {0}

new_year : is_valid_date_string "2020-01-01T00:00:00.000Z" ≡ true
unfolding is_valid_date_string
new_year = refl

name_is_no_date : is_valid_date_string "job" ≡ false
unfolding is_valid_date_string
name_is_no_date = refl

dates-DateLaws : DateLaws dates IsCommon
dates-DateLaws = record { iso_valid = λ t c. new_year; iso_parsed = λ t c. refl }

abbrev job : Fields ℕ Time
job = field "name" (text "job") (field "dateCreated" (date (some tt)) end)

job_storable : HasStorable IsCommon job
job_storable = (name_is_no_date, (tt, tt))

deserialize-serialize_example :
    (deserialize dates (serialize dates job) ≡ job) × HasPlain (serialize dates job)
deserialize-serialize_example = deserialize-serialize dates-DateLaws job job_storable

abbrev nothing : Fields ℕ Time
nothing = field "name" null end

abbrev dated : Fields ℕ Time
dated = field "name" (text "2020-01-01T00:00:00.000Z") end

-- A property that is null comes back undefined.
null_is_lost : deserialize dates (serialize dates nothing) ≡ field "name" Value.undefined end
unfolding serialize deserialize
null_is_lost = refl

-- A text that reads as a date comes back as a date.
text_turns_date : deserialize dates (serialize dates dated) ≡ field "name" (date (some tt)) end
unfolding serialize deserialize is_valid_date_string
text_turns_date = refl

-- Two identifiers that do not begin with a slash may have the same keys.
same_keys :
    parse_partition_and_sort_keys (b'x' ∷ [])
    ≡ parse_partition_and_sort_keys (b'x' ∷ slash ∷ b'x' ∷ [])
unfolding parse_partition_and_sort_keys last_slash_index
same_keys = refl

abbrev digits : ℕ → String
digits zero = "0"
digits (suc n) = "1"

abbrev Store : Type 0
Store = TableKey → Option (Item ℕ Time)

is_id : (s t : Codes) → Dec (s ≡ t)
is_id = hlevel (ℕ_discrete)

is_name : (s t : String) → Dec (s ≡ t)
is_name s t = elim (Bool-cases (s == t)) [
  | inl same ↦ yes ((eq_iff s t).0 same)
  | inr apart ↦ no (λ e. cc (apart, (eq_iff s t).1 e))
]

is_key : (k l : TableKey) → Dec (k ≡ l)
is_key = hlevel (is_name, ℕ_discrete)

abbrev set_item : TableKey → Option (Item ℕ Time) → Store → Store
set_item key item s k = ite (is_key k key) item (s k)

set_item_same :
    (key : TableKey) (item : Option (Item ℕ Time)) (s : Store) → set_item key item s key ≡ item
set_item_same key item s = if_pos (is_key key key) refl item (s key)

set_item_other :
    (key other : TableKey) (item : Option (Item ℕ Time)) (s : Store)
    → other ≢ key
    → set_item key item s other ≡ s other
set_item_other key other item s apart = if_neg (is_key other key) apart item (s other)

-- Every other command is refused, as the first part of the state tells.
abbrev States : Type 0
States = Bool × Store

abbrev get_item : TableKey → States → Result (Option (Item ℕ Time)) × States
get_item key (true, s) = (err "ThrottlingException", (false, s))
get_item key (false, s) = (ok (s key), (true, s))

abbrev put_item : Item ℕ Time → States → Result (Unit {0}) × States
put_item item (true, s) = (err "ThrottlingException", (false, s))
put_item item (false, s) = (ok tt, (true, set_item item.keys (some item) s))

abbrev delete_item : TableKey → States → Result (Unit {0}) × States
delete_item key (true, s) = (err "ThrottlingException", (false, s))
delete_item key (false, s) = (ok tt, (true, set_item key none s))

abbrev client : DocClient ℕ Time States
client = record {
  get_item = λ name key consistent s. get_item key s;
  put_item = λ name item s. put_item item s;
  delete_item = λ name key s. delete_item key s;
  query_items = λ input s. (err "not in this table", s);
}

abbrev stored : States → TableKey → Option (Item ℕ Time)
stored s key = s.1 key

get_answer :
    (key : TableKey) (s : States) (found : Option (Item ℕ Time))
    → (get_item key s).0 ≡ ok found
    → found ≡ stored s key
get_answer key (true, s) found e = cc
get_answer key (false, s) found e = cc

get_keeps : (key other : TableKey) (s : States) → stored (get_item key s).1 other ≡ stored s other
get_keeps key other (true, s) = refl
get_keeps key other (false, s) = refl

put_answer :
    (item : Item ℕ Time) (s : States) (x : Unit {0})
    → (put_item item s).0 ≡ ok x
    → IsStored item (stored (put_item item s).1 item.keys)
put_answer item (true, s) x e = cc
put_answer item (false, s) x e = (item, set_item_same item.keys (some item) s, refl)

put_effect :
    (item : Item ℕ Time) (s : States)
    → (stored (put_item item s).1 item.keys ≡ stored s item.keys)
      ⊎ IsStored item (stored (put_item item s).1 item.keys)
put_effect item (true, s) = inl refl
put_effect item (false, s) = inr (item, set_item_same item.keys (some item) s, refl)

put_keeps :
    (item : Item ℕ Time) (other : TableKey) (s : States)
    → other ≢ item.keys
    → stored (put_item item s).1 other ≡ stored s other
put_keeps item other (true, s) apart = refl
put_keeps item other (false, s) apart = set_item_other item.keys other (some item) s apart

delete_answer :
    (key : TableKey) (s : States) (x : Unit {0})
    → (delete_item key s).0 ≡ ok x
    → stored (delete_item key s).1 key ≡ none
delete_answer key (true, s) x e = cc
delete_answer key (false, s) x e = set_item_same key none s

delete_effect :
    (key : TableKey) (s : States)
    → (stored (delete_item key s).1 key ≡ stored s key) ⊎ (stored (delete_item key s).1 key ≡ none)
delete_effect key (true, s) = inl refl
delete_effect key (false, s) = inr (set_item_same key none s)

delete_keeps :
    (key other : TableKey) (s : States)
    → other ≢ key
    → stored (delete_item key s).1 other ≡ stored s other
delete_keeps key other (true, s) apart = refl
delete_keeps key other (false, s) apart = set_item_other key other none s apart

client-ClientLaws : ClientLaws client "table" stored
client-ClientLaws = record {
  get_answer = get_answer;
  get_keeps = get_keeps;
  put_answer = λ item s x plain. put_answer item s x;
  put_effect = λ item s plain. put_effect item s;
  put_keeps = put_keeps;
  delete_answer = delete_answer;
  delete_effect = delete_effect;
  delete_keeps = delete_keeps;
}

-- The text of a key that is one text under pk.
abbrev encode : Fields ℕ Time → Result String
encode (field name (text s) end) = ok s
encode _ = err "no key"

abbrev last_key : Fields ℕ Time
last_key = field "pk" (text "/jobs") end

abbrev texts : Texts ℕ Time
texts = record {
  dates = dates;
  digits = digits;
  lower_case = λ s. s;
  inherited_text = λ name. none;
  encode_key = encode;
  decode_key = λ s. some (field "pk" (text s) end);
}

last_key-ComesBack : ComesBack texts (some last_key)
last_key-ComesBack token e = let same : token ≡ "/jobs" = cc in rw same (refl, refl)

abbrev description : TableDescription
description = record {
  table_name = "table";
  partition = "pk";
  sort = some "sk";
  local_secondary_indexes = [];
}

abbrev options : DynamoDbTableOptions ℕ Time
options = record {
  consistent_get = some true;
  consistent_query = none;
  top_level_attribute_mappings = [];
}

table-IsMap_example :
    IsMap
      (HasStorable IsCommon)
      (document texts client description options stored)
      (get texts client description options)
      (put texts client description options)
      (delete texts client description options)
table-IsMap_example = table-IsMap texts description options client-ClientLaws dates-DateLaws refl

abbrev all_jobs : Query (Value ℕ Time)
all_jobs = record {
  path = "/jobs";
  filter_expression = none;
  page_size = none;
  page_start_token = none;
  sort_by = none;
  sort_order = none;
}

abbrev all_jobs_input : QueryInput ℕ Time
all_jobs_input = record {
  table_name = "table";
  key_condition_expression = "#partitionKey = :partitionKey";
  filter_expression = none;
  expression_attribute_names = ("#partitionKey", "pk") ∷ [];
  expression_attribute_values = (":partitionKey", text "/jobs") ∷ [];
  index_name = none;
  scan_index_forward = false;
  consistent_read = none;
  limit = none;
  exclusive_start_key = none;
}

all_jobs_sent : query_input texts client description options all_jobs ≡ ok all_jobs_input
unfolding query_input key_from_base64_json
all_jobs_sent = refl

key_encoded :
    base64_json_from_key texts client description options (some last_key) ≡ ok (some "/jobs")
unfolding base64_json_from_key
key_encoded = refl

query_input-page_example :
    query_input texts client description options
      (record all_jobs { page_start_token = some "/jobs" })
    ≡ ok (record all_jobs_input { exclusive_start_key = some last_key })
query_input-page_example =
    query_input-page texts client description options all_jobs all_jobs_input (some last_key)
      (some "/jobs") last_key-ComesBack key_encoded all_jobs_sent
