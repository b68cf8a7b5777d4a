-- ===== src/DynamoDb/Table/Pages.antt =====
-- How a query goes on with the next page.
use mcma_libraries.Prelude.{
  ◌≡◌, refl, ap, ◌∙◌, false, String, Option, none, some, Result, ok, err, ◌>>=◌, bind-ok, is_empty,
}
use mcma_libraries.Queries.{Query}
use mcma_libraries.Documents.{Value, Fields}
use mcma_libraries.DynamoDb.Client.{
  TableDescription, DynamoDbTableOptions, DocClient, Texts, QueryInput,
}
use mcma_libraries.DynamoDb.Table.{
  key_from_base64_json, decoded, base64_json_from_key, index_of, make_input, query_input,
}

-- The key, if there is one, comes back from the text that it has in base 64, which is not empty.
abbrev pub ComesBack : {N T : Type 0} → Texts N T → Option (Fields N T) → Type 0
ComesBack texts none = Unit
ComesBack texts (some key) =
    (token : String)
    → texts.encode_key key ≡ ok token
    → (texts.decode_key token ≡ some key) × (is_empty token ≡ false)

module _ {N T S : Type 0} (texts : Texts N T) (client : DocClient N T S) (table : TableDescription)
    (options : DynamoDbTableOptions N T) where
  key_from-base64_json :
      (key : Option (Fields N T)) (token : Option String)
      → ComesBack texts key
      → base64_json_from_key texts client table options key ≡ ok token
      → key_from_base64_json texts client table options token ≡ ok key
  unfolding key_from_base64_json decoded base64_json_from_key
  key_from-base64_json none none back e = refl
  key_from-base64_json none (some token) back e = cc
  key_from-base64_json (some key) token back e =
      let (t, encoded, made) = bind-ok (texts.encode_key key) (λ t. ok (some t)) token e in
      let (decodes, full) = back t encoded in
      let same : token ≡ some t = cc in
      ap (key_from_base64_json texts client table options) same ∙ rw (full, decodes) refl

  -- Where a query sends a command, and the key at which a page ended has a token, from which it comes
  -- back, the same query with this token sends the same command from that key on, or from the
  -- beginning if there is no key.
  pub query_input-page :
      (query : Query (Value N T)) (input : QueryInput N T) (last : Option (Fields N T))
      (token : Option String)
      → ComesBack texts last
      → base64_json_from_key texts client table options last ≡ ok token
      → query_input texts client table options query ≡ ok input
      → query_input texts client table options (record query { page_start_token = token })
        ≡ ok (record input { exclusive_start_key = last })
  unfolding query_input make_input
  query_input-page query input last token back encoded e =
      let (index_name, indexed, rest) =
        bind-ok (index_of texts client table options query.sort_by)
          (λ i. key_from_base64_json texts client table options query.page_start_token >>= λ k.
            ok (make_input texts client table options query i k))
          input e in
      let (start_key, started, made) =
        bind-ok (key_from_base64_json texts client table options query.page_start_token)
          (λ k. ok (make_input texts client table options query index_name k)) input rest in
      rw (indexed, key_from-base64_json last token back encoded)
        (ap (λ out. ok (record (input_of out) { exclusive_start_key = last })) made)
    where
      input_of : Result (QueryInput N T) → QueryInput N T
      input_of (ok i) = i
      input_of (err m) = input
