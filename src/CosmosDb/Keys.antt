-- ===== src/CosmosDb/Keys.antt =====
-- azure/cosmos-db/lib/parse-partition-key-and-guid.ts
use mcma_libraries.Prelude.{
  ℕ, zero, suc, ◌≡◌, sym, ap, ◌∙◌, Option, none, some, ◌∷◌, ◌++◌, take, drop,
}
use mcma_libraries.Documents.Ids.{
  Codes, slash, last_slash_index, Split, last_slash_index-Split, last_slash_index-slash,
}

-- The partition key, which may be null, and the rest of the identifier.
abbrev partition_key_and_guid_at : Codes → Option ℕ → Option Codes × Codes
partition_key_and_guid_at id none = (none, id)
partition_key_and_guid_at id (some zero) = (none, drop 1 id)
partition_key_and_guid_at id (some (suc n)) = (some (take (suc n) id), drop (suc (suc n)) id)

unfoldable pub parse_partition_key_and_guid : Codes → Option Codes × Codes
parse_partition_key_and_guid id = partition_key_and_guid_at id (last_slash_index id)

-- The identifier that has a partition key and a rest.
abbrev id_with : Option Codes × Codes → Codes
id_with (none, guid) = slash ∷ guid
id_with (some partition_key, guid) = partition_key ++ (slash ∷ guid)

id_with-parts :
    (id : Codes) (i : ℕ) → Split id i → id_with (partition_key_and_guid_at id (some i)) ≡ id
id_with-parts id zero split = sym split.parts
id_with-parts id (suc i) split = sym split.parts

id_with-parse : (s : Codes) → id_with (parse_partition_key_and_guid (slash ∷ s)) ≡ slash ∷ s
unfolding parse_partition_key_and_guid
id_with-parse s =
    let (i, there) = last_slash_index-slash s in
    ap (λ o. id_with (partition_key_and_guid_at (slash ∷ s) o)) there
    ∙ id_with-parts (slash ∷ s) i (last_slash_index-Split (slash ∷ s) i there)

pub parse_partition_key_and_guid-IsInjective :
    (s t : Codes)
    → parse_partition_key_and_guid (slash ∷ s) ≡ parse_partition_key_and_guid (slash ∷ t)
    → ◌≡◌ {A = Codes} (slash ∷ s) (slash ∷ t)
parse_partition_key_and_guid-IsInjective s t e =
    sym (id_with-parse s) ∙ ap id_with e ∙ id_with-parse t
