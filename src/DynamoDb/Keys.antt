-- ===== src/DynamoDb/Keys.antt =====
-- aws/dynamodb/lib/dynamo-db-table.ts: the keys of a document.
use mcma_libraries.Prelude.{
  ℕ, zero, suc, ◌≡◌, refl, sym, subst, ◌∙◌, Option, none, some, ◌∷◌, ◌++◌, take, drop,
}
use mcma_libraries.Documents.Ids.{Codes, slash, last_slash_index, last_slash_index-Split, no_slash}

abbrev keys_at : Codes → Option ℕ → Codes × Codes
keys_at id none = (id, id)
keys_at id (some zero) = (id, id)
keys_at id (some (suc n)) = (take (suc n) id, drop (suc (suc n)) id)

-- `parsePartitionAndSortKeys`
unfoldable pub parse_partition_and_sort_keys : Codes → Codes × Codes
parse_partition_and_sort_keys id = keys_at id (last_slash_index id)

data Form (id partition sort : Codes) : Type 0 where
  whole : partition ≡ id → sort ≡ id → Form id partition sort
  split : id ≡ partition ++ (slash ∷ sort) → last_slash_index sort ≡ none → Form id partition sort

keys_at-Form :
    (id : Codes) (i : Option ℕ)
    → last_slash_index id ≡ i
    → Form id (keys_at id i).0 (keys_at id i).1
keys_at-Form id none e = whole refl refl
keys_at-Form id (some zero) e = whole refl refl
keys_at-Form id (some (suc n)) e =
    let s = last_slash_index-Split id (suc n) e in split s.parts s.last

Form-eq :
    (s t p q : Codes)
    → Form (slash ∷ s) p q
    → Form (slash ∷ t) p q
    → ◌≡◌ {A = Codes} (slash ∷ s) (slash ∷ t)
Form-eq s t p q (whole e f) (whole e' f') = sym e ∙ e'
Form-eq s t p q (split e f) (split e' f') = e ∙ sym e'
Form-eq s t p q (whole e f) (split e' f') = elim (no_slash q s f f') [ ]
Form-eq s t p q (split e f) (whole e' f') = elim (no_slash q t f' f) [ ]

-- Two identifiers that begin with a slash and have the same partition and sort keys are the same.
pub parse_partition_and_sort_keys-IsInjective :
    (s t : Codes)
    → parse_partition_and_sort_keys (slash ∷ s) ≡ parse_partition_and_sort_keys (slash ∷ t)
    → ◌≡◌ {A = Codes} (slash ∷ s) (slash ∷ t)
unfolding parse_partition_and_sort_keys
parse_partition_and_sort_keys-IsInjective s t e =
    Form-eq s t _ _ (keys_at-Form (slash ∷ s) _ refl)
      (subst (λ k. Form (slash ∷ t) k.0 k.1) (sym e) (keys_at-Form (slash ∷ t) _ refl))
