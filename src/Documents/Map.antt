-- ===== src/Documents/Map.antt =====
-- What base/data/lib/document-database/document-database-table.ts promises of get, put and delete.
use mcma_libraries.Prelude.{◌≡◌, ◌≢◌, ◌⊎◌, Option, none, some, ◌∷◌, Result, ok}
use mcma_libraries.Documents.Ids.{Codes, slash}

-- What a map from identifiers that begin with a slash to documents promises, where `view s id` is
-- what it holds. Any call may throw. What does not throw has its effect, and what throws has left
-- the document under its identifier as it was, or has had its effect.
pub record IsMap {D S : Type 0} (IsGood : D → Type 0) (view : S → Codes → Option D)
    (read : Codes → S → Result (Option D) × S) (write : Codes → D → S → Result D × S)
    (remove : Codes → S → Result (Unit {0}) × S) : Type 0 where
  pub read_answer :
      (id : Codes) (s : S) (found : Option D) → (read id s).0 ≡ ok found → found ≡ view s id
  pub read_keeps : (id other : Codes) (s : S) → view (read id s).1 other ≡ view s other
  pub write_answer :
      (id : Codes) (d answered : D) (s : S)
      → IsGood d
      → (write id d s).0 ≡ ok answered
      → (answered ≡ d) × (view (write id d s).1 id ≡ some d)
  pub write_effect :
      (id : Codes) (d : D) (s : S)
      → IsGood d
      → (view (write id d s).1 id ≡ view s id) ⊎ (view (write id d s).1 id ≡ some d)
  pub write_keeps :
      (id other : Codes) (d : D) (s : S)
      → ◌≢◌ {A = Codes} (slash ∷ other) (slash ∷ id)
      → IsGood d
      → view (write (slash ∷ id) d s).1 (slash ∷ other) ≡ view s (slash ∷ other)
  pub remove_answer :
      (id : Codes) (s : S) (x : Unit {0}) → (remove id s).0 ≡ ok x → view (remove id s).1 id ≡ none
  pub remove_effect :
      (id : Codes) (s : S)
      → (view (remove id s).1 id ≡ view s id) ⊎ (view (remove id s).1 id ≡ none)
  pub remove_keeps :
      (id other : Codes) (s : S)
      → ◌≢◌ {A = Codes} (slash ∷ other) (slash ∷ id)
      → view (remove (slash ∷ id) s).1 (slash ∷ other) ≡ view s (slash ∷ other)
