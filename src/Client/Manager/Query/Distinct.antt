-- ===== src/Client/Manager/Query/Distinct.antt =====
-- Which endpoints a query asks.
use mcma_libraries.Prelude.{
  ◌≡◌, refl, ap, ◌∙◌, false, String, Option, none, some, List, [], ◌∷◌, ◌++◌, Result, ok, err,
  Action, follow, any_equal, is_nil, Bool-cases, inl, inr, if◌then◌else◌, find_key,
}
use mcma_libraries.Documents.{Items, nil, cons, Fields}
use mcma_libraries.Client.Services.{EndpointClient, ServiceClient, get_resource_endpoint_client}
use mcma_libraries.Client.Manager.{Setting, Manager, ready}
use mcma_libraries.Client.Manager.Query.{
  append_items, params_of, Asked, failed_to_query, ask, asked_with, ask_once, ask_found, ask_all,
  outcome, nothing_asked, query,
}

abbrev pub found : Option EndpointClient → List EndpointClient
found none = []
found (some e) = e ∷ []

-- The endpoints for a type, one for each service client that has one.
abbrev pub endpoints_for : String → List ServiceClient → List EndpointClient
endpoints_for resource_type [] = []
endpoints_for resource_type (c ∷ cs) =
    found (get_resource_endpoint_client resource_type c) ++ endpoints_for resource_type cs

-- The endpoints without those whose address was seen before.
abbrev pub distinct : List String → List EndpointClient → List EndpointClient
distinct seen [] = []
distinct seen (e ∷ es) =
    let rest = distinct (seen ++ (e.http_endpoint ∷ [])) es in
    if any_equal e.http_endpoint seen then rest else e ∷ rest

module _ {N T : Type 0} where
  append_nil : (vs : Items N T) → vs ≡ append_items vs nil
  append_nil nil = refl
  append_nil (cons v vs) = ap (cons v) (append_nil vs)

  append_items_assoc :
      (us vs ws : Items N T)
      → append_items (append_items us vs) ws ≡ append_items us (append_items vs ws)
  append_items_assoc nil vs ws = refl
  append_items_assoc (cons u us) vs ws = ap (cons u) (append_items_assoc us vs ws)

module _ {N T S : Type 0} (setting : Setting N T S) where
  abbrev pub prepend : Items N T → Result (Items N T) × Manager S → Result (Items N T) × Manager S
  prepend vs (ok ws, m) = (ok (append_items vs ws), m)
  prepend vs (err message, m) = (err message, m)

  -- The items of each endpoint in turn, up to the first that fails.
  abbrev pub ask_in_turn : Fields N T → List EndpointClient → Action (Manager S) (Items N T)
  ask_in_turn params [] m = (ok nil, m)
  ask_in_turn params (e ∷ es) m =
      let (r, m') = ask setting params e m in
      follow r (λ vs m''. prepend vs (ask_in_turn params es m'')) m'

  abbrev Agrees : Asked N T → Result (Items N T) × Manager S → Asked N T × Manager S → Type 0
  Agrees a (ok vs, m) out =
      (out.1 ≡ m) × (out.0.results ≡ append_items a.results vs) × (out.0.errors ≡ a.errors)
  Agrees a (err message, m) out = is_nil out.0.errors ≡ false

  not_nil {ℓ} : {A : Type ℓ} (xs : List A) (y : A) → is_nil (xs ++ (y ∷ [])) ≡ false
  not_nil [] y = refl
  not_nil (x ∷ xs) y = refl

  asked_with-keeps :
      (resource_type endpoint : String) (a : Asked N T) (r : Result (Items N T))
      → is_nil a.errors ≡ false
      → is_nil (asked_with setting resource_type endpoint a r).errors ≡ false
  unfolding asked_with
  asked_with-keeps resource_type endpoint a (err message) some_error = not_nil a.errors _
  asked_with-keeps resource_type endpoint a (ok vs) some_error = some_error

  ask_once-keeps :
      (resource_type : String) (params : Fields N T) (e : EndpointClient) (a : Asked N T)
      (m : Manager S)
      → is_nil a.errors ≡ false
      → is_nil (ask_once setting resource_type params e a m).0.errors ≡ false
  unfolding ask_once
  ask_once-keeps resource_type params e a m some_error =
      elim (Bool-cases (any_equal e.http_endpoint a.used_http_endpoints)) [
        | inl seen ↦ rw seen some_error
        | inr new ↦ rw new (asked_with-keeps resource_type e.http_endpoint a _ some_error)
      ]

  ask_found-keeps :
      (resource_type : String) (params : Fields N T) (o : Option EndpointClient) (a : Asked N T)
      (m : Manager S)
      → is_nil a.errors ≡ false
      → is_nil (ask_found setting resource_type params o a m).0.errors ≡ false
  ask_found-keeps resource_type params none a m some_error = some_error
  ask_found-keeps resource_type params (some e) a m some_error =
      ask_once-keeps resource_type params e a m some_error

  -- An error is not forgotten.
  ask_all-keeps :
      (resource_type : String) (params : Fields N T) (cs : List ServiceClient) (a : Asked N T)
      (m : Manager S)
      → is_nil a.errors ≡ false
      → is_nil (ask_all setting resource_type params cs a m).0.errors ≡ false
  unfolding ask_all
  ask_all-keeps resource_type params [] a m some_error = some_error
  ask_all-keeps resource_type params (c ∷ cs) a m some_error =
      ask_all-keeps resource_type params cs _ _
        (ask_found-keeps resource_type params (find_key resource_type c) a m some_error)

  prepend-Agrees :
      (a b : Asked N T) (vs : Items N T) (r : Result (Items N T) × Manager S)
      (out : Asked N T × Manager S)
      → b.results ≡ append_items a.results vs
      → b.errors ≡ a.errors
      → Agrees b r out
      → Agrees a (prepend vs r) out
  prepend-Agrees a b vs (err message, m) out e f g = g
  prepend-Agrees a b vs (ok ws, m) out e f (same, results, errors) = (
    same,
    results ∙ ap (λ us. append_items us ws) e ∙ append_items_assoc a.results vs ws,
    errors ∙ f,
  )

  asked-Agrees :
      (resource_type : String) (params : Fields N T) (cs : List ServiceClient) (endpoint : String)
      (a : Asked N T) (r : Result (Items N T)) (m : Manager S)
      → ((b : Asked N T) (n : Manager S)
          → Agrees b
              (ask_in_turn params
                (distinct b.used_http_endpoints (endpoints_for resource_type cs))
                n)
              (ask_all setting resource_type params cs b n))
      → Agrees a
          (follow r
            (λ vs m'. prepend vs (
              ask_in_turn params
                (distinct
                  (a.used_http_endpoints ++ (endpoint ∷ []))
                  (endpoints_for resource_type cs))
                m'))
            m)
          (ask_all setting resource_type params cs
            (asked_with setting resource_type endpoint a r)
            m)
  unfolding asked_with
  asked-Agrees resource_type params cs endpoint a (err message) m later =
      ask_all-keeps resource_type params cs _ m (not_nil a.errors _)
  asked-Agrees resource_type params cs endpoint a (ok vs) m later =
      let b : Asked N T = asked_with setting resource_type endpoint a (ok vs) in
      prepend-Agrees a b vs
        (ask_in_turn params (distinct b.used_http_endpoints (endpoints_for resource_type cs)) m)
        (ask_all setting resource_type params cs b m) refl refl (later b m)

  -- What a query asks of one service and of those that follow.
  found-Agrees :
      (resource_type : String) (params : Fields N T) (o : Option EndpointClient)
      (cs : List ServiceClient) (a : Asked N T) (m : Manager S)
      → ((b : Asked N T) (n : Manager S)
          → Agrees b
              (ask_in_turn params
                (distinct b.used_http_endpoints (endpoints_for resource_type cs))
                n)
              (ask_all setting resource_type params cs b n))
      → Agrees a
          (ask_in_turn params
            (distinct a.used_http_endpoints (found o ++ endpoints_for resource_type cs))
            m)
          (ask_all setting resource_type params cs
            (ask_found setting resource_type params o a m).0
            (ask_found setting resource_type params o a m).1)
  unfolding ask_once
  found-Agrees resource_type params none cs a m later = later a m
  found-Agrees resource_type params (some e) cs a m later =
      elim (Bool-cases (any_equal e.http_endpoint a.used_http_endpoints)) [
        | inl seen ↦ rw seen (
            later
              (record a { used_http_endpoints = a.used_http_endpoints ++ (e.http_endpoint ∷ []) })
              m)
        | inr new ↦ rw new (
            asked-Agrees resource_type params cs e.http_endpoint a (ask setting params e m).0
              (ask setting params e m).1 later)
      ]

  ask_all-Agrees :
      (resource_type : String) (params : Fields N T) (cs : List ServiceClient) (a : Asked N T)
      (m : Manager S)
      → Agrees a
          (ask_in_turn params (distinct a.used_http_endpoints (endpoints_for resource_type cs)) m)
          (ask_all setting resource_type params cs a m)
  unfolding ask_all
  ask_all-Agrees resource_type params [] a m = (refl, append_nil a.results, refl)
  ask_all-Agrees resource_type params (c ∷ cs) a m =
      found-Agrees resource_type params (find_key resource_type c) cs a m
        (ask_all-Agrees resource_type params cs)

  -- A query that answers what asking in turn answers, and throws where that throws.
  abbrev pub Answers :
      String → Result (Items N T) × Manager S → Result (Items N T) × Manager S → Type 0
  Answers resource_type (ok vs, m) out = out ≡ (ok vs, m)
  Answers resource_type (err message, m) out = out.0 ≡ err (failed_to_query resource_type)

  outcome-Answers :
      (resource_type : String) (r : Result (Items N T) × Manager S) (out : Asked N T × Manager S)
      → Agrees (nothing_asked setting) r out
      → Answers resource_type r (outcome setting resource_type out.0, out.1)
  outcome-Answers resource_type (ok vs, m) (a, m') (same, results, errors) =
      rw (errors, results, same) refl
  outcome-Answers resource_type (err message, m) (a, m') some_error = rw some_error refl

  -- Where a resource manager has service clients, a query asks their endpoints for the type of
  -- resource one after another, but no address again that has answered, and answers all items in this
  -- order. It throws if and only if asking in this way comes upon an endpoint that fails.
  pub query-Answers :
      (resource_type : String) (filter : Fields N T) (sort_by sort_order : Option String)
      (m : Manager S)
      → is_nil m.service_clients ≡ false
      → Answers resource_type
          (ask_in_turn
            (params_of filter sort_by sort_order)
            (distinct [] (endpoints_for resource_type m.service_clients))
            m)
          (query setting resource_type filter sort_by sort_order m)
  unfolding query ready
  query-Answers resource_type filter sort_by sort_order m clients = rw clients (
      outcome-Answers resource_type _ _ (
        ask_all-Agrees resource_type (params_of filter sort_by sort_order) m.service_clients
          (nothing_asked setting) m))
