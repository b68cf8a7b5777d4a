-- ===== src/Api/Defaults.antt =====
-- base/api/lib/routing/defaults: the routes that create, get, update and delete a resource. The
-- document table, its provider, the configuration, the identifiers and the hooks are parameters. A
-- parsed body is taken for an object; that it is the same object as the resource matters nowhere,
-- and what a hook does to the resource is part of what the hook answers.
pub mod Reads
pub mod RoundTrips
use mcma_libraries.Prelude.{
  ℕ, Bool, true, false, String, Option, none, some, Result, ok, err, is_empty, if◌then◌else◌,
  Action, follow,
}
use Prim.Native.String.{◌++◌}
use mcma_libraries.Api.{
  Body, no_body, raw, value, Context, Handler, set_response_bad_request_due_to_missing_body,
  set_response_resource_not_found, set_response_body, set_response_resource_created,
}

-- base/core/lib/model/mcma-resource.ts, with the other fields as one of a type `W`.
pub record McmaResource (W : Type 0) : Type 0 where
  pub id : Option String
  pub date_created : Option ℕ
  pub date_modified : Option ℕ
  pub contents : W

abbrev or_now : Option ℕ → ℕ → ℕ
or_now none now = now
or_now (some date) now = date

module _ {W : Type 0} where
  unfoldable pub on_resource_create : String → ℕ → McmaResource W → McmaResource W
  on_resource_create id now resource = record resource {
    id = some id;
    date_created = some now;
    date_modified = some now;
  }

  unfoldable pub on_resource_upsert : String → ℕ → McmaResource W → McmaResource W
  on_resource_upsert id now resource = record resource {
    id = some id;
    date_modified = some now;
    date_created = some (or_now resource.date_created now);
  }

-- What the routes use of what is outside.
pub record Services (W S : Type 0) : Type 0 where
  pub connect : S → Result (Unit {0}) × S
  pub table_get : String → S → Result (Option (McmaResource W)) × S
  pub table_put : String → McmaResource W → S → Result (Unit {0}) × S
  pub table_delete : String → S → Result (Unit {0}) × S
  pub public_url : Result String
  pub uuid : S → String × S
  pub now : S → ℕ

module _ {C A B : Type 0} where
  infixl 5 ◌>>=◌ ◌>>◌
  abbrev ◌>>=◌ : Action C A → (A → Action C B) → Action C B
  ◌>>=◌ m next c = let (answer, c') = m c in follow answer next c'

  abbrev ◌>>◌ : Action C A → Action C B → Action C B
  m >> next = m >>= λ _. next

-- An action of a handler on the request context.
abbrev pub Api : Type 0 → Type 0 → Type 0 → Type 0
Api W S A = Action (Context (McmaResource W) S) A

-- The hooks of a route over what `onCompleted` gets. `onStarted` may answer undefined.
pub record Hooks (W S R : Type 0) : Type 0 where
  pub on_started : Option (Api W S (Option Bool))
  pub on_completed : Option (R → Api W S R)

module _ {W S : Type 0} where
  abbrev pure : {A : Type 0} → A → Api W S A
  pure a c = (ok a, c)

  abbrev outside : {A : Type 0} → (S → Result A × S) → Api W S A
  outside call c = let (answer, s) = call c.world in (answer, record c { world = s })

  abbrev change : (Context (McmaResource W) S → Context (McmaResource W) S) → Api W S (Unit {0})
  change f c = (ok tt, f c)

  -- The handler goes on, unless `onStarted` answers false.
  go_on : Option Bool → Api W S (Unit {0}) → Api W S (Unit {0})
  go_on none rest c = rest c
  go_on (some true) rest c = rest c
  go_on (some false) rest c = (ok tt, c)

  started : Option (Api W S (Option Bool)) → Api W S (Unit {0}) → Api W S (Unit {0})
  started none rest c = rest c
  started (some hook) rest c = (hook >>= λ answer. go_on answer rest) c

  finished : {R : Type 0} → Option (R → Api W S R) → R → Api W S R
  finished none r c = (ok r, c)
  finished (some hook) r c = hook r c

module _ {W S : Type 0} (services : Services W S) where
  -- What follows where the body is that of a resource.
  with_body : (McmaResource W → Api W S (Unit {0})) → Body (McmaResource W) → Api W S (Unit {0})
  with_body next no_body c = set_response_bad_request_due_to_missing_body c
  with_body next (value resource) c = next resource c
  with_body next (raw characters) c =
      if is_empty characters
      then set_response_bad_request_due_to_missing_body c
      else (err "Cannot create property 'id' on a text", c)

  id_of : McmaResource W → String
  id_of resource = id_text resource.id
    where
      id_text : Option String → String
      id_text none = "undefined"
      id_text (some id) = id

  -- The path is that of the request with a new identifier.
  create_resource : Hooks W S (McmaResource W) → McmaResource W → Api W S (Unit {0})
  create_resource hooks resource c =
      (do
        uuid ← outside (λ s. let (u, s') = services.uuid s in (ok u, s'))
        url ← outside (λ s. (services.public_url, s))
        let resource_path = c.request.path ++ "/" ++ uuid
        now ← outside (λ s. (ok (services.now s), s))
        let made = on_resource_create (url ++ resource_path) now resource
        outside services.connect
        outside (services.table_put resource_path made)
        completed ← finished hooks.on_completed made
        change (set_response_resource_created (id_of completed) completed))
        c

  unfoldable pub create_handler : Hooks W S (McmaResource W) → Handler (McmaResource W) S
  unfolding create_resource with_body started go_on finished id_of
  create_handler hooks =
      started hooks.on_started (λ c. with_body (create_resource hooks) c.request.body c)

  update_resource : Hooks W S (McmaResource W) → McmaResource W → Api W S (Unit {0})
  update_resource hooks resource c =
      (do
        url ← outside (λ s. (services.public_url, s))
        now ← outside (λ s. (ok (services.now s), s))
        let made = on_resource_upsert (url ++ c.request.path) now resource
        outside services.connect
        outside (services.table_put c.request.path made)
        completed ← finished hooks.on_completed made
        change (set_response_body completed))
        c

  unfoldable pub update_handler : Hooks W S (McmaResource W) → Handler (McmaResource W) S
  unfolding update_resource with_body started go_on finished
  update_handler hooks =
      started hooks.on_started (λ c. with_body (update_resource hooks) c.request.body c)

  answer_found : Option (McmaResource W) → Api W S (Unit {0})
  answer_found (some resource) = change (set_response_body resource)
  answer_found none = set_response_resource_not_found

  get_resource : Hooks W S (Option (McmaResource W)) → Api W S (Unit {0})
  get_resource hooks c =
      (do
        outside services.connect
        found ← outside (services.table_get c.request.path)
        completed ← finished hooks.on_completed found
        answer_found completed)
        c

  unfoldable pub get_handler : Hooks W S (Option (McmaResource W)) → Handler (McmaResource W) S
  unfolding get_resource answer_found started go_on finished
  get_handler hooks = started hooks.on_started (get_resource hooks)

  delete_found : Hooks W S (McmaResource W) → Option (McmaResource W) → Api W S (Unit {0})
  delete_found hooks none c = set_response_resource_not_found c
  delete_found hooks (some resource) c =
      (do
        outside (services.table_delete c.request.path)
        finished hooks.on_completed resource
        pure tt)
        c

  unfoldable pub delete_handler : Hooks W S (McmaResource W) → Handler (McmaResource W) S
  unfolding delete_found started go_on finished
  delete_handler hooks = started hooks.on_started (λ c.
      (do
        outside services.connect
        found ← outside (services.table_get c.request.path)
        delete_found hooks found)
        c)
