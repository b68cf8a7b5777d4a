-- ===== src/Api/Defaults/Reads.antt =====
-- What the default routes that get and delete a resource do, over a table that answers.
use mcma_libraries.Prelude.{◌≡◌, refl, ◌∙◌, ap, String, Option, none, some, ok}
use mcma_libraries.Api.{
  value_content, Context, set_response_body, set_response_resource_not_found, set_response_error,
}
use mcma_libraries.Api.Defaults.{
  McmaResource, Services, Hooks, started, finished, answer_found, get_resource, get_handler,
  delete_found, delete_handler,
}

-- `at` is what the table holds under a path, and `kept` what it gives back of a resource that was
-- put, which need not be the resource as it was: of a document, a property that is null is lost.
pub record Table {W S : Type 0} (services : Services W S)
    (at : S → String → Option (McmaResource W)) (kept : McmaResource W → McmaResource W)
    : Type 0 where
  pub connect_ok : (s : S) → (services.connect s).0 ≡ ok tt
  pub connect_kept : (s : S) (p : String) → at (services.connect s).1 p ≡ at s p
  pub get_ok : (p : String) (s : S) → (services.table_get p s).0 ≡ ok (at s p)
  pub get_kept : (p q : String) (s : S) → at (services.table_get p s).1 q ≡ at s q
  pub put_ok : (p : String) (r : McmaResource W) (s : S) → (services.table_put p r s).0 ≡ ok tt
  pub put_effect :
      (p : String) (r : McmaResource W) (s : S) → at (services.table_put p r s).1 p ≡ some (kept r)
  pub delete_ok : (p : String) (s : S) → (services.table_delete p s).0 ≡ ok tt
  pub delete_effect : (p : String) (s : S) → at (services.table_delete p s).1 p ≡ none

module _ {W S R : Type 0} where
  -- A route without hooks.
  abbrev pub silent : Hooks W S R
  silent = record { on_started = none; on_completed = none }

module _ {W S : Type 0} {services : Services W S} {at : S → String → Option (McmaResource W)}
    {kept : McmaResource W → McmaResource W} (table : Table services at kept) where
  get_handler-answer :
      (c : Context (McmaResource W) S)
      → get_handler services silent c
        ≡ answer_found services (at c.world c.request.path) (record c {
          world = (services.table_get c.request.path (services.connect c.world).1).1;
        })
  unfolding get_handler get_resource started finished
  get_handler-answer c =
      rw
        (
          table.connect_ok c.world,
          table.get_ok c.request.path (services.connect c.world).1,
          table.connect_kept c.world c.request.path,
        )
        refl

  get_handler-found :
      (g : Context (McmaResource W) S) (found : Option (McmaResource W))
      → at g.world g.request.path ≡ found
      → get_handler services silent g
        ≡ answer_found services found (record g {
          world = (services.table_get g.request.path (services.connect g.world).1).1;
        })
  get_handler-found g found e =
      get_handler-answer g
      ∙ ap
          (λ f. answer_found services f (record g {
            world = (services.table_get g.request.path (services.connect g.world).1).1;
          }))
          e

  -- What a request gets whose path holds `r`.
  pub get_handler-shows :
      (g : Context (McmaResource W) S) (r : McmaResource W)
      → at g.world g.request.path ≡ some r
      → ((get_handler services silent g).0 ≡ ok tt)
        × ((get_handler services silent g).1.response.body ≡ value_content r)
  unfolding answer_found set_response_body
  get_handler-shows g r e = (
    ap (λ out. out.0) (get_handler-found g (some r) e),
    ap (λ out. out.1.response.body) (get_handler-found g (some r) e),
  )

  get_handler-misses :
      (g : Context (McmaResource W) S)
      → at g.world g.request.path ≡ none
      → ((get_handler services silent g).0 ≡ ok tt)
        × ((get_handler services silent g).1.response.status_code ≡ 404)
  unfolding answer_found set_response_resource_not_found set_response_error
  get_handler-misses g e = (
    ap (λ out. out.0) (get_handler-found g none e),
    ap (λ out. out.1.response.status_code) (get_handler-found g none e),
  )

  delete_handler-answer :
      (c : Context (McmaResource W) S)
      → delete_handler services silent c
        ≡ delete_found services silent (at c.world c.request.path) (record c {
          world = (services.table_get c.request.path (services.connect c.world).1).1;
        })
  unfolding delete_handler started
  delete_handler-answer c =
      rw
        (
          table.connect_ok c.world,
          table.get_ok c.request.path (services.connect c.world).1,
          table.connect_kept c.world c.request.path,
        )
        refl

  delete_found-at :
      (found : Option (McmaResource W)) (c : Context (McmaResource W) S)
      → at c.world c.request.path ≡ found
      → ((delete_found services silent found c).0 ≡ ok tt)
        × (at (delete_found services silent found c).1.world c.request.path ≡ none)
  unfolding delete_found finished set_response_resource_not_found set_response_error
  delete_found-at none c e = (refl, e)
  delete_found-at (some r) c e =
      rw (table.delete_ok c.request.path c.world) (refl, table.delete_effect c.request.path c.world)

  -- Let the routes have no hooks, and the table be one whose calls do not throw and whose reads see
  -- at once what was deleted. Then a request to delete what a path holds does not throw, whether or
  -- not the path holds anything, and a request that gets the path next is answered with 404.
  pub get-delete :
      (c g : Context (McmaResource W) S)
      → g.world ≡ (delete_handler services silent c).1.world
      → g.request.path ≡ c.request.path
      → ((delete_handler services silent c).0 ≡ ok tt)
        × ((get_handler services silent g).0 ≡ ok tt)
        × ((get_handler services silent g).1.response.status_code ≡ 404)
  get-delete c g world path =
      let here =
        table.get_kept c.request.path c.request.path (services.connect c.world).1
        ∙ table.connect_kept c.world c.request.path in
      let gone =
        delete_found-at (at c.world c.request.path)
          (record c { world = (services.table_get c.request.path (services.connect c.world).1).1 })
          here in
      let (answer, status) = get_handler-misses g (
        ap (λ w. at w g.request.path) world
        ∙ ap (λ p. at (delete_handler services silent c).1.world p) path
        ∙ ap (λ out. at out.1.world c.request.path) (delete_handler-answer c)
        ∙ gone.1) in
      (ap (λ out. out.0) (delete_handler-answer c) ∙ gone.0, answer, status)
