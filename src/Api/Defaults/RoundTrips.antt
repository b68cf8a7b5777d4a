-- ===== src/Api/Defaults/RoundTrips.antt =====
-- What the default routes do to one another's resources, over a table that answers.
use mcma_libraries.Prelude.{◌≡◌, refl, ◌∙◌, ap, String, Option, some, ok}
use Prim.Native.String.{◌++◌}
use mcma_libraries.Api.{value, value_content, Context, set_response_resource_created}
use mcma_libraries.Api.Defaults.Reads.{Table, silent, get_handler-shows}
use mcma_libraries.Api.Defaults.{
  McmaResource, on_resource_create, on_resource_upsert, Services, with_body, started, finished,
  id_of, create_resource, create_handler, get_handler,
}

module _ {W S : Type 0} {services : Services W S} {at : S → String → Option (McmaResource W)}
    {kept : McmaResource W → McmaResource W} (table : Table services at kept) (url : String)
    (url_ok : services.public_url ≡ ok url) where
  -- The path and the resource that a request creates.
  abbrev pub new_path : Context (McmaResource W) S → String
  new_path c = c.request.path ++ "/" ++ (services.uuid c.world).0

  abbrev pub made : Context (McmaResource W) S → McmaResource W → McmaResource W
  made c resource =
      on_resource_create (url ++ new_path c) (services.now (services.uuid c.world).1) resource

  abbrev pub updated : Context (McmaResource W) S → McmaResource W → McmaResource W
  updated c resource = on_resource_upsert (url ++ c.request.path) (services.now c.world) resource

  create_resource-stored :
      (c : Context (McmaResource W) S) (resource : McmaResource W)
      → create_resource services silent resource c ≡ (
        ok tt,
        set_response_resource_created (url ++ new_path c) (made c resource) (record c {
          world =
              (services.table_put
                (new_path c)
                (made c resource)
                (services.connect (services.uuid c.world).1).1).1;
        }),
      )
  unfolding create_resource finished id_of on_resource_create
  create_resource-stored c resource =
      rw
        (
          url_ok,
          table.connect_ok (services.uuid c.world).1,
          table.put_ok (new_path c) (made c resource)
              (services.connect (services.uuid c.world).1).1,
        )
        refl

  create_handler-stored :
      (c : Context (McmaResource W) S) (resource : McmaResource W)
      → c.request.body ≡ value resource
      → create_handler services silent c ≡ create_resource services silent resource c
  unfolding create_handler started with_body
  create_handler-stored c resource e =
      ap (λ b. with_body services (create_resource services silent) b c) e

  create_resource-at :
      (c : Context (McmaResource W) S) (resource : McmaResource W)
      → at (create_resource services silent resource c).1.world (new_path c)
        ≡ some (kept (made c resource))
  unfolding set_response_resource_created
  create_resource-at c resource =
      ap (λ out. at out.1.world (new_path c)) (create_resource-stored c resource)
      ∙ table.put_effect (new_path c) (made c resource) _

  -- Let the routes have no hooks, the public address be configured, and the table be one whose calls
  -- do not throw and whose reads at once give what it keeps of a resource that was put. Then a request
  -- to create a resource answers 201 with the resource, which has the public address of its new path as
  -- identifier, and a request that gets the new path next is answered with what the table keeps
  -- of this resource.
  pub get-create :
      (c g : Context (McmaResource W) S) (resource : McmaResource W)
      → c.request.body ≡ value resource
      → g.world ≡ (create_handler services silent c).1.world
      → g.request.path ≡ new_path c
      → ((create_handler services silent c).0 ≡ ok tt)
        × ((create_handler services silent c).1.response.status_code ≡ 201)
        × ((create_handler services silent c).1.response.body ≡ value_content (made c resource))
        × ((get_handler services silent g).0 ≡ ok tt)
        × ((get_handler services silent g).1.response.body ≡ value_content (kept (made c resource)))
  unfolding set_response_resource_created
  get-create c g resource body world path =
      let e = create_handler-stored c resource body ∙ create_resource-stored c resource in
      let (answer, shown) = get_handler-shows table g (kept (made c resource)) (
        ap (λ w. at w g.request.path) world
        ∙ ap (λ p. at (create_handler services silent c).1.world p) path
        ∙ ap (λ out. at out.1.world (new_path c)) (create_handler-stored c resource body)
        ∙ create_resource-at c resource) in
      (
        ap (λ out. out.0) e,
        ap (λ out. out.1.response.status_code) e,
        ap (λ out. out.1.response.body) e,
        answer,
        shown,
      )
