-- ===== src/Tests/Resources.antt =====
-- The default routes, run over a table that is a function from paths.
use mcma_libraries.Prelude.{
  ◌≡◌, refl, ap, String, Option, none, some, [], ok, ◌==◌, if◌then◌else◌, eq_refl,
}
use mcma_libraries.Api.{Body, no_body, value, value_content, new_response, Context}
use mcma_libraries.Api.Defaults.{
  McmaResource, on_resource_create, Services, create_handler, update_handler, get_handler,
  delete_handler,
}
use mcma_libraries.Api.Defaults.Reads.{Table, silent, get-delete}
use mcma_libraries.Api.Defaults.RoundTrips.{get-create}

abbrev Resource : Type 0
Resource = McmaResource String

abbrev State : Type 0
State = String → Option Resource

-- The table keeps a null as an empty text.
abbrev without_null : Resource → Resource
without_null r = if r.contents == "null" then record r { contents = "" } else r

abbrev services : Services String State
services = record {
  connect = λ s. (ok tt, s);
  table_get = λ p s. (ok (s p), s);
  table_put = λ p r s. (ok tt, λ q. if q == p then some (without_null r) else s q);
  table_delete = λ p s. (ok tt, λ q. if q == p then none else s q);
  public_url = ok "https://example.org";
  uuid = λ s. ("1", s);
  now = λ s. 7;
}

services-Table : Table services (λ s p. s p) without_null
services-Table = record {
  connect_ok = λ s. refl;
  connect_kept = λ s p. refl;
  get_ok = λ p s. refl;
  get_kept = λ p q s. refl;
  put_ok = λ p r s. refl;
  put_effect = λ p r s. ap (λ b. if b then some (without_null r) else s p) (eq_refl p);
  delete_ok = λ p s. refl;
  delete_effect = λ p s. ap (λ b. if b then none else s p) (eq_refl p);
}

abbrev job : Resource
job = record { id = none; date_created = none; date_modified = none; contents = "null" }

abbrev sent : String → Body Resource → State → Context Resource State
sent path body s = record {
  request = record {
    path = path;
    http_method = "POST";
    headers = [];
    path_variables = [];
    query_string_parameters = [];
    body = body;
  };
  response = new_response;
  world = s;
}

abbrev start : State
start p = none

abbrev creating : Context Resource State
creating = sent "/jobs" (value job) start

abbrev created_job : Resource
created_job = on_resource_create "https://example.org/jobs/1" 7 job

abbrev reading : Context Resource State
reading = sent "/jobs/1" no_body (create_handler services silent creating).1.world

get-create_example :
    ((create_handler services silent creating).0 ≡ ok tt)
    × ((create_handler services silent creating).1.response.status_code ≡ 201)
    × ((create_handler services silent creating).1.response.body ≡ value_content created_job)
    × ((get_handler services silent reading).0 ≡ ok tt)
    × ((get_handler services silent reading).1.response.body
        ≡ value_content (without_null created_job))
get-create_example =
    get-create services-Table "https://example.org" refl creating reading job refl refl refl

abbrev updating : Context Resource State
updating = sent "/jobs/1" (value created_job) start

abbrev reading_again : Context Resource State
reading_again = sent "/jobs/1" no_body (update_handler services silent updating).1.world

abbrev deleting : Context Resource State
deleting = sent "/jobs/1" no_body (create_handler services silent creating).1.world

abbrev reading_nothing : Context Resource State
reading_nothing = sent "/jobs/1" no_body (delete_handler services silent deleting).1.world

get-delete_example :
    ((delete_handler services silent deleting).0 ≡ ok tt)
    × ((get_handler services silent reading_nothing).0 ≡ ok tt)
    × ((get_handler services silent reading_nothing).1.response.status_code ≡ 404)
get-delete_example = get-delete services-Table deleting reading_nothing refl refl
