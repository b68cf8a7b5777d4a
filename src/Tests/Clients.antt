-- ===== src/Tests/Clients.antt =====
-- The resource manager and the clients it uses, run with a registry of two services. The state counts
-- the requests.
use mcma_libraries.Prelude.{
  ℕ, suc, ◌≡◌, refl, true, String, none, some, List, [], ◌∷◌, ok, err, ◌==◌, if◌then◌else◌, eqb,
}
use mcma_libraries.Documents.{
  Value, undefined, null, text, array, object, Items, nil, cons, Fields, end, field,
}
use mcma_libraries.Core.Properties.{
  check_property, check_type, get_field, ensure_valid_date_or_undefined,
}
use mcma_libraries.Core.Models.{
  Parsers, read_property, map_property, custom_of, resource_endpoint, service,
}
use mcma_libraries.Core.Models.Typed.{IsService, service-IsService}
use mcma_libraries.Client.Http.{
  answered, failing, max_attempts_of, is_retried, failed_request, try_once, run_attempts, request,
}
use mcma_libraries.Client.Auth.{get_authenticator}
use mcma_libraries.Client.Requests.{
  resolve_address, full_address, given, prepare_request, send_request, send_to, url_and_config,
  tracked,
}
use mcma_libraries.Client.Services.{
  Platform, EndpointClient, ServiceClient, text_field, service_client, get_resource_endpoint_client,
  send_to_endpoint,
}
use mcma_libraries.Client.Services.Endpoints.{last_for, service_client-last}
use mcma_libraries.Client.Manager.{
  Setting, Manager, all_endpoints, results_of, registry_service, client_from, listed_clients, init,
  ready,
}
use mcma_libraries.Client.Manager.Start.{Started, init-Started}
use mcma_libraries.Client.Manager.Query.{params_of, ask_all, query}
use mcma_libraries.Client.Manager.Query.Distinct.{
  Answers, ask_in_turn, distinct, endpoints_for, query-Answers,
}

abbrev Time : Type 0
Time = Unit {0}

abbrev digits : ℕ → String
digits n = "0"

abbrev parsers : Parsers ℕ Time
parsers = record { is_valid_url = λ s. true; to_date = λ v. none; digits = digits }

abbrev endpoint : String → String → Value ℕ Time
endpoint type address =
    object (field "resourceType" (text type) (field "httpEndpoint" (text address) end))

abbrev service_named : String → String → Value ℕ Time
service_named name address =
    object
      (field "name" (text name) (field "resources" (array (cons (endpoint "Job" address) nil)) end))

abbrev a_job : Value ℕ Time
a_job = object (field "name" (text "a job") end)

abbrev registered_services : Value ℕ Time
registered_services = object (
    field "results"
      (array (
        cons (service_named "One" "https://one.org/jobs")
          (cons null (cons (service_named "Two" "https://two.org/jobs") nil))))
      end)

abbrev some_jobs : Value ℕ Time
some_jobs = object (field "results" (array (cons a_job nil)) end)

-- The registry and the services answer, each request counted.
abbrev platform : Platform ℕ Time ℕ
platform = record {
  send = λ config n. (
    answered
        (if config.url == "https://registry.org/services" then registered_services else some_jobs),
    suc n,
  );
  sleep = λ t n. n;
  tracker_text = λ v. "";
  lower_case = λ s. s;
  base_url = none;
  max_attempts = some 1;
  retry_interval = none;
}

abbrev setting_with : Platform ℕ Time ℕ → Setting ℕ Time ℕ
setting_with p = record {
  platform = p;
  parsers = parsers;
  is_zero = λ n. eqb n 0;
  types = [];
  config = record {
    service_registry_url = "https://registry.org";
    service_registry_auth_type = none;
  };
}

abbrev setting : Setting ℕ Time ℕ
setting = setting_with platform

abbrev unstarted : Manager ℕ
unstarted = record { service_clients = []; world = 0 }

abbrev job_client : String → EndpointClient
job_client address = record {
  resource_type = "Job";
  http_endpoint = address;
  auth_type = "";
  service_auth_type = "";
}

abbrev two_services : Manager ℕ
two_services = record {
  service_clients =
      (("Job", job_client "https://one.org/jobs") ∷ [])
      ∷ (("Job", job_client "https://two.org/jobs") ∷ [])
      ∷ [];
  world = 0;
}

init-Started_example : Started setting 0 (init setting unstarted)
init-Started_example = init-Started setting unstarted

query-Answers_example :
    Answers setting "Job"
      (ask_in_turn setting
        (params_of end none none)
        (distinct [] (endpoints_for "Job" two_services.service_clients))
        two_services)
      (query setting "Job" end none none two_services)
query-Answers_example = query-Answers setting "Job" end none none two_services refl

abbrev made_endpoint : Value ℕ Time
made_endpoint = object (
    field "@type" (text "ResourceEndpoint") (
      field "resourceType" (text "Job")
        (field "httpEndpoint" (text "https://one.org/jobs") (field "authType" undefined end))))

abbrev made_one : Fields ℕ Time
made_one = field "@type" (text "Service") (
    field "id" undefined (
      field "dateCreated" undefined (
        field "dateModified" undefined (
          field "custom" undefined (
            field "name" (text "One") (
              field "resources" (array (cons made_endpoint nil)) (
                field "authType" undefined
                  (field "jobType" undefined (field "jobProfileIds" undefined end)))))))))

one_made : service parsers (service_named "One" "https://one.org/jobs") ≡ ok made_one
unfolding service resource_endpoint map_property read_property custom_of check_property check_type
    ensure_valid_date_or_undefined
one_made = refl

service-IsService_example : IsService parsers made_one
service-IsService_example =
    service-IsService parsers (service_named "One" "https://one.org/jobs") made_one one_made

one-IsService : IsService parsers made_one
one-IsService =
    service-IsService parsers (service_named "One" "https://one.org/jobs") made_one one_made

service_client-last_example :
    (endpoints : ServiceClient) × (vs : Items ℕ Time) × (service_client made_one ≡ ok endpoints)
    × (get_field "resources" made_one ≡ array vs)
    × ((t : String)
        → get_resource_endpoint_client t endpoints ≡ last_for (text_field "authType" made_one) t vs)
service_client-last_example = service_client-last parsers made_one one-IsService

-- The registry answers with an error.
abbrev broken : Platform ℕ Time ℕ
broken = record platform {
  send = λ config n. (failing (record { status = none; message = "no answer" }), suc n);
}

abbrev registry_client : ServiceClient
registry_client =
    (
      "Service",
      record {
        resource_type = "Service";
        http_endpoint = "https://registry.org/services";
        auth_type = "";
        service_auth_type = "";
      },
    )
    ∷ (
      "JobProfile",
      record {
        resource_type = "JobProfile";
        http_endpoint = "https://registry.org/job-profiles";
        auth_type = "";
        service_auth_type = "";
      },
    )
    ∷ []

-- A query throws where the registry does not answer, but leaves the client of the registry, so that
-- the same query answers an empty list from then on.
first_query_throws : query (setting_with broken) "Job" end none none unstarted ≡ (
  err "ResourceManager: Failed to initialize",
  record { service_clients = registry_client ∷ []; world = 1 },
)
unfolding query ready init registry_service service_client service resource_endpoint map_property
    read_property custom_of check_property check_type ensure_valid_date_or_undefined
    send_to_endpoint send_request send_to prepare_request url_and_config tracked resolve_address
    full_address given get_authenticator request run_attempts try_once max_attempts_of is_retried
    failed_request
first_query_throws = refl

next_query_is_empty :
    query
      (setting_with broken)
      "Job"
      end
      none
      none
      (record { service_clients = registry_client ∷ []; world = 1 })
    ≡ (ok nil, record { service_clients = registry_client ∷ []; world = 1 })
unfolding query ready ask_all
next_query_is_empty = refl

abbrev all_found : List EndpointClient
all_found =
    record {
      resource_type = "Service";
      http_endpoint = "https://registry.org/services";
      auth_type = "";
      service_auth_type = "";
    }
    ∷ record {
      resource_type = "JobProfile";
      http_endpoint = "https://registry.org/job-profiles";
      auth_type = "";
      service_auth_type = "";
    }
    ∷ job_client "https://one.org/jobs"
    ∷ job_client "https://two.org/jobs"
    ∷ []

-- All services of the registry but the one that cannot be made.
both_found : all_endpoints (init setting unstarted).1.service_clients ≡ all_found
unfolding init registry_service listed_clients client_from results_of service_client service
    resource_endpoint map_property read_property custom_of check_property check_type
    ensure_valid_date_or_undefined send_to_endpoint send_request send_to prepare_request
    url_and_config tracked resolve_address full_address given get_authenticator request run_attempts
    try_once max_attempts_of
both_found = refl
