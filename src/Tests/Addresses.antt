-- ===== src/Tests/Addresses.antt =====
-- Addresses that requests are sent to, authenticators, and checks of properties.
use mcma_libraries.Prelude.{
  ℕ, ◌≡◌, refl, ◌↔◌, true, String, some, List, [], ◌∷◌, ok, err, ◌==◌, if◌then◌else◌,
}
use mcma_libraries.Documents.{text, end, field}
use mcma_libraries.Core.Properties.{check_property}
use mcma_libraries.Core.Properties.Types.{a_string, name_of, Accepts, check_property_iff}
use mcma_libraries.Client.Auth.{get_authenticator, add_authenticator, add_registration}
use mcma_libraries.Client.Auth.Lookup.{Added, by_registration, get-add_authenticator}
use mcma_libraries.Client.Requests.{resolve_address, full_address, given}
use mcma_libraries.Client.Requests.Address.{IsWithin, resolve_address-IsWithin}
use mcma_libraries.Client.Services.{EndpointClient}
use mcma_libraries.Client.Manager.Calls.{serves}
use mcma_libraries.Client.Manager.Calls.Routes.{serves-resolve_address}

abbrev Time : Type 0
Time = Unit {0}

abbrev job_client : String → EndpointClient
job_client address = record {
  resource_type = "Job";
  http_endpoint = address;
  auth_type = "";
  service_auth_type = "";
}

check_property_iff_example :
    (check_property {N = ℕ} {T = Time}
        (λ s. true)
        "Service"
        (field "name" (text "One") end)
        "name"
        (name_of a_string)
        true
      ≡ ok tt)
    ↔ Accepts {N = ℕ} {T = Time} (λ s. true) (field "name" (text "One") end) "name" a_string true
check_property_iff_example =
    check_property_iff (λ s. true) "Service" (field "name" (text "One") end) "name" a_string true

under_base : resolve_address "GET" "https://one.org/jobs" "/1" ≡ ok "https://one.org/jobs/1"
unfolding resolve_address full_address given
under_base = refl

-- An address whose host only begins with that of the base passes.
other_host :
    resolve_address "GET" "https://one.org" "https://one.org.example.com/1"
    ≡ ok "https://one.org.example.com/1"
unfolding resolve_address full_address given
other_host = refl

served : serves "https://one.org/jobs/1" (job_client "https://one.org/jobs") ≡ true
unfolding serves
served = refl

resolve_address-IsWithin_example : IsWithin "https://one.org/jobs" "https://one.org/jobs/1"
resolve_address-IsWithin_example =
    resolve_address-IsWithin "GET" "https://one.org/jobs" "/1" "https://one.org/jobs/1" refl
      under_base

serves-resolve_address_example :
    resolve_address "GET" "https://one.org/jobs" "https://one.org/jobs/1"
    ≡ ok "https://one.org/jobs/1"
serves-resolve_address_example =
    serves-resolve_address "GET" "https://one.org/jobs/1" (job_client "https://one.org/jobs") served
      refl refl refl

abbrev one_key : List (String × ℕ)
one_key = ("McmaApiKey", 7) ∷ []

key_added : add_authenticator (λ s. s) "McmaApiKey" (some 7) [] ≡ ok one_key
unfolding add_authenticator
key_added = refl

key_registered : Added (λ s. s) "McmaApiKey" 7 [] one_key
unfolding add_registration
key_registered = by_registration refl refl

get-add_authenticator_example : get_authenticator (λ s. s) "McmaApiKey" one_key ≡ some 7
get-add_authenticator_example =
    get-add_authenticator (λ s. s) "McmaApiKey" "McmaApiKey" 7 [] one_key refl key_registered refl

-- A registration for a type that is there in other letters is never found.
abbrev lower : String → String
lower s = if s == "AWS4" then "aws4" else s

abbrev both_cases : List (String × ℕ)
both_cases = add_registration "aws4" 2 (add_registration "AWS4" 1 [])

never_found : get_authenticator lower "aws4" both_cases ≡ some 1
unfolding get_authenticator add_registration
never_found = refl

-- An endpoint whose address ends in a slash serves the address without it, but its client refuses
-- to send there.
refused_root : serves "https://one.org/jobs" (job_client "https://one.org/jobs/") ≡ true
unfolding serves
refused_root = refl

refused_root_address :
    resolve_address "GET" "https://one.org/jobs/" "https://one.org/jobs"
    ≡ err
        "HttpClient: Making GET request to URL 'https://one.org/jobs' which does not match baseURL 'https://one.org/jobs/'"
unfolding resolve_address full_address given
refused_root_address = refl
