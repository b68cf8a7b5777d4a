-- ===== src/Client/Manager/Calls/Routes.antt =====
-- Which endpoint serves an address, and where its requests go.
use mcma_libraries.Prelude.{
  ◌≡◌, refl, sym, ap, ◌∙◌, Bool, true, false, ◌||◌, String, Option, none, some, List, ◌∷◌, ◌++◌, ok,
  ◌==◌, eq_iff, is_empty, starts_with, starts_with_iff, Bool-cases, inl, inr, All,
}
use Prim.Native.String.{◌++◌ as ◌<>◌}
use package.text.Mathlib.TextLemmas.{append_assoc, append-nil}
use mcma_libraries.Client.Requests.{is_absolute, full_address, given, resolve_address}
use mcma_libraries.Client.Services.{EndpointClient}
use mcma_libraries.Client.Manager.{Manager}
use mcma_libraries.Client.Manager.Calls.{trimmed, serves}

-- The first item that a test holds for, or none.
pub data IsFirst {A : Type 0} (test : A → Bool) : List A → Option A → Type 0 where
  first :
      (before after : List A) (a : A)
      → All (λ b. test b ≡ false) before
      → test a ≡ true
      → IsFirst test (before ++ (a ∷ after)) (some a)
  nowhere : (bs : List A) → All (λ b. test b ≡ false) bs → IsFirst test bs none

-- What addresses an endpoint serves: its own, without slashes at the end, and what goes on from there
-- with a slash or a question mark.
pub data IsServed (e : EndpointClient) : String → Type 0 where
  itself : (url : String) → url ≡ trimmed e.http_endpoint → IsServed e url
  beneath : (url rest : String) → url ≡ trimmed e.http_endpoint <> "/" <> rest → IsServed e url
  asked : (url rest : String) → url ≡ trimmed e.http_endpoint <> "?" <> rest → IsServed e url

last_holds : (a b c : Bool) → a ≡ false → b ≡ false → (a || b || c) ≡ true → c ≡ true
last_holds true b c e f h = cc
last_holds false true c e f h = cc
last_holds false false c e f h = h

serves-IsServed : (url : String) (e : EndpointClient) → serves url e ≡ true → IsServed e url
unfolding serves
serves-IsServed url e h =
    let endpoint = trimmed e.http_endpoint in
    elim (Bool-cases (url == endpoint)) [
      | inl same ↦ itself url ((eq_iff url endpoint).0 same)
      | inr apart ↦ elim (Bool-cases (starts_with url (endpoint <> "/"))) [
        | inl under ↦
            let (rest, f) = (starts_with_iff url (endpoint <> "/")).0 under in
            beneath url rest (sym f ∙ append_assoc endpoint "/" rest)
        | inr beside ↦
            let query : starts_with url (endpoint <> "?") ≡ true =
              last_holds (url == endpoint) (starts_with url (endpoint <> "/")) _ apart beside h in
            let (rest, f) = (starts_with_iff url (endpoint <> "?")).0 query in
            asked url rest (sym f ∙ append_assoc endpoint "?" rest)
      ]
    ]

served-starts_with :
    (url : String) (e : EndpointClient)
    → trimmed e.http_endpoint ≡ e.http_endpoint
    → IsServed e url
    → starts_with url e.http_endpoint ≡ true
served-starts_with url e plain (itself u f) =
    (starts_with_iff url e.http_endpoint).1 ("", append-nil e.http_endpoint ∙ sym plain ∙ sym f)
served-starts_with url e plain (beneath u rest f) =
    (starts_with_iff url e.http_endpoint).1
      ("/" <> rest, ap (λ t. t <> "/" <> rest) (sym plain) ∙ sym f)
served-starts_with url e plain (asked u rest f) =
    (starts_with_iff url e.http_endpoint).1
      ("?" <> rest, ap (λ t. t <> "?" <> rest) (sym plain) ∙ sym f)

absolute-there : (url : String) → is_absolute url ≡ true → is_empty url ≡ false
absolute-there url h = elim (Bool-cases (is_empty url)) [
  | inl empty ↦ let blank : url ≡ "" = (eq_iff url "").0 empty in cc (ap is_absolute blank, h)
  | inr there ↦ there
]

resolve_address-absolute :
    (method base url : String)
    → is_empty base ≡ false
    → is_absolute url ≡ true
    → starts_with url base ≡ true
    → resolve_address method base url ≡ ok url
unfolding resolve_address full_address given
resolve_address-absolute method base url there absolute starts =
    rw (there, absolute-there url absolute, absolute, starts, absolute-there url absolute) refl

-- An absolute address that an endpoint serves whose own address is not empty and has no slash at the
-- end is the address that the HTTP client of the endpoint sends to.
pub serves-resolve_address :
    (method url : String) (e : EndpointClient)
    → serves url e ≡ true
    → is_absolute url ≡ true
    → trimmed e.http_endpoint ≡ e.http_endpoint
    → is_empty e.http_endpoint ≡ false
    → resolve_address method e.http_endpoint url ≡ ok url
serves-resolve_address method url e served absolute plain there =
    resolve_address-absolute method e.http_endpoint url there absolute
      (served-starts_with url e plain (serves-IsServed url e served))

abbrev pub ServedBy : String → Option EndpointClient → Type 0
ServedBy url none = Unit
ServedBy url (some e) = IsServed e url
