-- ===== src/Api/Security.antt =====
-- base/api/lib/security: the middleware that checks API keys. The test of regular expressions and
-- the secret that holds the configuration are parameters. The middleware keeps the configuration
-- once it has got it; what it keeps is part of the state `S`.
pub mod Access
pub mod Refusals
use mcma_libraries.Prelude.{
  Bool, true, false, String, Option, none, some, List, [], ◌∷◌, Result, ok, err, ◌>>=◌, ◌==◌, ◌||◌,
  is_empty, any_equal, if◌then◌else◌,
}
use mcma_libraries.Api.Statuses.{unauthorized, forbidden}
use mcma_libraries.Api.{lookup, Request, Context, Handler, set_response_error}

-- The methods that are allowed on the paths that a regular expression fits.
abbrev pub Rules : Type 0
Rules = List (String × List String)

-- base/api/lib/security/mcma-api-key-security-config.ts
abbrev pub SecurityConfig : Type 0
SecurityConfig = List (String × Rules)

-- The properties that every object of the language has. None has keys of its own.
abbrev pub inherited : List String
inherited =
    "constructor" ∷ "__defineGetter__" ∷ "__defineSetter__" ∷ "hasOwnProperty" ∷ "__lookupGetter__"
    ∷ "__lookupSetter__" ∷ "isPrototypeOf" ∷ "propertyIsEnumerable" ∷ "toString" ∷ "valueOf"
    ∷ "__proto__" ∷ "toLocaleString" ∷ []

abbrev own_or_inherited : String → Option Rules → Option Rules
own_or_inherited key (some rules) = some rules
own_or_inherited key none = if any_equal key inherited then some [] else none

-- `this.apiSecurityConfig[key]`
unfoldable pub property : SecurityConfig → String → Option Rules
property config key = own_or_inherited key (lookup key config)

pub record Secrets (S : Type 0) : Type 0 where
  pub test_regexp : String → String → Result Bool
  pub kept : S → Option SecurityConfig
  pub keep : SecurityConfig → S → S
  pub load : S → Result SecurityConfig × S

pub data Verdict : Type 0 where
  granted : Verdict
  unknown_key : Verdict
  denied : Verdict

module _ {S : Type 0} (secrets : Secrets S) where
  rule_allows : Result Bool → List String → String → Result Bool → Result Bool
  rule_allows (err e) methods http_method rest = err e
  rule_allows (ok false) methods http_method rest = rest
  rule_allows (ok true) methods http_method rest =
      ok (any_equal "ANY" methods || any_equal http_method methods)

  rules_allow : Rules → String → String → Result Bool
  rules_allow [] path http_method = ok false
  rules_allow ((regexp, methods) ∷ rules) path http_method =
      let rest = rules_allow rules path http_method in
      rule_allows (secrets.test_regexp regexp path) methods http_method rest

  -- `configAllowsAccess`
  unfoldable pub config_allows_access : Option Rules → String → String → Result Bool
  unfolding rules_allow rule_allows
  config_allows_access none path http_method = ok false
  config_allows_access (some rules) path http_method = rules_allow rules path http_method

  abbrev pub is_reserved : String → Bool
  is_reserved key = is_empty key || (key == "no-auth") || (key == "valid-auth")

  key_rules : SecurityConfig → Option String → Option Rules
  key_rules config none = none
  key_rules config (some key) = if is_reserved key then none else property config key

  key_verdict : SecurityConfig → String → String → Option Rules → Result Verdict
  key_verdict config path http_method none = ok unknown_key
  key_verdict config path http_method (some rules) =
      config_allows_access (property config "valid-auth") path http_method >>= λ valid.
      if valid
      then ok granted
      else (config_allows_access (some rules) path http_method >>= λ own.
          ok (if own then granted else denied))

  -- The tests of `execute`, in their order.
  unfoldable pub authorize : SecurityConfig → String → String → Option String → Result Verdict
  unfolding key_verdict key_rules
  authorize config path http_method api_key =
      config_allows_access (property config "no-auth") path http_method >>= λ public.
      if public then ok granted else key_verdict config path http_method (key_rules config api_key)

  kept_or_loaded : Option SecurityConfig → S → Result SecurityConfig × S
  kept_or_loaded (some config) s = (ok config, s)
  kept_or_loaded none s = stored (secrets.load s)
    where
      stored : Result SecurityConfig × S → Result SecurityConfig × S
      stored (ok config, s') = (ok config, secrets.keep config s')
      stored (err e, s') = (err e, s')

  unfoldable pub get_config : S → Result SecurityConfig × S
  unfolding kept_or_loaded
  get_config s = kept_or_loaded (secrets.kept s) s

  module _ {V : Type 0} where
    enforce : Result Verdict → Handler V S → Handler V S
    enforce (err e) next c = (err e, c)
    enforce (ok granted) next c = next c
    enforce (ok unknown_key) next c = set_response_error unauthorized none c
    enforce (ok denied) next c = set_response_error forbidden none c

    verdict_of : Request V → Result SecurityConfig → Result Verdict
    verdict_of request (err e) = err e
    verdict_of request (ok config) =
        authorize config request.path request.http_method (lookup "x-mcma-api-key" request.headers)

    -- `execute`
    unfoldable pub execute : Handler V S → Handler V S
    unfolding enforce verdict_of
    execute next c =
        let (answer, s) = get_config c.world in
        enforce (verdict_of c.request answer) next (record c { world = s })
