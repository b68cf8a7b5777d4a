-- ===== src/Api/Security/Access.antt =====
-- Which requests the middleware lets through.
use mcma_libraries.Prelude.{
  bind-ok, ℕ, ◌≡◌, ◌≢◌, refl, ap, ◌∙◌, Bool, true, false, ◌||◌, String, Option, none, some, List,
  [], ◌∷◌, ◌++◌, Result, ok, err, ◌>>=◌, ◌==◌, any_equal, ◌⊎◌, inl, inr, All, if◌then◌else◌,
  eq_refl,
}
use mcma_libraries.Api.Statuses.{unauthorized, forbidden}
use mcma_libraries.Api.{lookup, Context, Handler, with_response, set_response_error}
use mcma_libraries.Api.Security.{
  Rules, SecurityConfig, property, Secrets, Verdict, granted, unknown_key, denied, rule_allows,
  rules_allow, config_allows_access, is_reserved, key_rules, key_verdict, authorize, get_config,
  enforce, verdict_of, execute,
}

different : (a b : String) → (a == b) ≡ false → a ≢ b
different a b e same = cc (e, same, eq_refl b)

or_false : (a b : Bool) → (a || b) ≡ false → (a ≡ false) × (b ≡ false)
or_false false b e = (refl, e)
or_false true b e = cc

module _ {S : Type 0} (secrets : Secrets S) where
  -- The first of the rules whose regular expression fits the path lists the method or "ANY".
  pub record Permits (rules : Rules) (path http_method : String) : Type 0 where
    pub before : Rules
    pub after : Rules
    pub regexp : String
    pub methods : List String
    pub parts : rules ≡ before ++ ((regexp, methods) ∷ after)
    pub skipped : All (λ rule. secrets.test_regexp rule.0 path ≡ ok false) before
    pub fits : secrets.test_regexp regexp path ≡ ok true
    pub lists : (any_equal "ANY" methods || any_equal http_method methods) ≡ true

  rule_allows-Permits :
      (regexp : String) (methods : List String) (rules : Rules) (path http_method : String)
      (rest answer : Result Bool)
      → secrets.test_regexp regexp path ≡ answer
      → (rest ≡ ok true → Permits rules path http_method)
      → rule_allows secrets answer methods http_method rest ≡ ok true
      → Permits ((regexp, methods) ∷ rules) path http_method
  unfolding rule_allows
  rule_allows-Permits regexp methods rules path http_method rest (err m) t later e = cc
  rule_allows-Permits regexp methods rules path http_method rest (ok true) t later e = record {
    before = [];
    after = rules;
    regexp = regexp;
    methods = methods;
    parts = refl;
    skipped = tt;
    fits = t;
    lists = cc;
  }
  rule_allows-Permits regexp methods rules path http_method rest (ok false) t later e =
      let p = later e in
      record {
        before = (regexp, methods) ∷ p.before;
        after = p.after;
        regexp = p.regexp;
        methods = p.methods;
        parts = ap (λ rs. (regexp, methods) ∷ rs) p.parts;
        skipped = (t, p.skipped);
        fits = p.fits;
        lists = p.lists;
      }

  rules_allow-Permits :
      (rules : Rules) (path http_method : String)
      → rules_allow secrets rules path http_method ≡ ok true
      → Permits rules path http_method
  unfolding rules_allow
  rules_allow-Permits [] path http_method e = cc
  rules_allow-Permits ((regexp, methods) ∷ rules) path http_method e =
      rule_allows-Permits regexp methods rules path http_method _ _ refl
        (rules_allow-Permits rules path http_method) e

  -- The rules under a name permit the request.
  pub record Allowed (rules : Option Rules) (path http_method : String) : Type 0 where
    pub given : Rules
    pub named : rules ≡ some given
    pub permits : Permits given path http_method

  config_allows_access-Allowed :
      (rules : Option Rules) (path http_method : String)
      → config_allows_access secrets rules path http_method ≡ ok true
      → Allowed rules path http_method
  unfolding config_allows_access
  config_allows_access-Allowed none path http_method e = cc
  config_allows_access-Allowed (some rules) path http_method e = record {
    given = rules;
    named = refl;
    permits = rules_allow-Permits rules path http_method e;
  }

  -- A key that is given, is no reserved name, and is a name under which the configuration object has
  -- rules, of its own or as every object inherits them.
  pub record KnownKey (config : SecurityConfig) (api_key : Option String) (key : String)
      (rules : Rules) : Type 0 where
    pub given : api_key ≡ some key
    pub not_empty : key ≢ ""
    pub not_public : key ≢ "no-auth"
    pub not_shared : key ≢ "valid-auth"
    pub has_rules : property config key ≡ some rules

  -- Why a request may pass.
  pub data Granted (config : SecurityConfig) (path http_method : String) (api_key : Option String)
      : Type 0 where
    for_all :
        Allowed (property config "no-auth") path http_method
        → Granted config path http_method api_key
    for_keys :
        (key : String) (rules : Rules)
        → KnownKey config api_key key rules
        → Allowed (property config "valid-auth") path http_method
        → Granted config path http_method api_key
    for_key :
        (key : String) (rules : Rules)
        → KnownKey config api_key key rules
        → Permits rules path http_method
        → Granted config path http_method api_key

  unreserved-KnownKey :
      (config : SecurityConfig) (key : String) (rules : Rules) (reserved : Bool)
      → is_reserved secrets key ≡ reserved
      → (if reserved then none else property config key) ≡ some rules
      → (k : String) × KnownKey config (some key) k rules
  unreserved-KnownKey config key rules true r e = cc
  unreserved-KnownKey config key rules false r e =
      let (names, shared_name) = or_false _ _ r in
      let (empty, public_name) = or_false _ _ names in
      (
        key,
        record {
          given = refl;
          not_empty = different key "" empty;
          not_public = different key "no-auth" public_name;
          not_shared = different key "valid-auth" shared_name;
          has_rules = e;
        },
      )

  key_rules-KnownKey :
      (config : SecurityConfig) (api_key : Option String) (rules : Rules)
      → key_rules secrets config api_key ≡ some rules
      → (key : String) × KnownKey config api_key key rules
  unfolding key_rules
  key_rules-KnownKey config none rules e = cc
  key_rules-KnownKey config (some key) rules e = unreserved-KnownKey config key rules _ refl e

  own_verdict : (own : Bool) → (ok (if own then granted else denied)) ≡ ok granted → own ≡ true
  own_verdict true e = refl
  own_verdict false e = cc

  key_verdict-Granted :
      (config : SecurityConfig) (path http_method : String) (api_key : Option String)
      (found : Option Rules)
      → key_rules secrets config api_key ≡ found
      → key_verdict secrets config path http_method found ≡ ok granted
      → Granted config path http_method api_key
  unfolding key_verdict config_allows_access
  key_verdict-Granted config path http_method api_key none k e = cc
  key_verdict-Granted config path http_method api_key (some rules) k e =
      let (key, known) = key_rules-KnownKey config api_key rules k in
      let (valid, v, rest) = bind-ok _ _ granted e in shared_or_own key known valid v rest
    where
      shared_or_own :
          (key : String)
          → KnownKey config api_key key rules
          → (valid : Bool)
          → config_allows_access secrets (property config "valid-auth") path http_method ≡ ok valid
          → (if valid
              then ok granted
              else (config_allows_access secrets (some rules) path http_method >>= λ own.
                  ok (if own then granted else denied)))
            ≡ ok granted
          → Granted config path http_method api_key
      shared_or_own key known true v rest =
          for_keys key rules known (config_allows_access-Allowed _ path http_method v)
      shared_or_own key known false v rest =
          let (own, o, last) = bind-ok _ _ granted rest in
          for_key key rules known
            (rules_allow-Permits rules path http_method (o ∙ ap (λ b. ok b) (own_verdict own last)))

  public_or_key :
      (config : SecurityConfig) (path http_method : String) (api_key : Option String)
      (public : Bool)
      → config_allows_access secrets (property config "no-auth") path http_method ≡ ok public
      → (if public
          then ok granted
          else key_verdict secrets config path http_method (key_rules secrets config api_key))
        ≡ ok granted
      → Granted config path http_method api_key
  public_or_key config path http_method api_key true p e =
      for_all (config_allows_access-Allowed _ path http_method p)
  public_or_key config path http_method api_key false p e =
      key_verdict-Granted config path http_method api_key _ refl e

  authorize-Granted :
      (config : SecurityConfig) (path http_method : String) (api_key : Option String)
      → authorize secrets config path http_method api_key ≡ ok granted
      → Granted config path http_method api_key
  unfolding authorize
  authorize-Granted config path http_method api_key e =
      let (public, p, rest) = bind-ok _ _ granted e in
      public_or_key config path http_method api_key public p rest

  module _ {V : Type 0} where
    -- What the middleware does with the request of `c`, whose configuration is read in `s`.
    pub data Guarded (next : Handler V S) (c : Context V S) (s : S)
        (out : Result (Unit {0}) × Context V S) : Type 0 where
      passed :
          (config : SecurityConfig)
          → (get_config secrets c.world).0 ≡ ok config
          → Granted config c.request.path c.request.http_method
              (lookup "x-mcma-api-key" c.request.headers)
          → out ≡ next (record c { world = s })
          → Guarded next c s out
      rejected :
          (status : ℕ)
          → (status ≡ unauthorized) ⊎ (status ≡ forbidden)
          → out ≡ (
            ok tt,
            with_response
                (λ r. record r { status_code = status; error_message = none })
                (record c { world = s }),
          )
          → Guarded next c s out
      threw :
          (message : String) → out ≡ (err message, record c { world = s }) → Guarded next c s out

    enforce-Guarded :
        (next : Handler V S) (c : Context V S) (s : S) (answer : Result SecurityConfig)
        (verdict : Result Verdict)
        → (get_config secrets c.world).0 ≡ answer
        → verdict_of secrets c.request answer ≡ verdict
        → Guarded next c s (enforce secrets verdict next (record c { world = s }))
    unfolding verdict_of enforce set_response_error
    enforce-Guarded next c s answer (err e) g v = threw e refl
    enforce-Guarded next c s answer (ok unknown_key) g v = rejected unauthorized (inl refl) refl
    enforce-Guarded next c s answer (ok denied) g v = rejected forbidden (inr refl) refl
    enforce-Guarded next c s (err e) (ok granted) g v = cc
    enforce-Guarded next c s (ok config) (ok granted) g v =
        passed config g
          (authorize-Granted config c.request.path c.request.http_method
            (lookup "x-mcma-api-key" c.request.headers) v)
          refl

    -- The middleware calls what follows only for a request that may pass: the rules for everyone
    -- permit it, or its key is not reserved and names something that the configuration object has, of
    -- its own or inherited by every object (such as toString), and the rules for all keys or those
    -- under that name permit it. Else it answers 401 or 403 and what follows is not called, or it throws, where the
    -- configuration cannot be read or one of its texts is no regular expression.
    pub execute-Guarded :
        (next : Handler V S) (c : Context V S)
        → Guarded next c (get_config secrets c.world).1 (execute secrets next c)
    unfolding execute
    execute-Guarded next c = enforce-Guarded next c _ _ _ refl refl
