-- ===== src/Sites/Tokens.antt =====
-- The checks of a site's configuration that are made where it is compiled: `Config.Normalize` and
-- `NewValidator` of internal/jwtauth/jwtauth.go, `NewProvider` of internal/oauth/provider.go. Whether
-- the keys and the discovery document can be fetched is given.
use flow_proxy.Prelude.{
  ℕ, Bool, not, ◌||◌, ◌&&◌, List, [], ◌∷◌, Option, none, some, Text, codes, text_eq, is_empty,
  member, if◌then◌else◌, trim_space, to_lower, to_upper, has_prefix,
}
use flow_proxy.Pipeline.Headers.{canonical_header_key}
use flow_proxy.Upstream.Target.{seconds_or}
use flow_proxy.Sites.Config.{JwtConfig, OauthConfig}

pub data ExtractFrom : Type 0 where
  from_header from_cookie from_query : ExtractFrom

-- The switch of `Normalize` on the place of the token; none is an error.
unfoldable pub parse_extract_from : Text → Option ExtractFrom
unfolding to_lower trim_space
parse_extract_from raw =
    let from = to_lower (trim_space raw) in
    if text_eq from (codes "header") || is_empty from
    then some from_header
    else if text_eq from (codes "cookie")
    then some from_cookie
    else if text_eq from (codes "query")
    then some from_query
    else none

abbrev pub default_extract_name : ExtractFrom → Text
default_extract_name from_header = codes "Authorization"
default_extract_name from_cookie = codes "token"
default_extract_name from_query = codes "token"

-- The cases of the switch on the algorithm.
abbrev pub signing_algorithms : List Text
signing_algorithms =
    codes "HS256"
    ∷ codes "HS384"
    ∷ codes "HS512"
    ∷ codes "RS256"
    ∷ codes "RS384"
    ∷ codes "RS512"
    ∷ codes "ES256"
    ∷ codes "ES384"
    ∷ codes "ES512"
    ∷ codes "EdDSA"
    ∷ []

-- A normalised `Config` with the fields that it adds.
pub record TokenConfig : Type 0 where
  pub config : JwtConfig
  pub header_name : Text
  pub extract_from_parsed : ExtractFrom

abbrev pub is_hmac : Text → Bool
unfolding has_prefix
is_hmac algorithm = has_prefix algorithm (codes "HS")

-- The rest of `Normalize` once the place of the token is known.
unfoldable pub normalize_tokens : JwtConfig → ExtractFrom → Option TokenConfig
unfolding trim_space to_upper canonical_header_key
normalize_tokens c from =
    let given = trim_space c.extract_name in
    let name = if is_empty given then default_extract_name from else given in
    let typed = to_upper (trim_space c.signing_algorithm) in
    let algo = if is_empty typed then codes "RS256" else typed in
    if not (member algo signing_algorithms)
    then none
    else if is_hmac algo && is_empty (trim_space c.hmac_secret)
    then none
    else if not (is_hmac algo) && is_empty (trim_space c.jwks_url)
    then none
    else some (record {
      config = record c {
        extract_name = name;
        signing_algorithm = algo;
        issuer = trim_space c.issuer;
        audience = trim_space c.audience;
        jwks_url = trim_space c.jwks_url;
        hmac_secret = trim_space c.hmac_secret;
      };
      header_name = canonical_header_key name;
      extract_from_parsed = from;
    })

-- `Normalize` of a configuration that is in force; none is an error.
unfoldable pub normalize_jwt : JwtConfig → Option TokenConfig
unfolding parse_extract_from normalize_tokens
normalize_jwt c = elim (parse_extract_from c.extract_from) [
  | none ↦ none
  | some from ↦ normalize_tokens c from
]

-- What a validator checks tokens with: the secret, or the keys of an address and how long they are
-- kept, in nanoseconds.
pub data KeyMaterial : Type 0 where
  secret_key : Text → KeyMaterial
  jwks_keys : Text → ℕ → KeyMaterial

pub record Validator : Type 0 where
  pub tokens : TokenConfig
  pub keys : KeyMaterial

-- `NewValidator` for a configuration in force, where the first fetch of the keys is given.
unfoldable pub new_validator : (Text → Bool) → JwtConfig → Option Validator
unfolding normalize_jwt
new_validator fetches cfg = elim (normalize_jwt cfg) [
  | none ↦ none
  | some t ↦
      (if is_hmac t.config.signing_algorithm
        then some (record { tokens = t; keys = secret_key t.config.hmac_secret })
        else if fetches t.config.jwks_url
        then some (record {
          tokens = t;
          keys = jwks_keys t.config.jwks_url (seconds_or 900_000_000_000 t.config.jwks_refresh_sec);
        })
        else none)
]

pub data ProviderType : Type 0 where
  google github oidc generic : ProviderType

-- The provider's type in `compileSite`, and the switch of `NewProvider` on it.
unfoldable pub parse_provider : Text → Option ProviderType
unfolding to_lower trim_space
parse_provider raw =
    let t = to_lower (trim_space raw) in
    if is_empty t || text_eq t (codes "generic")
    then some generic
    else if text_eq t (codes "google")
    then some google
    else if text_eq t (codes "github")
    then some github
    else if text_eq t (codes "oidc")
    then some oidc
    else none

-- What a provider is made of; `issuer_url` is the address that the discovery of an OIDC provider asks.
pub record Provider : Type 0 where
  pub provider : ProviderType
  pub client_id : Text
  pub client_secret : Text
  pub redirect_url : Text
  pub scopes : List Text

-- `NewProvider` as `compileSite` calls it, which leaves the issuer's address empty: an OIDC provider
-- has an error then.
unfoldable pub new_provider : OauthConfig → Option Provider
unfolding trim_space parse_provider
new_provider cfg =
    let scopes =
      if is_empty cfg.scopes
      then codes "openid" ∷ codes "email" ∷ codes "profile" ∷ []
      else cfg.scopes in
    if is_empty (trim_space cfg.client_id)
    then none
    else if is_empty (trim_space cfg.client_secret)
    then none
    else if is_empty (trim_space cfg.callback_url)
    then none
    else elim (parse_provider cfg.provider) [
      | none ↦ none
      | some oidc ↦ none
      | some t ↦ some (record {
        provider = t;
        client_id = cfg.client_id;
        client_secret = cfg.client_secret;
        redirect_url = cfg.callback_url;
        scopes = scopes;
      })
    ]
