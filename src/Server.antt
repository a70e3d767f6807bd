-- ===== src/Server.antt =====
-- server.py: what stands between a request and the MCP application.
--
-- Bytes are code points below 256. The codec of a header, the validation of an issuer, the parser of
-- a URL and the guard of the SDK are parameters; a configuration is the fields that are read here.
pub mod Front
mod Tests
use mcp_postgres.Prelude.{
  ℕ, ◌+◌, Bool, true, false, not, ◌&&◌, Option, none, some, String, str_eq, List, [], ◌∷◌, ◌++◌,
  map, leb, is_nil, ◌==◌, if◌then◌else◌,
}
use mcp_postgres.PyText.{Text, lit, text_eq}
use mcp_postgres.Priv.{rstrip_slash}

pub record Config : Type 0 where
  pub bind : Text
  pub path : Text
  pub token : Text
  pub oauth_enabled : Bool
  pub public_url : Text

-- an ASGI scope; a type or a path that is missing is empty
pub record Scope : Type 0 where
  pub type_name : String
  pub path : Text
  pub headers : List (Text × Text)

-- `bytes.lower()`
abbrev pub lower_byte : ℕ → ℕ
lower_byte c = if leb 65 c && leb c 90 then c + 32 else c

abbrev pub lower : Text → Text
lower = map lower_byte

unfoldable pub starts_with : Text → Text → Bool
starts_with t [] = true
starts_with [] (c ∷ p) = false
starts_with (d ∷ t) (c ∷ p) = d == c && starts_with t p

-- `{k.lower(): v for k, v in headers}.get(name, b"")`: the last header of a name counts.
unfoldable pub header : Text → List (Text × Text) → Text → Text
header name [] found = found
header name ((k, v) ∷ hs) found = header name hs (if text_eq (lower k) name then v else found)

-- what the middleware does with a request
pub data Passage : Type 0 where
  unauthorized to_app : Passage

module _ (decode : Text → Text) where
  unfoldable pub bearer : Text → Text → Scope → Passage
  unfolding starts_with header
  bearer token protected_path scope =
      if str_eq scope.type_name "http"
        && (not (is_nil token) && starts_with scope.path protected_path)
      then (if text_eq (decode (header (lit "authorization") scope.headers []))
            (lit "Bearer " ++ token)
          then to_app
          else unauthorized)
      else to_app

-- `AuthSettings`
pub record AuthSettings : Type 0 where
  pub issuer_url : Text
  pub resource_server_url : Text

-- `none` is the static bearer token alone; `valid` is whether the two URLs are accepted. The provider
-- that goes with the settings is the one of Oauth/Provider.antt.
unfoldable pub resolve_oauth : (Text → Text → Bool) → Config → Option AuthSettings
resolve_oauth valid cfg =
    let issuer = rstrip_slash cfg.public_url in
    let resource = issuer ++ cfg.path in
    if not cfg.oauth_enabled
    then none
    else if is_nil cfg.public_url
    then none
    else if valid issuer resource
    then some (record { issuer_url = issuer; resource_server_url = resource })
    else none

-- the scheme and the host of a URL that has one
pub record Location : Type 0 where
  pub scheme : Text
  pub hostname : Text

pub record TransportSecurity : Type 0 where
  pub allowed_hosts : List Text
  pub allowed_origins : List Text

abbrev pub any_port : Text → Text
any_port host = host ++ lit ":*"

abbrev pub is_local : Text → Bool
is_local bind =
    if text_eq bind (lit "127.0.0.1")
    then true
    else if text_eq bind (lit "localhost")
    then true
    else text_eq bind (lit "::1")

abbrev pub bound_hosts : Text → List Text
bound_hosts bind = if not (is_nil bind) && not (is_local bind) then any_port bind ∷ [] else []

abbrev pub public_hosts : Option Location → List Text
public_hosts none = []
public_hosts (some l) = l.hostname ∷ any_port l.hostname ∷ []

abbrev pub public_origins : Option Location → List Text
public_origins none = []
public_origins (some l) =
    let origin = l.scheme ++ (lit "://" ++ l.hostname) in origin ∷ any_port origin ∷ []

unfoldable pub transport_security : (Text → Option Location) → Config → TransportSecurity
transport_security urlparse cfg = record {
  allowed_hosts =
      lit "127.0.0.1:*"
      ∷ lit "localhost:*"
      ∷ lit "[::1]:*"
      ∷ (bound_hosts cfg.bind ++ public_hosts (urlparse cfg.public_url));
  allowed_origins =
      lit "http://127.0.0.1:*"
      ∷ lit "http://localhost:*"
      ∷ lit "http://[::1]:*"
      ∷ public_origins (urlparse cfg.public_url);
}

module _ (decode : Text → Text) (valid : Text → Text → Bool)
    (sdk : AuthSettings → Scope → Passage) where
  -- The application as `main` puts it together: with OAuth the SDK's guard, and the middleware
  -- without.
  unfoldable pub front : Config → Scope → Passage
  unfolding bearer resolve_oauth
  front cfg scope = elim (resolve_oauth valid cfg) [
    | none ↦ bearer decode cfg.token cfg.path scope
    | some settings ↦ sdk settings scope
  ]
