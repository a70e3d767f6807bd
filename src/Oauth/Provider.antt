-- ===== src/Oauth/Provider.antt =====
-- oauth/provider.py: `PostgresOAuthProvider`. A method returns its result and the provider it
-- leaves. Its clock readings and the random tokens that it draws are arguments.
pub mod Tokens
pub mod Pending
use mcp_postgres.Prelude.{
  ℕ, ◌+◌, ◌*◌, Bool, Option, none, some, List, [], ◌∷◌, String, str_eq, ltb, not, if◌then◌else◌,
}
use mcp_postgres.Oauth.Table.{Row, Table, find, put, delete, delete_expired}
use mcp_postgres.Oauth.Model.{
  Client, AuthorizationParams, AuthorizationCode, AccessToken, RefreshToken, OAuthToken, second,
  whole_seconds, or_list, compare_digest,
}
use mcp_postgres.Oauth.Store
use mcp_postgres.Oauth.Store.{Store}

abbrev pub auth_code_ttl : ℕ
auth_code_ttl = 300 * second

abbrev pub pending_ttl : ℕ
pending_ttl = 600 * second

abbrev pub static_client_id : String
static_client_id = "static-token"

abbrev pub subject : String
subject = "owner"

-- `_Pending`
pub record Parked : Type 0 where
  pub client : Client
  pub params : AuthorizationParams
  pub created_at : ℕ

pub record Provider : Type 0 where
  pub store : Store
  pub static_token : String
  pub access_token_ttl : ℕ
  pub refresh_token_ttl : ℕ
  pub scopes : List String
  -- `_pending`, by request id
  pub pending : List (String × Parked)

unfoldable pub find_parked : String → List (String × Parked) → Option Parked
find_parked rid [] = none
find_parked rid ((k, p) ∷ ps) = if str_eq k rid then some p else find_parked rid ps

-- `del self._pending[rid]`
unfoldable pub drop_parked : String → List (String × Parked) → List (String × Parked)
drop_parked rid [] = []
drop_parked rid ((k, p) ∷ ps) =
    let rest = drop_parked rid ps in if str_eq k rid then rest else (k, p) ∷ rest

-- `p.created_at < now - PENDING_TTL`
abbrev pub is_stale : ℕ → Parked → Bool
is_stale now p = ltb (p.created_at + pending_ttl) now

unfoldable pub fresh_parked : ℕ → List (String × Parked) → List (String × Parked)
fresh_parked now [] = []
fresh_parked now ((k, p) ∷ ps) =
    let rest = fresh_parked now ps in if is_stale now p then rest else (k, p) ∷ rest

unfoldable pub prune_pending : ℕ → Provider → Provider
unfolding fresh_parked
prune_pending now p = record p { pending = fresh_parked now p.pending }

unfoldable pub register_client : Client → Provider → Provider
register_client c p = record p { store = Store.put_client c p.store }

-- `pruned` and `created` are its two clock readings, `rid` the id it draws; it redirects to the
-- login page of that id.
unfoldable pub authorize :
    (pruned created : ℕ) → String → Client → AuthorizationParams → Provider → String × Provider
unfolding prune_pending
authorize pruned created rid client params p =
    let q = prune_pending pruned p in
    let parked : Parked = record { client = client; params = params; created_at = created } in
    (rid, record q { pending = (rid, parked) ∷ drop_parked rid q.pending })

abbrev pub client_of : Option Parked → Option Client
client_of none = none
client_of (some p) = some p.client

unfoldable pub pending_client : ℕ → String → Provider → Option Client × Provider
unfolding prune_pending
pending_client now rid p = let q = prune_pending now p in (client_of (find_parked rid q.pending), q)

abbrev pub minted : ℕ → String → List String → Parked → AuthorizationCode
minted now code scopes p = record {
  code = code;
  scopes = or_list p.params.scopes scopes;
  expires_at = now + auth_code_ttl;
  client_id = p.client.client_id;
  code_challenge = p.params.code_challenge;
  redirect_uri = p.params.redirect_uri;
  redirect_uri_provided_explicitly = p.params.redirect_uri_provided_explicitly;
  resource = p.params.resource;
  subject = some subject;
}

-- What the browser is sent to: the client's `redirect_uri` with the code and the state.
pub record Redirect : Type 0 where
  pub redirect_uri : String
  pub code : String
  pub state : Option String

abbrev pub complete_parked :
    ℕ → String → String → Option Parked → Provider → Option Redirect × Provider
complete_parked now code rid none q = (none, q)
complete_parked now code rid (some p) q = (
  some (record { redirect_uri = p.params.redirect_uri; code = code; state = p.params.state }),
  record q {
    pending = drop_parked rid q.pending;
    store = Store.put_auth_code (minted now code q.scopes p) q.store;
  },
)

unfoldable pub complete_authorization :
    (pruned now : ℕ) (code rid : String) → Provider → Option Redirect × Provider
unfolding prune_pending
complete_authorization pruned now code rid p =
    let q = prune_pending pruned p in complete_parked now code rid (find_parked rid q.pending) q

unfoldable pub load_authorization_code : ℕ → String → Provider → Option AuthorizationCode × Provider
load_authorization_code now code p =
    let (found, s) = Store.take_auth_code now code p.store in (found, record p { store = s })

-- `access` and `refresh` are the tokens that it draws.
unfoldable pub issue :
    (now : ℕ) (access refresh : String)
    → Client
    → List String
    → Option String
    → Provider
    → OAuthToken × Provider
issue now access refresh client scopes subject p =
    let a : AccessToken = record {
      token = access;
      client_id = client.client_id;
      scopes = scopes;
      expires_at = some (whole_seconds (now + p.access_token_ttl * second));
      subject = subject;
    } in
    let r : RefreshToken = record {
      token = refresh;
      client_id = client.client_id;
      scopes = scopes;
      expires_at = some (whole_seconds (now + p.refresh_token_ttl * second));
      subject = subject;
    } in
    (
      record {
        access_token = access;
        expires_in = p.access_token_ttl;
        scope = scopes;
        refresh_token = refresh;
      },
      record p { store = Store.put_refresh_token r (Store.put_access_token a p.store) },
    )

unfoldable pub exchange_authorization_code :
    (now : ℕ) (access refresh : String)
    → Client
    → AuthorizationCode
    → Provider
    → OAuthToken × Provider
unfolding issue
exchange_authorization_code now access refresh client c =
    issue now access refresh client c.scopes c.subject

unfoldable pub load_refresh_token : ℕ → String → Provider → Option RefreshToken × Provider
load_refresh_token now token p =
    let (found, s) = Store.get_refresh_token now token p.store in (found, record p { store = s })

-- The presented refresh token is deleted before new tokens are issued.
unfoldable pub exchange_refresh_token :
    (now : ℕ) (access refresh : String)
    → Client
    → RefreshToken
    → List String
    → Provider
    → OAuthToken × Provider
unfolding issue
exchange_refresh_token now access refresh client r scopes p =
    issue now access refresh client (or_list scopes r.scopes) r.subject
      (record p { store = Store.delete_refresh_token r.token p.store })

abbrev pub is_empty_text : String → Bool
is_empty_text s = str_eq s ""

-- A result, or the TypeError of `hmac.compare_digest`.
pub data Verified : Type 0 where
  verified : Option AccessToken → Verified
  type_error : Verified

abbrev pub static_grant : String → Provider → AccessToken
static_grant token p = record {
  token = token;
  client_id = static_client_id;
  scopes = p.scopes;
  expires_at = none;
  subject = some subject;
}

abbrev pub stored_token : ℕ → String → Provider → Verified × Provider
stored_token now token p =
    let (found, s) = Store.get_access_token now token p.store in
    (verified found, record p { store = s })

abbrev pub compared_token : ℕ → String → Option Bool → Provider → Verified × Provider
compared_token now token none p = (type_error, p)
compared_token now token (some same) p =
    if same then (verified (some (static_grant token p)), p) else stored_token now token p

unfoldable pub load_access_token : ℕ → String → Provider → Verified × Provider
load_access_token now token p =
    if is_empty_text p.static_token
    then stored_token now token p
    else compared_token now token (compare_digest token p.static_token) p

unfoldable pub revoke_token : String → Provider → Provider
revoke_token token p = record p {
  store = Store.delete_refresh_token token (Store.delete_access_token token p.store);
}
