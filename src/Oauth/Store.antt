-- ===== src/Oauth/Store.antt =====
-- oauth/store.py: the sqlite store. Each operation is one transaction; `now` is its clock reading.
pub mod Views
use mcp_postgres.Prelude.{ℕ, ◌+◌, Bool, Option, none, some, String, [], if◌then◌else◌}
use mathlib.Core.Option
use mcp_postgres.Oauth.Table.{
  Row, Table, is_expired, find, put, delete, delete_expired, count_expired, live,
}
use mcp_postgres.Oauth.Model.{Client, AuthorizationCode, AccessToken, RefreshToken}

pub record Store : Type 0 where
  pub clients : Table Client
  pub auth_codes : Table AuthorizationCode
  pub access_tokens : Table AccessToken
  pub refresh_tokens : Table RefreshToken

abbrev pub empty : Store
empty = record { clients = []; auth_codes = []; access_tokens = []; refresh_tokens = [] }

unfoldable pub put_client : Client → Store → Store
put_client c s = record s {
  clients = put c.client_id (record { value = c; expires_at = none }) s.clients;
}

unfoldable pub get_client : String → Store → Option Client
get_client client_id s = Option.map (λ r. r.value) (find client_id s.clients)

unfoldable pub put_auth_code : AuthorizationCode → Store → Store
put_auth_code c s = record s {
  auth_codes = put c.code (record { value = c; expires_at = some c.expires_at }) s.auth_codes;
}

-- The row is read and deleted in one transaction, whether or not it can still be redeemed.
unfoldable pub take_auth_code : ℕ → String → Store → Option AuthorizationCode × Store
take_auth_code now code s =
    (live now (find code s.auth_codes), record s { auth_codes = delete code s.auth_codes })

unfoldable pub put_access_token : AccessToken → Store → Store
put_access_token t s = record s {
  access_tokens = put t.token (record { value = t; expires_at = t.expires_at }) s.access_tokens;
}

unfoldable pub delete_access_token : String → Store → Store
delete_access_token token s = record s { access_tokens = delete token s.access_tokens }

abbrev pub access_row : ℕ → String → Option (Row AccessToken) → Store → Option AccessToken × Store
access_row now token none s = (none, s)
access_row now token (some r) s =
    if is_expired now r then (none, delete_access_token token s) else (some r.value, s)

unfoldable pub get_access_token : ℕ → String → Store → Option AccessToken × Store
unfolding delete_access_token
get_access_token now token s = access_row now token (find token s.access_tokens) s

unfoldable pub put_refresh_token : RefreshToken → Store → Store
put_refresh_token t s = record s {
  refresh_tokens = put t.token (record { value = t; expires_at = t.expires_at }) s.refresh_tokens;
}

unfoldable pub delete_refresh_token : String → Store → Store
delete_refresh_token token s = record s { refresh_tokens = delete token s.refresh_tokens }

abbrev pub refresh_row :
    ℕ → String → Option (Row RefreshToken) → Store → Option RefreshToken × Store
refresh_row now token none s = (none, s)
refresh_row now token (some r) s =
    if is_expired now r then (none, delete_refresh_token token s) else (some r.value, s)

unfoldable pub get_refresh_token : ℕ → String → Store → Option RefreshToken × Store
unfolding delete_refresh_token
get_refresh_token now token s = refresh_row now token (find token s.refresh_tokens) s

-- Returns the number of rows removed.
unfoldable pub prune : ℕ → Store → ℕ × Store
prune now s = (
  count_expired now s.auth_codes
      + count_expired now s.access_tokens
      + count_expired now s.refresh_tokens,
  record s {
    auth_codes = delete_expired now s.auth_codes;
    access_tokens = delete_expired now s.access_tokens;
    refresh_tokens = delete_expired now s.refresh_tokens;
  },
)
