-- ===== src/Oauth/Login/Flow.antt =====
-- The operator's approval: what the right passphrase brings, and that it works once.
use mcp_postgres.Prelude.{ℕ, String}
use mcp_postgres.Oauth.Store.{put_auth_code}
use mcp_postgres.Oauth.Provider.{Provider, Parked, Redirect, drop_parked, fresh_parked, minted}

abbrev pub redirect_of : String → Parked → Redirect
redirect_of code k = record {
  redirect_uri = k.params.redirect_uri;
  code = code;
  state = k.params.state;
}

-- the provider that an approved request leaves
abbrev approved : (checked pruned now : ℕ) → String → String → Parked → Provider → Provider
approved checked pruned now code rid k q = record q {
  pending = drop_parked rid (fresh_parked pruned (fresh_parked checked q.pending));
  store = put_auth_code (minted now code q.scopes k) q.store;
}
