-- ===== src/Oauth/Gate.antt =====
-- The authorization layer as a whole: the requests that reach it, in any order, and what it takes
-- to get a token out of it.
pub mod Locked
pub mod Codes
use mcp_postgres.Prelude.{
  ℕ, ◌≡◌, ◌≢◌, refl, ap, ◌∙◌, ◌⊎◌, inl, inr, Bool, true, false, Option, none, some, List, [], ◌∷◌,
  String, str_eq, eq_iff, arith, if◌then◌else◌, Bool-cases, Option-cases, All, ◌&&◌,
}
use mcp_postgres.Oauth.Table.{find, find-nil, delete-nil, put, delete, delete_expired, live}
use mcp_postgres.Oauth.Model.{
  Client, AuthorizationParams, AuthorizationCode, AccessToken, RefreshToken, compare_digest,
  is_ascii,
}
use mcp_postgres.Oauth.Store
use mcp_postgres.Oauth.Store.{
  Store, put_client, take_auth_code, get_access_token, get_refresh_token, delete_access_token,
  delete_refresh_token, prune,
}
use mcp_postgres.Oauth.Provider.{
  Provider, authorize, pending_client, load_authorization_code, exchange_authorization_code,
  load_refresh_token, exchange_refresh_token, load_access_token, revoke_token, register_client,
  is_empty_text, Verified, verified, type_error, prune_pending, stored_token, compared_token,
  static_grant, client_of, find_parked,
}
use mcp_postgres.Oauth.Login.{login_get, login_post, check_passphrase, compared}

-- A request, with the clock readings and the random tokens of its handling. The flag `valid` of a
-- grant is the SDK's verdict on what was loaded: the client, the redirect URI, the PKCE verifier.
pub data Event : Type 0 where
  registers : Client → Event
  authorizes : (pruned created : ℕ) → String → Client → AuthorizationParams → Event
  opens_login : ℕ → String → Event
  posts_login : (supplied : String) (checked pruned minted : ℕ) (code rid : String) → Event
  redeems_code :
      (loaded : ℕ) (code : String) (valid : Bool) (now : ℕ) (access refresh : String)
      → Client
      → Event
  redeems_refresh :
      (loaded : ℕ) (token : String) (valid : Bool) (now : ℕ) (access refresh : String)
      → Client
      → List String
      → Event
  presents : ℕ → String → Event
  revokes : String → Event
  prunes : ℕ → Event
  -- the service restarts: what is not in the store is lost
  restarts : Event

abbrev pub grant_code :
    Bool → ℕ → String → String → Client → Option AuthorizationCode → Provider → Provider
grant_code valid now access refresh client none q = q
grant_code valid now access refresh client (some c) q =
    if valid then (exchange_authorization_code now access refresh client c q).1 else q

abbrev pub grant_refresh :
    Bool → ℕ → String → String → Client → List String → Option RefreshToken → Provider → Provider
grant_refresh valid now access refresh client scopes none q = q
grant_refresh valid now access refresh client scopes (some r) q =
    if valid then (exchange_refresh_token now access refresh client r scopes q).1 else q

module _ (passphrase : String) where
  unfoldable pub step : Event → Provider → Provider
  step (registers c) p = register_client c p
  step (authorizes pruned created rid c params) p = (authorize pruned created rid c params p).1
  step (opens_login now rid) p = (login_get now rid p).1
  step (posts_login supplied checked pruned minted code rid) p =
      (login_post passphrase supplied checked pruned minted code rid p).1
  step (redeems_code loaded code valid now access refresh client) p =
      let (c, q) = load_authorization_code loaded code p in
      grant_code valid now access refresh client c q
  step (redeems_refresh loaded token valid now access refresh client scopes) p =
      let (r, q) = load_refresh_token loaded token p in
      grant_refresh valid now access refresh client scopes r q
  step (presents now token) p = (load_access_token now token p).1
  step (revokes token) p = revoke_token token p
  step (prunes now) p = record p { store = (prune now p.store).1 }
  step restarts p = record p { pending = [] }

  unfoldable pub run : List Event → Provider → Provider
  run [] p = p
  run (e ∷ es) p = run es (step e p)

  -- The event is no approval: whatever is posted is not the passphrase.
  abbrev pub IsUnapproved : Event → Type 0
  IsUnapproved (posts_login supplied checked pruned minted code rid) =
      (supplied ≢ passphrase) ⊎ (passphrase ≡ "")
  IsUnapproved _ = Unit {0}
