-- ===== src/Oauth/Provider/Tokens.antt =====
-- The life of a token: from the login page to its expiry, its rotation and its revocation.
use mcp_postgres.Prelude.{
  ℕ, ◌+◌, ◌*◌, ◌≤◌, ◌<◌, ◌≡◌, ◌≢◌, refl, ◌∙◌, Option, none, some, List, String, str_eq, eq_iff, ltb,
  arith, if◌then◌else◌,
}
use mcp_postgres.Oauth.Table.{live, live-put, live-find-delete}
use mcp_postgres.Oauth.Model.{Client, AccessToken, RefreshToken, second, whole_seconds, or_list}
use mcp_postgres.Oauth.Store.{
  Store, put_access_token, put_refresh_token, delete_access_token, delete_refresh_token,
}
use mcp_postgres.Oauth.Store.Views.{access_at, refresh_at, code_at, get_refresh_token_lem}
use mcp_postgres.Oauth.Provider.{
  Provider, issue, exchange_refresh_token, load_refresh_token, revoke_token,
}

-- When a token that is issued at `now` for `ttl` seconds expires.
abbrev pub expiry : ℕ → ℕ → ℕ
expiry now ttl = whole_seconds (now + ttl * second)

-- The grant lasts until then, which is within the last second of its time.
expiry_bounds :
    (now ttl : ℕ)
    → (expiry now ttl ≤ now + ttl * second) × (now + ttl * second < expiry now ttl + second)
expiry_bounds now ttl = omega arith

module _ (now : ℕ) (access refresh : String) (client : Client) (scopes : List String)
    (subject : Option String) (p : Provider) where
  abbrev pub issued : Store
  issued = (issue now access refresh client scopes subject p).1.store

  abbrev pub access_grant : AccessToken
  access_grant = record {
    token = access;
    client_id = client.client_id;
    scopes = scopes;
    expires_at = some (expiry now p.access_token_ttl);
    subject = subject;
  }

  abbrev pub refresh_grant : RefreshToken
  refresh_grant = record {
    token = refresh;
    client_id = client.client_id;
    scopes = scopes;
    expires_at = some (expiry now p.refresh_token_ttl);
    subject = subject;
  }

  -- An issued pair is valid, each token until the whole second in which its time ends, and bound to
  -- the client, the scopes and the subject; the other tokens and the codes are as they were.
  pub issue_lem :
      (later : ℕ) (k : String)
      → (access_at later k issued ≡ (
          if str_eq access k
          then (if ltb (expiry now p.access_token_ttl) later then none else some access_grant)
          else access_at later k p.store))
        × (refresh_at later k issued ≡ (
            if str_eq refresh k
            then (if ltb (expiry now p.refresh_token_ttl) later then none else some refresh_grant)
            else refresh_at later k p.store))
        × (code_at later k issued ≡ code_at later k p.store)
  unfolding issue put_access_token put_refresh_token live
  issue_lem later k = (
    live-put later access k _ p.store.access_tokens,
    live-put later refresh k _ p.store.refresh_tokens,
    refl,
  )

-- After a rotation the presented token is dead, unless the drawn one is the same; both tokens of the
-- new pair are valid until their times end, for the scopes that were asked for, or else for those of
-- the old token, and for its subject.
pub exchange_refresh_token_rotates :
    (now later : ℕ) (access refresh : String) (client : Client) (r : RefreshToken)
    (scopes : List String) (p : Provider)
    → refresh ≢ r.token
    → let (t, q) = exchange_refresh_token now access refresh client r scopes p in
      ((load_refresh_token later r.token q).0 ≡ none)
      × (refresh_at later refresh q.store ≡ (
          if ltb (expiry now p.refresh_token_ttl) later
          then none
          else some
              (refresh_grant now access refresh client (or_list scopes r.scopes) r.subject p)))
      × (access_at later access q.store ≡ (
          if ltb (expiry now p.access_token_ttl) later
          then none
          else some (access_grant now access refresh client (or_list scopes r.scopes) r.subject p)))
unfolding exchange_refresh_token load_refresh_token delete_refresh_token
exchange_refresh_token_rotates now later access refresh client r scopes p h =
    let q : Provider = record p { store = delete_refresh_token r.token p.store } in
    let out = issue_lem now access refresh client (or_list scopes r.scopes) r.subject q later in
    let s = (issue now access refresh client (or_list scopes r.scopes) r.subject q).1.store in
    (
      (get_refresh_token_lem later r.token s).0
          ∙ (out r.token).1
          ∙ ground (
            arith,
            eq_iff refresh r.token,
            eq_iff r.token r.token,
            live-find-delete later r.token r.token p.store.refresh_tokens,
          ),
      (out refresh).1 ∙ ground (arith, eq_iff refresh refresh),
      (out access).0 ∙ ground (arith, eq_iff access access),
    )

-- A revoked token is no access token and no refresh token, at any time; no other is touched.
pub revoke_token_lem :
    (later : ℕ) (token k : String) (p : Provider)
    → (access_at later k (revoke_token token p).store
        ≡ (if str_eq token k then none else access_at later k p.store))
      × (refresh_at later k (revoke_token token p).store
          ≡ (if str_eq token k then none else refresh_at later k p.store))
unfolding revoke_token delete_access_token delete_refresh_token live
revoke_token_lem later token k p = (
  live-find-delete later token k p.store.access_tokens,
  live-find-delete later token k p.store.refresh_tokens,
)
