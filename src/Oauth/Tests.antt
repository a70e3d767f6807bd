-- ===== src/Oauth/Tests.antt =====
-- Instances of the theorems on the authorization layer, on one login.
use mcp_postgres.Prelude.{
  ◌+◌, ◌≡◌, ◌≢◌, refl, true, none, some, List, [], ◌∷◌, String, str_eq, eq_iff, ltb, if◌then◌else◌,
  inl, length,
}
use mathlib.Core.Bool.{false≢true}
use mcp_postgres.Oauth.Table.{find, put, delete, delete_expired, live}
use mcp_postgres.Oauth.Model.{Client, AuthorizationParams, RefreshToken, compare_digest, is_ascii}
use mcp_postgres.Oauth.Table.{count_expired}
use mcp_postgres.Oauth.Store
use mcp_postgres.Oauth.Store.{
  Store, prune, put_client, put_auth_code, put_access_token, put_refresh_token, get_access_token,
  take_auth_code,
}
use mcp_postgres.Oauth.Store.Views.{
  IsPruned, IsStore, SameFrom, access_at, refresh_at, code_at, prune_lem,
}
use mcp_postgres.Oauth.Provider.{
  Provider, authorize, load_access_token, load_authorization_code, exchange_refresh_token,
  load_refresh_token, revoke_token, issue, verified, static_grant, pending_ttl, pending_client,
  register_client, prune_pending, fresh_parked, find_parked, drop_parked, complete_authorization,
  exchange_authorization_code,
}
use mcp_postgres.Oauth.Provider.Tokens.{
  expiry, issued, access_grant, refresh_grant, issue_lem, exchange_refresh_token_rotates,
  revoke_token_lem,
}
use mcp_postgres.Oauth.Provider.Pending.{pending_client-authorize}
use mcp_postgres.Oauth.Login.{login_get, login_post}
use mcp_postgres.Oauth.Gate.{
  Event, registers, authorizes, posts_login, presents, redeems_code, prunes, run, step,
}
use mcp_postgres.Oauth.Gate.Locked.{IsLocked, no_token_without_passphrase}
use mcp_postgres.Oauth.Gate.Codes.{code_single_use}

abbrev provider : Provider
provider = record {
  store = Store.empty;
  static_token = "s3cret";
  access_token_ttl = 3600;
  refresh_token_ttl = 2592000;
  scopes = [];
  pending = [];
}

abbrev claude : Client
claude = record { client_id = "c1"; metadata = "{}" }

abbrev asked : AuthorizationParams
asked = record {
  state = some "st";
  scopes = [];
  code_challenge = "ch";
  redirect_uri = "https://x/cb";
  redirect_uri_provided_explicitly = true;
  resource = none;
}

provider-IsLocked : IsLocked provider
provider-IsLocked = record { codes = refl; access = refl; refresh = refl }

wrong_guess : ◌≢◌ {A = String} "guess" "s3cret"
wrong_guess e = false≢true ((eq_iff "guess" "s3cret").1 e)

static_verifies :
    (load_access_token 5 "s3cret" provider).0 ≡ verified (some (static_grant "s3cret" provider))
unfolding load_access_token compare_digest
static_verifies = refl

abbrev attempts : List Event
attempts =
    registers claude
    ∷ posts_login "guess" 1 1 1 "k" "r"
    ∷ redeems_code 2 "k" true 2 "a" "b" claude
    ∷ []

-- What the runs below compute with.
evaluate : Unit {0}
unfolding find put delete delete_expired live compare_digest is_ascii register_client put_client
    authorize prune_pending fresh_parked find_parked drop_parked pending_client login_post login_get
    complete_authorization put_auth_code take_auth_code load_authorization_code
    exchange_authorization_code issue put_access_token put_refresh_token get_access_token
    load_access_token step run
evaluate = tt

-- A whole flow: the login, the code, the token, and the token presented.
flow_verifies :
    let p =
      run "s3cret"
        (authorizes 0 0 "r" claude asked
          ∷ posts_login "s3cret" 1 1 1 "k" "r"
          ∷ redeems_code 2 "k" true 2 "a" "b" claude
          ∷ [])
        provider in
    (load_access_token 3600000000 "a" p).0
    ≡ verified (some (access_grant 2 "a" "b" claude [] (some "owner") provider))
unfolding evaluate
flow_verifies = refl

still_verifies :
    (load_access_token 5 "s3cret" (run "s3cret" attempts provider)).0
    ≡ verified (some (static_grant "s3cret" provider))
unfolding evaluate
still_verifies = refl

no_token_without_passphrase_example :
    ("s3cret" ≡ provider.static_token) × (provider.static_token ≢ "")
no_token_without_passphrase_example =
    no_token_without_passphrase "s3cret" provider attempts 5 "s3cret"
      (static_grant "s3cret" provider) provider-IsLocked (tt, (inl wrong_guess, (tt, tt)))
      still_verifies

code_single_use_example :
    (load_authorization_code 9 "k"
      (run "s3cret" (prunes 4 ∷ presents 5 "x" ∷ []) (load_authorization_code 3 "k" provider).1)).0
    ≡ none
code_single_use_example =
    code_single_use "k" "s3cret" 3 9 provider (prunes 4 ∷ presents 5 "x" ∷ []) (tt, (tt, tt))

pending_client-authorize_example :
    let (rid', q) = authorize 0 0 "r" claude asked provider in
    (rid' ≡ "r")
    × ((pending_client 9 "r" q).0 ≡ (if ltb (0 + pending_ttl) 9 then none else some claude))
pending_client-authorize_example = pending_client-authorize 0 0 "r" claude asked provider 9

issue_lem_example :
    (access_at 9 "a" (issued 1 "a" "b" claude [] none provider) ≡ (
      if str_eq "a" "a"
      then (if ltb (expiry 1 3600) 9
          then none
          else some (access_grant 1 "a" "b" claude [] none provider))
      else access_at 9 "a" provider.store))
    × (refresh_at 9 "a" (issued 1 "a" "b" claude [] none provider) ≡ (
        if str_eq "b" "a"
        then (if ltb (expiry 1 2592000) 9
            then none
            else some (refresh_grant 1 "a" "b" claude [] none provider))
        else refresh_at 9 "a" provider.store))
    × (code_at 9 "a" (issued 1 "a" "b" claude [] none provider) ≡ code_at 9 "a" provider.store)
issue_lem_example = issue_lem 1 "a" "b" claude [] none provider 9 "a"

abbrev old_token : RefreshToken
old_token = record {
  token = "old";
  client_id = "c1";
  scopes = "read" ∷ [];
  expires_at = none;
  subject = none;
}

b_not_old : ◌≢◌ {A = String} "b" "old"
b_not_old e = false≢true ((eq_iff "b" "old").1 e)

exchange_refresh_token_rotates_example :
    let (t, q) = exchange_refresh_token 1 "a" "b" claude old_token [] provider in
    ((load_refresh_token 2 "old" q).0 ≡ none)
    × (refresh_at 2 "b" q.store ≡ (
        if ltb (expiry 1 2592000) 2
        then none
        else some (refresh_grant 1 "a" "b" claude ("read" ∷ []) none provider)))
    × (access_at 2 "a" q.store ≡ (
        if ltb (expiry 1 provider.access_token_ttl) 2
        then none
        else some (access_grant 1 "a" "b" claude ("read" ∷ []) none provider)))
exchange_refresh_token_rotates_example =
    exchange_refresh_token_rotates 1 2 "a" "b" claude old_token [] provider b_not_old

revoke_token_lem_example :
    (access_at 2 "a" (revoke_token "a" provider).store
      ≡ (if str_eq "a" "a" then none else access_at 2 "a" provider.store))
    × (refresh_at 2 "a" (revoke_token "a" provider).store
        ≡ (if str_eq "a" "a" then none else refresh_at 2 "a" provider.store))
revoke_token_lem_example = revoke_token_lem 2 "a" "a" provider

-- two access tokens, of which one has expired by 3
abbrev aged : Store
aged = record Store.empty {
  access_tokens =
      ("x", record { value = access_grant 1 "x" "b" claude [] none provider; expires_at = some 2 })
      ∷ (
        "y",
        record { value = access_grant 1 "y" "b" claude [] none provider; expires_at = some 9 },
      )
      ∷ [];
}

aged-IsStore : IsStore aged
unfolding find
aged-IsStore = record { clients = tt; codes = tt; access = (refl, (refl, tt)); refresh = tt }

prune_lem_example :
    let (removed, s') = prune 3 aged in
    IsPruned 3 s'
    × SameFrom 3 aged s'
    × IsStore s'
    × (removed + (length s'.auth_codes + length s'.access_tokens + length s'.refresh_tokens) ≡ 2)
prune_lem_example = prune_lem 3 aged aged-IsStore

prune_run : (prune 3 aged).0 ≡ 1
unfolding prune count_expired
prune_run = refl
