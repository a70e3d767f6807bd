-- ===== src/Oauth/Gate/Codes.antt =====
-- An authorization code is redeemed once, whatever other requests come in between.
use mcp_postgres.Prelude.{
  ℕ, ◌≡◌, ◌≢◌, refl, ap, ◌∙◌, Bool, true, false, Option, none, some, List, [], ◌∷◌, String, eq_iff,
  arith, Bool-cases, inl, inr, All,
}
use mcp_postgres.Oauth.Table.{Table, find, live, find-put, find-delete, find-delete_expired-none}
use mcp_postgres.Oauth.Model.{Client, AuthorizationCode, RefreshToken, compare_digest}
use mcp_postgres.Oauth.Store.{
  Store, put_client, put_auth_code, take_auth_code, put_access_token, put_refresh_token,
  get_access_token, get_refresh_token, delete_access_token, delete_refresh_token, prune,
}
use mcp_postgres.Oauth.Provider.{
  Provider, Parked, authorize, pending_client, load_authorization_code, exchange_authorization_code,
  load_refresh_token, exchange_refresh_token, load_access_token, revoke_token, register_client,
  is_empty_text, prune_pending, complete_authorization, complete_parked, compared_token,
}
use mcp_postgres.Oauth.Login.{login_get, login_post, check_passphrase, compared}
use mcp_postgres.Oauth.Gate.{
  Event, registers, authorizes, opens_login, posts_login, redeems_code, redeems_refresh, presents,
  revokes, prunes, restarts, grant_code, grant_refresh, step, run,
}

abbrev codes_of : Provider → Table AuthorizationCode
codes_of p = p.store.auth_codes

-- The event does not draw this code.
abbrev pub IsOther : String → Event → Type 0
IsOther code (posts_login supplied checked pruned minted drawn rid) = drawn ≢ code
IsOther code _ = Unit {0}

codes-exchange_code :
    (valid : Bool) (now : ℕ) (access refresh : String) (client : Client)
    (c : Option AuthorizationCode) (q : Provider)
    → codes_of (grant_code valid now access refresh client c q) ≡ codes_of q
unfolding exchange_authorization_code put_access_token put_refresh_token
codes-exchange_code valid now access refresh client none q = refl
codes-exchange_code true now access refresh client (some c) q = refl
codes-exchange_code false now access refresh client (some c) q = refl

codes-exchange_refresh :
    (valid : Bool) (now : ℕ) (access refresh : String) (client : Client) (scopes : List String)
    (r : Option RefreshToken) (q : Provider)
    → codes_of (grant_refresh valid now access refresh client scopes r q) ≡ codes_of q
unfolding exchange_refresh_token put_access_token put_refresh_token delete_refresh_token
codes-exchange_refresh valid now access refresh client scopes none q = refl
codes-exchange_refresh true now access refresh client scopes (some r) q = refl
codes-exchange_refresh false now access refresh client scopes (some r) q = refl

codes-get_access :
    (now : ℕ) (k : String) (s : Store) → (get_access_token now k s).1.auth_codes ≡ s.auth_codes
unfolding get_access_token
codes-get_access now k s = ground arith

codes-get_refresh :
    (now : ℕ) (k : String) (s : Store) → (get_refresh_token now k s).1.auth_codes ≡ s.auth_codes
unfolding get_refresh_token
codes-get_refresh now k s = ground arith

codes-load_refresh :
    (now : ℕ) (k : String) (p : Provider) → codes_of (load_refresh_token now k p).1 ≡ codes_of p
unfolding load_refresh_token
codes-load_refresh now k p = codes-get_refresh now k p.store

codes-present :
    (now : ℕ) (token : String) (p : Provider)
    → codes_of (load_access_token now token p).1 ≡ codes_of p
unfolding load_access_token
codes-present now token p = elim (Bool-cases (is_empty_text p.static_token)) [
  | inl e ↦ rw e (codes-get_access now token p.store)
  | inr e ↦ rw e (after_compare (compare_digest token p.static_token))
]
  where
    after_compare : (o : Option Bool) → codes_of (compared_token now token o p).1 ≡ codes_of p
    after_compare none = refl
    after_compare (some true) = refl
    after_compare (some false) = codes-get_access now token p.store

module _ (code : String) where
  abbrev IsGone : Provider → Type 0
  IsGone p = find code (codes_of p) ≡ none

  complete-IsGone :
      (now : ℕ) (drawn rid : String) (o : Option Parked) (q : Provider)
      → drawn ≢ code
      → IsGone q
      → IsGone (complete_parked now drawn rid o q).1
  unfolding put_auth_code
  complete-IsGone now drawn rid none q d g = g
  complete-IsGone now drawn rid (some k) q d g =
      find-put drawn code _ q.store.auth_codes ∙ ground (arith, eq_iff drawn code)

  check-IsGone :
      (passphrase supplied : String) (pruned minted : ℕ) (drawn rid : String) (c : Option Client)
      (q : Provider)
      → drawn ≢ code
      → IsGone q
      → IsGone (check_passphrase passphrase supplied pruned minted drawn rid c q).1
  unfolding complete_authorization
  check-IsGone passphrase supplied pruned minted drawn rid none q d g = g
  check-IsGone passphrase supplied pruned minted drawn rid (some c) q d g =
      elim (Bool-cases (is_empty_text passphrase)) [
        | inl e ↦ rw e g
        | inr e ↦ rw e (after_compare (compare_digest supplied passphrase))
      ]
    where
      after_compare : (o : Option Bool) → IsGone (compared pruned minted drawn rid o q).1
      after_compare none = g
      after_compare (some false) = g
      after_compare (some true) = complete-IsGone minted drawn rid _ (prune_pending pruned q) d g

  loaded-IsGone :
      (loaded : ℕ) (k : String) (p : Provider)
      → IsGone p
      → IsGone (load_authorization_code loaded k p).1
  unfolding load_authorization_code take_auth_code
  loaded-IsGone loaded k p g = find-delete k code p.store.auth_codes ∙ ground arith

  step-IsGone :
      (passphrase : String) (p : Provider) (e : Event)
      → IsOther code e
      → IsGone p
      → IsGone (step passphrase e p)
  unfolding step
  step-IsGone passphrase p (registers c) d g = unfold register_client put_client in g
  step-IsGone passphrase p (authorizes pruned created rid c params) d g = unfold authorize in g
  step-IsGone passphrase p (opens_login now rid) d g = unfold login_get pending_client in g
  step-IsGone passphrase p (posts_login supplied checked pruned minted drawn rid) d g =
      unfold login_post pending_client in
      check-IsGone passphrase supplied pruned minted drawn rid _ (prune_pending checked p) d g
  step-IsGone passphrase p (redeems_code loaded k valid now access refresh client) d g =
      let (c, q) = load_authorization_code loaded k p in
      ap (find code) (codes-exchange_code valid now access refresh client c q)
      ∙ loaded-IsGone loaded k p g
  step-IsGone passphrase p (redeems_refresh loaded k valid now access refresh client scopes) d g =
      let (r, q) = load_refresh_token loaded k p in
      ap (find code) (
        codes-exchange_refresh valid now access refresh client scopes r q
        ∙ codes-load_refresh loaded k p)
      ∙ g
  step-IsGone passphrase p (presents now token) d g = ap (find code) (codes-present now token p) ∙ g
  step-IsGone passphrase p (revokes token) d g =
      unfold revoke_token delete_access_token delete_refresh_token in g
  step-IsGone passphrase p (prunes now) d g =
      unfold prune in find-delete_expired-none now code p.store.auth_codes g
  step-IsGone passphrase p restarts d g = g

  run-IsGone :
      (passphrase : String) (es : List Event) (p : Provider)
      → All (IsOther code) es
      → IsGone p
      → IsGone (run passphrase es p)
  unfolding run
  run-IsGone passphrase [] p d g = g
  run-IsGone passphrase (e ∷ es) p d g =
      run-IsGone passphrase es (step passphrase e p) d.1 (step-IsGone passphrase p e d.0 g)

  redeemed-IsGone : (loaded : ℕ) (p : Provider) → IsGone (load_authorization_code loaded code p).1
  unfolding load_authorization_code take_auth_code
  redeemed-IsGone loaded p =
      find-delete code code p.store.auth_codes ∙ ground (arith, eq_iff code code)

  -- Once a code was presented, valid or not, it loads nothing more: after any further requests that
  -- do not draw the same code again.
  pub code_single_use :
      (passphrase : String) (loaded later : ℕ) (p : Provider) (es : List Event)
      → All (IsOther code) es
      → let q = (load_authorization_code loaded code p).1 in
        (load_authorization_code later code (run passphrase es q)).0 ≡ none
  unfolding load_authorization_code take_auth_code live
  code_single_use passphrase loaded later p es d = ap (live later) (
      run-IsGone passphrase es (load_authorization_code loaded code p).1 d
        (redeemed-IsGone loaded p))
