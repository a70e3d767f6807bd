-- ===== src/Oauth/Gate/Locked.antt =====
-- A provider that never issued anything stays so, and knows the static token alone, while nobody
-- posts the passphrase.
use mcp_postgres.Prelude.{
  ℕ, ◌≡◌, ◌≢◌, refl, ap, ◌∙◌, ◌⊎◌, inl, inr, Bool, true, false, Option, none, some, List, [], ◌∷◌,
  String, eq_iff, arith, Bool-cases, All,
}
use mcp_postgres.Oauth.Table.{find, find-nil, delete-nil, delete, delete_expired, live}
use mcp_postgres.Oauth.Model.{Client, AccessToken, compare_digest}
use mcp_postgres.Oauth.Store.{
  Store, put_client, take_auth_code, get_access_token, get_refresh_token, delete_access_token,
  delete_refresh_token, prune,
}
use mcp_postgres.Oauth.Provider.{
  Provider, authorize, pending_client, load_authorization_code, load_refresh_token,
  load_access_token, revoke_token, register_client, is_empty_text, verified, type_error,
  prune_pending, stored_token, compared_token, static_grant, client_of, find_parked,
}
use mcp_postgres.Oauth.Login.{login_get, login_post, check_passphrase, compared}
use mcp_postgres.Oauth.Gate.{
  Event, registers, authorizes, opens_login, posts_login, redeems_code, redeems_refresh, presents,
  revokes, prunes, restarts, grant_code, grant_refresh, step, run, IsUnapproved,
}

-- No code and no token was ever issued.
pub record IsLocked (p : Provider) : Type 0 where
  pub codes : p.store.auth_codes ≡ []
  pub access : p.store.access_tokens ≡ []
  pub refresh : p.store.refresh_tokens ≡ []

abbrev pub SameToken : Provider → Provider → Type 0
SameToken p q = q.static_token ≡ p.static_token

compare_digest_sound : (a b : String) → compare_digest a b ≡ some true → a ≡ b
unfolding compare_digest
compare_digest_sound a b h = ground (arith, eq_iff a b)

live-none {ℓ} : {A : Type ℓ} (now : ℕ) → live {A = A} now none ≡ none
unfolding live
live-none now = refl

abbrev Keeps : Provider → Provider → Type 0
Keeps p q = IsLocked q × SameToken p q

module _ (p : Provider) (h : IsLocked p) where
  -- nothing there is touched
  same_store : (q : Provider) → q.store ≡ p.store → q.static_token ≡ p.static_token → Keeps p q
  same_store q s t = (
    record {
      codes = ap (λ (x : Store). x.auth_codes) s ∙ h.codes;
      access = ap (λ (x : Store). x.access_tokens) s ∙ h.access;
      refresh = ap (λ (x : Store). x.refresh_tokens) s ∙ h.refresh;
    },
    t,
  )

  redeem-Keeps :
      (loaded : ℕ) (code : String) (valid : Bool) (now : ℕ) (access refresh : String)
      (client : Client)
      → let (c, q) = load_authorization_code loaded code p in
        Keeps p (grant_code valid now access refresh client c q)
  unfolding load_authorization_code take_auth_code
  redeem-Keeps loaded code valid now access refresh client =
      rw
        (ap (λ t. live loaded (find code t)) h.codes
          ∙ ap (live loaded) (find-nil code)
          ∙ live-none loaded)
        (
          record {
            codes = ap (delete code) h.codes ∙ delete-nil code;
            access = h.access;
            refresh = h.refresh;
          },
          refl,
        )

  refresh-Keeps :
      (loaded : ℕ) (token : String) (valid : Bool) (now : ℕ) (access refresh : String)
      (client : Client) (scopes : List String)
      → let (r, q) = load_refresh_token loaded token p in
        Keeps p (grant_refresh valid now access refresh client scopes r q)
  unfolding load_refresh_token get_refresh_token
  refresh-Keeps loaded token valid now access refresh client scopes =
      rw (ap (find token) h.refresh ∙ find-nil token, get_refresh_token) (same_store p refl refl)

  stored_none : (now : ℕ) (token : String) → stored_token now token p ≡ (verified none, p)
  unfolding get_access_token
  stored_none now token = rw (ap (find token) h.access ∙ find-nil token, get_access_token)

  -- What the static token does not match is refused.
  compared_cases :
      (now : ℕ) (token : String) (o : Option Bool)
      → (compared_token now token o p ≡ (type_error, p))
        ⊎ ((o ≡ some true)
            × (compared_token now token o p ≡ (verified (some (static_grant token p)), p)))
        ⊎ (compared_token now token o p ≡ (verified none, p))
  compared_cases now token none = inl refl
  compared_cases now token (some true) = inr (inl (refl, refl))
  compared_cases now token (some false) = inr (inr (stored_none now token))

  present_cases :
      (now : ℕ) (token : String)
      → (load_access_token now token p ≡ (type_error, p))
        ⊎ ((token ≡ p.static_token)
            × (p.static_token ≢ "")
            × (load_access_token now token p ≡ (verified (some (static_grant token p)), p)))
        ⊎ (load_access_token now token p ≡ (verified none, p))
  unfolding load_access_token
  present_cases now token = elim (Bool-cases (is_empty_text p.static_token)) [
    | inl e ↦ rw e (inr (inr (stored_none now token)))
    | inr e ↦ rw e (elim (compared_cases now token (compare_digest token p.static_token)) [
      | inl x ↦ inl x
      | inr (inl (m, x)) ↦ inr (
          inl
            (compare_digest_sound _ _ m, (λ empty. cc (e, (eq_iff p.static_token "").1 empty)), x))
      | inr (inr x) ↦ inr (inr x)
    ])
  ]

  present-Keeps : (now : ℕ) (token : String) → Keeps p (load_access_token now token p).1
  present-Keeps now token = elim (present_cases now token) [
    | inl x ↦ rw x (same_store p refl refl)
    | inr (inl (_, _, x)) ↦ rw x (same_store p refl refl)
    | inr (inr x) ↦ rw x (same_store p refl refl)
  ]

  check-Keeps :
      (passphrase supplied : String) (pruned minted : ℕ) (code rid : String) (c : Option Client)
      → (supplied ≢ passphrase) ⊎ (passphrase ≡ "")
      → Keeps p (check_passphrase passphrase supplied pruned minted code rid c p).1
  check-Keeps passphrase supplied pruned minted code rid none u = same_store p refl refl
  check-Keeps passphrase supplied pruned minted code rid (some c) u =
      elim (Bool-cases (is_empty_text passphrase)) [
        | inl e ↦ rw e (same_store p refl refl)
        | inr e ↦ rw e (
            wrong (compare_digest supplied passphrase) (λ m. elim u [
              | inl differ ↦ differ (compare_digest_sound supplied passphrase m)
              | inr empty ↦ cc (e, (eq_iff passphrase "").1 empty)
            ]))
      ]
    where
      wrong : (o : Option Bool) → o ≢ some true → Keeps p (compared pruned minted code rid o p).1
      wrong none m = same_store p refl refl
      wrong (some true) m = absurd (m refl)
      wrong (some false) m = same_store p refl refl

post-Keeps :
    (p : Provider) (h : IsLocked p) (passphrase supplied : String) (checked pruned minted : ℕ)
    (code rid : String)
    → (supplied ≢ passphrase) ⊎ (passphrase ≡ "")
    → Keeps p (login_post passphrase supplied checked pruned minted code rid p).1
unfolding login_post pending_client prune_pending
post-Keeps p h passphrase supplied checked pruned minted code rid u =
    let q = prune_pending checked p in
    check-Keeps q (record { codes = h.codes; access = h.access; refresh = h.refresh }) passphrase
      supplied pruned minted code rid (client_of (find_parked rid q.pending)) u

module _ (passphrase : String) (p : Provider) (h : IsLocked p) where
  step-IsLocked :
      (e : Event)
      → IsUnapproved passphrase e
      → IsLocked (step passphrase e p) × SameToken p (step passphrase e p)
  unfolding step
  step-IsLocked (registers c) u =
      unfold register_client put_client in
      (record { codes = h.codes; access = h.access; refresh = h.refresh }, refl)
  step-IsLocked (authorizes pruned created rid c params) u =
      unfold authorize prune_pending in same_store p h _ refl refl
  step-IsLocked (opens_login now rid) u =
      unfold login_get pending_client prune_pending in same_store p h _ refl refl
  step-IsLocked (posts_login supplied checked pruned minted code rid) u =
      post-Keeps p h passphrase supplied checked pruned minted code rid u
  step-IsLocked (redeems_code loaded code valid now access refresh client) u =
      redeem-Keeps p h loaded code valid now access refresh client
  step-IsLocked (redeems_refresh loaded token valid now access refresh client scopes) u =
      refresh-Keeps p h loaded token valid now access refresh client scopes
  step-IsLocked (presents now token) u = present-Keeps p h now token
  step-IsLocked (revokes token) u =
      unfold revoke_token delete_access_token delete_refresh_token delete in
      (record { codes = h.codes; access = rw h.access; refresh = rw h.refresh }, refl)
  step-IsLocked (prunes now) u =
      unfold prune delete_expired in
      (record { codes = rw h.codes; access = rw h.access; refresh = rw h.refresh }, refl)
  step-IsLocked restarts u = same_store p h _ refl refl

run-Keeps :
    (passphrase : String) (es : List Event) (p : Provider)
    → IsLocked p
    → All (IsUnapproved passphrase) es
    → Keeps p (run passphrase es p)
unfolding run
run-Keeps passphrase [] p h u = same_store p h p refl refl
run-Keeps passphrase (e ∷ es) p h u =
    let (locked, same) = step-IsLocked passphrase p h e u.0 in
    let (end, same') = run-Keeps passphrase es (step passphrase e p) locked u.1 in
    (end, same' ∙ same)

-- From a provider that has issued nothing, after any requests of which none posts the passphrase
-- (an empty one is never accepted), a token that verifies is the static token, which is not empty.
pub no_token_without_passphrase :
    (passphrase : String) (p : Provider) (es : List Event) (now : ℕ) (token : String)
    (a : AccessToken)
    → IsLocked p
    → All (IsUnapproved passphrase) es
    → (load_access_token now token (run passphrase es p)).0 ≡ verified (some a)
    → (token ≡ p.static_token) × (p.static_token ≢ "")
no_token_without_passphrase passphrase p es now token a h u v =
    let (locked, same) = run-Keeps passphrase es p h u in
    elim (present_cases (run passphrase es p) locked now token) [
      | inl x ↦ cc (v, x)
      | inr (inl (t, n, x)) ↦ (t ∙ same, λ e. n (same ∙ e))
      | inr (inr x) ↦ cc (v, x)
    ]
