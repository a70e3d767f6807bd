-- ===== src/Oauth/Store/Views.antt =====
-- The store as its readers see it: what a table holds, less what has expired. Deleting expired rows,
-- in bulk or when one is read, is invisible.
use mcp_postgres.Prelude.{
  All, false, ℕ, ◌+◌, ◌≤◌, ◌≡◌, refl, true, Option, none, some, String, str_eq, arith,
  if◌then◌else◌, length, Option-cases, Bool-cases, inl, inr,
}
use mcp_postgres.Oauth.Table.{
  Row, is_expired, find, live, IsKeyed, find-delete, live-delete, live-delete_expired,
  All-delete_expired, count-delete_expired, delete_expired-IsKeyed,
}
use mcp_postgres.Oauth.Model.{AuthorizationCode, AccessToken, RefreshToken}
use mcp_postgres.Oauth.Store.{
  Store, get_client, take_auth_code, get_access_token, delete_access_token, get_refresh_token,
  delete_refresh_token, prune,
}

-- Every table keeps its primary key.
pub record IsStore (s : Store) : Type 0 where
  pub clients : IsKeyed s.clients
  pub codes : IsKeyed s.auth_codes
  pub access : IsKeyed s.access_tokens
  pub refresh : IsKeyed s.refresh_tokens

abbrev pub code_at : ℕ → String → Store → Option AuthorizationCode
code_at now k s = live now (find k s.auth_codes)

abbrev pub access_at : ℕ → String → Store → Option AccessToken
access_at now k s = live now (find k s.access_tokens)

abbrev pub refresh_at : ℕ → String → Store → Option RefreshToken
refresh_at now k s = live now (find k s.refresh_tokens)

-- Two stores that no reader can tell apart from `now` on.
pub record SameFrom (now : ℕ) (s t : Store) : Type 0 where
  pub clients : (k : String) → get_client k t ≡ get_client k s
  pub codes : (later : ℕ) (k : String) → now ≤ later → code_at later k t ≡ code_at later k s
  pub access : (later : ℕ) (k : String) → now ≤ later → access_at later k t ≡ access_at later k s
  pub refresh : (later : ℕ) (k : String) → now ≤ later → refresh_at later k t ≡ refresh_at later k s

-- No row of a store has expired.
pub record IsPruned (now : ℕ) (s : Store) : Type 0 where
  pub codes : All (λ r. is_expired now r.1 ≡ false) s.auth_codes
  pub access : All (λ r. is_expired now r.1 ≡ false) s.access_tokens
  pub refresh : All (λ r. is_expired now r.1 ≡ false) s.refresh_tokens

-- After pruning no row has expired; pruning is invisible to every reader from then on, it keeps the
-- primary keys, and its count is the number of rows that are gone.
pub prune_lem :
    (now : ℕ) (s : Store)
    → IsStore s
    → let (removed, s') = prune now s in
      IsPruned now s'
      × SameFrom now s s'
      × IsStore s'
      × (removed + (length s'.auth_codes + length s'.access_tokens + length s'.refresh_tokens)
          ≡ length s.auth_codes + length s.access_tokens + length s.refresh_tokens)
unfolding prune get_client
prune_lem now s h = (
  record {
    codes = All-delete_expired now s.auth_codes;
    access = All-delete_expired now s.access_tokens;
    refresh = All-delete_expired now s.refresh_tokens;
  },
  record {
    clients = λ k. refl;
    codes = λ later k le. live-delete_expired now later k s.auth_codes le h.codes;
    access = λ later k le. live-delete_expired now later k s.access_tokens le h.access;
    refresh = λ later k le. live-delete_expired now later k s.refresh_tokens le h.refresh;
  },
  record {
    clients = h.clients;
    codes = delete_expired-IsKeyed now s.auth_codes h.codes;
    access = delete_expired-IsKeyed now s.access_tokens h.access;
    refresh = delete_expired-IsKeyed now s.refresh_tokens h.refresh;
  },
  omega (
    arith,
    count-delete_expired now s.auth_codes,
    count-delete_expired now s.access_tokens,
    count-delete_expired now s.refresh_tokens,
  ),
)

SameFrom-refl : (now : ℕ) (s : Store) → SameFrom now s s
SameFrom-refl now s = record {
  clients = λ k. refl;
  codes = λ later k h. refl;
  access = λ later k h. refl;
  refresh = λ later k h. refl;
}

access_deleted :
    (now : ℕ) (k : String) (s : Store) (r : Row AccessToken)
    → find k s.access_tokens ≡ some r
    → is_expired now r ≡ true
    → SameFrom now s (delete_access_token k s)
unfolding delete_access_token get_client
access_deleted now k s r f e = record {
  clients = λ j. refl;
  codes = λ later j h. refl;
  access = λ later j h. live-delete now later k j s.access_tokens r h f e;
  refresh = λ later j h. refl;
}

refresh_deleted :
    (now : ℕ) (k : String) (s : Store) (r : Row RefreshToken)
    → find k s.refresh_tokens ≡ some r
    → is_expired now r ≡ true
    → SameFrom now s (delete_refresh_token k s)
unfolding delete_refresh_token get_client
refresh_deleted now k s r f e = record {
  clients = λ j. refl;
  codes = λ later j h. refl;
  access = λ later j h. refl;
  refresh = λ later j h. live-delete now later k j s.refresh_tokens r h f e;
}

-- A reader gets what is there and has not expired; the deletion of an expired row is invisible.
pub get_access_token_lem :
    (now : ℕ) (k : String) (s : Store)
    → let (found, s') = get_access_token now k s in (found ≡ access_at now k s) × SameFrom now s s'
unfolding get_access_token live
get_access_token_lem now k s = elim (Option-cases (find k s.access_tokens)) [
  | inl e ↦ rw (e, get_access_token, live) (refl, SameFrom-refl now s)
  | inr (r, e) ↦ elim (Bool-cases (is_expired now r)) [
    | inl x ↦ rw (e, x, get_access_token, live) (refl, access_deleted now k s r e x)
    | inr x ↦ rw (e, x, get_access_token, live) (refl, SameFrom-refl now s)
  ]
]

pub get_refresh_token_lem :
    (now : ℕ) (k : String) (s : Store)
    → let (found, s') = get_refresh_token now k s in
      (found ≡ refresh_at now k s) × SameFrom now s s'
unfolding get_refresh_token live
get_refresh_token_lem now k s = elim (Option-cases (find k s.refresh_tokens)) [
  | inl e ↦ rw (e, get_refresh_token, live) (refl, SameFrom-refl now s)
  | inr (r, e) ↦ elim (Bool-cases (is_expired now r)) [
    | inl x ↦ rw (e, x, get_refresh_token, live) (refl, refresh_deleted now k s r e x)
    | inr x ↦ rw (e, x, get_refresh_token, live) (refl, SameFrom-refl now s)
  ]
]

-- A code is redeemed once: it is returned if it is live, and is gone for every later reader; no
-- other code is touched.
pub take_auth_code_lem :
    (now : ℕ) (k : String) (s : Store)
    → let (found, s') = take_auth_code now k s in
      (found ≡ code_at now k s)
      × ((j : String) → find j s'.auth_codes ≡ (if str_eq k j then none else find j s.auth_codes))
      × (s'.access_tokens ≡ s.access_tokens)
      × (s'.refresh_tokens ≡ s.refresh_tokens)
unfolding take_auth_code
take_auth_code_lem now k s = (refl, λ j. find-delete k j s.auth_codes, refl, refl)
