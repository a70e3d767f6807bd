-- ===== src/Oauth/Model.antt =====
-- The objects that the provider and the store pass about: the SDK's models, and the times.
use mcp_postgres.Prelude.{
  ℕ, ◌*◌, ◌/◌, Bool, true, ◌&&◌, Option, none, some, List, [], ◌∷◌, String, str_eq, leb,
  if◌then◌else◌,
}
use Prim.Native.Char.{code}

-- microseconds
abbrev pub second : ℕ
second = 1000000

-- `int(t)`, as a number of ticks
abbrev pub whole_seconds : ℕ → ℕ
whole_seconds t = t / second * second

-- a registered client: its id, and the rest of the registration
pub record Client : Type 0 where
  pub client_id : String
  pub metadata : String

-- what the client asked for at `/authorize`
pub record AuthorizationParams : Type 0 where
  pub state : Option String
  pub scopes : List String
  pub code_challenge : String
  pub redirect_uri : String
  pub redirect_uri_provided_explicitly : Bool
  pub resource : Option String

pub record AuthorizationCode : Type 0 where
  pub code : String
  pub scopes : List String
  pub expires_at : ℕ
  pub client_id : String
  pub code_challenge : String
  pub redirect_uri : String
  pub redirect_uri_provided_explicitly : Bool
  pub resource : Option String
  pub subject : Option String

pub record AccessToken : Type 0 where
  pub token : String
  pub client_id : String
  pub scopes : List String
  pub expires_at : Option ℕ
  pub subject : Option String

pub record RefreshToken : Type 0 where
  pub token : String
  pub client_id : String
  pub scopes : List String
  pub expires_at : Option ℕ
  pub subject : Option String

pub record OAuthToken : Type 0 where
  pub access_token : String
  pub expires_in : ℕ
  pub scope : List String
  pub refresh_token : String

-- `a or b` on lists
abbrev pub or_list {ℓ} : {A : Type ℓ} → List A → List A → List A
or_list [] b = b
or_list (x ∷ xs) b = x ∷ xs

unfoldable pub is_ascii : String → Bool
is_ascii String.[] = true
is_ascii (String.◌∷◌ c s) = leb (code c) 127 && is_ascii s

-- `hmac.compare_digest` on texts: `none` is the TypeError for a text beyond ASCII.
unfoldable pub compare_digest : String → String → Option Bool
unfolding is_ascii
compare_digest a b = if is_ascii a && is_ascii b then some (str_eq a b) else none
