-- ===== src/Server/Front.antt =====
-- server.py: who gets past the front.
use mcp_postgres.Prelude.{◌≡◌, ◌⊎◌, true, false, str_eq, List, ◌∷◌, ◌++◌, is_nil, All}
use mcp_postgres.PyText.{Text, text_eq}
use mcp_postgres.Server.{Config, Scope, lower, starts_with}

-- The last header with the name has a value that decodes to the text.
pub record Bears (decode : Text → Text) (name wanted : Text) (headers : List (Text × Text))
    : Type 0 where
  pub before : List (Text × Text)
  pub key : Text
  pub value : Text
  pub behind : List (Text × Text)
  pub split : headers ≡ before ++ (key, value) ∷ behind
  pub named : lower key ≡ name
  pub last : All (λ h. text_eq (lower h.0) name ≡ false) behind
  pub decoded : decode value ≡ wanted

-- what a header so far, or one of those that follow, gives
abbrev Given : (Text → Text) → Text → Text → List (Text × Text) → Text → Type 0
Given decode name wanted hs found =
    (All (λ h. text_eq (lower h.0) name ≡ false) hs × (decode found ≡ wanted))
    ⊎ Bears decode name wanted hs

-- a request over HTTP on the protected path, where a token is configured
pub record IsGuarded (cfg : Config) (scope : Scope) : Type 0 where
  pub http : str_eq scope.type_name "http" ≡ true
  pub under_path : starts_with scope.path cfg.path ≡ true
  pub has_token : is_nil cfg.token ≡ false
