-- ===== src/Server/Tests.antt =====
-- server.py: runs and an instance of its theorem, for a configuration whose OAuth is not valid.
use mcp_postgres.Prelude.{◌≡◌, refl, Bool, true, false, some, [], ◌∷◌}
use mcp_postgres.PyText.{Text, lit, text_eq}
use mcp_postgres.Priv.{rstrip_slash}
use mcp_postgres.Server.{
  Config, Scope, starts_with, header, Passage, unauthorized, to_app, bearer, AuthSettings,
  resolve_oauth, front, transport_security,
}

abbrev config : Config
config = record {
  bind = lit "127.0.0.1";
  path = lit "/mcp";
  token = lit "t";
  oauth_enabled = true;
  public_url = lit "http://db/";
}

abbrev call : Text → Scope
call credential = record {
  type_name = "http";
  path = lit "/mcp";
  headers = (lit "Authorization", credential) ∷ [];
}

abbrev never_valid : Text → Text → Bool
never_valid issuer resource = false

abbrev refusing : AuthSettings → Scope → Passage
refusing settings scope = unauthorized

-- What the runs below compute with.
evaluate : Unit {0}
unfolding lit text_eq rstrip_slash starts_with header bearer resolve_oauth front transport_security
evaluate = tt

passed_run : front (λ b. b) never_valid refusing config (call (lit "Bearer t")) ≡ to_app
unfolding evaluate
passed_run = refl

stopped_run : front (λ b. b) never_valid refusing config (call (lit "Bearer u")) ≡ unauthorized
unfolding evaluate
stopped_run = refl

hosts_run :
    (transport_security
      (λ u. some (record { scheme = lit "https"; hostname = lit "db" }))
      config).allowed_hosts
    ≡ lit "127.0.0.1:*" ∷ lit "localhost:*" ∷ lit "[::1]:*" ∷ lit "db" ∷ lit "db:*" ∷ []
unfolding evaluate
hosts_run = refl
