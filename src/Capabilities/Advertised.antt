-- ===== src/Capabilities/Advertised.antt =====
-- The tools on offer against the guards of the tools: capabilities.py's `enabled_tools_for` and what
-- each handler under tools/ passes to `guard_or_error`.
use mcp_postgres.Prelude.{
  ◌≡◌, refl, Bool, true, false, not, ◌&&◌, ◌||◌, Option, none, some, String, str_eq, List, [], ◌∷◌,
  leb, any_of, all_of,
}
use mcp_postgres.PyText.{lit}
use mcp_postgres.Capabilities.{
  OsTier, os_none, os_config, DbTier, db_readonly, db_readwrite, db_admin, os_level, db_level,
  DbCapabilities, holds, text_leb, insert, sorted, enabled_tools_for,
}
use mcp_postgres.Capabilities.Guard.{Requirement}

-- What a handler asks of the guard. `reload_postgresql` passes if either of two guards would.
pub data Access : Type 0 where
  always : Access
  guarded : Requirement → Access
  either : Requirement → Requirement → Access

abbrev pub needs_tier : DbTier → Requirement
needs_tier t = record { os_min = none; db_min = some t; db_needs = [] }

abbrev pub needs_config : Requirement
needs_config = record { os_min = some os_config; db_min = none; db_needs = [] }

abbrev pub needs_power : String → Requirement
needs_power c = record { os_min = none; db_min = none; db_needs = c ∷ [] }

-- each registered tool with the guard that its handler starts with
abbrev pub handlers : List (String × Access)
handlers =
    ("get_capabilities", always)
    ∷ ("health_check", always)
    ∷ ("use_database", always)
    ∷ ("list_databases", guarded (needs_tier db_readonly))
    ∷ ("list_schemas", guarded (needs_tier db_readonly))
    ∷ ("list_tables", guarded (needs_tier db_readonly))
    ∷ ("describe_table", guarded (needs_tier db_readonly))
    ∷ ("list_foreign_keys", guarded (needs_tier db_readonly))
    ∷ ("list_indexes", guarded (needs_tier db_readonly))
    ∷ ("list_views", guarded (needs_tier db_readonly))
    ∷ ("list_functions", guarded (needs_tier db_readonly))
    ∷ ("list_enums", guarded (needs_tier db_readonly))
    ∷ ("get_object_definition", guarded (needs_tier db_readonly))
    ∷ ("run_read_query", guarded (needs_tier db_readonly))
    ∷ ("explain_query", guarded (needs_tier db_readonly))
    ∷ ("sample_table", guarded (needs_tier db_readonly))
    ∷ ("server_activity", guarded (needs_tier db_readonly))
    ∷ ("list_locks", guarded (needs_tier db_readonly))
    ∷ ("database_stats", guarded (needs_tier db_readonly))
    ∷ ("get_settings", guarded (needs_tier db_readonly))
    ∷ ("execute_sql", guarded (needs_tier db_readwrite))
    ∷ ("execute_batch", guarded (needs_tier db_readwrite))
    ∷ ("create_database", guarded (needs_power "createdb"))
    ∷ ("create_role", guarded (needs_power "createrole"))
    ∷ ("grant", guarded (needs_tier db_admin))
    ∷ ("revoke", guarded (needs_tier db_admin))
    ∷ ("admin_sql", guarded (needs_tier db_admin))
    ∷ ("cancel_query", guarded (needs_tier db_admin))
    ∷ ("terminate_backend", guarded (needs_tier db_admin))
    ∷ ("read_postgresql_conf", guarded needs_config)
    ∷ ("read_pg_hba_conf", guarded needs_config)
    ∷ ("update_postgresql_setting", guarded needs_config)
    ∷ ("update_pg_hba_rule", guarded needs_config)
    ∷ ("reload_postgresql", either needs_config (needs_tier db_admin))
    ∷ []

abbrev pub os_meets : Option OsTier → OsTier → Bool
os_meets none t = true
os_meets (some os_min) t = leb (os_level os_min) (os_level t)

abbrev pub db_meets : Option DbTier → DbTier → Bool
db_meets none t = true
db_meets (some db_min) t = leb (db_level db_min) (db_level t)

-- Whether a guard with steady readings passes.
abbrev pub meets : Requirement → OsTier → DbTier → DbCapabilities → Bool
meets req os db caps =
    os_meets req.os_min os && (db_meets req.db_min db && all_of (holds caps) req.db_needs)

abbrev pub permits : Access → OsTier → DbTier → DbCapabilities → Bool
permits always os db caps = true
permits (guarded req) os db caps = meets req os db caps
permits (either a b) os db caps = meets a os db caps || meets b os db caps

abbrev pub listed : String → List String → Bool
listed name = any_of (λ x. str_eq x name)

abbrev pub agrees : Bool → Bool → Bool
agrees true b = b
agrees false b = not b

abbrev pub is_listed_as : OsTier → DbTier → DbCapabilities → List String → String × Access → Bool
is_listed_as os db caps tools (name, access) =
    agrees (permits access os db caps) (listed name tools)

abbrev pub is_named : String → String × Access → Bool
is_named t (name, access) = str_eq name t

-- Every handler's tool is listed exactly if its guard passes, and nothing else is listed.
abbrev pub advertised : OsTier → DbTier → DbCapabilities → Bool
advertised os db caps =
    let tools = enabled_tools_for os db caps in
    all_of (is_listed_as os db caps tools) handlers
    && all_of (λ t. any_of (is_named t) handlers) tools

evaluate : Unit {0}
unfolding enabled_tools_for sorted insert text_leb lit
evaluate = tt

by_powers :
    (os : OsTier) (db : DbTier) (createdb createrole : Bool)
    → advertised os db (record { createdb = createdb; createrole = createrole }) ≡ true
unfolding evaluate
by_powers os_none db_readonly true true = refl
by_powers os_none db_readonly true false = refl
by_powers os_none db_readonly false true = refl
by_powers os_none db_readonly false false = refl
by_powers os_none db_readwrite true true = refl
by_powers os_none db_readwrite true false = refl
by_powers os_none db_readwrite false true = refl
by_powers os_none db_readwrite false false = refl
by_powers os_none db_admin true true = refl
by_powers os_none db_admin true false = refl
by_powers os_none db_admin false true = refl
by_powers os_none db_admin false false = refl
by_powers os_config db_readonly true true = refl
by_powers os_config db_readonly true false = refl
by_powers os_config db_readonly false true = refl
by_powers os_config db_readonly false false = refl
by_powers os_config db_readwrite true true = refl
by_powers os_config db_readwrite true false = refl
by_powers os_config db_readwrite false true = refl
by_powers os_config db_readwrite false false = refl
by_powers os_config db_admin true true = refl
by_powers os_config db_admin true false = refl
by_powers os_config db_admin false true = refl
by_powers os_config db_admin false false = refl

-- The tools on offer are those that a call would get past the guard of: for each tier and each
-- capability, a handler's tool is listed exactly if its guard passes at those readings, and every
-- listed name is a handler's.
pub enabled_tools_for-guards :
    (os : OsTier) (db : DbTier) (caps : DbCapabilities) → advertised os db caps ≡ true
enabled_tools_for-guards os db caps = by_powers os db caps.createdb caps.createrole
