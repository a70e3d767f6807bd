-- ===== src/Capabilities.antt =====
-- capabilities.py: the tiers, their probes with a cache, the guard, and the tools on offer.
--
-- The host is a parameter: what a probe of it answers, and how the probe changes it.
mod Probe
pub mod Guard
pub mod Advertised
pub mod Fresh
pub mod Steady
pub mod Enforced
pub mod Report
mod Tests
use mcp_postgres.Prelude.{
  ℕ, ◌+◌, Bool, true, false, not, ◌&&◌, ◌||◌, Option, none, some, String, str_eq, List, [], ◌∷◌,
  ◌++◌, ltb, leb, ◌==◌, if◌then◌else◌,
}
use mcp_postgres.PyText.{Text, lit}
use mcp_postgres.Effect.{Answer, returned, raised}

pub data OsTier : Type 0 where
  os_none os_config : OsTier

pub data DbTier : Type 0 where
  db_readonly db_readwrite db_admin : DbTier

-- the values of the two `IntEnum`s
abbrev pub os_level : OsTier → ℕ
os_level os_none = 0
os_level os_config = 1

abbrev pub db_level : DbTier → ℕ
db_level db_readonly = 0
db_level db_readwrite = 1
db_level db_admin = 2

pub record DbCapabilities : Type 0 where
  pub createdb : Bool
  pub createrole : Bool

abbrev pub no_capabilities : DbCapabilities
no_capabilities = record { createdb = false; createrole = false }

-- `caps.get(c)`
abbrev pub holds : DbCapabilities → String → Bool
holds caps c =
    if str_eq c "createdb"
    then caps.createdb
    else if str_eq c "createrole"
    then caps.createrole
    else false

-- Names in the order of their code points.
unfoldable pub text_leb : Text → Text → Bool
text_leb [] t = true
text_leb (c ∷ s) [] = false
text_leb (c ∷ s) (d ∷ t) = ltb c d || (c == d && text_leb s t)

abbrev pub name_leb : String → String → Bool
name_leb a b = text_leb (lit a) (lit b)

unfoldable pub insert : String → List String → List String
insert x [] = x ∷ []
insert x (y ∷ ys) = let rest = insert x ys in if name_leb x y then x ∷ y ∷ ys else y ∷ rest

unfoldable pub sorted : List String → List String
sorted [] = []
sorted (x ∷ xs) = insert x (sorted xs)

abbrev pub read_tools : List String
read_tools =
    "get_capabilities" ∷ "health_check" ∷ "use_database" ∷ "list_databases" ∷ "list_schemas"
    ∷ "list_tables" ∷ "describe_table" ∷ "list_foreign_keys" ∷ "list_indexes" ∷ "list_views"
    ∷ "list_functions" ∷ "list_enums" ∷ "get_object_definition" ∷ "run_read_query" ∷ "explain_query"
    ∷ "sample_table" ∷ "server_activity" ∷ "list_locks" ∷ "database_stats" ∷ "get_settings" ∷ []

abbrev pub admin_tools : List String
admin_tools = "grant" ∷ "revoke" ∷ "admin_sql" ∷ "cancel_query" ∷ "terminate_backend" ∷ []

abbrev pub file_tools : List String
file_tools =
    "read_postgresql_conf" ∷ "read_pg_hba_conf" ∷ "update_postgresql_setting" ∷ "update_pg_hba_rule"
    ∷ []

abbrev pub when : Bool → List String → List String
when b names = if b then names else []

unfoldable pub enabled_tools_for : OsTier → DbTier → DbCapabilities → List String
enabled_tools_for os_tier db_tier db_caps = sorted (
    read_tools
    ++ (when (leb 1 (db_level db_tier)) ("execute_sql" ∷ "execute_batch" ∷ [])
        ++ (when db_caps.createdb ("create_database" ∷ [])
            ++ (when db_caps.createrole ("create_role" ∷ [])
                ++ (when (leb 2 (db_level db_tier)) admin_tools
                    ++ (when (leb 1 (os_level os_tier)) file_tools
                        ++ when (leb 1 (os_level os_tier) || leb 2 (db_level db_tier))
                            ("reload_postgresql" ∷ [])))))))

-- the row of pg_roles
pub record RoleRow : Type 0 where
  pub role : String
  pub rolsuper : Bool
  pub rolcreatedb : Bool
  pub rolcreaterole : Bool

pub record Attributes : Type 0 where
  pub superuser : Bool
  pub createdb : Bool
  pub createrole : Bool

-- `attributes` is `none` for the empty dictionary.
pub record DbInfo : Type 0 where
  pub tier : DbTier
  pub role : Option String
  pub attributes : Option Attributes
  pub capabilities : DbCapabilities
  pub config_file : Option String
  pub hba_file : Option String
  pub error : Option String

-- The host behind the clock, `PrivClient.check` and the queries of the probe.
pub record Host (W : Type 0) : Type 0 where
  pub monotonic : W → ℕ × W
  pub check : W → Answer Bool × W
  pub role_row : W → Answer (Option RoleRow) × W
  pub can_create : W → Answer Bool × W
  pub current_setting : String → W → Answer (Option String) × W

pub record CapabilityManager : Type 0 where
  pub cache_ttl : ℕ
  pub os_cache : Option (OsTier × ℕ)
  pub db_cache : Option (DbInfo × ℕ)
  pub last_os : Option OsTier
  pub last_db : Option DbTier

-- The manager, and the world that its probes act on.
pub record Session (W : Type 0) : Type 0 where
  pub manager : CapabilityManager
  pub world : W

abbrev pub initial_info : DbInfo
initial_info = record {
  tier = db_readonly;
  role = none;
  attributes = none;
  capabilities = no_capabilities;
  config_file = none;
  hba_file = none;
  error = none;
}

abbrev pub attributes_of : Option RoleRow → Attributes
attributes_of none = record { superuser = false; createdb = false; createrole = false }
attributes_of (some r) = record {
  superuser = r.rolsuper;
  createdb = r.rolcreatedb;
  createrole = r.rolcreaterole;
}

abbrev pub role_of : Option RoleRow → Option String
role_of none = none
role_of (some r) = some r.role

abbrev pub failed : String → DbInfo → DbInfo
failed message info = record info { error = some message }

-- what is known once the row of the role was read
abbrev pub begun : Option RoleRow → DbInfo
begun row = record initial_info { role = role_of row; attributes = some (attributes_of row) }

abbrev pub tier_of : Attributes → Bool → DbTier
tier_of attrs can_write =
    if attrs.superuser then db_admin else if can_write then db_readwrite else db_readonly

abbrev pub graded : Attributes → Bool → DbInfo → DbInfo
graded attrs can_write info = record info {
  tier = tier_of attrs can_write;
  capabilities = record {
    createdb = attrs.superuser || attrs.createdb;
    createrole = attrs.superuser || attrs.createrole;
  };
}

module _ {W : Type 0} (host : Host W) where
  abbrev pub hba_step : DbInfo → Answer (Option String) × W → DbInfo × W
  hba_step info (returned f, w) = (record info { hba_file = f }, w)
  hba_step info (raised e, w) = (failed e info, w)

  abbrev pub config_step : DbInfo → Answer (Option String) × W → DbInfo × W
  config_step info (returned f, w) =
      hba_step (record info { config_file = f }) (host.current_setting "hba_file" w)
  config_step info (raised e, w) = (failed e info, w)

  abbrev pub write_step : Attributes → DbInfo → Answer Bool × W → DbInfo × W
  write_step attrs info (returned can_write, w) =
      config_step (graded attrs can_write info) (host.current_setting "config_file" w)
  write_step attrs info (raised e, w) = (failed e info, w)

  abbrev pub role_step : Answer (Option RoleRow) × W → DbInfo × W
  role_step (returned row, w) = write_step (attributes_of row) (begun row) (host.can_create w)
  role_step (raised e, w) = (failed e initial_info, w)

  unfoldable pub probe_db : W → DbInfo × W
  probe_db w = role_step (host.role_row w)

  -- `PrivClient.check` can raise: the helper that does not answer in time does.
  abbrev pub os_checked : ℕ → Session W → Answer Bool × W → Answer OsTier × Session W
  os_checked now s (raised e, w) = (raised e, record s { world = w })
  os_checked now s (returned ok, w) =
      let tier = if ok then os_config else os_none in
      (
        returned tier,
        record { manager = record s.manager { os_cache = some (tier, now) }; world = w },
      )

  abbrev pub probe_os : ℕ → Session W → Answer OsTier × Session W
  probe_os now s = os_checked now s (host.check s.world)

  abbrev pub os_lookup : Bool → ℕ → Option (OsTier × ℕ) → Session W → Answer OsTier × Session W
  os_lookup force now none s = probe_os now s
  os_lookup force now (some (tier, since)) s =
      if not force && ltb now (since + s.manager.cache_ttl)
      then (returned tier, s)
      else probe_os now s

  unfoldable pub os_tier : Bool → Session W → Answer OsTier × Session W
  os_tier force s =
      let (now, w) = host.monotonic s.world in
      os_lookup force now s.manager.os_cache (record s { world = w })

  abbrev pub refresh_db : ℕ → Session W → DbInfo × Session W
  refresh_db now s =
      let (info, w) = probe_db s.world in
      (info, record { manager = record s.manager { db_cache = some (info, now) }; world = w })

  abbrev pub db_lookup : Bool → ℕ → Option (DbInfo × ℕ) → Session W → DbInfo × Session W
  db_lookup force now none s = refresh_db now s
  db_lookup force now (some (info, since)) s =
      if not force && ltb now (since + s.manager.cache_ttl) then (info, s) else refresh_db now s

  unfoldable pub db_info : Bool → Session W → DbInfo × Session W
  db_info force s =
      let (now, w) = host.monotonic s.world in
      db_lookup force now s.manager.db_cache (record s { world = w })
