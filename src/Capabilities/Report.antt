-- ===== src/Capabilities/Report.antt =====
-- capabilities.py: `report`, the tiers of a database with what the service is bound to.
--
-- The version of the package and the time of the report are left out.
use mcp_postgres.Prelude.{true, Option, String, List}
use mcp_postgres.Db.{Server}
use mcp_postgres.Effect.{Answer, returned, raised}
use mcp_postgres.Capabilities.{
  OsTier, DbTier, DbCapabilities, Attributes, Host, CapabilityManager, Session, os_tier, db_info,
  enabled_tools_for,
}
use mcp_postgres.Environment.{Environment, Process, Platform, probe}
use mcp_postgres.Tools.Rows.{Value}

pub record CapabilityReport : Type 0 where
  pub database : String
  pub os_tier : OsTier
  pub db_tier : DbTier
  pub connected_role : Option String
  pub role_attributes : Option Attributes
  pub db_capabilities : DbCapabilities
  pub config_file : Option String
  pub hba_file : Option String
  pub database_error : Option String
  pub environment : Environment
  pub enabled_tools : List String

-- A capability manager, in the process with its caches.
pub record Live (W : Type 0) : Type 0 where
  pub caps : CapabilityManager
  pub process : Process W

module _ {W : Type 0} (host : Host W) (platform : Platform W) (server : Server W Value) where
  abbrev pub with_os :
      String → Live W → Answer OsTier × Session W → Answer CapabilityReport × Live W
  with_os database l (raised e, s1) =
      (raised e, record { caps = s1.manager; process = record l.process { world = s1.world } })
  with_os database l (returned os_t, s1) =
      let (info, s2) = db_info host true s1 in
      let (env, p) = probe platform server (record l.process { world = s2.world }) in
      (
        returned (record {
          database = database;
          os_tier = os_t;
          db_tier = info.tier;
          connected_role = info.role;
          role_attributes = info.attributes;
          db_capabilities = info.capabilities;
          config_file = info.config_file;
          hba_file = info.hba_file;
          database_error = info.error;
          environment = env;
          enabled_tools = enabled_tools_for os_t info.tier info.capabilities;
        }),
        record { caps = s2.manager; process = p },
      )

  unfoldable pub report : String → Live W → Answer CapabilityReport × Live W
  report database l =
      with_os database l (os_tier host true (record { manager = l.caps; world = l.process.world }))
