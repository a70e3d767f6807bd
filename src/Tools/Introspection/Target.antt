-- ===== src/Tools/Introspection/Target.antt =====
-- tools/introspection.py: `get_capabilities` and `use_database`, over the manager of the pools.
use mcp_postgres.Prelude.{ℕ, String}
use mcp_postgres.Effect.{Answer, returned, raised}
use mcp_postgres.Db.{Server}
use mcp_postgres.Capabilities.Report.{CapabilityReport, report}
use mcp_postgres.Environment.{Platform, Process}
use mcp_postgres.Manager.{Target, DatabaseManager, Pools, Running, put, current_target, switch}
use mcp_postgres.Tools.Rows.{Value}

-- The manager, in the process with its caches.
pub record App (W P : Type 0) : Type 0 where
  pub manager : DatabaseManager P
  pub process : Process W

-- The failure of a switch with its cause and the database that is current.
pub data Switching : Type 0 where
  switched : CapabilityReport → Switching
  not_switched : (cause current : String) → Switching

module _ {W P : Type 0} (pools : Pools W P) (server : P → Server W Value) (platform : Platform W)
    (cache_ttl : ℕ) where
  abbrev pub running : App W P → Running W P
  running app = record { manager = app.manager; world = app.process.world }

  abbrev pub after : App W P → Running W P → App W P
  after app r = record { manager = r.manager; process = record app.process { world = r.world } }

  -- The report changes the capability manager of a target, which stands in the table under its
  -- database's name.
  unfoldable pub report_of : Target P → App W P → Answer CapabilityReport × App W P
  unfolding report put
  report_of t app =
      let (r, l) =
        report (pools.host t.db) platform (server t.db) t.dbname
          (record { caps = t.caps; process = app.process }) in
      (
        r,
        record {
          manager = record app.manager {
            targets = put t.dbname (record t { caps = l.caps }) app.manager.targets;
          };
          process = l.process;
        },
      )

  abbrev pub reported :
      App W P → Answer (Target P) × Running W P → Answer CapabilityReport × App W P
  reported app (raised e, r) = (raised e, after app r)
  reported app (returned t, r) = report_of t (after app r)

  unfoldable pub get_capabilities : App W P → Answer CapabilityReport × App W P
  unfolding report_of current_target
  get_capabilities app = reported app (current_target pools cache_ttl (running app))

  abbrev pub now_used : Answer CapabilityReport × App W P → Answer Switching × App W P
  now_used (raised e, app) = (raised e, app)
  now_used (returned x, app) = (returned (switched x), app)

  -- The report stands outside of the `try`: its exception goes through.
  abbrev pub used : App W P → Answer (Target P) × Running W P → Answer Switching × App W P
  used app (raised e, r) = (returned (not_switched e r.manager.current), after app r)
  used app (returned t, r) = now_used (report_of t (after app r))

  unfoldable pub use_database : String → App W P → Answer Switching × App W P
  unfolding report_of switch
  use_database name app = used app (switch pools cache_ttl name (running app))
