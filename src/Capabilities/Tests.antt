-- ===== src/Capabilities/Tests.antt =====
-- Runs of the capability checks, and instances of their theorems, on a host that loses sudo at the
-- tenth tick and makes the role a superuser at the fifth.
use mcp_postgres.Prelude.{arith, ℕ, ◌+◌, ◌≡◌, refl, true, false, none, some, [], ◌∷◌, ltb, leb}
use mcp_postgres.Effect.{Answer, returned, raised}
use mcp_postgres.Capabilities.{
  OsTier, os_none, os_config, DbTier, db_readonly, db_readwrite, db_admin, Host, Session,
  CapabilityManager, os_tier, db_info, probe_db,
}
use mcp_postgres.Capabilities.Guard.{Notice, broken, os_changed, db_changed, guard, detect_changes}
use mcp_postgres.Capabilities.Guard.Justified.{IsJustified, guard-Justified}
use mcp_postgres.Capabilities.Guard.Notices.{Seen, replay, guards, guard_notices}
use mcp_postgres.Capabilities.Advertised.{
  advertised, enabled_tools_for-guards, needs_config, needs_tier,
}
use mcp_postgres.Capabilities.Fresh.{Origin, db_info-Origin}
use mcp_postgres.Prelude.{All, List}
use mcp_postgres.Db.{Server}
use mcp_postgres.Tools.Rows.{Value}
use mcp_postgres.Environment.{Platform, os_error, probe}
use mcp_postgres.Capabilities.Advertised.{listed, handlers}
use mcp_postgres.Capabilities.Report.{CapabilityReport, Live, report}
use mcp_postgres.Capabilities.Guard.Cached.{IsEarly}
use mcp_postgres.Capabilities.Enforced.{passes, report-Enforced}

abbrev host : Host ℕ
host = record {
  monotonic = λ w. (w, w + 1);
  check = λ w. (returned (ltb w 10), w);
  role_row = λ w. (
    returned (
        some
          (record { role = "mcp"; rolsuper = leb 5 w; rolcreatedb = true; rolcreaterole = false })),
    w,
  );
  can_create = λ w. (returned true, w);
  current_setting = λ name w. (raised "closed", w);
}

abbrev started : CapabilityManager
started = record { cache_ttl = 3; os_cache = none; db_cache = none; last_os = none; last_db = none }

abbrev fresh : Session ℕ
fresh = record { manager = started; world = 0 }

abbrev watched : Session ℕ
watched = record {
  manager = record started { last_os = some os_config; last_db = some db_readonly };
  world = 0;
}

-- What the runs below compute with.
evaluate : Unit {0}
unfolding guard detect_changes os_tier db_info probe_db guards
evaluate = tt

-- The role becomes a superuser between two actions, and then sudo is lost.
guards_run :
    (guards host
      (needs_config ∷ needs_config ∷ needs_config ∷ needs_tier db_admin ∷ needs_config ∷ [])
      watched).0
    ≡ returned (
        db_changed db_readonly db_readwrite
        ∷ db_changed db_readwrite db_admin
        ∷ os_changed os_config os_none
        ∷ [])
unfolding evaluate
guards_run = refl

guard-Justified_example :
    let (v, s') = guard host needs_config fresh in IsJustified host needs_config v s'
guard-Justified_example = guard-Justified host needs_config fresh

abbrev notices_in : Answer (List Notice) → List Notice
notices_in (returned ns) = ns
notices_in (raised e) = []

-- A helper that times out takes the action with it.
timeout_run :
    (guard (record host { check = λ w. (raised "timed out", w) }) needs_config fresh).0
    ≡ broken "timed out"
unfolding evaluate
timeout_run = refl

guard_notices_example :
    let (a, s') = guards host (needs_config ∷ needs_config ∷ needs_tier db_admin ∷ []) watched in
    (os' : OsTier) × (db' : DbTier) × Seen os' db' s'.manager
    × (replay (notices_in a) os_config db_readonly ≡ some (os', db'))
unfolding evaluate
guard_notices_example =
    guard_notices host (needs_config ∷ needs_config ∷ needs_tier db_admin ∷ []) os_config
      db_readonly watched
      (guards host (needs_config ∷ needs_config ∷ needs_tier db_admin ∷ []) watched).1
      (db_changed db_readonly db_readwrite ∷ db_changed db_readwrite db_admin ∷ [])
      (record { last_os = refl; last_db = refl }) refl

enabled_tools_for-guards_example :
    advertised os_none db_admin (record { createdb = true; createrole = false }) ≡ true
enabled_tools_for-guards_example =
    enabled_tools_for-guards os_none db_admin (record { createdb = true; createrole = false })

db_info-Origin_example :
    let (info, s') = db_info host true fresh in
    (since : ℕ) × (s'.manager.db_cache ≡ some (info, since))
    × Origin host true 0 since info 1 fresh s'
db_info-Origin_example = db_info-Origin host true fresh

-- A clock that stands at 7, on the same host.
abbrev still : Host ℕ
still = record host { monotonic = λ w. (7, w + 1) }

still-IsEarly : IsEarly still 8 (λ w. Unit {0})
still-IsEarly = record { reads = λ w e. omega arith; keeps = λ w e. tt }

abbrev platform : Platform ℕ
platform = record {
  system = λ w. ("Linux", w);
  release = λ w. ("6.1", w);
  machine = λ w. ("x86_64", w);
  freedesktop_os_release = λ w. (os_error, w);
}

abbrev closed : Server ℕ Value
closed = record {
  checkout = λ w. (raised "closed", w);
  putback = λ broken w. w;
  exec = λ stmt params w. (raised "closed", w);
}

abbrev live : Live ℕ
live = record {
  caps = started;
  process = record { os_cache = none; version_cache = none; world = 0 };
}

abbrev no_report : CapabilityReport
no_report = record {
  database = "";
  os_tier = os_none;
  db_tier = db_readonly;
  connected_role = none;
  role_attributes = none;
  db_capabilities = record { createdb = false; createrole = false };
  config_file = none;
  hba_file = none;
  database_error = none;
  environment = (probe platform closed live.process).0;
  enabled_tools = [];
}

abbrev report_in : Answer CapabilityReport → CapabilityReport
report_in (returned r) = r
report_in (raised e) = no_report

report-Enforced_example :
    let (a, l') = report still platform closed "postgres" live in
    All
      (λ h.
        passes still 8
          (λ w. Unit {0})
          still-IsEarly
          h.1
          (record { manager = l'.caps; world = l'.process.world })
        ≡ listed h.0 (report_in a).enabled_tools)
      handlers
unfolding report evaluate
report-Enforced_example =
    report-Enforced still 8 (λ w. Unit {0}) still-IsEarly platform closed "postgres" live
      (report still platform closed "postgres" live).1
      (report_in (report still platform closed "postgres" live).0) refl (omega arith) (omega arith)
      tt
