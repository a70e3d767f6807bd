-- ===== src/Tools/ConfigFiles/Reload.antt =====
-- tools/config_files.py: `reload_postgresql`.
use mcp_postgres.Prelude.{Bool, false, Option, none, List, [], ltb, if◌then◌else◌}
use mcp_postgres.Capabilities.{OsTier, Session, db_info, os_tier, db_level, os_level}
use mcp_postgres.Effect.{Answer, returned, raised}
use mcp_postgres.Capabilities.Advertised.{needs_config}
use mcp_postgres.Capabilities.Guard.{Notice, Verdict, allowed, refused, broken, Requirement, guard}
use mcp_postgres.Tools.Base.{Service, Problem, not_allowed, done, Stamped, attach}
use mcp_postgres.Tools.Rows.{Value}
use mcp_postgres.Tools.ConfigFiles.{reload_postgres}

pub record ReloadResult : Type 0 where
  pub ok : Bool
  pub reload_error : Option Problem

-- What `reload_postgresql` returns: a stamped result, or the bare list of notices.
pub data Returned : Type 0 where
  stamped : Stamped ReloadResult → Returned
  bare : List Notice → Returned

module _ {W : Type 0} (service : Service W Value) where
  abbrev no_requirement : Requirement
  no_requirement = record { os_min = none; db_min = none; db_needs = [] }

  abbrev refusal_dict : Verdict × Session W → Answer Returned × Session W
  refusal_dict (refused r notices, s) =
      (returned (stamped (attach service (not_allowed r) notices)), s)
  refusal_dict (allowed notices, s) = (returned (bare notices), s)
  refusal_dict (broken e, s) = (raised e, s)

  abbrev notices_and : Verdict × Session W → Answer (List Notice) × Session W
  notices_and (allowed notices, s) = (returned notices, s)
  notices_and (refused r notices, s) = (returned notices, s)
  notices_and (broken e, s) = (raised e, s)

  abbrev reload_now : Answer (List Notice) × Session W → Answer Returned × Session W
  reload_now (raised e, s) = (raised e, s)
  reload_now (returned notices, s) =
      let ((reloaded, error), s') = reload_postgres service s in
      (
        returned (
            stamped
              (attach service (done (record { ok = reloaded; reload_error = error })) notices)),
        s',
      )

  abbrev reload_by_tiers : Bool → Session W → Answer Returned × Session W
  reload_by_tiers lacking s =
      if lacking
      then refusal_dict (guard service.host needs_config s)
      else reload_now (notices_and (guard service.host no_requirement s))

  -- The DB tier is read only if the OS tier falls short.
  abbrev reload_by_os : Answer OsTier × Session W → Answer Returned × Session W
  reload_by_os (raised e, s1) = (raised e, s1)
  reload_by_os (returned os, s1) =
      let (info, s2) = db_info service.host false s1 in
      if ltb (os_level os) 1
      then reload_by_tiers (ltb (db_level info.tier) 2) s2
      else reload_by_tiers false s1

  unfoldable pub reload_postgresql : Session W → Answer Returned × Session W
  reload_postgresql s = reload_by_os (os_tier service.host false s)
